-- ===== src/Values.antt =====
-- The Go types that utils/types.go names, and the values of them that `reflect` hands to the
-- program. A machine integer is its bit pattern; an address is a number of 160 bits.
use chain_fuzz.Prelude.{ℕ, suc, Bool, false, String, List, [], ◌∷◌, nat_beq}
use chain_fuzz.Prelude.Int.{ℤ}

-- `reflect.Type`, as far as the program looks into it. `[32]byte` is `array 32 uint8`, as it is for
-- `reflect`; `common.Address` is a type of its own; `other` is any type of another kind.
pub data GoType : Type 0 where
  int8 uint8 int16 uint16 int32 uint32 int64 uint64 : GoType
  address big_int bool string other : GoType
  array : ℕ → GoType → GoType
  slice : GoType → GoType

-- `T == Bytes32Type`
abbrev pub is_bytes32 : GoType → Bool
is_bytes32 (array n uint8) = nat_beq n 32
is_bytes32 _ = false

-- `reflect.Value`. An array and a slice carry the type of their elements.
mutual
  pub data Value : Type 0 where
    int8_val uint8_val int16_val uint16_val int32_val uint32_val int64_val uint64_val : ℕ → Value
    address_val : ℕ → Value
    big_int_val : ℤ → Value
    bool_val : Bool → Value
    string_val : String → Value
    other_val : Value
    array_val : GoType → Values → Value
    slice_val : GoType → Values → Value

  pub data Values : Type 0 where
    nil : Values
    cons : Value → Values → Values

abbrev pub length_values : Values → ℕ
length_values nil = 0
length_values (cons _ vs) = suc (length_values vs)

-- `val.Type()`
abbrev pub type_of : Value → GoType
type_of (int8_val _) = int8
type_of (uint8_val _) = uint8
type_of (int16_val _) = int16
type_of (uint16_val _) = uint16
type_of (int32_val _) = int32
type_of (uint32_val _) = uint32
type_of (int64_val _) = int64
type_of (uint64_val _) = uint64
type_of (address_val _) = address
type_of (big_int_val _) = big_int
type_of (bool_val _) = bool
type_of (string_val _) = string
type_of other_val = other
type_of (array_val t vs) = array (length_values vs) t
type_of (slice_val t vs) = slice t

-- A `[32]byte` as a value of the array type, and the bytes of an array of `uint8`.
abbrev pub byte_values : List ℕ → Values
byte_values [] = nil
byte_values (b ∷ bs) = cons (uint8_val b) (byte_values bs)

abbrev pub bytes_of : Values → List ℕ
bytes_of (cons (uint8_val b) vs) = b ∷ bytes_of vs
bytes_of _ = []
