-- ===== src/ArgPool.antt =====
-- The argument pool (argpool/argpool.go): one pool for each type of argument, and what the fuzzer
-- asks of them. An operation returns the pool that it leaves; `none` is a panic.
pub mod Valid
pub mod Sessions
pub mod Globals
use chain_fuzz.Prelude.{
  ℕ, ◌+◌, Bool, true, false, Option, none, some, String, List, [], ◌∷◌, ◌>>=◌, nat_beq,
  if◌then◌else◌,
}
use chain_fuzz.Prelude.Int.{ℤ, pos}
use chain_fuzz.Prelude.Dict.{Dict}
use chain_fuzz.Pool
use chain_fuzz.Pool.{Pool}
use chain_fuzz.TypedPools.{
  Iface, add_new, int8_pool, int16_pool, int32_pool, int64_pool, bytes32_pool, string_pool,
  iface_pool,
}
use chain_fuzz.Timestamps
use chain_fuzz.Timestamps.{TimestampPool}

pub record ArgPool : Type 0 where
  pub int8s : Pool ℕ ℕ
  pub int16s : Pool ℕ ℕ
  pub int32s : Pool ℕ ℕ
  pub int64s : Pool ℕ ℕ
  pub bytes32s : Pool (List ℕ) (List ℕ)
  pub addresses : Pool String Iface
  pub big_ints : Pool String Iface
  pub strings : Pool String String
  pub timestamps : TimestampPool

unfoldable pub add_int64 : ℕ → ArgPool → ArgPool
add_int64 item a = record a { int64s = add_new int64_pool item a.int64s }

unfoldable pub add_int32 : ℕ → ArgPool → ArgPool
add_int32 item a = record a { int32s = add_new int32_pool item a.int32s }

unfoldable pub add_int16 : ℕ → ArgPool → ArgPool
add_int16 item a = record a { int16s = add_new int16_pool item a.int16s }

unfoldable pub add_int8 : ℕ → ArgPool → ArgPool
add_int8 item a = record a { int8s = add_new int8_pool item a.int8s }

unfoldable pub add_bytes32 : List ℕ → ArgPool → ArgPool
add_bytes32 item a = record a { bytes32s = add_new bytes32_pool item a.bytes32s }

unfoldable pub add_string : String → ArgPool → ArgPool
add_string item a = record a { strings = add_new string_pool item a.strings }

module _ (sprint : Iface → String) where
  unfoldable pub add_address : ℕ → ArgPool → ArgPool
  add_address item a = record a {
    addresses = add_new (iface_pool sprint) (Iface.address item) a.addresses;
  }

  unfoldable pub add_big_int : ℤ → ArgPool → ArgPool
  add_big_int item a = record a {
    big_ints = add_new (iface_pool sprint) (Iface.big_int item) a.big_ints;
  }

unfoldable pub add_timestamp : ℕ → ArgPool → ArgPool
add_timestamp item a =
    if Timestamps.contains_item item a.timestamps
    then a
    else record a { timestamps = Timestamps.sort (Timestamps.add item a.timestamps) }

-- `pool.Next` with the pool put back.
unfoldable pub next_int64 : ArgPool → Option (ℕ × ArgPool)
next_int64 a = do (x, p) ← int64_pool.next a.int64s; some (x, record a { int64s = p })

unfoldable pub next_int32 : ArgPool → Option (ℕ × ArgPool)
next_int32 a = do (x, p) ← int32_pool.next a.int32s; some (x, record a { int32s = p })

unfoldable pub next_int16 : ArgPool → Option (ℕ × ArgPool)
next_int16 a = do (x, p) ← int16_pool.next a.int16s; some (x, record a { int16s = p })

unfoldable pub next_int8 : ArgPool → Option (ℕ × ArgPool)
next_int8 a = do (x, p) ← int8_pool.next a.int8s; some (x, record a { int8s = p })

unfoldable pub next_bytes32 : ArgPool → Option (List ℕ × ArgPool)
next_bytes32 a = do (x, p) ← bytes32_pool.next a.bytes32s; some (x, record a { bytes32s = p })

unfoldable pub next_string : ArgPool → Option (String × ArgPool)
next_string a = do (x, p) ← string_pool.next a.strings; some (x, record a { strings = p })

-- The type assertions `.(common.Address)` and `.(*big.Int)`: a panic on any other value, `nil` too.
abbrev pub as_address : Iface → Option ℕ
as_address (Iface.address x) = some x
as_address _ = none

abbrev pub as_big_int : Iface → Option ℤ
as_big_int (Iface.big_int x) = some x
as_big_int _ = none

unfoldable pub next_address : ArgPool → Option (ℕ × ArgPool)
next_address a = do
  (item, p) ← Pool.next Iface.nil a.addresses
  x ← as_address item
  some (x, record a { addresses = p })

unfoldable pub next_big_int : ArgPool → Option (ℤ × ArgPool)
next_big_int a = do
  (item, p) ← Pool.next Iface.nil a.big_ints
  x ← as_big_int item
  some (x, record a { big_ints = p })

-- With no timestamp stored it is the time of the clock, `time.Now().Unix()`, and nothing to revert.
unfoldable pub next_timestamp : ℕ → ArgPool → Option (Option ℤ × Bool × ArgPool)
next_timestamp now a =
    if nat_beq (Timestamps.size a.timestamps) 0 then some (some (pos now), false, a) else (do
      (t, p) ← Timestamps.next a.timestamps
      some (t, Timestamps.all_passed p, record a { timestamps = p }))

unfoldable pub current_timestamp : ℕ → ArgPool → Option (Option ℤ)
current_timestamp now a =
    if nat_beq (Timestamps.size a.timestamps) 0
    then some (some (pos now))
    else Timestamps.get_current a.timestamps

-- The sizes that are logged: the pool of `bytes32` is not among them.
unfoldable pub get_sizes : ArgPool → Dict String ℕ
get_sizes a =
    ("int8", int8_pool.size a.int8s)
    ∷ ("int16", int16_pool.size a.int16s)
    ∷ ("int32", int32_pool.size a.int32s)
    ∷ ("int64", int64_pool.size a.int64s)
    ∷ ("string", string_pool.size a.strings)
    ∷ ("address", Pool.size a.addresses)
    ∷ ("bigInt", Pool.size a.big_ints)
    ∷ ("timestamp", Timestamps.size a.timestamps)
    ∷ []
