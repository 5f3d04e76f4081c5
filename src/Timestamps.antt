-- ===== src/Timestamps.antt =====
-- The pool of timestamps (argpool/timestamppool.go): it steps before it reads, tells when its last
-- element has been reached, and is sorted by value.
pub mod Order
pub mod Rounds
use chain_fuzz.Prelude.{
  ℕ, nat_eq, ◌+◌, ◌%◌, ◌^◌, Bool, true, false, ◌&&◌, Option, none, some, List, [], ◌∷◌, ◌++◌,
  length, get_elem?, ◌>>=◌, nat_beq, ltb, leb, if◌then◌else◌, suc,
}
use chain_fuzz.Prelude.Int.{ℤ, pos, negsuc, signed}
use chain_fuzz.Prelude.Dict.{Dict, insert, contains}

pub record TimestampPool : Type 0 where
  pub idx : ℕ
  pub storage : List ℤ
  pub storage_map : Dict ℕ Bool

abbrev pub get_timestamp_pool : TimestampPool
get_timestamp_pool = record { idx = 0; storage = []; storage_map = [] }

abbrev pub size : TimestampPool → ℕ
size p = length p.storage

-- `big.NewInt(int64(item))` reads the 64 bits of the item as a signed number.
unfoldable pub add : ℕ → TimestampPool → TimestampPool
add item p = record p {
  storage = p.storage ++ signed 64 item ∷ [];
  storage_map = insert item true p.storage_map;
}

-- The outer `none` is a panic, the inner one is `nil`.
unfoldable pub next : TimestampPool → Option (Option ℤ × TimestampPool)
next p = if nat_beq (length p.storage) 0 then some (none, p) else (do
  let idx' = (p.idx + 1) % length p.storage
  item ← get_elem? p.storage idx'
  some (some item, record p { idx = idx' }))

unfoldable pub get_current : TimestampPool → Option (Option ℤ)
get_current p =
    if nat_beq (length p.storage) 0
    then some none
    else (do item ← get_elem? p.storage p.idx; some (some item))

unfoldable pub all_passed : TimestampPool → Bool
all_passed p = ltb 0 (length p.storage) && nat_beq (p.idx + 1) (length p.storage)

unfoldable pub contains_item : ℕ → TimestampPool → Bool
contains_item val p = contains val p.storage_map

-- `(*big.Int).Uint64`: the low 64 bits of the absolute value.
abbrev pub uint64_of : ℤ → ℕ
uint64_of (pos n) = n % 2 ^ 64
uint64_of (negsuc n) = suc n % 2 ^ 64

-- `sort.Slice` by `Uint64()`. It may order elements of one value in any way; here the order in
-- which they were added is kept.
unfoldable pub insert_sorted : ℤ → List ℤ → List ℤ
insert_sorted x [] = x ∷ []
insert_sorted x (y ∷ ys) =
    if leb (uint64_of x) (uint64_of y) then x ∷ y ∷ ys else y ∷ insert_sorted x ys

unfoldable pub sorted : List ℤ → List ℤ
sorted [] = []
sorted (x ∷ xs) = insert_sorted x (sorted xs)

unfoldable pub sort : TimestampPool → TimestampPool
sort p = record p { storage = sorted p.storage }
