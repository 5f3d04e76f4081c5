-- ===== src/Pool.antt =====
-- The circular pool of argpool/pool.go, and of the pools for one type each, which repeat its code
-- with another element type: what is put in, and the key by which `storageMap` knows it.
pub mod Valid
pub mod Cycle
use chain_fuzz.Prelude.{
  ℕ, ◌+◌, ◌%◌, ◌≡◌, Bool, true, Option, none, some, List, [], ◌∷◌, ◌++◌, Eq, length, get_elem?,
  ◌>>=◌, nat_beq, if◌then◌else◌,
}
use chain_fuzz.Prelude.Dict.{Dict, insert, contains}

-- `type pool struct`: the index of the next element, the circular list, the set of its keys.
pub record Pool {ℓ κ} (K : Type ℓ) (A : Type κ) : Type (ℓ ⊔ κ) where
  pub idx : ℕ
  pub storage : List A
  pub storage_map : Dict K Bool

-- An empty pool, as `GetPool` makes it.
abbrev pub empty {ℓ κ} : {K : Type ℓ} {A : Type κ} → Pool K A
empty = record { idx = 0; storage = []; storage_map = [] }

abbrev pub size {ℓ κ} : {K : Type ℓ} {A : Type κ} → Pool K A → ℕ
size p = length p.storage

module _ {ℓ κ} {K : Type ℓ} {A : Type κ} where
  -- The zero value where nothing is stored. `none` is the panic of a read out of range.
  unfoldable pub next : A → Pool K A → Option (A × Pool K A)
  next zero_value p = if nat_beq (length p.storage) 0 then some (zero_value, p) else (do
    item ← get_elem? p.storage p.idx
    some (item, record p { idx = (p.idx + 1) % length p.storage }))

module _ {ℓ κ} {K : Type ℓ} {A : Type κ} ⦃e : Eq K⦄ (key : A → K) where
  unfoldable pub add : A → Pool K A → Pool K A
  add item p = record p {
    storage = p.storage ++ item ∷ [];
    storage_map = insert (key item) true p.storage_map;
  }

  unfoldable pub contains_item : A → Pool K A → Bool
  contains_item item p = contains (key item) p.storage_map
