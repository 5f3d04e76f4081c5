-- ===== src/TypedPools/Unique.antt =====
-- The guarded `Add` of argpool/argpool.go, and the keys of a pool.
use chain_fuzz.Prelude.{
  ◌≡◌, refl, sym, ap, ◌∙◌, true, ◌||◌, [], ◌∷◌, ◌++◌, map, Eq, ◌==◌, ==_iff, no_dup, no_dup-snoc,
  arith, Bool-cases, inl, inr, ◌⊎◌, subst, some, get_elem?,
}
use mathlib.Core.List.{map-append}
use chain_fuzz.Prelude.Dict.{contains, contains-insert}
use chain_fuzz.Pool.{Pool, empty, size, add, contains_item, next}
use chain_fuzz.Pool.Valid.{IsValid, keys, add-IsValid, empty-IsValid, next_total}
use chain_fuzz.TypedPools.{pool_of, add_new}

module _ {K A : Type 0} ⦃e : Eq K⦄ (key : A → K) where
  -- A valid pool in which no key is stored twice.
  pub record IsDistinct (p : Pool K A) : Type 0 where
    pub valid : IsValid key p
    pub unique : no_dup (keys key p) ≡ true

  same_key :
      (p : Pool K A) (k j : K)
      → contains k p.storage_map ≡ true
      → k ≡ j
      → contains j p.storage_map ≡ true
  same_key p k j h e = subst (λ t. contains t p.storage_map ≡ true) e h

  pub empty-IsDistinct : IsDistinct empty
  empty-IsDistinct = record { valid = empty-IsValid key; unique = refl }

  keys-add : (item : A) (p : Pool K A) → keys key (add key item p) ≡ keys key p ++ key item ∷ []
  unfolding add
  keys-add item p = map-append key p.storage (item ∷ [])

  -- The guarded `Add` keeps the keys distinct.
  pub add_new-IsDistinct :
      (z item : A) {p : Pool K A} → IsDistinct p → IsDistinct (add_new (pool_of key z) item p)
  unfolding contains_item
  add_new-IsDistinct z item {p} s = elim (Bool-cases (contains_item key item p)) [
    | inl there ↦ rw there s
    | inr new ↦ rw new (record {
      valid = add-IsValid key item s.valid;
      unique =
          rw keys-add
            (no_dup-snoc (key item) (keys key p) s.unique (sym (s.valid.agrees (key item)) ∙ new));
    })
  ]

  -- After the guarded `Add` the pool contains exactly what it did, and the key of the item.
  pub contains-add_new :
      (z item j : A) (p : Pool K A)
      → contains_item key j (add_new (pool_of key z) item p)
        ≡ ((key item == key j) || contains_item key j p)
  unfolding contains_item add
  contains-add_new z item j p = elim (Bool-cases (contains_item key item p)) [
    | inl there ↦
        rw there (ground (arith, ==_iff (key item) (key j), same_key p (key item) (key j) there))
    | inr new ↦ rw (new, contains-insert (key item) (key j) true p.storage_map) (ground arith)
  ]

  -- `Next` leaves a pool without duplicates one, with the same items, and returns one of them, or the
  -- zero value if there is none.
  pub next_set :
      (z : A) {p : Pool K A}
      → IsDistinct p
      → (x : A) × (p' : Pool K A) × (next z p ≡ some (x, p'))
        × IsDistinct p'
        × (p'.storage ≡ p.storage)
        × (((size p ≡ 0) × (x ≡ z)) ⊎ (get_elem? p.storage p.idx ≡ some x))
  next_set z {p} s =
      let (x, p', step, valid, same, from) = next_total key z s.valid in
      (
        x,
        p',
        step,
        record { valid = valid; unique = ap (λ l. no_dup (map key l)) same ∙ s.unique },
        same,
        from,
      )
