-- ===== src/Pool/Valid.antt =====
-- The invariant of a pool: the index is in range, and `storageMap` holds the keys of what is stored.
use chain_fuzz.Prelude.{
  ◌+◌, ◌%◌, nat_beq, ◌<◌, ◌≡◌, refl, true, some, List, [], ◌∷◌, map, Eq, elem, elem-append,
  length-append, get_elem?, get_elem?_total, arith, Bool-cases, ◌⊎◌, inl, inr,
}
use mathlib.Core.List.{map-append}
use chain_fuzz.Prelude.Dict.{contains, contains-insert}
use chain_fuzz.Pool.{Pool, empty, size, next, add}

-- The keys of the stored items, in their order.
abbrev pub keys {ℓ κ} : {K : Type ℓ} {A : Type κ} → (A → K) → Pool K A → List K
keys key p = map key p.storage

-- The index addresses an element, or nothing is stored and it is 0.
abbrev pub InRange {ℓ κ} : {K : Type ℓ} {A : Type κ} → Pool K A → Type 0
InRange p = (p.idx < size p) ⊎ ((p.idx ≡ 0) × (size p ≡ 0))

module _ {ℓ κ} {K : Type ℓ} {A : Type κ} ⦃e : Eq K⦄ (key : A → K) where
  pub record IsValid (p : Pool K A) : Type ℓ where
    pub in_range : InRange p
    pub agrees : (k : K) → contains k p.storage_map ≡ elem k (keys key p)

  pub empty-IsValid : IsValid empty
  empty-IsValid = record { in_range = inr (refl, refl); agrees = λ k. refl }

  -- `Add` stores the item and its key, whether or not it was there.
  pub add-IsValid : (item : A) {p : Pool K A} → IsValid p → IsValid (add key item p)
  unfolding add
  add-IsValid item {p} v = record {
    in_range = inl (ground (arith, length-append {κ} p.storage (item ∷ [])));
    agrees = λ k.
        rw (map-append, contains-insert (key item) k true p.storage_map, elem-append, v.agrees k)
          (ground arith);
  }

  -- From a valid pool with something in it `Next` reads the element at the index.
  pub next-stored :
      (z : A) {p : Pool K A}
      → IsValid p
      → 0 < size p
      → (a : A) × (get_elem? p.storage p.idx ≡ some a)
        × (next z p ≡ some (a, record p { idx = (p.idx + 1) % size p }))
  unfolding next
  next-stored z {p} v h =
      let (a, got) = get_elem?_total p.storage p.idx (ground (arith, v.in_range)) in
      (a, got, ground arith)

  -- The step of the index keeps a pool that holds something valid.
  pub step-IsValid :
      {p : Pool K A} → IsValid p → 0 < size p → IsValid (record p { idx = (p.idx + 1) % size p })
  step-IsValid v h = record { in_range = inl (omega arith); agrees = v.agrees }

  -- `Next` does not panic on a valid pool; it leaves a valid pool with the same items, and returns
  -- one of them, or the zero value if there is none.
  pub next_total :
      (z : A) {p : Pool K A}
      → IsValid p
      → (x : A) × (p' : Pool K A) × (next z p ≡ some (x, p'))
        × IsValid p'
        × (p'.storage ≡ p.storage)
        × (((size p ≡ 0) × (x ≡ z)) ⊎ (get_elem? p.storage p.idx ≡ some x))
  unfolding next
  next_total z {p} v = elim (Bool-cases (nat_beq (size p) 0)) [
    | inl none_stored ↦ (z, p, rw none_stored, v, refl, inl (ground arith, refl))
    | inr stored ↦
        let (a, got, eq) = next-stored z v (ground arith) in
        (
          a,
          record p { idx = (p.idx + 1) % size p },
          eq,
          step-IsValid v (ground arith),
          refl,
          inr got,
        )
  ]
