-- ===== src/Prelude/Dict.antt =====
-- A Go map as an association list: a missing key reads `none`, an assignment replaces the value in
-- place, `delete` removes the key.
use mathlib.Core.Path.{◌≡◌, refl}
use mathlib.Core.Logic.{◌⊎◌, inl, inr}
use mathlib.Core.Bool.{Bool, true, false}
use mathlib.Core.Option.{Option, none, some}
use mathlib.Core.List.{List, [], ◌∷◌}
use native.Mathlib.Omega.{arith}
use chain_fuzz.Prelude.Tests.{Bool-cases, if◌then◌else◌}
use chain_fuzz.Prelude.Equality.{Eq, ◌==◌, ==_iff}

abbrev pub Dict {ℓ κ} : Type ℓ → Type κ → Type (ℓ ⊔ κ)
Dict K V = List (K × V)

-- The keys, in the order of the list: the order of a `range` over the map.
abbrev pub keys {ℓ κ} : {K : Type ℓ} {V : Type κ} → Dict K V → List K
keys [] = []
keys (entry ∷ rest) = entry.0 ∷ keys rest

module _ {ℓ κ} {K : Type ℓ} {V : Type κ} ⦃e : Eq K⦄ where
  abbrev pub lookup : K → Dict K V → Option V
  lookup k [] = none
  lookup k (entry ∷ others) = if entry.0 == k then some entry.1 else lookup k others

  -- `_, ok := m[k]`
  abbrev pub contains : K → Dict K V → Bool
  contains k m = elim (lookup k m) [ none ↦ false | some _ ↦ true ]

  -- `m[k] = v`
  abbrev pub insert : K → V → Dict K V → Dict K V
  insert k v [] = (k, v) ∷ []
  insert k v (entry ∷ others) =
      let set = insert k v others in if entry.0 == k then (k, v) ∷ others else entry ∷ set

  -- `delete(m, k)`
  abbrev pub delete : K → Dict K V → Dict K V
  delete k [] = []
  delete k (entry ∷ others) =
      let rest = delete k others in if entry.0 == k then rest else entry ∷ rest

  pub lookup-insert :
      (k asked : K) (v : V) (m : Dict K V)
      → lookup asked (insert k v m) ≡ (if k == asked then some v else lookup asked m)
  lookup-insert k asked v [] = refl
  lookup-insert k asked v ((first, w) ∷ others) =
      ground
        (arith, lookup-insert k asked v others, ==_iff first asked, ==_iff first k, ==_iff k asked)

  pub lookup-delete :
      (k j : K) (m : Dict K V) → lookup j (delete k m) ≡ (if k == j then none else lookup j m)
  lookup-delete k j [] = ground arith
  lookup-delete k j ((first, w) ∷ others) =
      ground (arith, lookup-delete k j others, ==_iff first j, ==_iff first k, ==_iff k j)

  pub contains-insert :
      (k j : K) (v : V) (m : Dict K V)
      → contains j (insert k v m) ≡ (if k == j then true else contains j m)
  contains-insert k j v m = ground (arith, lookup-insert k j v m)

  pub lookup-insert_same : (k : K) (v : V) (m : Dict K V) → lookup k (insert k v m) ≡ some v
  lookup-insert_same k v m = ground (arith, lookup-insert k k v m, ==_iff k k)

  pub lookup-insert_other :
      (k j : K) (v : V) (m : Dict K V) → (k == j) ≡ false → lookup j (insert k v m) ≡ lookup j m
  lookup-insert_other k j v m h = ground (arith, lookup-insert k j v m)

  -- What is found after an assignment is what was assigned, or was there before.
  pub insert-cases :
      (k j : K) (v w : V) (m : Dict K V)
      → lookup j (insert k v m) ≡ some w
      → ((k ≡ j) × (w ≡ v)) ⊎ (lookup j m ≡ some w)
  insert-cases k j v w m h = elim (Bool-cases (k == j)) [
    | inl same ↦ inl ((==_iff k j).0 same, ground (arith, lookup-insert k j v m, h, same))
    | inr other ↦ inr (ground (arith, lookup-insert k j v m, h, other))
  ]
