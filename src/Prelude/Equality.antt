-- ===== src/Prelude/Equality.antt =====
-- Go's `==` on the types that the program compares: an instance for each.
use Prim.Native.Nat.{ℕ, zero, suc}
use Prim.Native.String.{String}
use mathlib.Core.Path.{◌≡◌, refl, ap}
use mathlib.Core.Logic.{◌↔◌, inl, inr}
use mathlib.Core.Option.{some}
use mathlib.Core.Bool.{Bool, true, false, not, ◌&&◌, ◌||◌}
use mathlib.Core.List.{List, [], ◌∷◌, ◌++◌}
use native.Mathlib.Omega.{arith}
use text.Mathlib.Text.{◌==◌ as str_beq}
use text.Mathlib.TextEquality.{eq_iff}
use chain_fuzz.Prelude.Tests.{nat_beq, nat_beq_iff, Bool-cases}
use chain_fuzz.Prelude.Lists.{get_elem?}
use chain_fuzz.Prelude.Int.{ℤ, pos, negsuc}

-- A test of equality for a type, with the proof that it decides equality.
pub record Eq {ℓ} (A : Type ℓ) : Type ℓ where
  pub is_same : (x y : A) → Bool
  pub decides : {x y : A} → (is_same x y ≡ true) ↔ (x ≡ y)

infix 50 ◌==◌
module _ {ℓ} {A : Type ℓ} ⦃e : Eq A⦄ where
  abbrev pub ◌==◌ : (x y : A) → Bool
  ◌==◌ x y = e.is_same x y

pub ==_iff {ℓ} : {A : Type ℓ} ⦃e : Eq A⦄ (a b : A) → ((a == b) ≡ true) ↔ (a ≡ b)
==_iff ⦃e⦄ a b = e.decides

instance abbrev pub nat_eq : Eq ℕ
nat_eq = record { is_same = nat_beq; decides = λ {x} {y}. nat_beq_iff x y }

instance abbrev pub string_eq : Eq String
string_eq = record { is_same = str_beq; decides = λ {x} {y}. eq_iff x y }

abbrev pub int_beq : ℤ → ℤ → Bool
int_beq (pos a) (pos b) = nat_beq a b
int_beq (negsuc a) (negsuc b) = nat_beq a b
int_beq _ _ = false

pub int_beq_iff : (a b : ℤ) → (int_beq a b ≡ true) ↔ (a ≡ b)
int_beq_iff (pos a) (pos b) = ground arith
int_beq_iff (pos a) (negsuc b) = ground arith
int_beq_iff (negsuc a) (pos b) = ground arith
int_beq_iff (negsuc a) (negsuc b) = ground arith

instance abbrev pub int_eq : Eq ℤ
int_eq = record { is_same = int_beq; decides = λ {x} {y}. int_beq_iff x y }

abbrev pub list_beq {ℓ} : {A : Type ℓ} ⦃e : Eq A⦄ → List A → List A → Bool
list_beq [] [] = true
list_beq (x ∷ xs) (y ∷ ys) = (x == y) && list_beq xs ys
list_beq _ _ = false

pub list_beq_iff {ℓ} : {A : Type ℓ} ⦃e : Eq A⦄ (a b : List A) → (list_beq a b ≡ true) ↔ (a ≡ b)
list_beq_iff [] [] = ground arith
list_beq_iff [] (y ∷ ys) = ground arith
list_beq_iff (x ∷ xs) [] = ground arith
list_beq_iff ⦃e⦄ (x ∷ xs) (y ∷ ys) = ground (arith, e.decides {x = x} {y = y}, list_beq_iff xs ys)

instance abbrev pub list_eq {ℓ} : {A : Type ℓ} ⦃e : Eq A⦄ → Eq (List A)
list_eq = record { is_same = list_beq; decides = λ {x} {y}. list_beq_iff x y }

-- Membership by `==`.
module _ {ℓ} {A : Type ℓ} ⦃e : Eq A⦄ where
  abbrev pub elem : A → List A → Bool
  elem a [] = false
  elem a (x ∷ xs) = (x == a) || elem a xs

  -- No element stands twice.
  abbrev pub no_dup : List A → Bool
  no_dup [] = true
  no_dup (x ∷ xs) = not (elem x xs) && no_dup xs

  pub elem-append : (a : A) (xs ys : List A) → elem a (xs ++ ys) ≡ (elem a xs || elem a ys)
  elem-append a [] ys = refl
  elem-append a (x ∷ xs) ys = ground (arith, elem-append a xs ys)

  -- What is in a list stands at some index, and what stands at an index is in the list.
  pub elem-get_elem? :
      (a : A) (xs : List A) → elem a xs ≡ true → (i : ℕ) × (get_elem? xs i ≡ some a)
  elem-get_elem? a [] h = cc
  elem-get_elem? a (x ∷ xs) h = elim (Bool-cases (x == a)) [
    | inl same ↦ (0, ap some ((==_iff x a).0 same))
    | inr other ↦
        let p : (i : ℕ) × (get_elem? xs i ≡ some a) = elem-get_elem? a xs (ground arith) in
        (suc p.0, p.1)
  ]

  pub get_elem?-elem : (a : A) (xs : List A) (i : ℕ) → get_elem? xs i ≡ some a → elem a xs ≡ true
  get_elem?-elem a [] i h = cc
  get_elem?-elem a (x ∷ xs) zero h = ground (arith, ==_iff x a)
  get_elem?-elem a (x ∷ xs) (suc i) h = ground (arith, get_elem?-elem a xs i h)

  pub no_dup-snoc :
      (a : A) (xs : List A) → no_dup xs ≡ true → elem a xs ≡ false → no_dup (xs ++ a ∷ []) ≡ true
  no_dup-snoc a [] h k = refl
  no_dup-snoc a (x ∷ xs) h k =
      ground (arith, no_dup-snoc a xs, elem-append x xs (a ∷ []), ==_iff x a, ==_iff a x)
