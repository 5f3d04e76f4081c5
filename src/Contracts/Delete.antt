-- ===== src/Contracts/Delete.antt =====
-- Deleting from a slice (utils/contracts.go).
use chain_fuzz.Prelude.{
  nat_eq, string_eq, ◌≡◌, refl, ap, ◌∙◌, true, false, not, ◌&&◌, ◌||◌, ◌==◌, ==_iff, String, List,
  [], ◌∷◌, elem, no_dup, Bool-cases, inl, inr, arith,
}
use chain_fuzz.Contracts.{last_of, all_but_last, fill_gap, delete_from_slice}

elem-last_of :
    (a x : String) (xs : List String)
    → ((last_of x xs == a) || elem a (all_but_last x xs)) ≡ elem a (x ∷ xs)
elem-last_of a x [] = refl
elem-last_of a x (y ∷ ys) = ground (arith, elem-last_of a y ys)

elem-fill_gap : (a : String) (xs : List String) → elem a (fill_gap xs) ≡ elem a xs
elem-fill_gap a [] = refl
elem-fill_gap a (x ∷ xs) = elem-last_of a x xs

distinct-last_of :
    (x : String) (xs : List String)
    → no_dup (x ∷ xs) ≡ true
    → (elem (last_of x xs) (all_but_last x xs) ≡ false) × (no_dup (all_but_last x xs) ≡ true)
distinct-last_of x [] h = (refl, refl)
distinct-last_of x (y ∷ ys) h =
    let (apart, rest) = distinct-last_of y ys (ground arith) in
    ground (arith, elem-last_of x y ys, ==_iff (last_of y ys) x, ==_iff x (last_of y ys))

distinct-fill_gap : (xs : List String) → no_dup xs ≡ true → no_dup (fill_gap xs) ≡ true
distinct-fill_gap [] h = refl
distinct-fill_gap (x ∷ xs) h = let (apart, rest) = distinct-last_of x xs h in ground arith

-- In a list without duplicates the value is deleted, and nothing else.
pub elem-delete_from_slice :
    (val a : String) (xs : List String)
    → no_dup xs ≡ true
    → elem a (delete_from_slice val xs) ≡ (not (val == a) && elem a xs)
unfolding delete_from_slice
elem-delete_from_slice val a [] h = ground arith
elem-delete_from_slice val a (s ∷ rest) h = elim (Bool-cases (s == val)) [
  | inl here ↦ rw here (
      elem-fill_gap a rest
      ∙ ground
          (arith, ==_iff val a, ==_iff s a, ==_iff s val, λ (e : s ≡ a). ap (λ k. elem k rest) e))
  | inr later ↦ rw later (
      ground (
        arith,
        elem-delete_from_slice val a rest (ground arith),
        ==_iff s val,
        ==_iff s a,
        ==_iff val a,
      ))
]

pub no_dup-delete_from_slice :
    (val : String) (xs : List String) → no_dup xs ≡ true → no_dup (delete_from_slice val xs) ≡ true
unfolding delete_from_slice
no_dup-delete_from_slice val [] h = refl
no_dup-delete_from_slice val (s ∷ rest) h = elim (Bool-cases (s == val)) [
  | inl here ↦ rw here (distinct-fill_gap rest (ground arith))
  | inr later ↦ rw later (
      ground (
        arith,
        elem-delete_from_slice val s rest (ground arith),
        no_dup-delete_from_slice val rest (ground arith),
      ))
]
