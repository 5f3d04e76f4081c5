-- ===== src/Timestamps/Order.antt =====
-- Sorting timestamps (argpool/timestamppool.go), and strictly ascending order.
use chain_fuzz.Prelude.{
  ℕ, suc, ◌^◌, ◌<◌, ◌≤◌, ◌≡◌, refl, sym, ap, subst, true, false, ◌||◌, List, [], ◌∷◌, ◌++◌, ◌==◌,
  ==_iff, int_eq, elem, no_dup, no_dup-snoc, All, All-append, length, arith, leb, Bool-cases, inl,
  inr,
}
use chain_fuzz.Prelude.Int.{ℤ, pos, negsuc, pos_part, neg_part}
use mathlib.Core.List.{Perm}
use mathlib.Core.List.Perm
use chain_fuzz.Timestamps.{uint64_of, insert_sorted, sorted}

-- A point in time that `int64` and `uint64` read alike.
abbrev pub IsTime : ℤ → Type 0
IsTime t = (pos_part t < 2 ^ 63) × (neg_part t ≡ 0)

-- Strictly ascending.
abbrev pub IsAscending : List ℤ → Type 0
IsAscending [] = Unit
IsAscending (x ∷ xs) = All (λ y. pos_part x < pos_part y) xs × IsAscending xs

pub uint64_of_time : (t : ℤ) → IsTime t → uint64_of t ≡ pos_part t
uint64_of_time (pos n) h = omega arith
uint64_of_time (negsuc n) h = absurd (omega arith)

insert_nil : (x : ℤ) → insert_sorted x [] ≡ x ∷ []
unfolding insert_sorted
insert_nil x = refl

insert_first :
    (x y : ℤ) (ys : List ℤ)
    → leb (uint64_of x) (uint64_of y) ≡ true
    → insert_sorted x (y ∷ ys) ≡ x ∷ y ∷ ys
unfolding insert_sorted
insert_first x y ys h = rw h

insert_later :
    (x y : ℤ) (ys : List ℤ)
    → leb (uint64_of x) (uint64_of y) ≡ false
    → insert_sorted x (y ∷ ys) ≡ y ∷ insert_sorted x ys
unfolding insert_sorted
insert_later x y ys h = rw h

insert_sorted-perm : (x : ℤ) (xs : List ℤ) → Perm (insert_sorted x xs) (x ∷ xs)
insert_sorted-perm x [] = subst (λ l. Perm l (x ∷ [])) (sym (insert_nil x)) (Perm.refl (x ∷ []))
insert_sorted-perm x (y ∷ ys) = elim (Bool-cases (leb (uint64_of x) (uint64_of y))) [
  | inl first ↦
      subst (λ l. Perm l (x ∷ y ∷ ys)) (sym (insert_first x y ys first)) (Perm.refl (x ∷ y ∷ ys))
  | inr later ↦
      subst (λ l. Perm l (x ∷ y ∷ ys)) (sym (insert_later x y ys later))
        (Perm.trans (Perm.cons y (insert_sorted-perm x ys)) (Perm.swap x y ys))
]

-- `Sort` only reorders.
pub sorted-perm : (xs : List ℤ) → Perm (sorted xs) xs
unfolding sorted
sorted-perm [] = Perm.refl []
sorted-perm (x ∷ xs) = Perm.trans (insert_sorted-perm x (sorted xs)) (Perm.cons x (sorted-perm xs))

elem-insert_sorted : (a x : ℤ) (xs : List ℤ) → elem a (insert_sorted x xs) ≡ ((x == a) || elem a xs)
unfolding insert_sorted
elem-insert_sorted a x [] = refl
elem-insert_sorted a x (y ∷ ys) = ground (arith, elem-insert_sorted a x ys)

pub elem-sorted : (a : ℤ) (xs : List ℤ) → elem a (sorted xs) ≡ elem a xs
unfolding sorted
elem-sorted a [] = refl
elem-sorted a (x ∷ xs) = ground (arith, elem-insert_sorted a x (sorted xs), elem-sorted a xs)

length-insert_sorted : (x : ℤ) (xs : List ℤ) → length (insert_sorted x xs) ≡ suc (length xs)
unfolding insert_sorted
length-insert_sorted x [] = refl
length-insert_sorted x (y ∷ ys) = ground (arith, length-insert_sorted x ys)

pub length-sorted : (xs : List ℤ) → length (sorted xs) ≡ length xs
unfolding sorted
length-sorted [] = refl
length-sorted (x ∷ xs) = omega (arith, length-insert_sorted x (sorted xs), length-sorted xs)

All-insert_sorted {κ} :
    (P : ℤ → Type κ) (x : ℤ) (xs : List ℤ) → P x → All P xs → All P (insert_sorted x xs)
unfolding insert_sorted
All-insert_sorted P x [] h k = (h, tt)
All-insert_sorted P x (y ∷ ys) h k = elim (Bool-cases (leb (uint64_of x) (uint64_of y))) [
  | inl first ↦ rw first (h, k)
  | inr later ↦ rw later (k.0, All-insert_sorted P x ys h k.1)
]

pub All-sorted {κ} : (P : ℤ → Type κ) (xs : List ℤ) → All P xs → All P (sorted xs)
unfolding sorted
All-sorted P [] h = tt
All-sorted P (x ∷ xs) h = All-insert_sorted P x (sorted xs) h.0 (All-sorted P xs h.1)

-- What is below the first element of an ascending list is below all.
below_all :
    (n m : ℕ) (xs : List ℤ) → n < m → All (λ y. m < pos_part y) xs → All (λ y. n < pos_part y) xs
below_all n m [] h k = tt
below_all n m (x ∷ xs) h k = (omega arith, below_all n m xs h k.1)

apart :
    (x y : ℤ)
    → IsTime x
    → IsTime y
    → (y == x) ≡ false
    → pos_part x ≤ pos_part y
    → pos_part x < pos_part y
apart (pos a) (pos b) h k ne le = ground arith
apart (negsuc a) y h k ne le = absurd (omega arith)
apart (pos a) (negsuc b) h k ne le = absurd (omega arith)

insert_sorted-IsAscending :
    (x : ℤ) (xs : List ℤ)
    → IsTime x
    → All IsTime xs
    → elem x xs ≡ false
    → IsAscending xs
    → IsAscending (insert_sorted x xs)
unfolding insert_sorted
insert_sorted-IsAscending x [] hx h ne s = (tt, tt)
insert_sorted-IsAscending x (y ∷ ys) hx h ne s =
    elim (Bool-cases (leb (uint64_of x) (uint64_of y))) [
      | inl first ↦ rw first (
          let lt : pos_part x < pos_part y =
            apart x y hx h.0 (ground arith)
              (ground (arith, uint64_of_time x hx, uint64_of_time y h.0)) in
          ((lt, below_all (pos_part x) (pos_part y) ys lt s.0), s))
      | inr later ↦ rw later (
          let lt : pos_part y < pos_part x =
            ground (arith, uint64_of_time x hx, uint64_of_time y h.0) in
          (
            All-insert_sorted (λ u. pos_part y < pos_part u) x ys lt s.0,
            insert_sorted-IsAscending x ys hx h.1 (ground arith) s.1,
          ))
    ]

sorted-IsAscending : (xs : List ℤ) → All IsTime xs → no_dup xs ≡ true → IsAscending (sorted xs)
unfolding sorted
sorted-IsAscending [] h d = tt
sorted-IsAscending (x ∷ xs) h d =
    insert_sorted-IsAscending x (sorted xs) h.0 (All-sorted IsTime xs h.1)
      (ground (arith, elem-sorted x xs)) (sorted-IsAscending xs h.1 (ground arith))

not_below : (x : ℤ) (xs : List ℤ) → All (λ y. pos_part x < pos_part y) xs → elem x xs ≡ false
not_below x [] h = refl
not_below x (y ∷ ys) h = elim (Bool-cases (y == x)) [
  | inl same ↦
      let e : pos_part y ≡ pos_part x = ap pos_part ((==_iff y x).0 same) in absurd (omega arith)
  | inr other ↦ rw other (not_below x ys h.1)
]

IsAscending-no_dup : (xs : List ℤ) → IsAscending xs → no_dup xs ≡ true
IsAscending-no_dup [] s = refl
IsAscending-no_dup (x ∷ xs) s = rw (not_below x xs s.0) (IsAscending-no_dup xs s.1)

-- Adding a new timestamp to ascending ones and sorting leaves them strictly ascending.
pub sorted-snoc-IsAscending :
    (x : ℤ) (xs : List ℤ)
    → IsTime x
    → All IsTime xs
    → elem x xs ≡ false
    → IsAscending xs
    → IsAscending (sorted (xs ++ x ∷ []))
sorted-snoc-IsAscending x xs hx h ne s =
    sorted-IsAscending (xs ++ x ∷ []) (All-append IsTime xs (x ∷ []) h (hx, tt))
      (no_dup-snoc x xs (IsAscending-no_dup xs s) ne)
