-- ===== src/Timestamps/Rounds.antt =====
-- What the timestamp pool promises to the clock of the fuzzer: which timestamps come up, in which
-- order, and when it tells that all have passed.
use chain_fuzz.Prelude.{
  ℕ, zero, suc, nat_eq, int_eq, ◌+◌, ◌%◌, ◌^◌, ◌<◌, ◌≤◌, ◌≡◌, ◌↔◌, refl, sym, ap, ◌∙◌, true, false,
  Option, none, some, List, [], ◌∷◌, ◌++◌, elem, elem-append, All, All-append, All-get_elem?,
  length, length-append, get_elem?, get_elem?_total, get_elem?-elem, arith, Bool-cases, inl, inr,
  ◌⊎◌, nat_beq,
}
use chain_fuzz.Prelude.Int.{ℤ, pos, pos_part, signed}
use chain_fuzz.Prelude.Dict.{contains-insert}
use mathlib.Core.Option.{some-injective}
use native.Mathlib.Nat.{mod_self}
use chain_fuzz.Timestamps.{
  TimestampPool, size, add, next, get_current, all_passed, contains_item, sort,
}
use chain_fuzz.Timestamps.Order.{
  IsTime, IsAscending, elem-sorted, length-sorted, All-sorted, sorted-snoc-IsAscending,
}

-- The pool holds distinct times in ascending order, `storageMap` knows exactly those, and the index
-- addresses one of them unless there is none.
pub record IsValid (p : TimestampPool) : Type 0 where
  pub in_range : (p.idx < size p) ⊎ ((p.idx ≡ 0) × (size p ≡ 0))
  pub times : All IsTime p.storage
  pub ascending : IsAscending p.storage
  pub agrees : (k : ℕ) → k < 2 ^ 63 → contains_item k p ≡ elem (pos k) p.storage

signed_time : (k : ℕ) → k < 2 ^ 63 → signed 64 k ≡ pos k
signed_time k h = ground arith

-- Adding a timestamp below 2^63 that is not there, and sorting, keeps the pool valid.
pub sort-add-IsValid :
    (item : ℕ) {p : TimestampPool}
    → item < 2 ^ 63
    → contains_item item p ≡ false
    → IsValid p
    → IsValid (sort (add item p))
unfolding sort add contains_item
sort-add-IsValid item {p} small new v = rw (signed_time item small) (record {
  in_range = inl (
      ground (
        arith,
        v.in_range,
        length-sorted (p.storage ++ pos item ∷ []),
        length-append p.storage (pos item ∷ []),
      ));
  times =
      All-sorted IsTime (p.storage ++ pos item ∷ [])
        (All-append IsTime p.storage (pos item ∷ []) v.times ((small, refl), tt));
  ascending =
      sorted-snoc-IsAscending (pos item) p.storage (small, refl) v.times
        (sym (v.agrees item small) ∙ new) v.ascending;
  agrees = λ k hk.
      rw
        (
          contains-insert item k true p.storage_map,
          elem-sorted (pos k) (p.storage ++ pos item ∷ []),
          elem-append (pos k) p.storage (pos item ∷ []),
          v.agrees k hk,
        )
        (ground arith);
})

-- On a pool that holds something `Next` moves the index first, round the end, and reads there.
pub next-stored :
    {p : TimestampPool}
    → IsValid p
    → 0 < size p
    → let i = (p.idx + 1) % size p in
      (t : ℤ) × (get_elem? p.storage i ≡ some t) × (next p ≡ some (some t, record p { idx = i }))
unfolding next
next-stored {p} v h =
    let (t, got) = get_elem?_total p.storage ((p.idx + 1) % size p) (omega arith) in
    (t, got, ground arith)

moved_agrees :
    (p : TimestampPool) (i k : ℕ) → contains_item k (record p { idx = i }) ≡ contains_item k p
unfolding contains_item
moved_agrees p i k = refl

-- `Next` never panics on a valid pool and leaves it valid.
pub next-IsValid :
    {p : TimestampPool}
    → IsValid p
    → (r : Option ℤ × TimestampPool) × (next p ≡ some r) × IsValid r.1
unfolding next
next-IsValid {p} v = elim (Bool-cases (nat_beq (size p) 0)) [
  | inl nothing ↦ ((none, p), rw nothing, v)
  | inr stored ↦
      let (t, got, step) = next-stored v (ground arith) in
      (
        (some t, record p { idx = (p.idx + 1) % size p }),
        step,
        record {
          in_range = inl (ground arith);
          times = v.times;
          ascending = v.ascending;
          agrees = λ k hk. moved_agrees p ((p.idx + 1) % size p) k ∙ v.agrees k hk;
        },
      )
]

-- In an ascending list an element is at least all others exactly if it is the last.
last_is_most :
    (xs : List ℤ) (i : ℕ) (t : ℤ)
    → IsAscending xs
    → get_elem? xs i ≡ some t
    → suc i ≡ length xs
    → All (λ u. pos_part u ≤ pos_part t) xs
last_is_most [] i t s got e = tt
last_is_most (x ∷ []) zero t s got e =
    let same : pos_part x ≡ pos_part t = ap pos_part (some-injective x t got) in (omega arith, tt)
last_is_most (x ∷ []) (suc i) t s got e = absurd (omega arith)
last_is_most (x ∷ y ∷ xs) zero t s got e = absurd (omega arith)
last_is_most (x ∷ y ∷ xs) (suc i) t s got e =
    let rest : All (λ u. pos_part u ≤ pos_part t) (y ∷ xs) =
      last_is_most (y ∷ xs) i t s.1 got (omega arith) in
    (omega arith, rest)

most_is_last :
    (xs : List ℤ) (i : ℕ) (t : ℤ)
    → IsAscending xs
    → get_elem? xs i ≡ some t
    → All (λ u. pos_part u ≤ pos_part t) xs
    → suc i ≡ length xs
most_is_last [] i t s got h = cc
most_is_last (x ∷ []) zero t s got h = refl
most_is_last (x ∷ []) (suc i) t s got h = cc
most_is_last (x ∷ y ∷ xs) zero t s got h =
    let same : pos_part x ≡ pos_part t = ap pos_part (some-injective x t got) in
    absurd (omega arith)
most_is_last (x ∷ y ∷ xs) (suc i) t s got h = ap suc (most_is_last (y ∷ xs) i t s.1 got h.1)

-- On a valid pool that holds something `Next` returns a stored time, and `AllPassed` holds right
-- after it exactly if no stored time is later than the one returned.
pub next-all_passed :
    {p : TimestampPool}
    → IsValid p
    → 0 < size p
    → (t : ℤ) × (p' : TimestampPool) × (next p ≡ some (some t, p'))
      × (elem t p.storage ≡ true)
      × ((all_passed p' ≡ true) ↔ All (λ u. pos_part u ≤ pos_part t) p.storage)
unfolding all_passed
next-all_passed {p} v h =
    let i : ℕ = (p.idx + 1) % size p in
    let (t, got, step) = next-stored v h in
    (
      t,
      record p { idx = i },
      step,
      get_elem?-elem t p.storage i got,
      (
        λ passed. last_is_most p.storage i t v.ascending got (ground arith),
        λ most.
            let last : suc i ≡ size p = most_is_last p.storage i t v.ascending got most in
            ground arith,
      ),
    )

-- The first of at least two ascending times is before any other.
first_before :
    (xs : List ℤ) (i : ℕ) (t u : ℤ)
    → IsAscending xs
    → get_elem? xs 0 ≡ some t
    → get_elem? xs i ≡ some u
    → 0 < i
    → pos_part t < pos_part u
first_before [] i t u s got got' h = cc
first_before (x ∷ xs) zero t u s got got' h = absurd (omega arith)
first_before (x ∷ xs) (suc i) t u s got got' h =
    let same : pos_part x ≡ pos_part t = ap pos_part (some-injective x t got) in
    let before : pos_part x < pos_part u =
      All-get_elem? (λ y. pos_part x < pos_part y) xs i u s.0 got' in
    omega arith

-- In a valid pool, once all of at least two times have passed, the next call of `Next` goes back
-- to an earlier time than the current one, and `AllPassed` does not hold after it.
pub next-wraps :
    {p : TimestampPool}
    → IsValid p
    → 1 < size p
    → all_passed p ≡ true
    → (t u : ℤ) × (p' : TimestampPool) × (get_current p ≡ some (some u))
      × (next p ≡ some (some t, p'))
      × (pos_part t < pos_part u)
      × (all_passed p' ≡ false)
unfolding all_passed get_current
next-wraps {p} v h passed =
    let last : p.idx + 1 ≡ size p = ground arith in
    let back : (p.idx + 1) % size p ≡ 0 = ap (λ k. k % size p) last ∙ mod_self (size p) in
    let (t, got, step) = next-stored v (omega arith) in
    let (u, now) = get_elem?_total p.storage p.idx (omega arith) in
    (
      t,
      u,
      record p { idx = (p.idx + 1) % size p },
      ground arith,
      step,
      first_before p.storage p.idx t u v.ascending (rw back at got) now (omega arith),
      ground arith,
    )
