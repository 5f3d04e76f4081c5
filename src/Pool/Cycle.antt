-- ===== src/Pool/Cycle.antt =====
-- Many calls of `Next` on a circular pool (argpool/pool.go), against a queue.
use chain_fuzz.Prelude.{
  ℕ, zero, suc, ◌+◌, ◌%◌, ◌<◌, ◌≡◌, refl, sym, ap, subst, ap₂, take-append-drop, length-take-drop,
  length-take, ◌∙◌, Option, some, List, [], ◌∷◌, ◌++◌, append-nil, append_assoc, Eq, length,
  get_elem?, get_elem?-lt, take, drop, drop-get_elem?, take-get_elem?, drop-length, take-length,
  take-append, drop-append, arith, ◌>>=◌, inl, inr,
}
use native.Mathlib.Nat.{mod-add-mod, mod-eq_of_lt, mod_self}
use native.Mathlib.Decide.{dec_lt}
use chain_fuzz.Pool.{Pool, size, next, add}
use chain_fuzz.Pool.Valid.{IsValid, InRange, next-stored, step-IsValid}

-- The abstract view: the items in the order in which `Next` will return them.
abbrev pub contents {ℓ κ} : {K : Type ℓ} {A : Type κ} → Pool K A → List A
contents p = drop p.idx p.storage ++ take p.idx p.storage

-- `n` calls of `Next` in a row: what they return, and the pool that they leave.
pub draws {ℓ κ} : {K : Type ℓ} {A : Type κ} → A → ℕ → Pool K A → Option (List A × Pool K A)
draws z zero p = some ([], p)
draws z (suc n) p = do (item, p') ← next z p; (items, p'') ← draws z n p'; some (item ∷ items, p'')

-- Past the element at `i` the list is turned by one more place, also at its end.
turn {ℓ} :
    {A : Type ℓ} (xs : List A) (i j : ℕ) (x : A)
    → get_elem? xs i ≡ some x
    → j ≡ (i + 1) % length xs
    → drop j xs ++ take j xs ≡ drop (suc i) xs ++ (take i xs ++ x ∷ [])
turn xs i j x got e = elim (dec_lt (suc i) (length xs)) [
  | yes inside ↦
      let same : j ≡ suc i =
        e ∙ mod-eq_of_lt {n = i + 1} {m = length xs} (omega arith) ∙ omega arith in
      rw (same, take-get_elem? xs i x got)
  | no end ↦
      let last : suc i ≡ length xs = omega (arith, get_elem?-lt xs i got) in
      let back : j ≡ 0 = e ∙ ap (λ k. k % length xs) (omega arith ∙ last) ∙ mod_self (length xs) in
      rw (back, append-nil, ← take-get_elem? xs i x got, last, drop-length, take-length)
]

-- A view with a head comes from a pool that holds something.
size_pos {ℓ κ} :
    {K : Type ℓ} {A : Type κ} (p : Pool K A) (x : A) (q : List A) → contents p ≡ x ∷ q → 0 < size p
size_pos {A} p x q h = go p.storage p.idx h
  where
    go : (xs : List A) (i : ℕ) → drop i xs ++ take i xs ≡ x ∷ q → 0 < length xs
    go [] zero h = cc
    go [] (suc i) h = cc
    go (y ∷ xs) i h = omega arith

idx_same {ℓ κ} : {K : Type ℓ} {A : Type κ} (p : Pool K A) → InRange p → p.idx ≡ (p.idx + 0) % size p
idx_same p (inl h) = sym (ap (λ k. k % size p) (omega arith) ∙ mod-eq_of_lt h)
idx_same p (inr (h, k)) = rw (h, k)

heads {ℓ} : {A : Type ℓ} {x y : A} {xs ys : List A} → x ∷ xs ≡ y ∷ ys → x ≡ y
heads h = cc

Pool-ext {ℓ κ} :
    {K : Type ℓ} {A : Type κ} {p q : Pool K A}
    → p.idx ≡ q.idx
    → p.storage ≡ q.storage
    → p.storage_map ≡ q.storage_map
    → p ≡ q
Pool-ext h s m = λ i. record { idx = h i; storage = s i; storage_map = m i }

module _ {ℓ κ} {K : Type ℓ} {A : Type κ} ⦃e : Eq K⦄ (key : A → K) (z : A) where
  -- `Next` on a valid pool that holds something returns the head of the view, and only moves the
  -- index: the head goes to the back of the view.
  pub next_refines :
      {p : Pool K A}
      → IsValid key p
      → 0 < size p
      → let p' = record p { idx = (p.idx + 1) % size p } in
        (x : A) × (q : List A) × (next z p ≡ some (x, p'))
        × (contents p ≡ x ∷ q)
        × (contents p' ≡ q ++ x ∷ [])
  next_refines {p} v h =
      let (x, got, step) = next-stored key z v h in
      (
        x,
        drop (suc p.idx) p.storage ++ take p.idx p.storage,
        step,
        ap (λ l. l ++ take p.idx p.storage) (drop-get_elem? p.storage p.idx x got),
        turn p.storage p.idx ((p.idx + 1) % size p) x got refl
            ∙ sym (append_assoc (drop (suc p.idx) p.storage) (take p.idx p.storage) (x ∷ [])),
      )

  draws_cons :
      (n : ℕ) (p p₁ p' : Pool K A) (x y : A) (items : List A)
      → next z p ≡ some (y, p₁)
      → draws z n p₁ ≡ some (items, p')
      → y ≡ x
      → draws z (suc n) p ≡ some (x ∷ items, p')
  unfolding draws
  draws_cons n p p₁ p' x y items step rest same = rw (step, rest, same)

  -- What `front` calls leave of a pool `p` whose view is `front ++ back`.
  record Turned (front back : List A) (p p' : Pool K A) : Type (ℓ ⊔ κ) where
    drawn : draws z (length front) p ≡ some (front, p')
    view : contents p' ≡ back ++ front
    valid : IsValid key p'
    at : p'.idx ≡ (p.idx + length front) % size p
    stored : p'.storage ≡ p.storage
    known : p'.storage_map ≡ p.storage_map

  Turned-cons :
      (x y : A) (front back q : List A) (p p₁ p' : Pool K A)
      → y ∷ q ≡ x ∷ (front ++ back)
      → next z p ≡ some (y, p₁)
      → p₁ ≡ record p { idx = (p.idx + 1) % size p }
      → Turned front (back ++ x ∷ []) p₁ p'
      → Turned (x ∷ front) back p p'
  Turned-cons x y front back q p p₁ p' split step moved t = record {
    drawn = draws_cons (length front) p p₁ p' x y front step t.drawn (cc);
    view = t.view ∙ append_assoc back (x ∷ []) front;
    valid = t.valid;
    at =
        t.at
        ∙ ap (λ (r : Pool K A). (r.idx + length front) % size r) moved
        ∙ mod-add-mod (p.idx + 1) (size p) (length front)
        ∙ ap (λ k. k % size p) (omega arith);
    stored = t.stored ∙ ap (λ (r : Pool K A). r.storage) moved;
    known = t.known ∙ ap (λ (r : Pool K A). r.storage_map) moved;
  }

  stepped_view :
      (x y : A) (front back q : List A) (p : Pool K A)
      → y ∷ q ≡ x ∷ (front ++ back)
      → contents p ≡ q ++ y ∷ []
      → contents p ≡ front ++ (back ++ x ∷ [])
  stepped_view x y front back q p split h =
      h ∙ ap₂ (λ (l : List A) t. l ++ t ∷ []) (cc) (cc) ∙ append_assoc front back (x ∷ [])

  draws_front :
      (front back : List A) {p : Pool K A}
      → IsValid key p
      → contents p ≡ front ++ back
      → (p' : Pool K A) × Turned front back p p'
  unfolding draws
  draws_front [] back {p} v h = (
    p,
    record {
      drawn = refl;
      view = h ∙ sym (append-nil back);
      valid = v;
      at = idx_same p v.in_range;
      stored = refl;
      known = refl;
    },
  )
  draws_front (x ∷ front) back {p} v h =
      let stored : 0 < size p = size_pos p x (front ++ back) h in
      let (y, q, step, was, is) = next_refines v stored in
      let p₁ : Pool K A = record p { idx = (p.idx + 1) % size p } in
      let split : y ∷ q ≡ x ∷ (front ++ back) = sym was ∙ h in
      let (p', t) =
        draws_front front (back ++ x ∷ []) {p = p₁} (step-IsValid key v stored)
          (stepped_view x y front back q p₁ split is) in
      (p', Turned-cons x y front back q p p₁ p' split step refl t)

  whole_turn : (p : Pool K A) → InRange p → (p.idx + length (contents p)) % size p ≡ p.idx
  whole_turn p (inl h) = rw (length-take-drop p.idx p.storage) (grind arith)
  whole_turn p (inr (h, k)) = rw (length-take-drop p.idx p.storage, h, k)

  -- From a valid pool `size` calls of `Next` do not panic, return the items of the view in
  -- their order, and leave the pool as it was.
  pub draws_round : {p : Pool K A} → IsValid key p → draws z (size p) p ≡ some (contents p, p)
  draws_round {p} v =
      let (p', t) = draws_front (contents p) [] v (sym (append-nil (contents p))) in
      rw (← length-take-drop p.idx p.storage) (
        t.drawn
        ∙ ap (λ r. some (contents p, r))
            (Pool-ext (t.at ∙ whole_turn p v.in_range) t.stored t.known))

  reached :
      (i : ℕ) (p p' : Pool K A) (x : A)
      → get_elem? (contents p) i ≡ some x
      → Turned (take i (contents p)) (drop i (contents p)) p p'
      → (p'' : Pool K A) × (draws z i p ≡ some (take i (contents p), p'))
        × (next z p' ≡ some (x, p''))
  reached i p p' x h t =
      let short : length (take i (contents p)) ≡ i =
        length-take i (contents p) (omega (arith, get_elem?-lt (contents p) i h)) in
      let head : contents p' ≡ x ∷ (drop (suc i) (contents p) ++ take i (contents p)) =
        t.view ∙ ap (λ l. l ++ take i (contents p)) (drop-get_elem? (contents p) i x h) in
      let (y, q, step, was, is) =
        next_refines {p = p'} t.valid
          (size_pos p' x (drop (suc i) (contents p) ++ take i (contents p)) head) in
      let same : y ≡ x = heads (sym was ∙ head) in
      (
        record p' { idx = (p'.idx + 1) % size p' },
        subst (λ n. draws z n p ≡ some (take i (contents p), p')) short t.drawn,
        step ∙ ap (λ w. some (w, record p' { idx = (p'.idx + 1) % size p' })) same,
      )

  -- In a valid pool the item at place `i` of the view is what `Next` returns after `i` calls,
  -- none of which panics: every item comes up.
  pub draws_reaches :
      {p : Pool K A} (i : ℕ) {x : A}
      → IsValid key p
      → get_elem? (contents p) i ≡ some x
      → (p' p'' : Pool K A) × (draws z i p ≡ some (take i (contents p), p'))
        × (next z p' ≡ some (x, p''))
  draws_reaches {p} i {x} v h =
      let (p', t) =
        draws_front (take i (contents p)) (drop i (contents p)) v
          (sym (take-append-drop i (contents p))) in
      let (p'', drawn, step) = reached i p p' x h t in (p', p'', drawn, step)

  -- An item that is added to a valid pool comes after all the items that `Next` returns before
  -- it wraps round, and before those that it has returned since it last did.
  pub contents-add :
      (item : A) {p : Pool K A}
      → IsValid key p
      → contents (add key item p) ≡ drop p.idx p.storage ++ item ∷ take p.idx p.storage
  unfolding add
  contents-add item {p} v =
      rw
        (
          drop-append p.idx p.storage (item ∷ []) (ground (arith, v.in_range)),
          take-append p.idx p.storage (item ∷ []) (ground (arith, v.in_range)),
        )
        (append_assoc (drop p.idx p.storage) (item ∷ []) (take p.idx p.storage))
