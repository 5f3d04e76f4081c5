-- ===== src/Generator/Endless.antt =====
-- When the loop of `getRandomAmountFromAddress` (utils/generator.go) ends, and when it does not.
use chain_fuzz.Prelude.{
  ℕ, zero, suc, ◌+◌, string_eq, ◌<◌, ◌≡◌, refl, sym, ap, subst, ◌∙◌, true, false, ◌⊎◌, some, String,
  List, [], ◌∷◌, get_elem?, get_elem?-lt, get_elem?-turned, none, All, All-append, All-turned,
  length-take-drop, Bool-cases, inl, inr, arith,
}
use mathlib.Core.Option.{some-injective}
use chain_fuzz.Prelude.Int.{ℤ, leb_ℤ}
use chain_fuzz.Pool
use chain_fuzz.Pool.{Pool}
use chain_fuzz.Pool.Cycle.{contents}
use chain_fuzz.TypedPools.{Iface}
use chain_fuzz.ArgPool.{ArgPool, next_big_int, as_big_int}
use chain_fuzz.ArgPool.Valid.{IsValid, IsBigInt}
use chain_fuzz.Generator.{draw_amount}
use chain_fuzz.Generator.Amount.{next_big_int-Drawn, refused, draw_amount_total}

module _ (sprint : Iface → String) where
  -- An amount that is above the balance.
  abbrev pub IsBeyond : ℤ → Iface → Type 0
  IsBeyond balance item = (x : ℤ) → item ≡ Iface.big_int x → leb_ℤ x balance ≡ false

  either :
      (balance : ℤ) (item : Iface)
      → IsBigInt item
      → IsBeyond balance item ⊎ ((x : ℤ) × (item ≡ Iface.big_int x) × (leb_ℤ x balance ≡ true))
  either balance item (y, is) = elim (Bool-cases (leb_ℤ y balance)) [
    | inl reach ↦ inr (y, is, reach)
    | inr far ↦ inl (λ x same.
        ap (λ t. leb_ℤ t balance) (some-injective x y (ap as_big_int (sym same) ∙ ap as_big_int is))
        ∙ far)
  ]

  either_all :
      (balance : ℤ) (items : List Iface)
      → All IsBigInt items
      → All (IsBeyond balance) items
        ⊎ ((i : ℕ) × (x : ℤ) × (get_elem? items i ≡ some (Iface.big_int x))
            × (leb_ℤ x balance ≡ true))
  either_all balance [] all = inl tt
  either_all balance (item ∷ items) (here, all) = elim (either balance item here) [
    | inr (x, is, reach) ↦ inr (0, x, ap some is, reach)
    | inl far ↦ elim (either_all balance items all) [
      | inl rest ↦ inl (far, rest)
      | inr (i, x, at, reach) ↦ inr (suc i, x, at, reach)
    ]
  ]

  -- Where every amount is above the balance no number of draws is enough.
  endless :
      (fuel : ℕ) (balance : ℤ) {a : ArgPool}
      → IsValid sprint a
      → 0 < Pool.size a.big_ints
      → All (IsBeyond balance) (contents a.big_ints)
      → draw_amount fuel balance a ≡ none
  endless zero balance v h all = unfold draw_amount in refl
  endless (suc fuel) balance {a} v h all =
      let d = next_big_int-Drawn sprint v h in
      let (here, rest) = subst (All (IsBeyond balance)) d.head all in
      refused sprint fuel balance d.amount a d.left d.draw (here d.amount refl)
      ∙ endless fuel balance d.valid d.stored (
          subst (All (IsBeyond balance)) (sym d.turned)
            (All-append (IsBeyond balance) d.later (Iface.big_int d.amount ∷ []) rest (here, tt)))

  -- After `n` draws another one is made, and it gives an amount above the balance.
  abbrev pub GoesOn : ℤ → ArgPool → ℕ → Type 0
  GoesOn balance a n =
      (b : ArgPool) × (x : ℤ) × (c : ArgPool) × ((fuel : ℕ)
        → draw_amount (n + fuel) balance a ≡ draw_amount fuel balance b)
      × (next_big_int b ≡ some (x, c))
      × (leb_ℤ x balance ≡ false)

  beyond-GoesOn :
      (n : ℕ) (balance : ℤ) {a : ArgPool}
      → IsValid sprint a
      → 0 < Pool.size a.big_ints
      → All (IsBeyond balance) (contents a.big_ints)
      → GoesOn balance a n
  beyond-GoesOn zero balance {a} v h all =
      let d = next_big_int-Drawn sprint v h in
      let (here, _) = subst (All (IsBeyond balance)) d.head all in
      (
        a,
        d.amount,
        d.left,
        λ fuel. ap (λ k. draw_amount k balance a) (omega arith),
        d.draw,
        here d.amount refl,
      )
  beyond-GoesOn (suc n) balance {a} v h all =
      let d = next_big_int-Drawn sprint v h in
      let (here, rest) = subst (All (IsBeyond balance)) d.head all in
      let far =
        All-append (IsBeyond balance) d.later (Iface.big_int d.amount ∷ []) rest (here, tt) in
      let (b, x, c, same, draw, above) =
        beyond-GoesOn n balance d.valid d.stored
          (subst (All (IsBeyond balance)) (sym d.turned) far) in
      (
        b,
        x,
        c,
        λ fuel.
            ap (λ k. draw_amount k balance a) (omega arith)
            ∙ refused sprint (n + fuel) balance d.amount a d.left d.draw (here d.amount refl)
            ∙ same fuel,
        draw,
        above,
      )

  -- From a valid pool that holds a big integer, either the loop ends within one round of the pool,
  -- with an amount that is at most the balance, or it never ends: every stored amount is above the
  -- balance, after any number of draws the loop makes another one, which succeeds and is above the
  -- balance too, and no number of draws is enough.
  pub draw_amount-cases :
      (balance : ℤ) (a : ArgPool)
      → IsValid sprint a
      → 0 < Pool.size a.big_ints
      → ((x : ℤ) × (a' : ArgPool) × (draw_amount (Pool.size a.big_ints) balance a ≡ some (x, a'))
          × (leb_ℤ x balance ≡ true))
        ⊎ (All (IsBeyond balance) a.big_ints.storage
            × ((n : ℕ) → GoesOn balance a n)
            × ((fuel : ℕ) → draw_amount fuel balance a ≡ none))
  draw_amount-cases balance a v h = elim (either_all balance a.big_ints.storage v.all_big_ints) [
    | inr (i, y, at, reach) ↦
        let (j, turned) =
          get_elem?-turned a.big_ints.idx a.big_ints.storage i (Iface.big_int y) at in
        let (x, a', drew, small, _) =
          draw_amount_total sprint j (Pool.size a.big_ints) y balance v turned reach (
            omega (
              arith,
              get_elem?-lt (contents a.big_ints) j turned,
              length-take-drop a.big_ints.idx a.big_ints.storage,
            )) in
        inl (x, a', drew, small)
    | inl far ↦
        let turned = All-turned (IsBeyond balance) a.big_ints.idx a.big_ints.storage far in
        inr (far, λ n. beyond-GoesOn n balance v h turned, λ fuel. endless fuel balance v h turned)
  ]
