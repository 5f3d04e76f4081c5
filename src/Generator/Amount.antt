-- ===== src/Generator/Amount.antt =====
-- The loop of `getRandomAmountFromAddress` (utils/generator.go).
use chain_fuzz.Prelude.{
  ℕ, zero, suc, ◌+◌, ◌%◌, string_eq, ◌<◌, ◌≡◌, refl, sym, ap, subst, ◌∙◌, Bool, true, false, ◌⊎◌,
  Option, some, String, List, [], ◌∷◌, ◌++◌, get_elem?, get_elem?-lt, get_elem?-append_left,
  length-take-drop, Bool-cases, >>=-eq-some, inl, inr, arith,
}
use mathlib.Core.Option.{some-injective}
use chain_fuzz.Prelude.Int.{ℤ, leb_ℤ}
use chain_fuzz.Pool
use chain_fuzz.Pool.{Pool}
use chain_fuzz.Pool.Cycle.{contents, next_refines}
use chain_fuzz.TypedPools.{Iface}
use chain_fuzz.ArgPool.{ArgPool, next_big_int, as_big_int}
use chain_fuzz.ArgPool.Valid
use chain_fuzz.ArgPool.Valid.{IsValid, IsBigInt}
use chain_fuzz.Args.Draws.{Keeping}
use chain_fuzz.Generator.{draw_amount}

as_big_int-eq : (item : Iface) (x : ℤ) → as_big_int item ≡ some x → item ≡ Iface.big_int x
as_big_int-eq Iface.nil x h = cc
as_big_int-eq (Iface.address y) x h = cc
as_big_int-eq (Iface.big_int y) x h = ap Iface.big_int (some-injective y x h)

differ : (b : Bool) → b ≡ false → b ≡ true → ⊥
differ b h k = ground arith

module _ (sprint : Iface → String) where
  -- One draw: the head of the view comes out and goes to its end.
  pub record Drawn (a : ArgPool) : Type 0 where
    pub amount : ℤ
    pub later : List Iface
    pub left : ArgPool
    pub draw : next_big_int a ≡ some (amount, left)
    pub head : contents a.big_ints ≡ Iface.big_int amount ∷ later
    pub turned : contents left.big_ints ≡ later ++ Iface.big_int amount ∷ []
    pub valid : IsValid sprint left
    pub stored : 0 < Pool.size left.big_ints

  pub next_big_int-Drawn : {a : ArgPool} → IsValid sprint a → 0 < Pool.size a.big_ints → Drawn a
  unfolding next_big_int
  next_big_int-Drawn {a} v h =
      let (r, drew, valid, same, _) = Valid.next_big_int-IsValid sprint v h in
      let (item, q, step, was, is) = next_refines sprint Iface.nil v.big_ints.valid h in
      let p' : Pool String Iface = record a.big_ints {
        idx = (a.big_ints.idx + 1) % Pool.size a.big_ints;
      } in
      let (got, stepped, rest) = >>=-eq-some (Pool.next Iface.nil a.big_ints) _ drew in
      let (x, amount_of, result) = >>=-eq-some (as_big_int got.0) _ rest in
      let same_got : ◌≡◌ {A = Iface × Pool String Iface} got (item, p') =
        some-injective _ _ (sym stepped ∙ step) in
      let e : ◌≡◌ {A = ℤ × ArgPool} (x, record a { big_ints = p' }) r =
        ap (λ (g : Iface × Pool String Iface). (x, record a { big_ints = g.1 })) (sym same_got)
        ∙ some-injective _ _ result in
      let is_amount : item ≡ Iface.big_int x =
        as_big_int-eq item x
          (ap (λ (g : Iface × Pool String Iface). as_big_int g.0) (sym same_got) ∙ amount_of) in
      record {
        amount = x;
        later = q;
        left = record a { big_ints = p' };
        draw = drew ∙ ap some (sym e);
        head = was ∙ ap (λ t. t ∷ q) is_amount;
        turned = is ∙ ap (λ t. q ++ t ∷ []) is_amount;
        valid = subst (λ (s : ℤ × ArgPool). IsValid sprint s.1) (sym e) valid;
        stored = h;
      }

  -- What a draw that stops the loop, and one that does not, make of it.
  accepted :
      (fuel : ℕ) (balance x : ℤ) (a a' : ArgPool)
      → next_big_int a ≡ some (x, a')
      → leb_ℤ x balance ≡ true
      → draw_amount (suc fuel) balance a ≡ some (x, a')
  unfolding draw_amount
  accepted fuel balance x a a' step small = rw step (rw small refl)

  pub refused :
      (fuel : ℕ) (balance x : ℤ) (a a' : ArgPool)
      → next_big_int a ≡ some (x, a')
      → leb_ℤ x balance ≡ false
      → draw_amount (suc fuel) balance a ≡ draw_amount fuel balance a'
  unfolding draw_amount
  refused fuel balance x a a' step large = rw step (rw large refl)

  -- An item of the view is the one that is drawn, or moves up by one place.
  onwards :
      (i : ℕ) {a : ArgPool} (d : Drawn a) (y : ℤ)
      → get_elem? (contents a.big_ints) i ≡ some (Iface.big_int y)
      → (d.amount ≡ y)
        ⊎ ((j : ℕ) × (i ≡ suc j)
            × (get_elem? (contents d.left.big_ints) j ≡ some (Iface.big_int y)))
  onwards zero d y at =
      let e : ◌≡◌ {A = Option Iface} (some (Iface.big_int d.amount)) (some (Iface.big_int y)) =
        ap (λ l. get_elem? l 0) (sym d.head) ∙ at in
      inl (some-injective _ _ (ap as_big_int (some-injective _ _ e)))
  onwards (suc j) d y at =
      let behind : get_elem? d.later j ≡ some (Iface.big_int y) =
        ap (λ l. get_elem? l (suc j)) (sym d.head) ∙ at in
      inr (
        j,
        refl,
        ap (λ l. get_elem? l j) d.turned
            ∙ get_elem?-append_left d.later (Iface.big_int d.amount ∷ []) j
                (get_elem?-lt d.later j behind)
            ∙ behind,
      )

  -- In a valid pool, if the amount that comes up after `i` others is at most the balance, then
  -- more than `i` draws are enough: the loop ends with an amount that is at most the balance,
  -- and leaves a valid pool.
  pub draw_amount_total :
      (i fuel : ℕ) (y balance : ℤ) {a : ArgPool}
      → IsValid sprint a
      → get_elem? (contents a.big_ints) i ≡ some (Iface.big_int y)
      → leb_ℤ y balance ≡ true
      → i < fuel
      → (x : ℤ) × (a' : ArgPool) × (draw_amount fuel balance a ≡ some (x, a'))
        × (leb_ℤ x balance ≡ true)
        × IsValid sprint a'
  draw_amount_total i zero y balance v at small h = absurd (omega arith)
  draw_amount_total i (suc fuel) y balance {a} v at small h =
      let d = next_big_int-Drawn v (
        omega (
          arith,
          get_elem?-lt (contents a.big_ints) i at,
          length-take-drop a.big_ints.idx a.big_ints.storage,
        )) in
      elim (Bool-cases (leb_ℤ d.amount balance)) [
        | inl reach ↦
            (d.amount, d.left, accepted fuel balance d.amount a d.left d.draw reach, reach, d.valid)
        | inr far ↦ elim (onwards i d y at) [
          | inl same ↦
              absurd (differ (leb_ℤ d.amount balance) far (ap (λ t. leb_ℤ t balance) same ∙ small))
          | inr (j, next, there) ↦
              let (x, a', e, reach, valid) =
                draw_amount_total j fuel y balance d.valid there small (omega arith) in
              (x, a', refused fuel balance d.amount a d.left d.draw far ∙ e, reach, valid)
        ]
      ]

-- The loop only draws.
module _ (R : ArgPool → ArgPool → Type 0) (further : (a b c : ArgPool) → R a b → R b c → R a c)
    (one : Keeping R next_big_int) where
  pub draw_amount-keeps :
      (fuel : ℕ) (balance x : ℤ) (a a' : ArgPool)
      → draw_amount fuel balance a ≡ some (x, a')
      → R a a'
  unfolding draw_amount
  draw_amount-keeps zero balance x a a' h = cc
  draw_amount-keeps (suc fuel) balance x a a' h =
      let ((y, a₁), drew, h₁) = >>=-eq-some (next_big_int a) _ h in
      elim (Bool-cases (leb_ℤ y balance)) [
        | inl reach ↦
            subst (λ (r : ℤ × ArgPool). R a r.1) (some-injective _ _ (rw reach at h₁))
              (one a a₁ y drew)
        | inr far ↦
            further a a₁ a' (one a a₁ y drew)
              (draw_amount-keeps fuel balance x a₁ a' (rw far at h₁))
      ]
