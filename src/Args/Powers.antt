-- ===== src/Args/Powers.antt =====
-- The loop over the powers of two in `InitArgPool` (utils/args.go), and its fuel.
use chain_fuzz.Prelude.{
  ℕ, zero, suc, ◌*◌, ◌-◌, ◌%◌, ◌^◌, ◌<◌, ◌≤◌, ◌≡◌, refl, ap, subst, ◌∙◌, false, String,
  if◌then◌else◌, arith, leb, ltb, sym,
}
use native.Mathlib.Nat.{mod-eq_of_lt, mul_assoc, le-mul_of_pos_right, pow-succ'}
use chain_fuzz.Prelude.Int.{pos}
use chain_fuzz.TypedPools.{Iface}
use chain_fuzz.ArgPool.{ArgPool, add_int64, add_int32, add_int16, add_big_int}
use chain_fuzz.Args.{add_powers}

beyond : (i : ℕ) → 10 ^ 18 ≤ i → ltb i (10 ^ 18) ≡ false
beyond i h = ground arith

-- Doubling does not wrap while more doublings stay within 63 bits.
doubled : (i m : ℕ) → 1 ≤ m → i * (2 * m) < 2 ^ 63 → i * 2 % 2 ^ 64 * m ≡ i * (2 * m)
doubled i m h small =
    let narrow : i * 2 * m < 2 ^ 63 = subst (λ n. n < 2 ^ 63) (sym (mul_assoc i 2 m)) small in
    ap (λ n. n * m)
      (mod-eq_of_lt {n = i * 2} {m = 2 ^ 64} (omega (arith, le-mul_of_pos_right {m = m} (i * 2) h)))
    ∙ mul_assoc i 2 m

pow_pos : (k : ℕ) → 1 ≤ 2 ^ k
pow_pos zero = omega arith
pow_pos (suc k) = omega (arith, pow_pos k, pow-succ' 2 k)

pow_next : (k : ℕ) → 2 ^ suc k ≡ 2 * 2 ^ k
pow_next k = pow-succ' 2 k

module _ (sprint : Iface → String) (rand : ℕ → ℕ) where
  -- At the bound the loop ends, whatever the fuel.
  at_bound : (fuel i : ℕ) (a : ArgPool) → 10 ^ 18 ≤ i → add_powers sprint rand (suc fuel) i a ≡ a
  unfolding add_powers
  at_bound fuel i a h = rw (beyond i h) refl

  round : ℕ → ArgPool → ArgPool
  round i a =
      let a₁ = if leb i (2 ^ 31 - 1) then add_int32 i a else a in
      let a₂ = if leb i (2 ^ 15 - 1) then add_int16 i a₁ else a₁ in
      add_int64 i (add_big_int sprint (pos i) a₂)

  one_round :
      (fuel i : ℕ) (a : ArgPool)
      → add_powers sprint rand (suc fuel) i a
        ≡ (if ltb i (10 ^ 18) then add_powers sprint rand fuel (i * 2 % 2 ^ 64) (round i a) else a)
  unfolding add_powers round
  one_round fuel i a = refl

  enough_fuel :
      (k f g i : ℕ) (a : ArgPool)
      → k < f
      → k < g
      → 10 ^ 18 ≤ i * 2 ^ k
      → i * 2 ^ k < 2 ^ 63
      → add_powers sprint rand f i a ≡ add_powers sprint rand g i a
  enough_fuel k zero g i a hf hg h small = absurd (omega arith)
  enough_fuel k (suc f) zero i a hf hg h small = absurd (omega arith)
  enough_fuel zero (suc f) (suc g) i a hf hg h small =
      at_bound f i a (omega arith) ∙ sym (at_bound g i a (omega arith))
  enough_fuel (suc k) (suc f) (suc g) i a hf hg h small =
      let e : i * 2 % 2 ^ 64 * 2 ^ k ≡ i * 2 ^ suc k =
        doubled i (2 ^ k) (pow_pos k) (subst (λ m. i * m < 2 ^ 63) (pow_next k) small)
        ∙ ap (λ m. i * m) (sym (pow_next k)) in
      one_round f i a
      ∙ ap (λ r. if ltb i (10 ^ 18) then r else a)
          (enough_fuel k f g (i * 2 % 2 ^ 64) (round i a) (omega arith) (omega arith)
            (subst (λ n. 10 ^ 18 ≤ n) (sym e) h) (subst (λ n. n < 2 ^ 63) (sym e) small))
      ∙ sym (one_round g i a)

  -- 61 rounds of fuel suffice for the loop from 1: with any more it leaves the same pool.
  pub add_powers_total :
      (fuel : ℕ) (a : ArgPool)
      → 60 < fuel
      → add_powers sprint rand fuel 1 a ≡ add_powers sprint rand 61 1 a
  add_powers_total fuel a h = enough_fuel 60 fuel 61 1 a h (omega arith) (omega arith) (omega arith)
