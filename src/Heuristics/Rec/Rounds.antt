-- ===== src/Heuristics/Rec/Rounds.antt =====
-- One round of `Rec` (utils/heuristics.go): the amount of its transaction, and what the hint says
-- afterwards.
use chain_fuzz.Prelude.{Option, none, some, refl, ℕ, ◌≡◌, some, string_eq, arith, >>=-eq-some}
use chain_fuzz.Prelude.Int.{ℤ}
use chain_fuzz.Args.{Env}
use chain_fuzz.Backend.{Backend, LastTxInput}
use chain_fuzz.Generator.{Hint, Transaction, World, choose_amount, gen_transaction}
use chain_fuzz.Heuristics.{gen_timestamp}
use chain_fuzz.Heuristics.Rec.{
  Outcome, returns, panics, out_of_fuel, and_then, or_panic, Session, Setup, attempt,
}

-- Inversion of the steps of a computation that returned.
pub and_then-returns :
    {A B : Type 0} (m : Outcome A) (f : A → Outcome B) {b : B}
    → and_then m f ≡ returns b
    → (a : A) × (m ≡ returns a) × (f a ≡ returns b)
and_then-returns (returns a) f h = (a, refl, h)
and_then-returns panics f h = cc
and_then-returns out_of_fuel f h = cc

pub or_panic-returns :
    {A B : Type 0} (m : Option A) (f : A → Outcome B) {b : B}
    → and_then (or_panic m) f ≡ returns b
    → (a : A) × (m ≡ some a) × (f a ≡ returns b)
or_panic-returns none f h = cc
or_panic-returns (some a) f h = (a, refl, h)

module _ {S : Type 0} (w : World S) (rand : ℕ → ℕ) where
  -- The hint keeps the amount of the transaction, and a given amount is taken.
  gen_transaction-kept :
      (hint hint' : Hint) (b b' : Backend S) (e e' : Env) (tx : Transaction)
      → gen_transaction w rand (some hint) b e ≡ some (tx, hint', b', e')
      → hint'.amount ≡ some tx.amount
  unfolding gen_transaction
  gen_transaction-kept hint hint' b b' e e' tx h = ground arith

  gen_transaction-given :
      (hint hint' : Hint) (b b' : Backend S) (e e' : Env) (tx : Transaction) (x : ℤ)
      → gen_transaction w rand (some hint) b e ≡ some (tx, hint', b', e')
      → hint.amount ≡ some x
      → tx.amount ≡ x
  unfolding gen_transaction choose_amount
  gen_transaction-given hint hint' b b' e e' tx x h given = ground arith

module _ {S : Type 0} (u : Setup S) where
  pub attempt-kept :
      (s s' : Session S) (tx : Transaction) (desc : LastTxInput)
      → attempt u s ≡ some (tx, desc, s')
      → s'.hint.amount ≡ some tx.amount
  unfolding attempt
  attempt-kept s s' tx desc h =
      let (clock, _, h₁) =
        >>=-eq-some (gen_timestamp (u.clock s.backend.tx_count) u.snapshot s.backend s.env.pool) _
          h in
      let (made, was_made, h₂) =
        >>=-eq-some
          (gen_transaction u.world u.rand (some s.hint) clock.1 (record s.env { pool = clock.2 })) _
          h₁ in
      ground (
        arith,
        h₂,
        gen_transaction-kept u.world u.rand s.hint made.1 clock.1 made.2 _ made.3 made.0 was_made,
      )

  pub attempt-given :
      (s s' : Session S) (tx : Transaction) (desc : LastTxInput) (x : ℤ)
      → attempt u s ≡ some (tx, desc, s')
      → s.hint.amount ≡ some x
      → tx.amount ≡ x
  unfolding attempt
  attempt-given s s' tx desc x h given =
      let (clock, _, h₁) =
        >>=-eq-some (gen_timestamp (u.clock s.backend.tx_count) u.snapshot s.backend s.env.pool) _
          h in
      let (made, was_made, h₂) =
        >>=-eq-some
          (gen_transaction u.world u.rand (some s.hint) clock.1 (record s.env { pool = clock.2 })) _
          h₁ in
      ground (
        arith,
        h₂,
        gen_transaction-given u.world u.rand s.hint made.1 clock.1 made.2 _ made.3 made.0 x was_made
            given,
      )
