-- ===== src/Heuristics/Rec/Sent.antt =====
-- The transaction that a call of `Rec` commits, and what `LastTxRes` says of it (utils/heuristics.go).
use chain_fuzz.Prelude.{ℕ, string_eq, ◌≡◌, ap, subst, ◌∙◌, Option, none, some, arith, >>=-eq-some}
use mathlib.Core.Option.{some-injective}
use chain_fuzz.Prelude.Int.{ℤ}
use chain_fuzz.ArgPool.{ArgPool}
use chain_fuzz.Args.{Env}
use chain_fuzz.Backend.{Backend, LastTxInput, LastTxResult}
use chain_fuzz.Commit.{Applied, commit_transaction}
use chain_fuzz.Commit.Findings.{Findings, commit_transaction-Findings}
use chain_fuzz.Generator.{Hint, Transaction, World, gen_transaction}
use chain_fuzz.Heuristics.{revert_backend, gen_timestamp}
use chain_fuzz.Heuristics.Rec.{Session, Setup, attempt}

gen_timestamp-last_tx_res :
    {S : Type 0} (now : ℕ) (snapshot : Option S) (b b' : Backend S) (a a' : ArgPool) (t : Option ℤ)
    → gen_timestamp now snapshot b a ≡ some (t, b', a')
    → b'.last_tx_res ≡ b.last_tx_res
unfolding gen_timestamp revert_backend
gen_timestamp-last_tx_res now snapshot b b' a a' t h = ground arith

gen_transaction-last_tx_res :
    {S : Type 0} (w : World S) (rand : ℕ → ℕ) (hint : Option Hint) (hint' : Hint) (b b' : Backend S)
    (e e' : Env) (tx : Transaction)
    → gen_transaction w rand hint b e ≡ some (tx, hint', b', e')
    → (b'.last_tx_res ≡ b.last_tx_res) × (b'.state ≡ b.state)
unfolding gen_transaction
gen_transaction-last_tx_res w rand none hint' b b' e e' tx h = cc
gen_transaction-last_tx_res w rand (some hint) hint' b b' e e' tx h = (ground arith, ground arith)

module _ {S : Type 0} (u : Setup S) where
  -- The transaction goes to the state that the clock leaves, at the time that it gives.
  pub record Sent (s : Session S) (tx : Transaction) (s₁ : Session S) : Type 0 where
    pub time : Option ℤ
    pub before : Backend S
    pub pool : ArgPool
    pub timed :
        gen_timestamp (u.clock s.backend.tx_count) u.snapshot s.backend s.env.pool
        ≡ some (time, before, pool)
    pub applied : Applied S
    pub is_applied : applied ≡ (u.evm tx time).apply before.state
    pub findings :
        Findings applied.failed applied.tracer s.backend.last_tx_res s₁.backend.last_tx_res

  pub attempt-Sent :
      (s s₁ : Session S) (tx : Transaction) (desc : LastTxInput)
      → attempt u s ≡ some (tx, desc, s₁)
      → Sent s tx s₁
  unfolding attempt
  attempt-Sent s s₁ tx desc h =
      let a = s.env.pool in
      let ((time, b₁, a₁), timed, h₁) =
        >>=-eq-some (gen_timestamp (u.clock s.backend.tx_count) u.snapshot s.backend a) _ h in
      let e = record s.env { pool = a₁ } in
      let ((made, hint, b₂, e₂), was_made, h₂) =
        >>=-eq-some (gen_transaction u.world u.rand (some s.hint) b₁ e) _ h₁ in
      let (input, _, h₃) = >>=-eq-some b₂.last_tx_in _ h₂ in
      let ((failed, pool, b₃), committed, h₄) =
        >>=-eq-some
          (commit_transaction u.sprint u.unpack u.chain (u.evm made time) (some made.to)
            (some e₂.pool) (some u.options) b₂)
          _ h₃ in
      let (a₃, is, h₅) = >>=-eq-some pool _ h₄ in
      let (same, state) =
        gen_transaction-last_tx_res u.world u.rand (some s.hint) hint b₁ b₂ e e₂ made was_made in
      let old =
        same
        ∙ gen_timestamp-last_tx_res (u.clock s.backend.tx_count) u.snapshot s.backend b₁ a a₁ time
            timed in
      let found =
        commit_transaction-Findings u.sprint u.unpack u.chain (u.evm made time) (some made.to)
          (some e₂.pool) pool u.options b₂ b₃ failed committed in
      subst (λ (p : Transaction × LastTxInput × Session S). Sent s p.0 p.2) (some-injective _ _ h₅)
        (record {
          time = time;
          before = b₁;
          pool = a₁;
          timed = timed;
          applied = (u.evm made time).apply b₂.state;
          is_applied = ap (u.evm made time).apply state;
          findings =
              subst
                (λ (r : LastTxResult).
                  Findings ((u.evm made time).apply b₂.state).failed
                    ((u.evm made time).apply b₂.state).tracer r b₃.last_tx_res)
                old found;
        })
