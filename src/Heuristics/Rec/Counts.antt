-- ===== src/Heuristics/Rec/Counts.antt =====
-- How many transactions a call of `Rec` commits (utils/heuristics.go).
use chain_fuzz.Prelude.{
  ℕ, zero, suc, ◌+◌, ◌-◌, ◌<◌, ◌≤◌, ◌≡◌, refl, sym, ap, ◌∙◌, inl, inr, Bool, true, false, Option,
  some, none, String, List, arith, Bool-cases, >>=-eq-some, if◌then◌else◌, ◌&&◌, ltb,
}
use chain_fuzz.Prelude.Int.{ℤ}
use chain_fuzz.Values.{GoType, Value}
use chain_fuzz.TypedPools.{Iface}
use chain_fuzz.ArgPool.{ArgPool}
use chain_fuzz.Backend.{Backend, LastTxInput, Options}
use chain_fuzz.Processor.{Chain}
use chain_fuzz.Processor.Loop.{process_logs}
use chain_fuzz.Commit.{Evm, commit_transaction}
use chain_fuzz.Args.{Env}
use chain_fuzz.Generator.{Hint, Transaction, World, gen_transaction}
use chain_fuzz.Heuristics.{revert_backend, gen_timestamp}
use chain_fuzz.Heuristics.Rec.{
  Outcome, returns, and_then, Session, Setup, attempt, retries, finish, conclude, rec,
  without_sender, discard, when, counted, reported, verdict, count_tx,
}
use chain_fuzz.Heuristics.Reports.{is_reverted}
use chain_fuzz.Heuristics.Rec.Rounds.{and_then-returns, or_panic-returns}
use chain_fuzz.Heuristics.Rec.Terminates.{rec-ends}

gen_timestamp-tx_count :
    {S : Type 0} (now : ℕ) (snapshot : Option S) (b b' : Backend S) (a a' : ArgPool) (t : Option ℤ)
    → gen_timestamp now snapshot b a ≡ some (t, b', a')
    → b'.tx_count ≡ b.tx_count
unfolding gen_timestamp revert_backend
gen_timestamp-tx_count now snapshot b b' a a' t h = ground arith

gen_transaction-tx_count :
    {S : Type 0} (w : World S) (rand : ℕ → ℕ) (hint : Option Hint) (hint' : Hint) (b b' : Backend S)
    (e e' : Env) (tx : Transaction)
    → gen_transaction w rand hint b e ≡ some (tx, hint', b', e')
    → b'.tx_count ≡ b.tx_count
unfolding gen_transaction
gen_transaction-tx_count w rand none hint' b b' e e' tx h = cc
gen_transaction-tx_count w rand (some hint) hint' b b' e e' tx h = ground arith

commit_transaction-tx_count :
    {S : Type 0} (sprint : Iface → String) (unpack : List GoType → List ℕ → List Value)
    (chain : Chain) (evm : Evm S) (to : Option ℕ) (pool pool' : Option ArgPool)
    (options : Option Options) (b b' : Backend S) (failed : Bool)
    → commit_transaction sprint unpack chain evm to pool options b ≡ some (failed, pool', b')
    → b'.tx_count ≡ b.tx_count + 1
unfolding commit_transaction process_logs
commit_transaction-tx_count sprint unpack chain evm to pool pool' options b b' failed h =
    ground arith

module _ {S : Type 0} (u : Setup S) where
  pub attempt-tx_count :
      (s s' : Session S) (tx : Transaction) (desc : LastTxInput)
      → attempt u s ≡ some (tx, desc, s')
      → s'.backend.tx_count ≡ s.backend.tx_count + 1
  unfolding attempt
  attempt-tx_count s s' tx desc h =
      let a = s.env.pool in
      let (clock, timed, h₁) =
        >>=-eq-some (gen_timestamp (u.clock s.backend.tx_count) u.snapshot s.backend a) _ h in
      let e = record s.env { pool = clock.2 } in
      let (made, was_made, h₂) =
        >>=-eq-some (gen_transaction u.world u.rand (some s.hint) clock.1 e) _ h₁ in
      let (_, _, h₃) = >>=-eq-some made.2.last_tx_in _ h₂ in
      let (done, committed, h₄) =
        >>=-eq-some
          (commit_transaction u.sprint u.unpack u.chain (u.evm made.0 clock.0) (some made.0.to)
            (some made.3.pool) (some u.options) made.2)
          _ h₃ in
      ground (
        arith,
        h₄,
        gen_timestamp-tx_count (u.clock s.backend.tx_count) u.snapshot s.backend clock.1 a clock.2
            clock.0 timed,
        gen_transaction-tx_count u.world u.rand (some s.hint) made.1 clock.1 made.2 e made.3 made.0
            was_made,
        commit_transaction-tx_count u.sprint u.unpack u.chain (u.evm made.0 clock.0)
            (some made.0.to) (some made.3.pool) done.1 (some u.options) made.2 done.2 done.0
            committed,
      )

  value_of : Session S → Outcome (Session S) → Session S
  value_of s (returns t) = t
  value_of s _ = s

  returns-injective :
      (s s' : Session S) → ◌≡◌ {A = Outcome (Session S)} (returns s) (returns s') → s ≡ s'
  unfolding value_of
  returns-injective s s' h = ap (value_of s) h

  -- Between these two the number of transactions has grown by at most `n`.
  abbrev pub Adds : ℕ → Session S → Session S → Type 0
  Adds n s s' =
      (s.backend.tx_count ≤ s'.backend.tx_count) × (s'.backend.tx_count ≤ s.backend.tx_count + n)

  abbrev AddsAtMost : ℕ → (Session S → Outcome (Bool × Session S)) → Type 0
  AddsAtMost n again = (s s' : Session S) (v : Bool) → again s ≡ returns (v, s') → Adds n s s'

  -- The retries that are left at a depth, with `RetryDiffSender` alone.
  abbrev pub retries_left : ℕ → ℕ
  retries_left depth = if u.opt_mode.retry_diff_sender then 4 - depth else 0

  pub retries_plain :
      (again : Session S → Outcome (Bool × Session S)) (depth : ℕ) (tx : Transaction)
      (s : Session S)
      → u.opt_mode.retry_half_ether ≡ false
      → retries u again depth tx s
        ≡ when u
            (u.opt_mode.retry_diff_sender && ltb depth 4)
            (λ s'. discard u (again (without_sender u s')))
            s
  unfolding retries
  retries_plain again depth tx s no_half = rw no_half refl

  pub discard-returns :
      (r : Outcome (Bool × Session S)) (s' : Session S)
      → discard u r ≡ returns s'
      → (v : Bool) × (r ≡ returns (v, s'))
  discard-returns r s' h =
      let ((v, s''), left, e) = and_then-returns r (λ (p : Bool × Session S). returns p.1) h in
      (v, left ∙ ap (λ (o : Outcome (Session S)). and_then o (λ t. returns (v, t))) e)

  -- The other sender is tried only while the depth is below 4.
  when-Adds :
      (again : Session S → Outcome (Bool × Session S)) (diff : Bool) (depth : ℕ) (s s' : Session S)
      → (diff ≡ true → depth < 4 → AddsAtMost (4 - depth) again)
      → when u (diff && ltb depth 4) (λ t. discard u (again (without_sender u t))) s ≡ returns s'
      → Adds (if diff then 4 - depth else 0) s s'
  when-Adds again false depth s s' deeper h = let e = returns-injective s s' h in ground (arith, e)
  when-Adds again true depth s s' deeper h = elim (Bool-cases (ltb depth 4)) [
    | inl below ↦
        let (v, left) =
          discard-returns (again (without_sender u s)) s'
            (ap (λ c. when u c (λ t. discard u (again (without_sender u t))) s) (sym below) ∙ h) in
        deeper refl (ground (arith, below)) (without_sender u s) s' v left
    | inr last ↦
        let e =
          returns-injective s s'
            (ap (λ c. when u c (λ t. discard u (again (without_sender u t))) s) (sym last) ∙ h) in
        ground (arith, e)
  ]

  finish-Adds :
      (n : ℕ) (found reverted : Bool) (go : Session S → Outcome (Session S)) (s₁ s₂ s' : Session S)
      (v : Bool)
      → s₁.backend.tx_count ≡ s₂.backend.tx_count
      → ((t : Session S) → go s₂ ≡ returns t → Adds n s₂ t)
      → finish u found reverted go s₁ s₂ ≡ returns (v, s')
      → Adds n s₂ s'
  finish-Adds n true reverted go s₁ s₂ s' v same retried h = ground (arith, h)
  finish-Adds n false true go s₁ s₂ s' v same retried h =
      let (t, left, e) = and_then-returns (go s₂) (λ (t : Session S). returns (false, t)) h in
      let k = retried t left in ground (arith, e, k)
  finish-Adds n false false go s₁ s₂ s' v same retried h = ground (arith, h)

  conclude-Adds :
      (again : Session S → Outcome (Bool × Session S)) (depth : ℕ) (tx : Transaction)
      (desc : LastTxInput) (s s' : Session S) (v : Bool)
      → u.opt_mode.retry_half_ether ≡ false
      → (u.opt_mode.retry_diff_sender ≡ true → depth < 4 → AddsAtMost (4 - depth) again)
      → conclude u again depth tx desc s ≡ returns (v, s')
      → Adds (retries_left depth) s s'
  unfolding conclude count_tx
  conclude-Adds again depth tx desc s s' v no_half deeper h =
      finish-Adds (retries_left depth) (verdict u desc s) (is_reverted s.backend.last_tx_res)
        (retries u again depth tx) (reported u desc s) (counted u desc s) s' v refl
        (λ t left.
          when-Adds again u.opt_mode.retry_diff_sender depth (counted u desc s) t deeper
            (sym (retries_plain again depth tx (counted u desc s) no_half) ∙ left))
        h

  -- From the calls one level deeper to the calls at a depth.
  rec-adds_at :
      (depth : ℕ) (s s' : Session S) (v : Bool)
      → u.opt_mode.retry_half_ether ≡ false
      → (u.opt_mode.retry_diff_sender ≡ true
          → depth < 4
          → AddsAtMost (4 - depth) (rec u (suc depth)))
      → rec u depth s ≡ returns (v, s')
      → (s.backend.tx_count < s'.backend.tx_count)
        × (s'.backend.tx_count ≤ s.backend.tx_count + suc (retries_left depth))
  rec-adds_at depth s s' v no_half deeper h =
      let ((tx, desc, s₁), attempted, concluded) =
        or_panic-returns (attempt u s) _ (sym (rec-ends u depth s).0 ∙ h) in
      let (lo, hi) =
        conclude-Adds (rec u (suc depth)) depth tx desc s₁ s' v no_half deeper concluded in
      let one = attempt-tx_count s s₁ tx desc attempted in (omega arith, omega arith)

  rec-adds_within :
      (n depth : ℕ) (s s' : Session S) (v : Bool)
      → u.opt_mode.retry_half_ether ≡ false
      → 4 - depth ≤ n
      → rec u depth s ≡ returns (v, s')
      → (s.backend.tx_count < s'.backend.tx_count)
        × (s'.backend.tx_count ≤ s.backend.tx_count + suc (retries_left depth))
  rec-adds_within zero depth s s' v no_half le =
      rec-adds_at depth s s' v no_half (λ diff below. absurd (omega arith))
  rec-adds_within (suc n) depth s s' v no_half le =
      rec-adds_at depth s s' v no_half (λ diff below t t' w left.
        let (lo, hi) = rec-adds_within n (suc depth) t t' w no_half (omega arith) left in
        (omega arith, ground (arith, hi, diff)))

  -- Without `RetryHalfEther`, a call of `Rec` that returns has committed at least one transaction, and
  -- at most one more for every level that is left up to 4, if `RetryDiffSender` is set; without that
  -- flag it has committed one.
  pub rec-adds :
      (depth : ℕ) (s s' : Session S) (v : Bool)
      → u.opt_mode.retry_half_ether ≡ false
      → rec u depth s ≡ returns (v, s')
      → (s.backend.tx_count < s'.backend.tx_count)
        × (s'.backend.tx_count ≤ s.backend.tx_count + suc (retries_left depth))
  rec-adds depth s s' v no_half = rec-adds_within (4 - depth) depth s s' v no_half (omega arith)
