-- ===== src/Heuristics/Rec/Ready.antt =====
-- `Rec` (utils/heuristics.go) leaves the argument pool ready.
use chain_fuzz.Prelude.{
  ℕ, zero, suc, ◌-◌, ◌<◌, ◌≤◌, ◌≡◌, sym, ap, subst, ◌∙◌, inl, inr, Bool, true, false, Option, some,
  String, List, All, arith, Bool-cases, >>=-eq-some, if◌then◌else◌, ◌&&◌, ltb,
}
use mathlib.Core.Option.{some-injective}
use chain_fuzz.Prelude.Int.{ℤ}
use chain_fuzz.Pool
use chain_fuzz.Values.{GoType}
use chain_fuzz.TypedPools.{Iface}
use chain_fuzz.ArgPool.{ArgPool, current_timestamp, next_timestamp}
use chain_fuzz.ArgPool.Valid
use chain_fuzz.ArgPool.Sessions.{IsReady, kept}
use chain_fuzz.Args.Refill.{timestamp-IsReady, update_pool-IsReady}
use chain_fuzz.Args.Typing.{IsWellTyped}
use chain_fuzz.Backend.{Backend, LastTxInput}
use chain_fuzz.Commit.{commit_transaction}
use chain_fuzz.Commit.Refill.{commit_transaction-Holds}
use chain_fuzz.Processor.Refill.{Holds}
use chain_fuzz.Stats.{get_count, reset_counter}
use chain_fuzz.Generator.{Transaction, gen_transaction}
use chain_fuzz.Generator.Refill.{gen_transaction-StaysReady}
use chain_fuzz.Heuristics.{revert_backend, gen_timestamp}
use chain_fuzz.Heuristics.Rec.{
  Outcome, returns, Session, Setup, attempt, retries, finish, conclude, rec, without_sender,
  discard, when, counted, reported, verdict, count_tx,
}
use chain_fuzz.Heuristics.Reports.{is_reverted}
use chain_fuzz.Heuristics.Rec.Rounds.{and_then-returns, or_panic-returns}
use chain_fuzz.Heuristics.Rec.Terminates.{rec-ends}
use chain_fuzz.Heuristics.Rec.Counts.{retries_plain, discard-returns}

gen_timestamp-IsReady :
    {S : Type 0} (sprint : Iface → String) (now : ℕ) (snapshot : Option S) (b b' : Backend S)
    (a a' : ArgPool) (t : Option ℤ)
    → gen_timestamp now snapshot b a ≡ some (t, b', a')
    → IsReady sprint a
    → IsReady sprint a'
unfolding gen_timestamp
gen_timestamp-IsReady {S} sprint now snapshot b b' a a' t h r =
    elim (Bool-cases (ltb (get_count b.stats) 2048)) [
      | inl early ↦
          let (u, _, h₁) = >>=-eq-some (current_timestamp now a) _ (rw early at h) in
          subst (λ (p : Option ℤ × Backend S × ArgPool). IsReady sprint p.2) (some-injective _ _ h₁)
            r
      | inr late ↦
          let ((u, passed, a₁), drew, h₁) = >>=-eq-some (next_timestamp now a) _ (rw late at h) in
          let b₁ = record b { stats = reset_counter b.stats } in
          let (b₂, _, h₂) =
            >>=-eq-some (if passed then revert_backend snapshot b₁ else some b₁) _ h₁ in
          let (p, eq, valid, m, k) = Valid.next_timestamp-IsValid sprint r.valid now in
          subst (λ (p : Option ℤ × Backend S × ArgPool). IsReady sprint p.2) (some-injective _ _ h₂)
            (subst (λ (p : Option ℤ × Bool × ArgPool). IsReady sprint p.2)
              (some-injective _ _ (sym eq ∙ drew)) (kept r valid (ap Pool.size m) (ap Pool.size k)))
    ]

module _ {S : Type 0} (u : Setup S)
    (fits : (types : List GoType) (output : List ℕ) → All IsWellTyped (u.unpack types output)) where
  abbrev pub HasReady : Session S → Type 0
  HasReady s = IsReady u.sprint s.env.pool

  attempt-HasReady :
      (s s' : Session S) (tx : Transaction) (desc : LastTxInput)
      → attempt u s ≡ some (tx, desc, s')
      → HasReady s
      → HasReady s'
  unfolding attempt
  attempt-HasReady s s' tx desc h r =
      let a = s.env.pool in
      let ((time, b₁, a₁), timed, h₁) =
        >>=-eq-some (gen_timestamp (u.clock s.backend.tx_count) u.snapshot s.backend a) _ h in
      let e = record s.env { pool = a₁ } in
      let ((made, hint, b₂, e₂), was_made, h₂) =
        >>=-eq-some (gen_transaction u.world u.rand (some s.hint) b₁ e) _ h₁ in
      let (input, _, h₃) = >>=-eq-some b₂.last_tx_in _ h₂ in
      let ((failed, pool, b₃), committed, h₄) =
        >>=-eq-some
          (commit_transaction u.sprint u.unpack u.chain (u.evm made time) (some made.to)
            (some e₂.pool) (some u.options) b₂)
          _ h₃ in
      let (a₃, is, h₅) = >>=-eq-some pool _ h₄ in
      let r₁ =
        gen_timestamp-IsReady u.sprint (u.clock s.backend.tx_count) u.snapshot s.backend b₁ a a₁
          time timed r in
      let r₂ =
        gen_transaction-StaysReady u.world u.rand u.sprint (some s.hint) hint b₁ b₂ e e₂ made
          was_made r₁ in
      let r₃ =
        commit_transaction-Holds (IsReady u.sprint) (timestamp-IsReady u.sprint) u.sprint u.unpack
          u.options
          (λ on types output a.
            update_pool-IsReady u.sprint (u.unpack types) output a (fits types output))
          u.chain (u.evm made time) (some made.to) (some e₂.pool) pool b₂ b₃ failed r₂ committed in
      subst (λ (p : Transaction × LastTxInput × Session S). HasReady p.2) (some-injective _ _ h₅)
        (subst (Holds (IsReady u.sprint)) is r₃)

  -- The session of a call that has returned.
  session_of : Session S → Outcome (Bool × Session S) → Session S
  session_of s (returns p) = p.1
  session_of s _ = s

  session_in : Session S → Outcome (Session S) → Session S
  session_in s (returns t) = t
  session_in s _ = s

  pub verdict-HasReady :
      (s s' : Session S) (v v' : Bool)
      → ◌≡◌ {A = Outcome (Bool × Session S)} (returns (v, s)) (returns (v', s'))
      → HasReady s
      → HasReady s'
  unfolding session_of
  verdict-HasReady s s' v v' h = subst HasReady (ap (session_of s) h)

  pub left-HasReady :
      (s s' : Session S)
      → ◌≡◌ {A = Outcome (Session S)} (returns s) (returns s')
      → HasReady s
      → HasReady s'
  unfolding session_in
  left-HasReady s s' h = subst HasReady (ap (session_in s) h)

  abbrev pub KeepsReady : (Session S → Outcome (Bool × Session S)) → Type 0
  KeepsReady again =
      (s s' : Session S) (v : Bool) → again s ≡ returns (v, s') → HasReady s → HasReady s'

  when-HasReady :
      (again : Session S → Outcome (Bool × Session S)) (diff : Bool) (depth : ℕ) (s s' : Session S)
      → (depth < 4 → KeepsReady again)
      → when u (diff && ltb depth 4) (λ t. discard u (again (without_sender u t))) s ≡ returns s'
      → HasReady s
      → HasReady s'
  when-HasReady again false depth s s' deeper h r = left-HasReady s s' h r
  when-HasReady again true depth s s' deeper h r = elim (Bool-cases (ltb depth 4)) [
    | inl below ↦
        let (v, left) =
          discard-returns u (again (without_sender u s)) s'
            (ap (λ c. when u c (λ t. discard u (again (without_sender u t))) s) (sym below) ∙ h) in
        deeper (ground (arith, below)) (without_sender u s) s' v left r
    | inr last ↦
        left-HasReady s s'
          (ap (λ c. when u c (λ t. discard u (again (without_sender u t))) s) (sym last) ∙ h) r
  ]

  finish-HasReady :
      (found reverted : Bool) (go : Session S → Outcome (Session S)) (s₁ s₂ s' : Session S)
      (v : Bool)
      → HasReady s₁
      → HasReady s₂
      → ((t : Session S) → go s₂ ≡ returns t → HasReady t)
      → finish u found reverted go s₁ s₂ ≡ returns (v, s')
      → HasReady s'
  finish-HasReady true reverted go s₁ s₂ s' v r₁ r₂ retried h = verdict-HasReady s₁ s' true v h r₁
  finish-HasReady false true go s₁ s₂ s' v r₁ r₂ retried h =
      let (t, left, e) = and_then-returns (go s₂) (λ (t : Session S). returns (false, t)) h in
      verdict-HasReady t s' false v e (retried t left)
  finish-HasReady false false go s₁ s₂ s' v r₁ r₂ retried h = verdict-HasReady s₂ s' false v h r₂

  conclude-HasReady :
      (again : Session S → Outcome (Bool × Session S)) (depth : ℕ) (tx : Transaction)
      (desc : LastTxInput) (s s' : Session S) (v : Bool)
      → u.opt_mode.retry_half_ether ≡ false
      → (depth < 4 → KeepsReady again)
      → conclude u again depth tx desc s ≡ returns (v, s')
      → HasReady s
      → HasReady s'
  unfolding conclude count_tx
  conclude-HasReady again depth tx desc s s' v no_half deeper h r =
      finish-HasReady (verdict u desc s) (is_reverted s.backend.last_tx_res)
        (retries u again depth tx) (reported u desc s) (counted u desc s) s' v r r
        (λ t left.
          when-HasReady again u.opt_mode.retry_diff_sender depth (counted u desc s) t deeper
            (sym (retries_plain u again depth tx (counted u desc s) no_half) ∙ left) r)
        h

  rec-KeepsReady_at :
      (depth : ℕ)
      → u.opt_mode.retry_half_ether ≡ false
      → (depth < 4 → KeepsReady (rec u (suc depth)))
      → KeepsReady (rec u depth)
  rec-KeepsReady_at depth no_half deeper s s' v h r =
      let ((tx, desc, s₁), attempted, concluded) =
        or_panic-returns (attempt u s) _ (sym (rec-ends u depth s).0 ∙ h) in
      conclude-HasReady (rec u (suc depth)) depth tx desc s₁ s' v no_half deeper concluded
        (attempt-HasReady s s₁ tx desc attempted r)

  rec-KeepsReady_within :
      (n depth : ℕ) → u.opt_mode.retry_half_ether ≡ false → 4 - depth ≤ n → KeepsReady (rec u depth)
  rec-KeepsReady_within zero depth no_half le =
      rec-KeepsReady_at depth no_half (λ below. absurd (omega arith))
  rec-KeepsReady_within (suc n) depth no_half le =
      rec-KeepsReady_at depth no_half
        (λ below. rec-KeepsReady_within n (suc depth) no_half (omega arith))

  -- Without `RetryHalfEther`, a call of `Rec` that returns leaves a ready pool ready.
  pub rec-KeepsReady : (depth : ℕ) → u.opt_mode.retry_half_ether ≡ false → KeepsReady (rec u depth)
  rec-KeepsReady depth no_half = rec-KeepsReady_within (4 - depth) depth no_half (omega arith)
