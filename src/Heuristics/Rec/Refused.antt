-- ===== src/Heuristics/Rec/Refused.antt =====
-- A transaction that cannot be applied, in `Rec` (utils/heuristics.go): what is reported of it is what
-- the transaction before has left.
use chain_fuzz.Prelude.{
  ℕ, string_eq, int_eq, suc, ◌≡◌, sym, ap, ◌∙◌, Bool, true, Option, some, arith, ==_iff,
}
use mathlib.Core.Option.{some-injective}
use chain_fuzz.Prelude.Int.{ℤ, pos}
use chain_fuzz.ArgPool.{ArgPool}
use chain_fuzz.Heuristics.{gen_timestamp}
use chain_fuzz.Backend.{Backend, LastTxInput, LastTxResult}
use chain_fuzz.Commit.{Applied}
use chain_fuzz.Generator.{Transaction}
use chain_fuzz.Heuristics.Rec.{
  Outcome, returns, Session, Setup, attempt, finish, conclude, rec, rec_with, fuel_for, retries,
  verdict, reported, counted,
}
use chain_fuzz.Heuristics.Reports.{
  report_assertion, report_overflow, Note, ResultsMap, is_property, is_reverted, revert_key, report,
  report_property,
}
use chain_fuzz.Heuristics.Rec.Sent.{attempt-Sent}
use chain_fuzz.Heuristics.Rec.Verdict.{noted, noted-store}

report-reverted :
    (desc : LastTxInput) (res : LastTxResult) (r : ResultsMap)
    → is_property desc.method ≡ true
    → is_reverted res ≡ true
    → ((report desc res r).0 ≡ true)
      × (noted desc.contract (revert_key desc.method) (report desc res r).1 ≡ some Note.blank)
unfolding report report_property
report-reverted desc res r property reverted =
    let r' = report_assertion desc res (report_overflow desc res r) in
    (
      ground (arith, property, reverted),
      ground (
        arith,
        noted-store desc.contract (revert_key desc.method) Note.blank r',
        property,
        reverted,
      ),
    )

module _ {S : Type 0} (u : Setup S) where
  conclude-true :
      (again : Session S → Outcome (Bool × Session S)) (depth : ℕ) (tx : Transaction)
      (desc : LastTxInput) (s₁ : Session S)
      → verdict u desc s₁ ≡ true
      → conclude u again depth tx desc s₁ ≡ returns (true, reported u desc s₁)
  unfolding conclude
  conclude-true again depth tx desc s₁ found =
      ap
        (λ c.
          finish u c (is_reverted s₁.backend.last_tx_res) (retries u again depth tx)
            (reported u desc s₁) (counted u desc s₁))
        found

  -- If the transaction of a call of `Rec` calls a property and cannot be applied to the state that the
  -- clock leaves, and the transaction before left a revert at depth 1, then the call returns `true`,
  -- which stops the fuzzer, and notes a revert of that property.
  pub rec-refused :
      (depth : ℕ) (s s₁ : Session S) (tx : Transaction) (desc : LastTxInput) (time : Option ℤ)
      (before : Backend S) (pool : ArgPool)
      → attempt u s ≡ some (tx, desc, s₁)
      → gen_timestamp (u.clock s.backend.tx_count) u.snapshot s.backend s.env.pool
        ≡ some (time, before, pool)
      → ((u.evm tx time).apply before.state).failed ≡ true
      → s.backend.last_tx_res.revert_at_depth ≡ pos 1
      → is_property desc.method ≡ true
      → (s' : Session S) × (rec u depth s ≡ returns (true, s'))
        × (noted desc.contract (revert_key desc.method) s'.results ≡ some Note.blank)
  unfolding rec
  rec-refused depth s s₁ tx desc time before pool attempted timed refuses old property =
      let sent = attempt-Sent u s s₁ tx desc attempted in
      let refused =
        ap (λ (a : Applied S). a.failed) sent.is_applied
        ∙ ap (λ (c : Option ℤ × Backend S × ArgPool). ((u.evm tx c.0).apply c.1.state).failed)
            (some-injective _ _ (sym sent.timed ∙ timed))
        ∙ refuses in
      let reverted : is_reverted s₁.backend.last_tx_res ≡ true =
        (==_iff s₁.backend.last_tx_res.revert_at_depth (pos 1)).1
          (sent.findings.stale refused ∙ old) in
      let (found, entry) =
        report-reverted desc s₁.backend.last_tx_res s₁.results property reverted in
      (
        reported u desc s₁,
        rw attempted (
            conclude-true (rec_with u (fuel_for u depth tx.amount) (suc depth)) depth tx desc s₁
              found),
        entry,
      )
