-- ===== src/Heuristics/Rec/Verdict.antt =====
-- When `Rec` returns `true`, and what the results say then (utils/heuristics.go).
use chain_fuzz.Prelude.{
  ap, sym, subst, ◌∙◌, String, if◌then◌else◌, ℕ, ◌≡◌, refl, ◌⊎◌, inl, inr, Bool, true, false,
  Option, some, arith, string_eq, int_eq, ==_iff, Bool-cases,
}
use chain_fuzz.Prelude.Int.{pos}
use chain_fuzz.Processor.{revert_op}
use chain_fuzz.Processor.Depths.{IsLeastDepth}
use chain_fuzz.Commit.{Applied}
use chain_fuzz.Commit.Findings.{Findings}
use chain_fuzz.Heuristics.Rec.Sent.{Sent, attempt-Sent}
use chain_fuzz.Prelude.Dict.{lookup, lookup-insert, insert}
use chain_fuzz.Backend.{LastTxInput, LastTxResult, Tracer}
use chain_fuzz.Generator.{Transaction}
use chain_fuzz.Heuristics.Rec.Rounds.{or_panic-returns}
use chain_fuzz.Heuristics.Rec.{
  Outcome, and_then, returns, panics, out_of_fuel, Session, Setup, attempt, finish, conclude, rec,
  verdict, reported, counted,
}
use chain_fuzz.Heuristics.Reports.{
  report_assertion, report_overflow, Note, ResultsMap, is_property, is_reverted, is_violation,
  output_of, violation_key, revert_key, row, store, report, report_property,
}

-- What the results hold under a contract and a key.
abbrev pub noted : String → String → ResultsMap → Option Note
noted contract key r = lookup key (row contract r)

pub noted-store :
    (contract key : String) (note : Note) (r : ResultsMap)
    → noted contract key (store contract key note r) ≡ some note
unfolding store
noted-store contract key note r = ground (
  arith,
  lookup-insert contract contract (insert key note (row contract r)) r,
  lookup-insert key key note (row contract r),
  ==_iff contract contract,
  ==_iff key key,
)

-- A property reverted, or came out other than true.
abbrev pub IsFailed : LastTxInput → LastTxResult → Type 0
IsFailed desc res =
    (is_property desc.method ≡ true)
    × ((is_reverted res ≡ true) ⊎ (is_violation (output_of res) ≡ true))

-- The entry of the results for it.
abbrev pub failed_key : LastTxInput → LastTxResult → String
failed_key desc res = if is_reverted res then revert_key desc.method else violation_key desc.method

report-IsFailed :
    (desc : LastTxInput) (res : LastTxResult) (r : ResultsMap)
    → (report desc res r).0 ≡ true
    → IsFailed desc res
      × (noted desc.contract (failed_key desc res) (report desc res r).1 ≡ some Note.blank)
unfolding report report_property
report-IsFailed desc res r h =
    let r' = report_assertion desc res (report_overflow desc res r) in
    ground (
      arith,
      noted-store desc.contract (revert_key desc.method) Note.blank r',
      noted-store desc.contract (violation_key desc.method) Note.blank r',
    )

module _ {S : Type 0} (u : Setup S) where
  retried_false :
      (o : Outcome (Session S)) (s : Session S)
      → and_then {B = Bool × Session S} o (λ s'. returns (false, s')) ≡ returns (true, s)
      → ⊥
  retried_false (returns s') s h = ground arith
  retried_false panics s h = cc
  retried_false out_of_fuel s h = cc

  session_of : Session S → Outcome (Bool × Session S) → Session S
  session_of s (returns r) = r.1
  session_of s _ = s

  finish-true :
      (found reverted : Bool) (go : Session S → Outcome (Session S)) (s₁ s₂ s' : Session S)
      → finish u found reverted go s₁ s₂ ≡ returns (true, s')
      → (found ≡ true) × (s' ≡ s₁)
  unfolding session_of
  finish-true true reverted go s₁ s₂ s' h = (refl, sym (ap (session_of s₁) h))
  finish-true false true go s₁ s₂ s' h = absurd (retried_false (go s₂) s' h)
  finish-true false false go s₁ s₂ s' h = absurd (ground arith)

  -- The transaction reverted: it was applied, and the least depth of a REVERT in its trace is 1; or it
  -- could not be applied, and the depth that the transaction before left is 1.
  abbrev pub HasReverted : LastTxResult → Applied S → Type 0
  HasReverted old applied =
      ((applied.failed ≡ false) × IsLeastDepth revert_op applied.tracer.logs (pos 1))
      ⊎ ((applied.failed ≡ true) × (old.revert_at_depth ≡ pos 1))

  reverted-HasReverted :
      (applied : Applied S) (old new : LastTxResult)
      → Findings applied.failed applied.tracer old new
      → is_reverted new ≡ true
      → HasReverted old applied
  reverted-HasReverted applied old new found h =
      let one = (==_iff new.revert_at_depth (pos 1)).0 h in
      elim (Bool-cases applied.failed) [
        | inl refused ↦ inr (refused, sym (found.stale refused) ∙ one)
        | inr went ↦
            inl (went, subst (IsLeastDepth revert_op applied.tracer.logs) one (found.read went))
      ]

  traced_output :
      (tracer : Tracer) (res : LastTxResult)
      → res.struct_logger ≡ some tracer
      → output_of res ≡ tracer.output
  traced_output tracer res h = rw h refl

  -- What a call that returns `true` has found.
  pub record Stopped (s s' : Session S) : Type 0 where
    pub tx : Transaction
    pub desc : LastTxInput
    pub committed : Session S
    pub attempted : attempt u s ≡ some (tx, desc, committed)
    pub sent : Sent u s tx committed
    pub property : is_property desc.method ≡ true
    pub cause :
        HasReverted s.backend.last_tx_res sent.applied
        ⊎ (is_violation sent.applied.tracer.output ≡ true)
    pub entry :
        noted desc.contract (failed_key desc committed.backend.last_tx_res) s'.results
        ≡ some Note.blank
    pub backend : s'.backend ≡ committed.backend

  cause_of :
      (s s₁ : Session S) (tx : Transaction) (sent : Sent u s tx s₁)
      → (is_reverted s₁.backend.last_tx_res ≡ true)
        ⊎ (is_violation (output_of s₁.backend.last_tx_res) ≡ true)
      → HasReverted s.backend.last_tx_res sent.applied
        ⊎ (is_violation sent.applied.tracer.output ≡ true)
  cause_of s s₁ tx sent (inl reverted) = inl (
      reverted-HasReverted sent.applied s.backend.last_tx_res s₁.backend.last_tx_res sent.findings
        reverted)
  cause_of s s₁ tx sent (inr wrong) = inr (
      ap is_violation
        (sym (traced_output sent.applied.tracer s₁.backend.last_tx_res sent.findings.traced))
      ∙ wrong)

  concluded-Stopped :
      (again : Session S → Outcome (Bool × Session S)) (depth : ℕ) (tx : Transaction)
      (desc : LastTxInput) (s s₁ s' : Session S)
      → attempt u s ≡ some (tx, desc, s₁)
      → conclude u again depth tx desc s₁ ≡ returns (true, s')
      → Stopped s s'
  unfolding conclude
  concluded-Stopped again depth tx desc s s₁ s' attempted h =
      let (found, same) =
        finish-true (verdict u desc s₁) _ _ (reported u desc s₁) (counted u desc s₁) s' h in
      let ((property, failed), entry) =
        report-IsFailed desc s₁.backend.last_tx_res s₁.results found in
      let sent = attempt-Sent u s s₁ tx desc attempted in
      record {
        tx = tx;
        desc = desc;
        committed = s₁;
        attempted = attempted;
        sent = sent;
        property = property;
        cause = cause_of s s₁ tx sent failed;
        entry =
            ap
              (λ (z : Session S).
                noted desc.contract (failed_key desc s₁.backend.last_tx_res) z.results)
              same
            ∙ entry;
        backend = ap (λ (z : Session S). z.backend) same;
      }

  -- A call of `Rec` returns `true` only if the first transaction that it commits calls a method
  -- whose name begins with fuzz_always_true, and one of these holds: it was applied, and the least
  -- depth of a REVERT in its trace is 1; it could not be applied, and the transaction before had left
  -- that depth as 1; or its trace has an output of 32 bytes of which the last is not 1. Then the results
  -- have an entry for it, and nothing was done to the backend after the commit.
  pub rec-Stopped :
      (depth : ℕ) (s s' : Session S) → rec u depth s ≡ returns (true, s') → Stopped s s'
  unfolding rec
  rec-Stopped depth s s' h =
      let ((tx, desc, s₁), attempted, rest) = or_panic-returns (attempt u s) _ h in
      concluded-Stopped _ depth tx desc s s₁ s' attempted rest
