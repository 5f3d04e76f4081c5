-- ===== src/Processor/Overflows.antt =====
-- The overflow that is reported, against the arithmetic of the virtual machine.
use chain_fuzz.Prelude.{
  ℕ, nat_eq, int_eq, ◌≡◌, ◌↔◌, refl, sym, ap, ◌∙◌, Bool, false, ◌&&◌, ◌||◌, Option, none, some,
  String, List, [], ◌∷◌, >>=-eq-some, arith,
}
use mathlib.Core.Option.{some-injective}
use chain_fuzz.Values.{GoType, Value}
use chain_fuzz.TypedPools.{Iface}
use chain_fuzz.ArgPool.{ArgPool}
use chain_fuzz.Backend.{StructLog, Tracer, Report, Backend, Options}
use chain_fuzz.Processor.{check_overflow, Chain}
use chain_fuzz.Processor.Loop.{Progress, turn, turns, has_to, start_of, process_logs}
use chain_fuzz.Processor.Turn.{turn-Turned}
use chain_fuzz.Processor.Arithmetic.{Conforms, step_overflows, any_overflow, check_step}
use chain_fuzz.Processor.Whole.{process_logs-Processed}

once_found :
    (l : StructLog) (rest : List StructLog) (report : Report)
    → check_overflow l rest (some report) ≡ some (some report)
unfolding check_overflow
once_found l rest report = refl

last_clean :
    (l : StructLog) (found : Option Report) → check_overflow l [] none ≡ some found → found ≡ none
unfolding check_overflow
last_clean l found h = ground arith

or_false : (p q : Bool) → ((p || q) ≡ false) ↔ ((p ≡ false) × (q ≡ false))
or_false p q = ground arith

-- A report of this step or of the later ones.
combine :
    (l m : StructLog) (ls : List StructLog) (found final : Option Report)
    → (found ≡ none) ↔ (step_overflows l ≡ false)
    → ((found ≡ none) → (final ≡ none) ↔ (any_overflow (m ∷ ls) ≡ false))
    → ((report : Report) → found ≡ some report → final ≡ some report)
    → (final ≡ none) ↔ (any_overflow (l ∷ m ∷ ls) ≡ false)
combine l m ls none final step later kept =
    let first = step.0 refl in
    (
      λ h. (or_false (step_overflows l) (any_overflow (m ∷ ls))).1 (first, (later refl).0 h),
      λ h. (later refl).1 ((or_false (step_overflows l) (any_overflow (m ∷ ls))).0 h).1,
    )
combine l m ls (some report) final step later kept =
    let stays = kept report refl in
    (
      λ h. absurd (cc),
      λ h.
          absurd
            (differ report (step.1 ((or_false (step_overflows l) (any_overflow (m ∷ ls))).0 h).0)),
    )
  where
    differ : (r : Report) → ◌≡◌ {A = Option Report} (some r) none → ⊥
    differ r e = cc

module _ (chain : Chain) (options : Options) (update_coverage check_deployed : Bool) where
  kept_report :
      (prev : Option StructLog) (ls : List StructLog) (s s' : Progress) (report : Report)
      → s.overflow ≡ some report
      → turns chain options update_coverage check_deployed prev ls s ≡ some s'
      → s'.overflow ≡ some report
  unfolding turns
  kept_report prev [] s s' report e h =
      sym (ap (λ (t : Progress). t.overflow) (some-injective s s' h)) ∙ e
  kept_report prev (l ∷ ls) s s' report e h =
      let (s₁, first, rest) =
        >>=-eq-some (turn chain options update_coverage check_deployed prev l ls s) _ h in
      let t = turn-Turned chain options update_coverage check_deployed prev l ls s s₁ first in
      kept_report (some l) ls s₁ s' report
        (some-injective _ _ (sym t.overflow ∙ ap (check_overflow l ls) e ∙ once_found l ls report))
        rest

  turns-overflow :
      (prev : Option StructLog) (ls : List StructLog) (s s' : Progress)
      → s.overflow ≡ none
      → Conforms ls
      → turns chain options update_coverage check_deployed prev ls s ≡ some s'
      → (s'.overflow ≡ none) ↔ (any_overflow ls ≡ false)
  unfolding turns
  turns-overflow prev [] s s' e c h =
      (λ _. refl, λ _. sym (ap (λ (t : Progress). t.overflow) (some-injective s s' h)) ∙ e)
  turns-overflow prev (l ∷ []) s s' e c h =
      let (s₁, first, rest) =
        >>=-eq-some (turn chain options update_coverage check_deployed prev l [] s) _ h in
      let t = turn-Turned chain options update_coverage check_deployed prev l [] s s₁ first in
      (
        λ _. refl,
        λ _.
            sym (ap (λ (t : Progress). t.overflow) (some-injective s₁ s' rest))
            ∙ last_clean l s₁.overflow (ap (check_overflow l []) (sym e) ∙ t.overflow),
      )
  turns-overflow prev (l ∷ m ∷ ls) s s' e c h =
      let (s₁, first, rest) =
        >>=-eq-some (turn chain options update_coverage check_deployed prev l (m ∷ ls) s) _ h in
      let t = turn-Turned chain options update_coverage check_deployed prev l (m ∷ ls) s s₁ first in
      combine l m ls s₁.overflow s'.overflow
        (check_step l m ls s₁.overflow c.0 (ap (check_overflow l (m ∷ ls)) (sym e) ∙ t.overflow))
        (λ clean. turns-overflow (some l) (m ∷ ls) s₁ s' clean c.1 rest)
        (λ report found. kept_report (some l) (m ∷ ls) s₁ s' report found rest)

module _ (sprint : Iface → String) (unpack : List GoType → List ℕ → List Value) (chain : Chain)
    (to : Option ℕ) {S : Type 0} where
  -- Where `processLogs` is given options and does not panic, on a trace that follows the
  -- arithmetic of the virtual machine, it reports an overflow exactly if the exact result of
  -- some ADD, SUB, MUL or EXP before the last step is no word of 256 bits.
  pub process_logs-overflow :
      (o : Options) (tracer : Tracer) (pool pool' : Option ArgPool) (b b' : Backend S)
      → b.last_tx_res.struct_logger ≡ some tracer
      → Conforms tracer.logs
      → process_logs sprint unpack chain to pool (some o) b ≡ some (pool', b')
      → (b'.last_tx_res.overflow ≡ none) ↔ (any_overflow tracer.logs ≡ false)
  process_logs-overflow o tracer pool pool' b b' traced conforms h =
      let p = process_logs-Processed sprint unpack chain to o tracer pool pool' b b' traced h in
      let iff =
        turns-overflow chain o (o.update_coverage && has_to to) o.check_deployed_contract none
          tracer.logs (start_of to p.pool₁ b) p.final refl conforms p.looped in
      let e = ap (λ (t : Backend S). t.last_tx_res.overflow) p.stored in
      (λ k. iff.0 (sym e ∙ k), λ k. e ∙ iff.1 k)
