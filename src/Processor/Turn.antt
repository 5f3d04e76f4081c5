-- ===== src/Processor/Turn.antt =====
-- What one turn of the loop has done when it did not panic, field by field.
use chain_fuzz.Prelude.{
  ◌≡◌, refl, sym, ap, subst, ◌∙◌, Bool, true, false, Option, some, List, >>=-eq-some, if◌then◌else◌,
}
use mathlib.Core.Option.{some-injective}
use chain_fuzz.Backend.{StructLog, Options}
use chain_fuzz.Processor.{
  extract_timestamps, check_overflow, least_depth, assert_op, revert_op, follow_call, top, Chain,
  detect_deployment, mark_covered,
}
use chain_fuzz.Processor.Loop.{Progress, cover, turn}

-- The fields that coverage leaves alone.
pub record Kept (s s' : Progress) : Type 0 where
  pub pool : s'.pool ≡ s.pool
  pub overflow : s'.overflow ≡ s.overflow
  pub assertion : s'.assertion_at_depth ≡ s.assertion_at_depth
  pub revert : s'.revert_at_depth ≡ s.revert_at_depth

Kept-refl : (s : Progress) → Kept s s
Kept-refl s = record { pool = refl; overflow = refl; assertion = refl; revert = refl }

cover-Kept :
    (prev : Option StructLog) (log : StructLog) (s s' : Progress)
    → cover prev log s ≡ some s'
    → Kept s s'
unfolding cover
cover-Kept prev log s s' h =
    let (calls, _, h₁) = >>=-eq-some (follow_call prev log s.calls) _ h in
    let (pointer, _, h₂) = >>=-eq-some (top calls) _ h₁ in
    let (address, _, h₃) = >>=-eq-some pointer _ h₂ in
    let e : record s {
      calls = calls;
      opcode_indices = mark_covered address log.pc s.opcode_indices;
    }
        ≡ s' =
      some-injective _ _ h₃ in
    subst (Kept s) e (record { pool = refl; overflow = refl; assertion = refl; revert = refl })

cover_if-Kept :
    (b : Bool) (prev : Option StructLog) (log : StructLog) (s s' : Progress)
    → (if b then cover prev log s else some s) ≡ some s'
    → Kept s s'
cover_if-Kept true prev log s s' h = cover-Kept prev log s s' h
cover_if-Kept false prev log s s' h = subst (Kept s) (some-injective s s' h) (Kept-refl s)

-- A turn reads the stack for timestamps, checks the operation, and takes the least depths.
pub record Turned (options : Options) (log : StructLog) (rest : List StructLog) (s s' : Progress)
    : Type 0 where
  pub pool :
      (if options.extract_timestamps then extract_timestamps log.stack s.pool else some s.pool)
      ≡ some s'.pool
  pub overflow : check_overflow log rest s.overflow ≡ some s'.overflow
  pub assertion : s'.assertion_at_depth ≡ least_depth assert_op log s.assertion_at_depth
  pub revert : s'.revert_at_depth ≡ least_depth revert_op log s.revert_at_depth

module _ (chain : Chain) (options : Options) (update_coverage check_deployed : Bool) where
  pub turn-Turned :
      (prev : Option StructLog) (log : StructLog) (rest : List StructLog) (s s' : Progress)
      → turn chain options update_coverage check_deployed prev log rest s ≡ some s'
      → Turned options log rest s s'
  unfolding turn
  turn-Turned prev log rest s s' h =
      let (pool, read, h₁) =
        >>=-eq-some
          (if options.extract_timestamps then extract_timestamps log.stack s.pool else some s.pool)
          _ h in
      let (overflow, checked, h₂) = >>=-eq-some (check_overflow log rest s.overflow) _ h₁ in
      let s₁ : Progress = record s {
        pool = pool;
        overflow = overflow;
        assertion_at_depth = least_depth assert_op log s.assertion_at_depth;
        revert_at_depth = least_depth revert_op log s.revert_at_depth;
      } in
      let (s₂, covered, h₃) =
        >>=-eq-some (if update_coverage then cover prev log s₁ else some s₁) _ h₂ in
      let (deployed, _, h₄) =
        >>=-eq-some (detect_deployment chain check_deployed log s₂.deployed_contracts) _ h₃ in
      let kept : Kept s₁ s₂ = cover_if-Kept update_coverage prev log s₁ s₂ covered in
      let e : record s₂ { deployed_contracts = deployed } ≡ s' = some-injective _ _ h₄ in
      record {
        pool = read ∙ ap some (sym kept.pool ∙ ap (λ (t : Progress). t.pool) e);
        overflow = checked ∙ ap some (sym kept.overflow ∙ ap (λ (t : Progress). t.overflow) e);
        assertion = sym (ap (λ (t : Progress). t.assertion_at_depth) e) ∙ kept.assertion;
        revert = sym (ap (λ (t : Progress). t.revert_at_depth) e) ∙ kept.revert;
      }
