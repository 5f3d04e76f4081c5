-- ===== src/Fuzzer/Limit.antt =====
-- How many transactions the main loop commits (fuzzer/fuzzer.go).
use chain_fuzz.Prelude.{
  ℕ, zero, suc, List, String, ◌>>=◌, ◌+◌, ◌≤◌, ◌≡◌, ◌⊎◌, inl, inr, refl, Bool, true, false, ◌||◌,
  Option, none, some, arith, ltb,
}
use chain_fuzz.Prelude.Int.{pos_part}
use chain_fuzz.Prelude.Dict.{Dict, keys}
use chain_fuzz.Bytecode.{Text}
use chain_fuzz.Args.{Env}
use chain_fuzz.Backend.{Backend}
use chain_fuzz.Heuristics.{revert_backend}
use chain_fuzz.Heuristics.Rec.{Outcome, returns, or_panic, Session, Setup}
use chain_fuzz.Heuristics.Reports.{ResultsMap}
use chain_fuzz.Heuristics.Rec.Rounds.{and_then-returns, or_panic-returns}
use chain_fuzz.Heuristics.Rec.Counts.{rec-adds}
use chain_fuzz.Fuzzer.{
  Flags, fuzz_with, revert_if, go_on, main_loop, fuzz, settings, reset_count, empty_hint,
  corner_cases,
}

-- The most that a round adds: the transaction, and four with another sender.
abbrev pub per_round : Bool → ℕ
per_round true = 5
per_round false = 1

-- What the loop goes beyond its limit by at most.
abbrev pub overshoot : Bool → ℕ
overshoot true = 5
overshoot false = 0

module _ {S : Type 0} (u : Setup S) (no_half : u.opt_mode.retry_half_ether ≡ false) where
  revert_if-tx_count :
      (c : Bool) (s s' : Session S)
      → revert_if u c s ≡ some s'
      → s'.backend.tx_count ≡ s.backend.tx_count
  unfolding revert_backend
  revert_if-tx_count true s s' h = ground arith
  revert_if-tx_count false s s' h = ground arith

  round-adds :
      (s s' : Session S) (v : Bool)
      → fuzz_with u empty_hint s ≡ returns (v, s')
      → s'.backend.tx_count ≤ s.backend.tx_count + per_round u.opt_mode.retry_diff_sender
  round-adds s s' v h =
      let (_, hi) = rec-adds u 0 (record s { hint = empty_hint }) s' v no_half h in
      ground (arith, hi)

  -- The loop was left, or goes on within its limit.
  go_on-cases :
      (stop : Bool) (next : Session S → Outcome (Session S)) (c : Bool) (t s' : Session S)
      → go_on u stop next (revert_if u c t) t ≡ returns s'
      → (s'.backend.tx_count ≡ t.backend.tx_count)
        ⊎ ((stop ≡ false)
            × (t' : Session S) × (t'.backend.tx_count ≡ t.backend.tx_count)
            × (next t' ≡ returns s'))
  go_on-cases true next c t s' h = inl (ground arith)
  go_on-cases false next c t s' h =
      let (t', reverted, rest) = or_panic-returns (revert_if u c t) next h in
      inr (refl, t', revert_if-tx_count c t t' reverted, rest)

  stopped :
      (diff : Bool) (limit rounds before after final : ℕ)
      → final ≡ after
      → after ≤ before + per_round diff
      → before ≤ limit
      → (diff ≡ false → before + suc rounds ≤ limit)
      → final ≤ limit + overshoot diff
  stopped true limit rounds before after final same more within fits = omega arith
  stopped false limit rounds before after final same more within fits =
      let k = fits refl in omega arith

  main_loop-limit :
      (limit rounds i : ℕ) (s s' : Session S)
      → s.backend.tx_count ≤ limit
      → (u.opt_mode.retry_diff_sender ≡ false → s.backend.tx_count + rounds ≤ limit)
      → main_loop u limit rounds i s ≡ returns s'
      → s'.backend.tx_count ≤ limit + overshoot u.opt_mode.retry_diff_sender
  unfolding main_loop
  main_loop-limit limit zero i s s' within fits h = ground (arith, h)
  main_loop-limit limit (suc rounds) i s s' within fits h =
      let ((v, t), left, rest) = and_then-returns (fuzz_with u empty_hint s) _ h in
      let more = round-adds s t v left in
      elim (go_on-cases (v || ltb limit t.backend.tx_count) _ _ t s' rest) [
        | inl left_here ↦
            stopped u.opt_mode.retry_diff_sender limit rounds s.backend.tx_count t.backend.tx_count
              s'.backend.tx_count left_here more within fits
        | inr (goes, t', same, onwards) ↦
            main_loop-limit limit rounds (suc i) t' s' (ground (arith, goes, same))
              (λ one. ground (arith, fits one, more, one, same)) onwards
      ]

finished-tx_count :
    {S : Type 0} (m : Option ResultsMap) (s s' : Session S)
    → or_panic (m >>= λ r. some (record s { results = r })) ≡ returns s'
    → s'.backend.tx_count ≡ s.backend.tx_count
finished-tx_count none s s' h = cc
finished-tx_count (some r) s s' h = ground arith

-- Without `RetryHalfEther`, a run that returns has committed at most as many transactions in its main
-- loop as the limit says (a negative limit is none), and with `RetryDiffSender` at most five more.
pub fuzz-limit :
    {S : Type 0} (copy : S → S) (disassemble : Text → List ℕ) (codes : Dict String Text)
    (flags : Flags) (u : Setup S) (b : Backend S) (e : Env) (s : Session S)
    → flags.opt_mode.retry_half_ether ≡ false
    → fuzz copy disassemble codes flags u b e ≡ returns s
    → s.backend.tx_count ≤ pos_part flags.limit + overshoot flags.opt_mode.retry_diff_sender
unfolding fuzz
fuzz-limit copy disassemble codes flags u b e s no_half h =
    let u' = settings copy flags b u in
    let (s₁, _, h₁) = and_then-returns (corner_cases u' (keys b.deployed_contracts) _) _ h in
    let (s₂, looped, h₂) =
      and_then-returns
        (main_loop u' (pos_part flags.limit) (pos_part flags.limit) 0 (reset_count s₁)) _ h₁ in
    let same = finished-tx_count _ s₂ s h₂ in
    let fits =
      main_loop-limit u' no_half (pos_part flags.limit) (pos_part flags.limit) 0 (reset_count s₁) s₂
        (omega arith) (λ _. omega arith) looped in
    omega arith
