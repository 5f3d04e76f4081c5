-- ===== src/Fuzzer/Ready.antt =====
-- The argument pool during a run (fuzzer/fuzzer.go).
use chain_fuzz.Prelude.{
  ℕ, zero, suc, String, List, [], ◌∷◌, ◌>>=◌, ◌≡◌, sym, subst, Bool, true, false, ◌||◌, Option,
  none, some, arith, ltb, string_eq, ◌==◌, All,
}
use chain_fuzz.Prelude.Int.{pos_part}
use chain_fuzz.Prelude.Dict.{Dict, keys, lookup}
use chain_fuzz.Values.{GoType}
use chain_fuzz.ArgPool.Sessions.{IsReady}
use chain_fuzz.Args.Typing.{IsWellTyped}
use chain_fuzz.Bytecode.{Text}
use chain_fuzz.Args.{Env}
use chain_fuzz.Backend.{Backend}
use chain_fuzz.Generator.{Hint}
use chain_fuzz.Heuristics.{revert_backend}
use chain_fuzz.Heuristics.Rec.{Outcome, returns, or_panic, Session, Setup}
use chain_fuzz.Heuristics.Reports.{ResultsMap, is_property}
use chain_fuzz.Heuristics.Rec.Rounds.{and_then-returns, or_panic-returns}
use chain_fuzz.Heuristics.Rec.Ready.{HasReady, verdict-HasReady, left-HasReady, rec-KeepsReady}
use chain_fuzz.Fuzzer.{
  Flags, fuzz_with, unless, pay_methods, corner_case, unless_migrations, revert_if, go_on,
  main_loop, fuzz, settings, reset_count, empty_hint, fallback_hint, payment_hint, corner_cases,
}

module _ {S : Type 0} (u : Setup S)
    (fits : (types : List GoType) (output : List ℕ) → All IsWellTyped (u.unpack types output))
    (no_half : u.opt_mode.retry_half_ether ≡ false) where
  round-HasReady :
      (hint : Hint) (s s' : Session S) (v : Bool)
      → fuzz_with u hint s ≡ returns (v, s')
      → HasReady u fits s
      → HasReady u fits s'
  round-HasReady hint s s' v h r =
      rec-KeepsReady u fits 0 no_half (record s { hint = hint }) s' v h r

  unless-HasReady :
      (skip : Bool) (hint : Hint) (s s' : Session S) (v : Bool)
      → unless u skip (fuzz_with u hint) s ≡ returns (v, s')
      → HasReady u fits s
      → HasReady u fits s'
  unless-HasReady true hint s s' v h r = verdict-HasReady u fits s s' false v h r
  unless-HasReady false hint s s' v h r = round-HasReady hint s s' v h r

  pay_methods-HasReady :
      (contract : String) (methods : List String) (s s' : Session S)
      → pay_methods u contract methods s ≡ returns s'
      → HasReady u fits s
      → HasReady u fits s'
  unfolding pay_methods
  pay_methods-HasReady contract [] s s' h r = left-HasReady u fits s s' h r
  pay_methods-HasReady contract (method ∷ methods) s s' h r =
      let skip = u.world.is_payable contract method || is_property method in
      let ((v, t), paid, rest) =
        and_then-returns (unless u skip (fuzz_with u (payment_hint contract method)) s) _ h in
      pay_methods-HasReady contract methods t s' rest
        (unless-HasReady skip (payment_hint contract method) s t v paid r)

  corner_case-HasReady :
      (contract : String) (s s' : Session S)
      → corner_case u contract s ≡ returns s'
      → HasReady u fits s
      → HasReady u fits s'
  unfolding corner_case
  corner_case-HasReady contract s s' h r =
      let ((v, t), called, rest) = and_then-returns (fuzz_with u (fallback_hint contract) s) _ h in
      let (c, there, paid) =
        or_panic-returns (lookup contract t.backend.deployed_contracts) _ rest in
      pay_methods-HasReady contract c.methods t s' paid
        (round-HasReady (fallback_hint contract) s t v called r)

  unless_migrations-HasReady :
      (skip : Bool) (contract : String) (s s' : Session S)
      → unless_migrations u skip (corner_case u contract) s ≡ returns s'
      → HasReady u fits s
      → HasReady u fits s'
  unless_migrations-HasReady true contract s s' h r = left-HasReady u fits s s' h r
  unless_migrations-HasReady false contract s s' h r = corner_case-HasReady contract s s' h r

  corner_cases-HasReady :
      (contracts : List String) (s s' : Session S)
      → corner_cases u contracts s ≡ returns s'
      → HasReady u fits s
      → HasReady u fits s'
  unfolding corner_cases
  corner_cases-HasReady [] s s' h r = left-HasReady u fits s s' h r
  corner_cases-HasReady (contract ∷ contracts) s s' h r =
      let (t, first, rest) =
        and_then-returns (unless_migrations u (contract == "Migrations") (corner_case u contract) s)
          _ h in
      corner_cases-HasReady contracts t s' rest
        (unless_migrations-HasReady (contract == "Migrations") contract s t first r)

  revert_if-env : (c : Bool) (s s' : Session S) → revert_if u c s ≡ some s' → s'.env ≡ s.env
  unfolding revert_backend
  revert_if-env true s s' h = ground arith
  revert_if-env false s s' h = ground arith

  go_on-HasReady :
      (stop : Bool) (next : Session S → Outcome (Session S)) (c : Bool) (t s' : Session S)
      → ((t' : Session S) → next t' ≡ returns s' → HasReady u fits t' → HasReady u fits s')
      → go_on u stop next (revert_if u c t) t ≡ returns s'
      → HasReady u fits t
      → HasReady u fits s'
  go_on-HasReady true next c t s' more h r = left-HasReady u fits t s' h r
  go_on-HasReady false next c t s' more h r =
      let (t', reverted, rest) = or_panic-returns (revert_if u c t) next h in
      more t' rest
        (subst (λ (e : Env). IsReady u.sprint e.pool) (sym (revert_if-env c t t' reverted)) r)

  main_loop-HasReady :
      (limit rounds i : ℕ) (s s' : Session S)
      → main_loop u limit rounds i s ≡ returns s'
      → HasReady u fits s
      → HasReady u fits s'
  unfolding main_loop
  main_loop-HasReady limit zero i s s' h r = left-HasReady u fits s s' h r
  main_loop-HasReady limit (suc rounds) i s s' h r =
      let ((v, t), left, rest) = and_then-returns (fuzz_with u empty_hint s) _ h in
      go_on-HasReady (v || ltb limit t.backend.tx_count) (main_loop u limit rounds (suc i)) _ t s'
        (λ t' onwards. main_loop-HasReady limit rounds (suc i) t' s' onwards) rest
        (round-HasReady empty_hint s t v left r)

finished-env :
    {S : Type 0} (m : Option ResultsMap) (s s' : Session S)
    → or_panic (m >>= λ r. some (record s { results = r })) ≡ returns s'
    → s'.env ≡ s.env
finished-env none s s' h = cc
finished-env (some r) s s' h = ground arith

-- Without `RetryHalfEther`, if the argument pool is ready at the start, and outputs are unpacked into
-- values of their types, then the pool is ready after every run that returns: valid, without an item
-- twice, and with an address and a big integer to hand out.
pub fuzz-IsReady :
    {S : Type 0} (copy : S → S) (disassemble : Text → List ℕ) (codes : Dict String Text)
    (flags : Flags) (u : Setup S) (b : Backend S) (e : Env) (s : Session S)
    → ((types : List GoType) (output : List ℕ) → All IsWellTyped (u.unpack types output))
    → flags.opt_mode.retry_half_ether ≡ false
    → IsReady u.sprint e.pool
    → fuzz copy disassemble codes flags u b e ≡ returns s
    → IsReady u.sprint s.env.pool
unfolding fuzz
fuzz-IsReady copy disassemble codes flags u b e s fits no_half r h =
    let u' = settings copy flags b u in
    let (s₁, cornered, h₁) = and_then-returns (corner_cases u' (keys b.deployed_contracts) _) _ h in
    let (s₂, looped, h₂) =
      and_then-returns
        (main_loop u' (pos_part flags.limit) (pos_part flags.limit) 0 (reset_count s₁)) _ h₁ in
    subst (λ (e : Env). IsReady u.sprint e.pool) (sym (finished-env _ s₂ s h₂))
      (main_loop-HasReady u' fits no_half (pos_part flags.limit) (pos_part flags.limit) 0
        (reset_count s₁) s₂ looped
        (corner_cases-HasReady u' fits no_half (keys b.deployed_contracts) _ s₁ cornered r))
