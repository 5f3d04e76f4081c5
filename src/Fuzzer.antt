-- ===== src/Fuzzer.antt =====
-- A run of the fuzzer (fuzzer/fuzzer.go): the command line flags, the first transactions for corner
-- cases, the main loop, and the coverage. What is printed, logged and profiled is left out.
pub mod Limit
pub mod Ready
pub mod Corner
pub mod Drawn
use Prim.Native.Nat.{bit_and}
use chain_fuzz.Prelude.{
  ℕ, zero, suc, ◌+◌, ◌*◌, string_eq, nat_eq, Bool, true, false, not, ◌&&◌, ◌||◌, Option, none, some,
  String, List, [], ◌∷◌, length, get_elem?, ◌==◌, ◌>>=◌, ltb, nat_beq, if◌then◌else◌,
}
use chain_fuzz.Prelude.Int.{ℤ, pos, negsuc, pos_part}
use chain_fuzz.Prelude.Dict.{Dict, keys, lookup, contains}
use chain_fuzz.Bytecode.{Text, get_opcode_indices}
use chain_fuzz.Args.{Env}
use chain_fuzz.Backend.{Backend, Contract, Options}
use chain_fuzz.Generator.{Hint}
use chain_fuzz.Heuristics.{OptMode, no_flags, set_flag, snapshot_backend, revert_backend}
use chain_fuzz.Heuristics.Rec.{
  Outcome, returns, panics, out_of_fuel, and_then, or_panic, Session, Setup, rec,
}
use chain_fuzz.Heuristics.Reports.{Note, ResultsMap, row, store, is_property}

-- What the command line gives. The bits of `-o` are a number; an `int` that may be negative is a ℤ.
pub record Context : Type 0 where
  pub metadata : String
  pub contract : String
  pub limit : ℤ
  pub optimizations : ℕ
  pub interactive : Bool
  pub accounts : ℤ
  pub log_level : ℤ

pub record Flags : Type 0 where
  pub metadata : String
  pub contract : String
  pub limit : ℤ
  pub interactive : Bool
  pub opt_mode : OptMode
  pub accounts : ℤ
  pub log_level : ℤ

-- `none` is `os.Exit(1)`.
unfoldable pub get_cl_flags : Context → Option Flags
get_cl_flags ctx =
    if ctx.metadata == ""
    then none
    else some (record {
      metadata = ctx.metadata;
      contract = ctx.contract;
      limit = ctx.limit;
      interactive = ctx.interactive;
      opt_mode = set_flag ctx.optimizations no_flags;
      accounts = ctx.accounts;
      log_level = ctx.log_level;
    })

-- `&utils.Hint{}`, and the hints for a fallback and for ether that a method does not take.
abbrev pub empty_hint : Hint
empty_hint = record {
  contract = "";
  method = "";
  args = none;
  amount = none;
  sender = none;
  fallback = false;
}

abbrev pub fallback_hint : String → Hint
fallback_hint contract = record empty_hint { contract = contract; fallback = true }

abbrev pub payment_hint : String → String → Hint
payment_hint contract method = record empty_hint {
  contract = contract;
  method = method;
  amount = some (pos 1);
}

-- The options of the transactions of a run.
abbrev pub run_options : Options
run_options = record {
  update_coverage = true;
  check_deployed_contract = false;
  update_arg_pool = true;
  extract_timestamps = false;
}

module _ {S : Type 0} where
  module _ (u : Setup S) where
    -- `utils.Rec(backend, argPool, hint, …, 0)`
    abbrev pub fuzz_with : Hint → Session S → Outcome (Bool × Session S)
    fuzz_with hint s = rec u 0 (record s { hint = hint })

    abbrev pub ignoring :
        Outcome (Bool × Session S) → (Session S → Outcome (Session S)) → Outcome (Session S)
    ignoring r go = and_then r (λ (p : Bool × Session S). go p.1)

    -- A call that is skipped changes nothing.
    abbrev pub unless :
        Bool → (Session S → Outcome (Bool × Session S)) → Session S → Outcome (Bool × Session S)
    unless true go s = returns (false, s)
    unless false go s = go s

    -- Ether for the methods that are not payable, properties excepted.
    unfoldable pub pay_methods : String → List String → Session S → Outcome (Session S)
    pay_methods contract [] s = returns s
    pay_methods contract (method ∷ methods) s =
        ignoring
          (unless (u.world.is_payable contract method || is_property method)
            (fuzz_with (payment_hint contract method)) s)
          (pay_methods contract methods)

    -- The fallback, then the methods that the contract has by then.
    unfoldable pub corner_case : String → Session S → Outcome (Session S)
    corner_case contract s = ignoring (fuzz_with (fallback_hint contract) s) (λ t.
        and_then (or_panic (lookup contract t.backend.deployed_contracts))
          (λ (c : Contract). pay_methods contract c.methods t))

    abbrev pub unless_migrations :
        Bool → (Session S → Outcome (Session S)) → Session S → Outcome (Session S)
    unless_migrations true go s = returns s
    unless_migrations false go s = go s

    -- The range over `DeployedContracts`, which comes in any order and does not change here.
    unfoldable pub corner_cases : List String → Session S → Outcome (Session S)
    corner_cases [] s = returns s
    corner_cases (contract ∷ contracts) s =
        and_then (unless_migrations (contract == "Migrations") (corner_case contract) s)
          (corner_cases contracts)

    -- `if flags.OptMode.SnapshotsEnabled && (i&8192 != 0) { RevertBackend(backend) }`
    abbrev pub revert_if : Bool → Session S → Option (Session S)
    revert_if true s = do b ← revert_backend u.snapshot s.backend; some (record s { backend = b })
    revert_if false s = some s

    -- The end of a round: `break`, or the next one.
    abbrev pub go_on :
        Bool
        → (Session S → Outcome (Session S))
        → Option (Session S)
        → Session S
        → Outcome (Session S)
    go_on true next reverted s = returns s
    go_on false next reverted s = and_then (or_panic reverted) next

    -- `for i := …; i < limit; i++` with the rounds that are left.
    unfoldable pub main_loop : ℕ → ℕ → ℕ → Session S → Outcome (Session S)
    main_loop limit zero i s = returns s
    main_loop limit (suc rounds) i s = and_then (fuzz_with empty_hint s) (λ (r : Bool × Session S).
        go_on (r.0 || ltb limit r.1.backend.tx_count) (main_loop limit rounds (suc i))
          (revert_if (u.opt_mode.snapshots_enabled && not (nat_beq (bit_and i 8192) 0)) r.1) r.1)

  -- `getCoverage`: how many instructions are covered, of how many. `codes` are the deployed
  -- bytecodes; a contract without one reads the empty text.
  unfoldable pub get_coverage :
      (Text → List ℕ) → Dict String Text → String → Backend S → Option (ℕ × ℕ)
  get_coverage disassemble codes contract b = do
    indices ←
        get_opcode_indices disassemble
          (elim (lookup contract codes) [ none ↦ [] | some code ↦ code ])
    target ← lookup contract b.deployed_contracts
    address ← get_elem? target.addresses 0
    let covered : Dict ℕ Bool = elim (lookup address b.opcode_indices) [ none ↦ [] | some at ↦ at ]
    some (length covered, length indices)

  -- `result[contract]["covered"]`, with a division by the number of all instructions.
  unfoldable pub add_coverage :
      (Text → List ℕ) → Dict String Text → Backend S → List String → ResultsMap → Option ResultsMap
  add_coverage disassemble codes b [] r = some r
  add_coverage disassemble codes b (contract ∷ contracts) r =
      let measured = (do
        (covered, total) ← get_coverage disassemble codes contract b
        (if nat_beq total 0
            then none
            else some (store contract "covered" (Note.coverage covered total) r))) in
      let step = if contains contract r then measured else some r in
      step >>= add_coverage disassemble codes b contracts

  -- The settings of a run on a backend: its options, and the snapshot that is taken first.
  abbrev pub settings : (S → S) → Flags → Backend S → Setup S → Setup S
  settings copy flags b u = record u {
    options = run_options;
    opt_mode = flags.opt_mode;
    snapshot = snapshot_backend copy b;
  }

  -- `TxCount` is set to 0 before it is added to the limit.
  abbrev pub reset_count : Session S → Session S
  reset_count s = record s { backend = record s.backend { tx_count = 0 } }

  -- `fuzz` from a backend as `NewBackend` makes it, up to the printing of the result.
  unfoldable pub fuzz :
      (S → S)
      → (Text → List ℕ)
      → Dict String Text
      → Flags
      → Setup S
      → Backend S
      → Env
      → Outcome (Session S)
  fuzz copy disassemble codes flags u b e =
      let u' = settings copy flags b u in
      let start : Session S = record { backend = b; env = e; hint = empty_hint; results = [] } in
      and_then (corner_cases u' (keys b.deployed_contracts) start) (λ (s₁ : Session S).
        and_then (main_loop u' (pos_part flags.limit) (pos_part flags.limit) 0 (reset_count s₁))
          (λ (s₂ : Session S). or_panic (do
            r ←
                add_coverage disassemble codes s₂.backend (keys s₂.backend.deployed_contracts)
                  s₂.results
            some (record s₂ { results = r }))))
