-- ===== src/Tests/Runs.antt =====
-- A small chain to run on: every call of a property reverts, and all other calls succeed.
use chain_fuzz.Contracts.{get_random_contract, get_random_method}
use chain_fuzz.Processor.Loop.{cover, harvest, process_logs, run_loop, turn, turns}
use chain_fuzz.Timestamps.{get_current}
use chain_fuzz.Prelude.{
  ℕ, nat_eq, string_eq, int_eq, list_eq, ◌≤◌, ◌+◌, ◌≡◌, ◌≢◌, refl, Bool, true, false, Option, none,
  some, String, ◌==◌, List, [], ◌∷◌, if◌then◌else◌,
}
use chain_fuzz.Prelude.Int.{ℤ, pos, negsuc}
use chain_fuzz.Prelude.Dict.{Dict}
use chain_fuzz.Pool
use chain_fuzz.TypedPools.{Iface}
use chain_fuzz.Values.{Value}
use chain_fuzz.ArgPool.{current_timestamp}
use chain_fuzz.ArgPool.Globals.{new_arg_pool}
use chain_fuzz.Args.{Env, construct_args}
use chain_fuzz.Bytecode.{
  Text, bzzr0, get_opcode_indices, hex, last_index, replace_from, replace_place_holders, slice,
}
use chain_fuzz.Backend.{StructLog, Backend, from_top}
use chain_fuzz.Processor.{
  Chain, revert_op, check_overflow, detect_deployment, extract_timestamps, follow_call, least_depth,
  mark_covered, operators, pop, push, top,
}
use chain_fuzz.Commit.{Evm, commit_transaction}
use chain_fuzz.Generator.{
  Transaction, World, arguments, choose_amount, choose_sender, gen_transaction, given_or,
}
use chain_fuzz.Stats.{no_stats, inc_tx_cnt}
use chain_fuzz.Heuristics.{OptMode, no_flags, gen_timestamp}
use chain_fuzz.Heuristics.Rec.{
  Outcome, returns, panics, out_of_fuel, Session, Setup, rec, after_attempt, conclude, attempt,
  count_tx, retries,
}
use chain_fuzz.Heuristics.Reports.{
  report, report_assertion, report_overflow, report_property, store,
}
use chain_fuzz.Heuristics.Rec.Terminates.{rec-ends}
use chain_fuzz.Heuristics.Rec.Verdict.{Stopped, rec-Stopped}
use chain_fuzz.Fuzzer.{
  Flags, run_options, empty_hint, fuzz, corner_case, add_coverage, corner_cases, get_coverage,
  main_loop, pay_methods,
}
use chain_fuzz.Fuzzer.Limit.{fuzz-limit, overshoot}
use chain_fuzz.Fuzzer.Corner.{corner_case-panics}

abbrev pub print : Iface → String
print _ = "item"

abbrev chain : Chain
chain = record { name_of_hash = λ _. none; deployed_address = none }

-- The data of a call of a property is one byte, 1.
abbrev packed : String → String → List Value → Option (List ℕ)
packed contract method args = if method == "fuzz_always_true" then some (1 ∷ []) else some []

abbrev world : World ℕ
world = record {
  method_of = λ _ _. some (record { inputs = []; outputs = []; is_const = false });
  is_payable = λ _ _. false;
  pack = packed;
  has_key = λ _. true;
  random_account = λ _. some 7;
  balance = λ _ _. pos 100;
  nonce = λ s _. s;
}

abbrev revert_log : StructLog
revert_log = record { op = revert_op; pc = 0; depth = 1; stack = []; memory = [] }

abbrev evm : Transaction → Option ℤ → Evm ℕ
evm tx time = record {
  apply = λ s. record {
    state = s + 1;
    tracer = record { output = []; logs = elim tx.input [ [] ↦ [] | _ ∷ _ ↦ revert_log ∷ [] ] };
    failed = false;
  };
  restore = λ s _. s;
}

abbrev pub setup : OptMode → Setup ℕ
setup mode = record {
  sprint = print;
  unpack = λ _ _. [];
  chain = chain;
  world = world;
  rand = λ n. n;
  evm = evm;
  clock = λ n. n;
  snapshot = some 0;
  options = run_options;
  opt_mode = mode;
  is_shared = λ _ _. false;
}

abbrev pub bank : List String → Backend ℕ
bank methods = record {
  state = 0;
  deployed_contracts = ("Bank", record { addresses = 42 ∷ []; methods = methods }) ∷ [];
  contracts_list = "Bank" ∷ [];
  last_tx_in = none;
  last_tx_res = record {
    output = [];
    revert_at_depth = negsuc 0;
    assertion_at_depth = negsuc 0;
    overflow = none;
    struct_logger = none;
  };
  opcode_indices = [];
  stats = no_stats;
  tx_count = 0;
}

abbrev env : Env
env = record { pool = new_arg_pool Pool.empty Pool.empty; drawn = 0 }

abbrev pub session : List String → Session ℕ
session methods = record { backend = bank methods; env = env; hint = empty_hint; results = [] }

abbrev both_retries : OptMode
both_retries = record no_flags { retry_half_ether = true; retry_diff_sender = true }

rec-ends_example :
    (rec (setup both_retries) 0 (session ("get" ∷ []))
      ≡ after_attempt
          (setup both_retries)
          (conclude (setup both_retries) (rec (setup both_retries) 1) 0)
          (session ("get" ∷ [])))
    × (rec (setup both_retries) 0 (session ("get" ∷ [])) ≢ out_of_fuel)
rec-ends_example = rec-ends (setup both_retries) 0 (session ("get" ∷ []))

corner_case-panics_example : corner_case (setup no_flags) "Bank" (session []) ≡ panics
corner_case-panics_example =
    corner_case-panics (setup no_flags) "Bank" (record { addresses = 42 ∷ []; methods = [] })
      (session []) refl refl refl

abbrev pub fuzz_flags : Flags
fuzz_flags = record {
  metadata = "metadata.json";
  contract = "";
  limit = pos 2;
  interactive = false;
  opt_mode = no_flags;
  accounts = pos 1;
  log_level = pos 3;
}

-- The session that a call leaves.
abbrev left_by : Outcome (Bool × Session ℕ) → Session ℕ
left_by (returns (v, s)) = s
left_by _ = session []

abbrev failing : Outcome (Bool × Session ℕ)
failing = rec (setup no_flags) 0 (session ("fuzz_always_true" ∷ []))

stops_here : failing ≡ returns (true, left_by failing)
unfolding rec conclude attempt report report_overflow report_assertion report_property store retries
    count_tx gen_timestamp current_timestamp gen_transaction given_or arguments choose_sender
    choose_amount get_random_contract get_random_method construct_args commit_transaction
    process_logs harvest run_loop turns turn cover check_overflow extract_timestamps follow_call
    mark_covered least_depth push pop top detect_deployment operators get_current inc_tx_cnt
    from_top
stops_here = refl

rec-Stopped_example : Stopped (setup no_flags) (session ("fuzz_always_true" ∷ [])) (left_by failing)
rec-Stopped_example =
    rec-Stopped (setup no_flags) 0 (session ("fuzz_always_true" ∷ [])) (left_by failing) stops_here

-- Two hexadecimal digits before the swarm hash.
abbrev pub codes : Dict String Text
codes = ("Bank", b'0' ∷ b'0' ∷ bzzr0) ∷ []

abbrev run : Outcome (Session ℕ)
run = fuzz (λ s. s) (λ _. 0 ∷ []) codes fuzz_flags (setup no_flags) (bank ("get" ∷ [])) env

abbrev pub end_of : Outcome (Session ℕ) → Session ℕ
end_of (returns s) = s
end_of _ = session []

finishes : run ≡ returns (end_of run)
unfolding rec conclude attempt report report_overflow report_assertion report_property store retries
    count_tx gen_timestamp current_timestamp gen_transaction given_or arguments choose_sender
    choose_amount get_random_contract get_random_method construct_args commit_transaction
    process_logs harvest run_loop turns turn cover check_overflow extract_timestamps follow_call
    mark_covered least_depth push pop top detect_deployment operators get_current inc_tx_cnt
    from_top fuzz corner_cases corner_case pay_methods main_loop add_coverage get_coverage
    get_opcode_indices bzzr0 hex last_index slice replace_place_holders replace_from
finishes = refl

fuzz-limit_example : (end_of run).backend.tx_count ≤ 2 + overshoot false
fuzz-limit_example =
    fuzz-limit (λ s. s) (λ _. 0 ∷ []) codes fuzz_flags (setup no_flags) (bank ("get" ∷ [])) env
      (end_of run) refl finishes
