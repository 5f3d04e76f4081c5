-- ===== src/Tests/Draws.antt =====
-- A transaction that is drawn.
use chain_fuzz.Prelude.{
  ℕ, ◌⊎◌, All, nat_eq, string_eq, list_eq, ◌≡◌, refl, true, some, none, [], ◌∷◌, arith, false,
  get_elem?,
}
use chain_fuzz.Prelude.Int.{ℤ, pos, leb_ℤ}
use chain_fuzz.Pool
use chain_fuzz.TypedPools.{Iface}
use chain_fuzz.ArgPool.{ArgPool, current_timestamp, add_address, add_big_int}
use chain_fuzz.ArgPool.Globals.{new_arg_pool}
use chain_fuzz.ArgPool.Valid
use chain_fuzz.ArgPool.Sessions.{IsReady}
use chain_fuzz.Values.{int8, bool}
use chain_fuzz.Args.{construct_args}
use chain_fuzz.Args.Init.{fresh-IsValid}
use chain_fuzz.Stats.{no_stats, inc_tx_cnt}
use chain_fuzz.Backend.{Backend, from_top}
use chain_fuzz.Contracts.Ignore.{IsWell}
use chain_fuzz.Generator.{
  Method, World, arguments, choose_amount, choose_sender, draw_amount, gen_transaction, given_or,
}
use chain_fuzz.Contracts.{get_random_contract, get_random_method}
use chain_fuzz.Processor.Loop.{cover, harvest, process_logs, run_loop, turn, turns}
use chain_fuzz.Timestamps.{get_current}
use chain_fuzz.Bytecode.{
  bzzr0, get_opcode_indices, hex, last_index, replace_from, replace_place_holders, slice,
}
use chain_fuzz.Processor.{
  check_overflow, detect_deployment, extract_timestamps, follow_call, least_depth, mark_covered,
  operators, pop, push, top,
}
use chain_fuzz.Commit.{commit_transaction}
use chain_fuzz.Heuristics.{no_flags, gen_timestamp}
use chain_fuzz.Heuristics.Rec.{Outcome, returns, Session, rec, conclude, attempt, count_tx, retries}
use chain_fuzz.Heuristics.Reports.{
  report, report_assertion, report_overflow, report_property, store,
}
use chain_fuzz.Generator.Endless.{IsBeyond, GoesOn, draw_amount-cases}
use chain_fuzz.Startup.{no_result}
use chain_fuzz.Tests.Runs.{print, setup, bank, fuzz_flags, codes, end_of}
use chain_fuzz.Fuzzer.Ready.{fuzz-IsReady}
use chain_fuzz.Fuzzer.{
  fuzz, corner_cases, corner_case, pay_methods, main_loop, add_coverage, get_coverage,
}
use chain_fuzz.Fuzzer.Drawn.{IsServed, Made, gen_transaction-Made}

abbrev small : ArgPool
small = add_big_int print (pos 3) (add_address print 42 (new_arg_pool Pool.empty Pool.empty))

small-IsReady : IsReady print small
unfolding add_address add_big_int Pool.contains_item Pool.add
small-IsReady = record {
  valid =
      Valid.add_big_int-IsValid print (Valid.add_address-IsValid print (fresh-IsValid print) 42)
        (pos 3);
  some_address = omega arith;
  some_big_int = omega arith;
}

small_stored : get_elem? small.big_ints.storage 0 ≡ some (Iface.big_int (pos 3))
unfolding add_address add_big_int Pool.contains_item Pool.add
small_stored = refl

abbrev pay : Method
pay = record { inputs = int8 ∷ bool ∷ []; outputs = []; is_const = false }

abbrev world : World ℕ
world = record {
  method_of = λ _ _. some pay;
  is_payable = λ _ _. true;
  pack = λ _ _ _. some (1 ∷ []);
  has_key = λ _. true;
  random_account = λ _. some 7;
  balance = λ _ _. pos 100;
  nonce = λ s _. s;
}

abbrev backend : Backend ℕ
backend = record {
  state = 5;
  deployed_contracts = ("Bank", record { addresses = 42 ∷ []; methods = "pay" ∷ [] }) ∷ [];
  contracts_list = "Bank" ∷ [];
  last_tx_in = none;
  last_tx_res = no_result;
  opcode_indices = [];
  stats = no_stats;
  tx_count = 0;
}

backend-IsWell : IsWell backend
backend-IsWell = record {
  distinct = refl;
  known = λ c h. ground (arith, h);
  methods = λ c. ground arith;
}

backend-IsServed : IsServed world (λ n. n) print backend
backend-IsServed = record {
  has_methods = λ c h. ground (arith, h);
  address = λ c h. (42, ground (arith, h));
  method = λ c m h k. (pay, refl, (tt, (tt, tt)), λ vs typed well. (1 ∷ [], refl));
  account = λ r. (7, refl);
}

gen_transaction-Made_example :
    Made world (λ n. n) print backend (record { pool = small; drawn = 0 })
gen_transaction-Made_example =
    gen_transaction-Made world (λ n. n) print backend (record { pool = small; drawn = 0 }) 0 (pos 3)
      small-IsReady backend-IsWell (omega arith) backend-IsServed small_stored (λ sender. refl)

-- A run from that pool.
abbrev pooled : Outcome (Session ℕ)
pooled =
    fuzz (λ s. s) (λ _. 0 ∷ []) codes fuzz_flags (setup no_flags) (bank ("get" ∷ []))
      (record { pool = small; drawn = 0 })

pooled_finishes : pooled ≡ returns (end_of pooled)
unfolding add_address add_big_int Pool.contains_item Pool.add rec conclude attempt report
    report_overflow report_assertion report_property store retries count_tx gen_timestamp
    current_timestamp gen_transaction given_or arguments choose_sender choose_amount
    get_random_contract get_random_method construct_args commit_transaction process_logs harvest
    run_loop turns turn cover check_overflow extract_timestamps follow_call mark_covered least_depth
    push pop top detect_deployment operators get_current inc_tx_cnt from_top fuzz corner_cases
    corner_case pay_methods main_loop add_coverage get_coverage get_opcode_indices bzzr0 hex
    last_index slice replace_place_holders replace_from
pooled_finishes = refl

fuzz-IsReady_example : IsReady print (end_of pooled).env.pool
fuzz-IsReady_example =
    fuzz-IsReady (λ s. s) (λ _. 0 ∷ []) codes fuzz_flags (setup no_flags) (bank ("get" ∷ []))
      (record { pool = small; drawn = 0 }) (end_of pooled) (λ types output. tt) refl small-IsReady
      pooled_finishes

draw_amount-cases_example :
    ((x : ℤ) × (a' : ArgPool) × (draw_amount 1 (pos 2) small ≡ some (x, a'))
      × (leb_ℤ x (pos 2) ≡ true))
    ⊎ (All (IsBeyond print (pos 2)) small.big_ints.storage
        × ((n : ℕ) → GoesOn print (pos 2) small n)
        × ((fuel : ℕ) → draw_amount fuel (pos 2) small ≡ none))
unfolding add_address add_big_int Pool.contains_item Pool.add
draw_amount-cases_example =
    draw_amount-cases print (pos 2) small small-IsReady.valid small-IsReady.some_big_int
