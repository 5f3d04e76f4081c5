-- ===== src/Tests/Traces.antt =====
-- A concrete trace: two words whose sum wraps round, and a failed assertion one call deeper.
use chain_fuzz.Prelude.{
  nat_eq, int_eq, ◌+◌, ◌-◌, ◌^◌, ◌≡◌, refl, Bool, true, false, Option, none, some, List, [], ◌∷◌,
  arith, All, inl, inr, ℕ,
}
use chain_fuzz.Prelude.Int.{pos, negsuc}
use mathlib.Core.Logic.{◌↔◌}
use chain_fuzz.Stats.{no_stats}
use chain_fuzz.Backend.{from_top, StructLog, Tracer, Backend, Options}
use chain_fuzz.Processor.{
  Chain, add_op, assert_op, check_overflow, operators, least_depth, follow_call, push, pop, top,
  detect_deployment, mark_covered,
}
use chain_fuzz.Processor.Loop.{process_logs, run_loop, turn, turns, harvest, cover}
use chain_fuzz.Processor.Arithmetic.{Conforms, any_overflow, evm_result, is_arith}
use chain_fuzz.Pool
use chain_fuzz.ArgPool.{ArgPool}
use chain_fuzz.ArgPool.Globals.{new_arg_pool}
use chain_fuzz.Processor.Coverage.{is_covered}
use chain_fuzz.Processor.Steps.{IsTrace}
use chain_fuzz.Processor.Total.{process_logs_total}
use chain_fuzz.Commit.{Evm}
use chain_fuzz.Processor.Overflows.{process_logs-overflow}

abbrev log : ℕ → ℕ → List ℕ → StructLog
log op depth stack = record { op = op; pc = 0; depth = depth; stack = stack; memory = [] }

abbrev largest : ℕ
largest = 2 ^ 256 - 1

abbrev call_op : ℕ
call_op = 0xf1

abbrev logs : List StructLog
logs = log add_op 1 (2 ∷ largest ∷ []) ∷ log call_op 1 (42 ∷ 1 ∷ []) ∷ log assert_op 2 [] ∷ []

abbrev trace : Tracer
trace = record { output = []; logs = logs }

abbrev before : Backend Unit
before = record {
  state = tt;
  deployed_contracts = [];
  contracts_list = [];
  last_tx_in = none;
  last_tx_res = record {
    output = [];
    revert_at_depth = negsuc 0;
    assertion_at_depth = negsuc 0;
    overflow = none;
    struct_logger = some trace;
  };
  opcode_indices = [];
  stats = no_stats;
  tx_count = 0;
}

abbrev chain : Chain
chain = record { name_of_hash = λ hash. none; deployed_address = none }

abbrev options : Options
options = record {
  update_coverage = true;
  check_deployed_contract = false;
  update_arg_pool = false;
  extract_timestamps = false;
}

abbrev processed : Option (Option ArgPool × Backend Unit)
processed = process_logs (λ item. "") (λ types output. []) chain (some 7) none (some options) before

abbrev after : Backend Unit
after = record before {
  last_tx_res = record {
    output = [];
    revert_at_depth = negsuc 0;
    assertion_at_depth = pos 2;
    overflow = some (record {
      operand_a = largest;
      op = add_op;
      operand_b = 2;
      result = 1;
      expected = pos (2 ^ 256 + 1);
    });
    struct_logger = some trace;
  };
  opcode_indices = (7, (0, true) ∷ []) ∷ (42, (0, true) ∷ []) ∷ [];
}

processed_run : processed ≡ some (none, after)
unfolding process_logs run_loop turns turn harvest cover follow_call push pop top mark_covered
    from_top detect_deployment check_overflow operators least_depth
processed_run = refl

logs-Conforms : Conforms logs
unfolding is_arith evm_result from_top
logs-Conforms =
    ((λ h. (largest, 2, refl, refl, omega arith, omega arith, refl)), ((λ h. absurd (cc)), tt))

process_logs-overflow_example : (after.last_tx_res.overflow ≡ none) ↔ (any_overflow logs ≡ false)
process_logs-overflow_example =
    process_logs-overflow (λ item. "") (λ types output. []) chain (some 7) options trace none none
      before after refl logs-Conforms processed_run

logs-IsTrace : IsTrace chain 1 none logs
unfolding is_arith from_top
logs-IsTrace = (
  refl,
  (λ h. (largest, 2, refl, refl, (1, refl))),
  (λ h. absurd (omega arith)),
  (
    (omega arith, inl refl),
    (λ h. absurd (cc)),
    (λ h. absurd (omega arith)),
    (
      (omega arith, inr (inl (refl, 42, refl))),
      (λ h. absurd (cc)),
      (λ h. absurd (omega arith)),
      tt,
    ),
  ),
)

abbrev fresh : ArgPool
fresh = new_arg_pool Pool.empty Pool.empty

process_logs_total_example :
    (a' : ArgPool) × (b' : Backend Unit) × (process_logs
        (λ item. "")
        (λ types output. [])
        chain
        (some 7)
        (some fresh)
        (some options)
        before
      ≡ some (some a', b'))
    × ((x : ℕ)
        → ◌≡◌ {A = Option ℕ} (some 7) (some x)
        → true ≡ true
        → All (λ l. l.depth ≡ 1 → is_covered x l.pc b'.opcode_indices ≡ true) logs)
    × ((x p : ℕ)
        → is_covered x p before.opcode_indices ≡ true
        → is_covered x p b'.opcode_indices ≡ true)
process_logs_total_example =
    process_logs_total (λ item. "") (λ types output. []) chain 1 options before (some 7) trace fresh
      refl (λ h. absurd (cc)) logs-IsTrace

-- A machine that makes the trace, and one that refuses every transaction.
abbrev evm : Bool → Evm Unit
evm fails = record {
  apply = λ s. record { state = s; tracer = trace; failed = fails };
  restore = λ s s'. s;
}
