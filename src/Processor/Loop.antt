-- ===== src/Processor/Loop.antt =====
-- `processLogs`: the loop over the logs of a trace, and what stands before it.
use chain_fuzz.Prelude.{
  ℕ, Bool, true, false, ◌&&◌, Option, none, some, String, List, [], ◌∷◌, length, ltb, ◌>>=◌,
  if◌then◌else◌,
}
use chain_fuzz.Prelude.Int.{ℤ, negsuc}
use chain_fuzz.Prelude.Dict.{Dict}
use chain_fuzz.Values.{GoType, Value}
use chain_fuzz.TypedPools.{Iface}
use chain_fuzz.ArgPool.{ArgPool}
use chain_fuzz.Args.{update_pool}
use chain_fuzz.Backend.{Contract, StructLog, Tracer, Report, LastTxInput, Backend, Options}
use chain_fuzz.Processor.{
  extract_timestamps, check_overflow, least_depth, assert_op, revert_op, CallStack, push, top,
  follow_call, mark_covered, Chain, detect_deployment,
}

-- What the loop changes.
pub record Progress : Type 0 where
  pub pool : Option ArgPool
  pub overflow : Option Report
  pub assertion_at_depth : ℤ
  pub revert_at_depth : ℤ
  pub calls : CallStack
  pub opcode_indices : Dict ℕ (Dict ℕ Bool)
  pub deployed_contracts : Dict String Contract

-- Coverage of the contract on top of the call stack: no address there is a nil pointer.
unfoldable pub cover : Option StructLog → StructLog → Progress → Option Progress
cover prev log s = do
  calls ← follow_call prev log s.calls
  pointer ← top calls
  address ← pointer
  some (record s { calls = calls; opcode_indices = mark_covered address log.pc s.opcode_indices })

module _ (chain : Chain) (options : Options) (update_coverage check_deployed : Bool) where
  -- One turn: the log before, this one, those after it.
  unfoldable pub turn : Option StructLog → StructLog → List StructLog → Progress → Option Progress
  turn prev log rest s = do
    pool ← (if options.extract_timestamps then extract_timestamps log.stack s.pool else some s.pool)
    overflow ← check_overflow log rest s.overflow
    let s₁ = record s {
      pool = pool;
      overflow = overflow;
      assertion_at_depth = least_depth assert_op log s.assertion_at_depth;
      revert_at_depth = least_depth revert_op log s.revert_at_depth;
    }
    s₂ ← (if update_coverage then cover prev log s₁ else some s₁)
    deployed ← detect_deployment chain check_deployed log s₂.deployed_contracts
    some (record s₂ { deployed_contracts = deployed })

  unfoldable pub turns : Option StructLog → List StructLog → Progress → Option Progress
  turns prev [] s = some s
  turns prev (log ∷ rest) s = do s' ← turn prev log rest s; turns (some log) rest s'

-- `tx.To() != nil`
abbrev pub has_to : Option ℕ → Bool
has_to none = false
has_to (some _) = true

-- Where the loop starts: nothing found yet, the called contract on the call stack.
abbrev pub start_of : {S : Type 0} → Option ℕ → Option ArgPool → Backend S → Progress
start_of to pool b = record {
  pool = pool;
  overflow = none;
  assertion_at_depth = negsuc 0;
  revert_at_depth = negsuc 0;
  calls = push to [];
  opcode_indices = b.opcode_indices;
  deployed_contracts = b.deployed_contracts;
}

-- What stands in the backend afterwards.
abbrev pub store_findings : {S : Type 0} → Tracer → Progress → Backend S → Backend S
store_findings tracer s b = record b {
  last_tx_res = record {
    output = tracer.output;
    revert_at_depth = s.revert_at_depth;
    assertion_at_depth = s.assertion_at_depth;
    overflow = s.overflow;
    struct_logger = some tracer;
  };
  opcode_indices = s.opcode_indices;
  deployed_contracts = s.deployed_contracts;
}

-- `sprint` and `unpack` are those of the argument pool; `to` is `tx.To()`.
module _ (sprint : Iface → String) (unpack : List GoType → List ℕ → List Value) where
  -- `if updateArgPool && len(output) > 0 { UpdatePool(LastTxIn, argPool, output) }`
  unfoldable pub harvest :
      Option Options → Option LastTxInput → List ℕ → Option ArgPool → Option (Option ArgPool)
  harvest (some options) input output (some pool) =
      if options.update_arg_pool && ltb 0 (length output)
      then (do i ← input; some (some (update_pool sprint (unpack i.out_args) output pool)))
      else some (some pool)
  harvest _ input output pool = some pool

  -- The run of the loop. The options may be nil: then its first turn reads a nil pointer.
  unfoldable pub run_loop :
      {S : Type 0}
      → Chain
      → Option ℕ
      → Option ArgPool
      → Option Options
      → Backend S
      → List StructLog
      → Option Progress
  run_loop chain to pool none b [] = some (start_of to pool b)
  run_loop chain to pool none b (_ ∷ _) = none
  run_loop chain to pool (some o) b logs =
      turns chain o (o.update_coverage && has_to to) o.check_deployed_contract none logs
        (start_of to pool b)

  unfoldable pub process_logs :
      {S : Type 0}
      → Chain
      → Option ℕ
      → Option ArgPool
      → Option Options
      → Backend S
      → Option (Option ArgPool × Backend S)
  process_logs chain to pool options b = do
    tracer ← b.last_tx_res.struct_logger
    pool₁ ← harvest options b.last_tx_in tracer.output pool
    s ← run_loop chain to pool₁ options b tracer.logs
    some (s.pool, store_findings tracer s b)
