-- ===== src/Commit/Findings.antt =====
-- What `CommitTransaction` (utils/backend.go) leaves in `LastTxRes`, on both branches.
use chain_fuzz.Prelude.{
  ℕ, ◌≡◌, refl, ap, subst, Bool, true, false, Option, some, String, List, >>=-eq-some,
  if◌then◌else◌, ◌>>=◌,
}
use mathlib.Core.Option.{some-injective}
use chain_fuzz.Values.{GoType, Value}
use chain_fuzz.TypedPools.{Iface}
use chain_fuzz.ArgPool.{ArgPool}
use chain_fuzz.Backend.{Tracer, LastTxResult, Backend, Options}
use chain_fuzz.Processor.{Chain, revert_op}
use chain_fuzz.Processor.Loop.{process_logs}
use chain_fuzz.Processor.Whole.{process_logs-Processed}
use chain_fuzz.Processor.Depths.{IsLeastDepth, process_logs-depths}
use chain_fuzz.Commit
use chain_fuzz.Commit.{Evm, commit_transaction}

-- The tracer is always that of the transaction; the depth of a revert is read from its trace where it
-- was applied, and is left as it was where it was not.
pub record Findings (failed : Bool) (tracer : Tracer) (before after : LastTxResult) : Type 0 where
  pub traced : after.struct_logger ≡ some tracer
  pub read : failed ≡ false → IsLeastDepth revert_op tracer.logs after.revert_at_depth
  pub stale : failed ≡ true → after.revert_at_depth ≡ before.revert_at_depth

module _ (sprint : Iface → String) (unpack : List GoType → List ℕ → List Value) {S : Type 0} where
  ends-Findings :
      (chain : Chain) (to : Option ℕ) (pool pool' : Option ArgPool) (o : Options) (tracer : Tracer)
      (c : Bool) (back read b' : Backend S) (failed : Bool) (before : LastTxResult)
      → read.last_tx_res.struct_logger ≡ some tracer
      → back.last_tx_res.struct_logger ≡ some tracer
      → back.last_tx_res.revert_at_depth ≡ before.revert_at_depth
      → ◌≡◌ {A = Option (Bool × Option ArgPool × Backend S)}
          (if c
            then some (true, pool, back)
            else (process_logs sprint unpack chain to pool (some o) read
                >>= λ (r : Option ArgPool × Backend S). some (false, r.0, r.1)))
          (some (failed, pool', b'))
      → Findings c tracer before b'.last_tx_res
  ends-Findings chain to pool pool' o tracer true back read b' failed before traced traced' same h =
      subst (λ (p : Bool × Option ArgPool × Backend S). Findings true tracer before p.2.last_tx_res)
        (some-injective _ _ h)
        (record { traced = traced'; read = λ e. absurd (cc); stale = λ _. same })
  ends-Findings chain to pool pool' o tracer false back read b' failed before traced traced' same
        h =
      let ((p, b₁), processed, e) =
        >>=-eq-some (process_logs sprint unpack chain to pool (some o) read) _ h in
      let whole =
        process_logs-Processed sprint unpack chain to o tracer pool p read b₁ traced processed in
      let depths =
        process_logs-depths sprint unpack chain to o tracer pool p read b₁ traced processed in
      subst
        (λ (p : Bool × Option ArgPool × Backend S). Findings false tracer before p.2.last_tx_res)
        (some-injective _ _ e)
        (record {
          traced = ap (λ (b : Backend S). b.last_tx_res.struct_logger) whole.stored;
          read = λ _. depths.1;
          stale = λ e. absurd (cc);
        })

  pub commit_transaction-Findings :
      (chain : Chain) (evm : Evm S) (to : Option ℕ) (pool pool' : Option ArgPool) (o : Options)
      (b b' : Backend S) (failed : Bool)
      → commit_transaction sprint unpack chain evm to pool (some o) b ≡ some (failed, pool', b')
      → Findings (evm.apply b.state).failed (evm.apply b.state).tracer b.last_tx_res b'.last_tx_res
  unfolding commit_transaction
  commit_transaction-Findings chain evm to pool pool' o b b' failed h =
      let r = evm.apply b.state in
      let b₁ = Commit.started sprint unpack chain evm r.tracer b in
      ends-Findings chain to pool pool' o r.tracer r.failed
        (record b₁ { state = evm.restore b.state r.state }) (record b₁ { state = r.state }) b'
        failed b.last_tx_res refl refl refl h
