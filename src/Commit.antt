-- ===== src/Commit.antt =====
-- `CommitTransaction` (utils/backend.go): the transaction is applied by go-ethereum, and its trace is
-- read if that did not fail.
pub mod Findings
pub mod Outcome
pub mod Refill
use chain_fuzz.Prelude.{
  ℕ, ◌+◌, Bool, true, false, Option, none, some, String, List, ◌>>=◌, if◌then◌else◌,
}
use chain_fuzz.Values.{GoType, Value}
use chain_fuzz.TypedPools.{Iface}
use chain_fuzz.ArgPool.{ArgPool}
use chain_fuzz.Backend.{Tracer, Backend, Options}
use chain_fuzz.Processor.{Chain}
use chain_fuzz.Processor.Loop.{process_logs}

-- What `core.ApplyTransaction` leaves: the state, what the tracer has logged, whether it failed.
pub record Applied (S : Type 0) : Type 0 where
  pub state : S
  pub tracer : Tracer
  pub failed : Bool

-- `apply` is `core.ApplyTransaction` on this transaction; `restore s s'` is the state after
-- `RevertToSnapshot`, in `s'`, to the snapshot taken in `s`.
pub record Evm (S : Type 0) : Type 0 where
  pub apply : S → Applied S
  pub restore : S → S → S

module _ (sprint : Iface → String) (unpack : List GoType → List ℕ → List Value) (chain : Chain)
    {S : Type 0} (evm : Evm S) where
  -- The counter and the tracer before the transaction is applied.
  abbrev pub started : Tracer → Backend S → Backend S
  started tracer b = record b {
    tx_count = b.tx_count + 1;
    last_tx_res = record b.last_tx_res { struct_logger = some tracer };
  }

  -- `failed` is the error that is returned.
  unfoldable pub commit_transaction :
      Option ℕ
      → Option ArgPool
      → Option Options
      → Backend S
      → Option (Bool × Option ArgPool × Backend S)
  commit_transaction to pool options b =
      let r = evm.apply b.state in
      let b₁ = started r.tracer b in
      let processed = (do
        (pool', b₂) ←
            process_logs sprint unpack chain to pool options (record b₁ { state = r.state })
        some (false, pool', b₂)) in
      if r.failed
      then some (true, pool, record b₁ { state = evm.restore b.state r.state })
      else processed
