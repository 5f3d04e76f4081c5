-- ===== src/Commit/Refill.antt =====
-- `CommitTransaction` (utils/backend.go) and the argument pool.
use chain_fuzz.Prelude.{
  ℕ, ◌<◌, ◌^◌, ◌≡◌, refl, subst, Bool, true, false, Option, some, String, List, >>=-eq-some,
  if◌then◌else◌, ◌>>=◌,
}
use mathlib.Core.Option.{some-injective}
use chain_fuzz.Values.{GoType, Value}
use chain_fuzz.TypedPools.{Iface}
use chain_fuzz.ArgPool.{ArgPool, add_timestamp}
use chain_fuzz.Args.{update_pool}
use chain_fuzz.Backend.{Tracer, Backend, Options}
use chain_fuzz.Processor.{Chain}
use chain_fuzz.Processor.Loop.{process_logs}
use chain_fuzz.Processor.Refill.{Holds, process_logs-Holds}
use chain_fuzz.Commit
use chain_fuzz.Commit.{Evm, commit_transaction}

module _ (P : ArgPool → Type 0)
    (times : (val : ℕ) (a : ArgPool) → val < 2 ^ 63 → P a → P (add_timestamp val a))
    (sprint : Iface → String) (unpack : List GoType → List ℕ → List Value) (o : Options)
    (refill : o.update_arg_pool ≡ true
      → (types : List GoType) (output : List ℕ) (a : ArgPool) → P a
      → P (update_pool sprint (unpack types) output a))
    {S : Type 0} where
  -- Both ends of a commit: the state is put back, or the trace has been read.
  ends-Holds :
      (chain : Chain) (to : Option ℕ) (pool pool' : Option ArgPool) (tracer : Tracer) (c : Bool)
      (back read b' : Backend S) (failed : Bool)
      → read.last_tx_res.struct_logger ≡ some tracer
      → Holds P pool
      → ◌≡◌ {A = Option (Bool × Option ArgPool × Backend S)}
          (if c
            then some (true, pool, back)
            else (process_logs sprint unpack chain to pool (some o) read
                >>= λ (r : Option ArgPool × Backend S). some (false, r.0, r.1)))
          (some (failed, pool', b'))
      → Holds P pool'
  ends-Holds chain to pool pool' tracer true back read b' failed traced r h =
      subst (λ (p : Bool × Option ArgPool × Backend S). Holds P p.1) (some-injective _ _ h) r
  ends-Holds chain to pool pool' tracer false back read b' failed traced r h =
      let ((p, b₁), processed, e) =
        >>=-eq-some (process_logs sprint unpack chain to pool (some o) read) _ h in
      subst (λ (p : Bool × Option ArgPool × Backend S). Holds P p.1) (some-injective _ _ e)
        (process_logs-Holds P times sprint unpack o refill chain to tracer pool p read b₁ traced r
          processed)

  pub commit_transaction-Holds :
      (chain : Chain) (evm : Evm S) (to : Option ℕ) (pool pool' : Option ArgPool) (b b' : Backend S)
      (failed : Bool)
      → Holds P pool
      → commit_transaction sprint unpack chain evm to pool (some o) b ≡ some (failed, pool', b')
      → Holds P pool'
  unfolding commit_transaction
  commit_transaction-Holds chain evm to pool pool' b b' failed ready h =
      let r = evm.apply b.state in
      let b₁ = Commit.started sprint unpack chain evm r.tracer b in
      ends-Holds chain to pool pool' r.tracer r.failed
        (record b₁ { state = evm.restore b.state r.state }) (record b₁ { state = r.state }) b'
        failed refl ready h
