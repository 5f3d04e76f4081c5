-- ===== src/Startup/Bare.antt =====
-- The deployment transactions give no contract methods (`NewBackend` of utils/backend.go).
use chain_fuzz.Prelude.{
  ℕ, ◌>>=◌, string_eq, ◌≡◌, refl, subst, Bool, true, false, Option, some, String, List, [], ◌∷◌,
  >>=-eq-some, if◌then◌else◌,
}
use mathlib.Core.Option.{some-injective}
use chain_fuzz.Values.{GoType, Value}
use chain_fuzz.TypedPools.{Iface}
use chain_fuzz.ArgPool.{ArgPool}
use chain_fuzz.Backend.{Tracer, Backend, Options}
use chain_fuzz.Processor.{Chain}
use chain_fuzz.Processor.Loop.{process_logs}
use chain_fuzz.Processor.Deployed.{process_logs-keeps}
use chain_fuzz.Commit
use chain_fuzz.Commit.{Evm, commit_transaction}
use chain_fuzz.Contracts.{remove_libraries}
use chain_fuzz.Startup.{Node, deploy_all, deployment_options}
use chain_fuzz.Startup.Listing.{IsBare, add_deployed-IsBare, delete-IsBare}

pub remove_libraries-IsBare :
    {S : Type 0} (libraries : List String) (b : Backend S)
    → IsBare b.deployed_contracts
    → IsBare (remove_libraries libraries b).deployed_contracts
unfolding remove_libraries
remove_libraries-IsBare [] b bare = bare
remove_libraries-IsBare (l ∷ ls) b bare =
    remove_libraries-IsBare ls _ (delete-IsBare l b.deployed_contracts bare)

module _ (sprint : Iface → String) (unpack : List GoType → List ℕ → List Value) where
  -- Both ends of a commit: the state is put back, or the trace has been read.
  ends-IsBare :
      {S : Type 0} (chain : Chain) (to : Option ℕ) (pool pool' : Option ArgPool) (o : Options)
      (tracer : Tracer) (c : Bool) (back read b' : Backend S) (failed : Bool)
      → read.last_tx_res.struct_logger ≡ some tracer
      → IsBare back.deployed_contracts
      → IsBare read.deployed_contracts
      → ◌≡◌ {A = Option (Bool × Option ArgPool × Backend S)}
          (if c
            then some (true, pool, back)
            else (process_logs sprint unpack chain to pool (some o) read
                >>= λ (r : Option ArgPool × Backend S). some (false, r.0, r.1)))
          (some (failed, pool', b'))
      → IsBare b'.deployed_contracts
  ends-IsBare {S} chain to pool pool' o tracer true back read b' failed traced bare bare' h =
      subst (λ (r : Bool × Option ArgPool × Backend S). IsBare r.2.deployed_contracts)
        (some-injective _ _ h) bare
  ends-IsBare {S} chain to pool pool' o tracer false back read b' failed traced bare bare' h =
      let ((p, b₁), processed, e) =
        >>=-eq-some (process_logs sprint unpack chain to pool (some o) read) _ h in
      subst (λ (r : Bool × Option ArgPool × Backend S). IsBare r.2.deployed_contracts)
        (some-injective _ _ e)
        (process_logs-keeps IsBare add_deployed-IsBare sprint unpack chain to o tracer pool p read
          b₁ traced bare' processed)

  commit_transaction-IsBare :
      {S : Type 0} (chain : Chain) (evm : Evm S) (to : Option ℕ) (pool pool' : Option ArgPool)
      (o : Options) (b b' : Backend S) (failed : Bool)
      → IsBare b.deployed_contracts
      → commit_transaction sprint unpack chain evm to pool (some o) b ≡ some (failed, pool', b')
      → IsBare b'.deployed_contracts
  unfolding commit_transaction
  commit_transaction-IsBare chain evm to pool pool' o b b' failed bare h =
      let r = evm.apply b.state in
      let b₁ = Commit.started sprint unpack chain evm r.tracer b in
      ends-IsBare chain to pool pool' o r.tracer r.failed
        (record b₁ { state = evm.restore b.state r.state }) (record b₁ { state = r.state }) b'
        failed refl bare bare h

  pub deploy_all-IsBare :
      {S T : Type 0} (rand : ℕ → ℕ) (node : Node S T) (chain : T → Chain) (txs : List T)
      (a a' : ArgPool) (b b' : Backend S)
      → IsBare b.deployed_contracts
      → deploy_all sprint unpack rand node chain txs a b ≡ some (a', b')
      → IsBare b'.deployed_contracts
  unfolding deploy_all
  deploy_all-IsBare rand node chain [] a a' b b' bare h =
      subst (λ (r : ArgPool × Backend _). IsBare r.1.deployed_contracts) (some-injective _ _ h) bare
  deploy_all-IsBare rand node chain (tx ∷ txs) a a' b b' bare h =
      let ((failed, pool, b₁), committed, h₁) =
        >>=-eq-some
          (commit_transaction sprint unpack (chain tx) (node.evm tx) (node.to_of tx) (some a)
            (some deployment_options) b)
          _ h in
      let (a₁, _, h₂) = >>=-eq-some pool _ h₁ in
      deploy_all-IsBare rand node chain txs a₁ a' b₁ b'
        (commit_transaction-IsBare (chain tx) (node.evm tx) (node.to_of tx) (some a) pool
          deployment_options b b₁ failed bare committed)
        h₂
