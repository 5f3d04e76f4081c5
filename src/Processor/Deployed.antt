-- ===== src/Processor/Deployed.antt =====
-- What a run of `processLogs` (utils/processor.go) makes of the deployed contracts.
use chain_fuzz.Prelude.{
  ℕ, ◌≡◌, sym, subst, Bool, true, false, not, ◌||◌, Option, none, some, String, List, [], ◌∷◌,
  >>=-eq-some, if◌then◌else◌, nat_beq, arith, ◌>>=◌, ◌&&◌,
}
use mathlib.Core.Option.{some-injective}
use chain_fuzz.Prelude.Dict.{Dict}
use chain_fuzz.Values.{GoType, Value}
use chain_fuzz.TypedPools.{Iface}
use chain_fuzz.ArgPool.{ArgPool}
use chain_fuzz.Bytecode.{Text, hex, get_swarm_hash}
use chain_fuzz.Backend.{Contract, StructLog, Tracer, Backend, Options}
use chain_fuzz.Processor.{
  extract_timestamps, check_overflow, least_depth, assert_op, revert_op, Chain, detect_deployment,
  add_deployed, return_op,
}
use chain_fuzz.Processor.Loop.{Progress, cover, turn, turns, process_logs, has_to, start_of}
use chain_fuzz.Processor.Whole.{process_logs-Processed}

module _ (P : Dict String Contract → Type 0)
    (deploys : (name : String) (address : ℕ) (m : Dict String Contract)
      → P m
      → P (add_deployed name address m)) where
  -- What is done with a hash that has been found or not.
  abbrev deploy : Chain → Dict String Contract → Option Text → Option (Dict String Contract)
  deploy chain m none = some m
  deploy chain m (some hash) = do
    name ← chain.name_of_hash hash
    address ← chain.deployed_address
    some (add_deployed name address m)

  deploy-keeps :
      (chain : Chain) (m m' : Dict String Contract) (found : Option Text)
      → P m
      → deploy chain m found ≡ some m'
      → P m'
  deploy-keeps chain m m' none p h = subst P (some-injective m m' h) p
  deploy-keeps chain m m' (some hash) p h =
      let (name, _, h₁) = >>=-eq-some (chain.name_of_hash hash) _ h in
      let (address, _, h₂) = >>=-eq-some chain.deployed_address _ h₁ in
      subst P (some-injective _ m' h₂) (deploys name address m p)

  skipped_or_not :
      (skip : Bool) (chain : Chain) (log : StructLog) (m m' : Dict String Contract)
      → P m
      → (if skip then some m else (get_swarm_hash (hex log.memory) >>= deploy chain m)) ≡ some m'
      → P m'
  skipped_or_not true chain log m m' p h = subst P (some-injective m m' h) p
  skipped_or_not false chain log m m' p h =
      let (found, _, h₁) = >>=-eq-some (get_swarm_hash (hex log.memory)) _ h in
      deploy-keeps chain m m' found p h₁

  detect_deployment-keeps :
      (chain : Chain) (check : Bool) (log : StructLog) (m m' : Dict String Contract)
      → P m
      → detect_deployment chain check log m ≡ some m'
      → P m'
  unfolding detect_deployment
  detect_deployment-keeps chain check log m m' p h =
      skipped_or_not (not check || not (nat_beq log.op return_op)) chain log m m' p h

  cover_if-deployed :
      (b : Bool) (prev : Option StructLog) (log : StructLog) (s s' : Progress)
      → (if b then cover prev log s else some s) ≡ some s'
      → s'.deployed_contracts ≡ s.deployed_contracts
  unfolding cover
  cover_if-deployed true prev log s s' h = ground arith
  cover_if-deployed false prev log s s' h = ground arith

  turn-keeps :
      (chain : Chain) (options : Options) (u c : Bool) (prev : Option StructLog) (log : StructLog)
      (rest : List StructLog) (s s' : Progress)
      → P s.deployed_contracts
      → turn chain options u c prev log rest s ≡ some s'
      → P s'.deployed_contracts
  unfolding turn
  turn-keeps chain options u c prev log rest s s' p h =
      let (pool, read, h₁) =
        >>=-eq-some
          (if options.extract_timestamps then extract_timestamps log.stack s.pool else some s.pool)
          _ h in
      let (overflow, checked, h₂) = >>=-eq-some (check_overflow log rest s.overflow) _ h₁ in
      let s₁ : Progress = record s {
        pool = pool;
        overflow = overflow;
        assertion_at_depth = least_depth assert_op log s.assertion_at_depth;
        revert_at_depth = least_depth revert_op log s.revert_at_depth;
      } in
      let (s₂, covered, h₃) = >>=-eq-some (if u then cover prev log s₁ else some s₁) _ h₂ in
      let (deployed, found, h₄) =
        >>=-eq-some (detect_deployment chain c log s₂.deployed_contracts) _ h₃ in
      subst (λ (t : Progress). P t.deployed_contracts) (some-injective _ _ h₄)
        (detect_deployment-keeps chain c log s₂.deployed_contracts deployed
          (subst P (sym (cover_if-deployed u prev log s₁ s₂ covered)) p) found)

  turns-keeps :
      (chain : Chain) (options : Options) (u c : Bool) (prev : Option StructLog)
      (logs : List StructLog) (s s' : Progress)
      → P s.deployed_contracts
      → turns chain options u c prev logs s ≡ some s'
      → P s'.deployed_contracts
  unfolding turns
  turns-keeps chain options u c prev [] s s' p h =
      subst (λ (t : Progress). P t.deployed_contracts) (some-injective s s' h) p
  turns-keeps chain options u c prev (log ∷ rest) s s' p h =
      let (t, turned, more) = >>=-eq-some (turn chain options u c prev log rest s) _ h in
      turns-keeps chain options u c (some log) rest t s'
        (turn-keeps chain options u c prev log rest s t p turned) more

  -- What every deployment keeps, a whole run keeps.
  pub process_logs-keeps :
      {S : Type 0} (sprint : Iface → String) (unpack : List GoType → List ℕ → List Value)
      (chain : Chain) (to : Option ℕ) (o : Options) (tracer : Tracer) (pool pool' : Option ArgPool)
      (b b' : Backend S)
      → b.last_tx_res.struct_logger ≡ some tracer
      → P b.deployed_contracts
      → process_logs sprint unpack chain to pool (some o) b ≡ some (pool', b')
      → P b'.deployed_contracts
  process_logs-keeps sprint unpack chain to o tracer pool pool' b b' traced p h =
      let r = process_logs-Processed sprint unpack chain to o tracer pool pool' b b' traced h in
      subst (λ (c : Backend _). P c.deployed_contracts) (sym r.stored)
        (turns-keeps chain o (o.update_coverage && has_to to) o.check_deployed_contract none
          tracer.logs (start_of to r.pool₁ b) r.final p r.looped)
