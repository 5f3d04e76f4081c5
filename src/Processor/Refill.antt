-- ===== src/Processor/Refill.antt =====
-- What a run of `processLogs` (utils/processor.go) puts into the argument pool.
use chain_fuzz.Prelude.{
  ℕ, ◌<◌, ◌^◌, ◌≡◌, sym, subst, refl, Bool, true, false, Option, none, some, String, List, [], ◌∷◌,
  >>=-eq-some, Bool-cases, inl, inr, if◌then◌else◌, arith, ◌>>=◌, ◌&&◌, ltb, length,
}
use mathlib.Core.Option.{some-injective}
use chain_fuzz.Values.{GoType, Value}
use chain_fuzz.TypedPools.{Iface}
use chain_fuzz.ArgPool.{ArgPool, add_timestamp}
use chain_fuzz.Args.{update_pool}
use chain_fuzz.Backend.{StructLog, Tracer, LastTxInput, Backend, Options}
use chain_fuzz.Processor.{
  extract_timestamps, check_overflow, least_depth, assert_op, revert_op, Chain, detect_deployment,
  earliest_time, latest_time,
}
use chain_fuzz.Processor.Loop.{
  Progress, cover, turn, turns, harvest, process_logs, has_to, start_of,
}
use chain_fuzz.Processor.Whole.{process_logs-Processed}

-- What holds of a pool that is not nil.
abbrev pub Holds : (ArgPool → Type 0) → Option ArgPool → Type 0
Holds P none = Unit
Holds P (some a) = P a

-- A property of the argument pool that timestamps below 2^63 keep.
module _ (P : ArgPool → Type 0)
    (times : (val : ℕ) (a : ArgPool) → val < 2 ^ 63 → P a → P (add_timestamp val a)) where
  extract_timestamps-Holds :
      (stack : List ℕ) (o o' : Option ArgPool)
      → Holds P o
      → extract_timestamps stack o ≡ some o'
      → Holds P o'
  unfolding extract_timestamps
  extract_timestamps-Holds [] o o' r h = subst (Holds P) (some-injective o o' h) r
  extract_timestamps-Holds (val ∷ vals) o o' r h =
      elim (Bool-cases (ltb val (2 ^ 64) && (ltb earliest_time val && ltb val latest_time))) [
        | inl time ↦
            let (a, is, later) = >>=-eq-some o _ (rw time at h) in
            extract_timestamps-Holds vals (some (add_timestamp val a)) o'
              (times val a (ground (arith, time)) (subst (Holds P) is r)) later
        | inr other ↦ extract_timestamps-Holds vals o o' r (rw other at h)
      ]

  extract_if-Holds :
      (c : Bool) (stack : List ℕ) (o o' : Option ArgPool)
      → Holds P o
      → (if c then extract_timestamps stack o else some o) ≡ some o'
      → Holds P o'
  extract_if-Holds true stack o o' r h = extract_timestamps-Holds stack o o' r h
  extract_if-Holds false stack o o' r h = subst (Holds P) (some-injective o o' h) r

  cover_if-pool :
      (b : Bool) (prev : Option StructLog) (log : StructLog) (s s' : Progress)
      → (if b then cover prev log s else some s) ≡ some s'
      → s'.pool ≡ s.pool
  unfolding cover
  cover_if-pool true prev log s s' h = ground arith
  cover_if-pool false prev log s s' h = ground arith

  turn-Holds :
      (chain : Chain) (options : Options) (u c : Bool) (prev : Option StructLog) (log : StructLog)
      (rest : List StructLog) (s s' : Progress)
      → Holds P s.pool
      → turn chain options u c prev log rest s ≡ some s'
      → Holds P s'.pool
  unfolding turn
  turn-Holds chain options u c prev log rest s s' r h =
      let (pool, read, h₁) =
        >>=-eq-some
          (if options.extract_timestamps then extract_timestamps log.stack s.pool else some s.pool)
          _ h in
      let (overflow, checked, h₂) = >>=-eq-some (check_overflow log rest s.overflow) _ h₁ in
      let s₁ : Progress = record s {
        pool = pool;
        overflow = overflow;
        assertion_at_depth = least_depth assert_op log s.assertion_at_depth;
        revert_at_depth = least_depth revert_op log s.revert_at_depth;
      } in
      let (s₂, covered, h₃) = >>=-eq-some (if u then cover prev log s₁ else some s₁) _ h₂ in
      let (deployed, found, h₄) =
        >>=-eq-some (detect_deployment chain c log s₂.deployed_contracts) _ h₃ in
      subst (λ (t : Progress). Holds P t.pool) (some-injective _ _ h₄)
        (subst (Holds P) (sym (cover_if-pool u prev log s₁ s₂ covered))
          (extract_if-Holds options.extract_timestamps log.stack s.pool pool r read))

  turns-Holds :
      (chain : Chain) (options : Options) (u c : Bool) (prev : Option StructLog)
      (logs : List StructLog) (s s' : Progress)
      → Holds P s.pool
      → turns chain options u c prev logs s ≡ some s'
      → Holds P s'.pool
  unfolding turns
  turns-Holds chain options u c prev [] s s' r h =
      subst (λ (t : Progress). Holds P t.pool) (some-injective s s' h) r
  turns-Holds chain options u c prev (log ∷ rest) s s' r h =
      let (t, turned, more) = >>=-eq-some (turn chain options u c prev log rest s) _ h in
      turns-Holds chain options u c (some log) rest t s'
        (turn-Holds chain options u c prev log rest s t r turned) more

  -- Outputs are put back only if the options say so.
  module _ (sprint : Iface → String) (unpack : List GoType → List ℕ → List Value) (o : Options)
      (refill : o.update_arg_pool ≡ true
        → (types : List GoType) (output : List ℕ) (a : ArgPool) → P a
        → P (update_pool sprint (unpack types) output a)) where
    harvest_if-Holds :
        (c : Bool) (input : Option LastTxInput) (output : List ℕ) (a : ArgPool)
        (o' : Option ArgPool)
        → (c ≡ true → o.update_arg_pool ≡ true)
        → P a
        → ◌≡◌ {A = Option (Option ArgPool)}
            (if c
              then (input >>= λ i. some (some (update_pool sprint (unpack i.out_args) output a)))
              else some (some a))
            (some o')
        → Holds P o'
    harvest_if-Holds true input output a o' on r h =
        let (i, _, h₁) = >>=-eq-some input _ h in
        subst (Holds P) (some-injective _ o' h₁) (refill (on refl) i.out_args output a r)
    harvest_if-Holds false input output a o' on r h = subst (Holds P) (some-injective _ o' h) r

    harvest-Holds :
        (input : Option LastTxInput) (output : List ℕ) (pool pool' : Option ArgPool)
        → Holds P pool
        → harvest sprint unpack (some o) input output pool ≡ some pool'
        → Holds P pool'
    unfolding harvest
    harvest-Holds input output none pool' r h = subst (Holds P) (some-injective _ pool' h) r
    harvest-Holds input output (some a) pool' r h =
        harvest_if-Holds (o.update_arg_pool && ltb 0 (length output)) input output a pool'
          (λ on. ground (arith, on)) r h

    pub process_logs-Holds :
        {S : Type 0} (chain : Chain) (to : Option ℕ) (tracer : Tracer) (pool pool' : Option ArgPool)
        (b b' : Backend S)
        → b.last_tx_res.struct_logger ≡ some tracer
        → Holds P pool
        → process_logs sprint unpack chain to pool (some o) b ≡ some (pool', b')
        → Holds P pool'
    process_logs-Holds chain to tracer pool pool' b b' traced r h =
        let p = process_logs-Processed sprint unpack chain to o tracer pool pool' b b' traced h in
        subst (Holds P) (sym p.left) (
          turns-Holds chain o (o.update_coverage && has_to to) o.check_deployed_contract none
            tracer.logs (start_of to p.pool₁ b) p.final
            (harvest-Holds b.last_tx_in tracer.output pool p.pool₁ r p.harvested) p.looped)
