-- ===== src/Processor/Whole.antt =====
-- `processLogs` as its loop, run from the start that it prepares.
use chain_fuzz.Prelude.{
  ℕ, ◌≡◌, sym, ap, subst, ◌∙◌, ◌&&◌, Option, none, some, String, List, >>=-eq-some,
}
use mathlib.Core.Option.{some-injective}
use chain_fuzz.Values.{GoType, Value}
use chain_fuzz.TypedPools.{Iface}
use chain_fuzz.ArgPool.{ArgPool}
use chain_fuzz.Backend.{Tracer, Backend, Options}
use chain_fuzz.Processor.{Chain}
use chain_fuzz.Processor.Loop.{
  Progress, turns, has_to, start_of, store_findings, harvest, run_loop, process_logs,
}

module _ (sprint : Iface → String) (unpack : List GoType → List ℕ → List Value) (chain : Chain)
    (to : Option ℕ) {S : Type 0} where
  -- With options given, a run that did not panic has gone through the loop and stores its findings.
  pub record Processed (o : Options) (tracer : Tracer) (pool : Option ArgPool) (b b' : Backend S)
      (pool' : Option ArgPool) : Type 0 where
    pub pool₁ : Option ArgPool
    pub final : Progress
    pub harvested : harvest sprint unpack (some o) b.last_tx_in tracer.output pool ≡ some pool₁
    pub looped :
        turns chain o
          (o.update_coverage && has_to to)
          o.check_deployed_contract
          none
          tracer.logs
          (start_of to pool₁ b)
        ≡ some final
    pub left : pool' ≡ final.pool
    pub stored : b' ≡ store_findings tracer final b

  pub process_logs-Processed :
      (o : Options) (tracer : Tracer) (pool pool' : Option ArgPool) (b b' : Backend S)
      → b.last_tx_res.struct_logger ≡ some tracer
      → process_logs sprint unpack chain to pool (some o) b ≡ some (pool', b')
      → Processed o tracer pool b b' pool'
  unfolding process_logs run_loop
  process_logs-Processed o tracer pool pool' b b' traced h =
      let (t, found, h₁) = >>=-eq-some b.last_tx_res.struct_logger _ h in
      let (pool₁, harvested, h₂) =
        >>=-eq-some (harvest sprint unpack (some o) b.last_tx_in t.output pool) _ h₁ in
      let (final, looped, h₃) =
        >>=-eq-some (run_loop sprint unpack chain to pool₁ (some o) b t.logs) _ h₂ in
      let e : ◌≡◌ {A = Option ArgPool × Backend S} (final.pool, store_findings t final b)
          (pool', b') =
        some-injective _ _ h₃ in
      subst (λ u. Processed o u pool b b' pool') (some-injective t tracer (sym found ∙ traced))
        (record {
          pool₁ = pool₁;
          final = final;
          harvested = harvested;
          looped = looped;
          left = sym (ap (λ (r : Option ArgPool × Backend S). r.0) e);
          stored = sym (ap (λ (r : Option ArgPool × Backend S). r.1) e);
        })
