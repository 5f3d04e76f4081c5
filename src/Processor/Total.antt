-- ===== src/Processor/Total.antt =====
-- Whole runs of `processLogs` (utils/processor.go) on the traces that the virtual machine makes.
use chain_fuzz.Prelude.{
  ℕ, nat_eq, string_eq, ◌≡◌, refl, sym, ap, subst, ◌∙◌, Bool, true, false, ◌&&◌, Option, none, some,
  String, List, [], ◌∷◌, All, >>=-some, Bool-cases, arith, ltb, length, if◌then◌else◌, inl, inr,
}
use mathlib.Core.Option.{some-injective}
use chain_fuzz.Values.{GoType, Value}
use chain_fuzz.TypedPools.{Iface}
use chain_fuzz.ArgPool.{ArgPool}
use chain_fuzz.Args.{update_pool}
use chain_fuzz.Backend.{StructLog, Tracer, LastTxInput, Backend, Options}
use chain_fuzz.Processor.{extract_timestamps, Chain, least_depth, assert_op, revert_op, CallStack}
use chain_fuzz.Processor.Loop.{
  Progress, cover, turn, turns, has_to, start_of, store_findings, harvest, run_loop, process_logs,
}
use chain_fuzz.Processor.Calls.{Stands, start-Stands}
use chain_fuzz.Processor.Coverage.{is_covered, Before, cover-Covered}
use chain_fuzz.Processor.Steps.{
  Operands, IsReadable, Legal, IsTrace, extract_total, check_total, detect_total,
}

-- Every instruction at the base depth is covered at an address.
abbrev pub AllCovered : ℕ → ℕ → List StructLog → Progress → Type 0
AllCovered base to logs s =
    All (λ l. l.depth ≡ base → is_covered to l.pc s.opcode_indices ≡ true) logs

module _ (chain : Chain) (options : Options) (base to : ℕ) where
  -- The call stack after the log before, if there was one.
  abbrev After : Option StructLog → CallStack → Type 0
  After none calls = Stands base to base calls
  After (some prev) calls = Stands base to prev.depth calls

  before :
      (prev : Option StructLog) (log : StructLog) (calls : CallStack)
      → Legal base prev log
      → After prev calls
      → Before base to prev log calls
  before none log calls at h = (subst (λ d. Stands base to d calls) (sym at) h, at)
  before (some prev) log calls follows h = (h, follows)

  -- What a turn leaves, with coverage or without.
  record Done (uc : Bool) (log : StructLog) (s s' : Progress) : Type 0 where
    pool : (a : ArgPool) × (s'.pool ≡ some a)
    stands : uc ≡ true → After (some log) s'.calls
    marked : uc ≡ true → log.depth ≡ base → is_covered to log.pc s'.opcode_indices ≡ true
    kept :
        (a p : ℕ) → is_covered a p s.opcode_indices ≡ true → is_covered a p s'.opcode_indices ≡ true

  read_pool :
      (b : Bool) (vals : List ℕ) (pool : Option ArgPool)
      → (a : ArgPool) × (pool ≡ some a)
      → (a' : ArgPool) × ((if b then extract_timestamps vals pool else some pool) ≡ some (some a'))
  read_pool true vals pool (a, is) = rw is (extract_total vals a)
  read_pool false vals pool (a, is) = (a, ap some is)

  cover_if :
      (uc : Bool) (prev : Option StructLog) (log : StructLog) (s : Progress)
      → Legal base prev log
      → (a : ArgPool) × (s.pool ≡ some a)
      → (uc ≡ true → After prev s.calls)
      → (s' : Progress) × ((if uc then cover prev log s else some s) ≡ some s') × Done uc log s s'
  cover_if true prev log s legal (a, is) h =
      let (s', e, c) = cover-Covered base to prev log s (before prev log s.calls legal (h refl)) in
      (
        s',
        e,
        record {
          pool = (a, c.pool ∙ is);
          stands = λ _. c.stands;
          marked = λ _. c.marked;
          kept = c.kept;
        },
      )
  cover_if false prev log s legal has h =
      (s, refl, record { pool = has; stands = λ f. cc; marked = λ f. cc; kept = λ a p k. k })

  turn-Done :
      (uc check : Bool) (prev : Option StructLog) (log : StructLog) (rest : List StructLog)
      (s : Progress)
      → Legal base prev log
      → Operands log rest
      → IsReadable chain log
      → (a : ArgPool) × (s.pool ≡ some a)
      → (uc ≡ true → After prev s.calls)
      → (s' : Progress) × (turn chain options uc check prev log rest s ≡ some s') × Done uc log s s'
  unfolding turn
  turn-Done uc check prev log rest s legal operands readable has h =
      let (a, read) = read_pool options.extract_timestamps log.stack s.pool has in
      let (found, checked) = check_total log rest s.overflow operands in
      let s₁ : Progress = record s {
        pool = some a;
        overflow = found;
        assertion_at_depth = least_depth assert_op log s.assertion_at_depth;
        revert_at_depth = least_depth revert_op log s.revert_at_depth;
      } in
      let (s₂, covered, d) = cover_if uc prev log s₁ legal (a, refl) h in
      let (deployed, detected) = detect_total chain check log s₂.deployed_contracts readable in
      (
        record s₂ { deployed_contracts = deployed },
        >>=-some _ read (>>=-some _ checked (>>=-some _ covered (>>=-some _ detected refl))),
        record { pool = d.pool; stands = d.stands; marked = d.marked; kept = d.kept },
      )

  turns_total :
      (uc check : Bool) (prev : Option StructLog) (logs : List StructLog) (s : Progress)
      → IsTrace chain base prev logs
      → (a : ArgPool) × (s.pool ≡ some a)
      → (uc ≡ true → After prev s.calls)
      → (s' : Progress) × (turns chain options uc check prev logs s ≡ some s')
        × ((a : ArgPool) × (s'.pool ≡ some a))
        × (uc ≡ true → AllCovered base to logs s')
        × ((a p : ℕ)
            → is_covered a p s.opcode_indices ≡ true
            → is_covered a p s'.opcode_indices ≡ true)
  unfolding turns
  turns_total uc check prev [] s trace has h = (s, refl, has, (λ _. tt), λ a p k. k)
  turns_total uc check prev (log ∷ rest) s (legal, operands, readable, trace) has h =
      let (s₁, first, d) = turn-Done uc check prev log rest s legal operands readable has h in
      let (s₂, later, has', all, kept) =
        turns_total uc check (some log) rest s₁ trace d.pool d.stands in
      (
        s₂,
        >>=-some _ first later,
        has',
        λ on. (λ at. kept to log.pc (d.marked on at), all on),
        λ a p k. kept a p (d.kept a p k),
      )

never : (u : Bool) → (u && false) ≡ true → ⊥
never u h = ground arith

no_call : (x : ℕ) → ◌≡◌ {A = Option ℕ} none (some x) → ⊥
no_call x h = cc

-- What `UpdatePool` asks for: the transaction whose output it reads.
abbrev pub CanHarvest : Options → Option LastTxInput → Type 0
CanHarvest options input = options.update_arg_pool ≡ true → (i : LastTxInput) × (input ≡ some i)

module _ (sprint : Iface → String) (unpack : List GoType → List ℕ → List Value) where
  harvest_total :
      (o : Options) (input : Option LastTxInput) (output : List ℕ) (a : ArgPool)
      → CanHarvest o input
      → (a' : ArgPool) × (harvest sprint unpack (some o) input output (some a) ≡ some (some a'))
  unfolding harvest
  harvest_total o input output a h =
      elim (Bool-cases (o.update_arg_pool && ltb 0 (length output))) [
        | inl put ↦
            let (i, is) = h (ground arith) in
            (update_pool sprint (unpack i.out_args) output a, rw put (rw is refl))
        | inr skip ↦ (a, rw skip refl)
      ]

  module _ (chain : Chain) (base : ℕ) {S : Type 0} (o : Options) (b : Backend S) where
    start_total :
        (to : Option ℕ) (pool : Option ArgPool) (logs : List StructLog)
        → IsTrace chain base none logs
        → (a : ArgPool) × (pool ≡ some a)
        → (s : Progress) × (turns chain o
              (o.update_coverage && has_to to)
              o.check_deployed_contract
              none
              logs
              (start_of to pool b)
            ≡ some s)
          × ((a : ArgPool) × (s.pool ≡ some a))
          × ((x : ℕ) → to ≡ some x → o.update_coverage ≡ true → AllCovered base x logs s)
          × ((a p : ℕ)
              → is_covered a p b.opcode_indices ≡ true
              → is_covered a p s.opcode_indices ≡ true)
    start_total none pool logs trace has =
        let (s, e, has', _, kept) =
          turns_total chain o base 0 (o.update_coverage && false) o.check_deployed_contract none
            logs (start_of none pool b) trace has (λ on. absurd (never o.update_coverage on)) in
        (s, e, has', (λ x is. absurd (no_call x is)), kept)
    start_total (some x) pool logs trace has =
        let (s, e, has', all, kept) =
          turns_total chain o base x (o.update_coverage && true) o.check_deployed_contract none logs
            (start_of (some x) pool b) trace has (λ _. start-Stands base x) in
        (
          s,
          e,
          has',
          (λ y is on.
              subst (λ z. AllCovered base z logs s) (some-injective x y is) (all (ground arith))),
          kept,
        )

    -- On a trace whose first log is at the base depth and whose depths change by at most one
    -- and stay above it, whose arithmetic has its operands, whose calls have an address, and
    -- whose deployments are known, `processLogs` does not panic where it is given a pool,
    -- options, and an input if the pool is to be updated. With coverage on, every instruction
    -- at the base depth is covered at the called contract; nothing that was covered is lost.
    pub process_logs_total :
        (to : Option ℕ) (tracer : Tracer) (a : ArgPool)
        → b.last_tx_res.struct_logger ≡ some tracer
        → CanHarvest o b.last_tx_in
        → IsTrace chain base none tracer.logs
        → (a' : ArgPool) × (b' : Backend S) × (process_logs sprint unpack chain to
              (some a)
              (some o)
              b
            ≡ some (some a', b'))
          × ((x : ℕ)
              → to ≡ some x
              → o.update_coverage ≡ true
              → All (λ l. l.depth ≡ base → is_covered x l.pc b'.opcode_indices ≡ true) tracer.logs)
          × ((x p : ℕ)
              → is_covered x p b.opcode_indices ≡ true
              → is_covered x p b'.opcode_indices ≡ true)
    unfolding process_logs run_loop
    process_logs_total to tracer a traced input trace =
        let (a₁, harvested) = harvest_total o b.last_tx_in tracer.output a input in
        let (s, looped, (a₂, left), all, kept) =
          start_total to (some a₁) tracer.logs trace (a₁, refl) in
        (
          a₂,
          store_findings tracer s b,
          >>=-some _ traced (
              >>=-some _ harvested
                (>>=-some _ looped (ap (λ p. some (p, store_findings tracer s b)) left))),
          all,
          kept,
        )
