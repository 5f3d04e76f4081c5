-- ===== src/Processor/Depths.antt =====
-- The depths of failed assertions and of reverts that `processLogs` (utils/processor.go) stores.
use chain_fuzz.Prelude.{
  ℕ, nat_eq, ◌≤◌, ◌≡◌, ◌≢◌, refl, sym, ap, subst, append-nil, append_assoc, All-append, ◌&&◌, ◌++◌,
  ◌∙◌, Bool, Option, none, some, List, [], ◌∷◌, All, >>=-eq-some, arith, nat_beq, ltb, Bool-cases,
  inl, inr, ◌⊎◌,
}
use chain_fuzz.Prelude.Int.{ℤ, pos, negsuc}
use chain_fuzz.Backend.{StructLog, Tracer, Backend, Options}
use native.Mathlib.Nat.{le_trans}
use mathlib.Core.Option.{some-injective}
use chain_fuzz.Processor.{least_depth, Chain, assert_op, revert_op}
use chain_fuzz.Processor.Turn.{turn-Turned}
use chain_fuzz.Processor.Loop.{Progress, turn, turns, has_to, start_of, process_logs}
use chain_fuzz.Processor.Whole.{process_logs-Processed}
use chain_fuzz.Values.{GoType, Value}
use chain_fuzz.TypedPools.{Iface}
use chain_fuzz.ArgPool.{ArgPool}
use chain_fuzz.Prelude.{String}

-- Some log of the operation at this depth.
abbrev pub OccursAt : ℕ → ℕ → List StructLog → Type 0
OccursAt op d [] = ⊥
OccursAt op d (l ∷ ls) = ((l.op ≡ op) × (l.depth ≡ d)) ⊎ OccursAt op d ls

-- -1 for no log of the operation; else the depth of one, and of none a smaller one.
abbrev pub IsLeastDepth : ℕ → List StructLog → ℤ → Type 0
IsLeastDepth op ls (negsuc _) = All (λ l. l.op ≢ op) ls
IsLeastDepth op ls (pos d) = OccursAt op d ls × All (λ l. l.op ≡ op → d ≤ l.depth) ls

-- The least depth over a list of logs, from a start value.
pub least_from : ℕ → List StructLog → ℤ → ℤ
least_from op [] d = d
least_from op (l ∷ ls) d = least_from op ls (least_depth op l d)

OccursAt-left : (op d : ℕ) (ls ms : List StructLog) → OccursAt op d ls → OccursAt op d (ls ++ ms)
OccursAt-left op d [] ms h = absurd h
OccursAt-left op d (l ∷ ls) ms (inl h) = inl h
OccursAt-left op d (l ∷ ls) ms (inr h) = inr (OccursAt-left op d ls ms h)

OccursAt-last :
    (op : ℕ) (ls : List StructLog) (l : StructLog) → l.op ≡ op → OccursAt op l.depth (ls ++ l ∷ [])
OccursAt-last op [] l h = inl (h, refl)
OccursAt-last op (m ∷ ls) l h = inr (OccursAt-last op ls l h)

-- No log of the operation, or none at a smaller depth: then also none below a smaller bound.
lower :
    (op d d' : ℕ) (ls : List StructLog)
    → d' ≤ d
    → All (λ l. l.op ≡ op → d ≤ l.depth) ls
    → All (λ l. l.op ≡ op → d' ≤ l.depth) ls
lower op d d' [] h k = tt
lower op d d' (l ∷ ls) h k = (λ e. le_trans h (k.0 e), lower op d d' ls h k.1)

vacuous :
    (op d : ℕ) (ls : List StructLog)
    → All (λ l. l.op ≢ op) ls
    → All (λ l. l.op ≡ op → d ≤ l.depth) ls
vacuous op d [] h = tt
vacuous op d (l ∷ ls) h = (λ e. absurd (h.0 e), vacuous op d ls h.1)

least_depth-IsLeastDepth :
    (op : ℕ) (ls : List StructLog) (l : StructLog) (d : ℤ)
    → IsLeastDepth op ls d
    → IsLeastDepth op (ls ++ l ∷ []) (least_depth op l d)
unfolding least_depth
least_depth-IsLeastDepth op ls l (negsuc n) h = elim (Bool-cases (nat_beq l.op op)) [
  | inl is ↦ rw is (
    OccursAt-last op ls l (ground arith),
    All-append (λ m. m.op ≡ op → l.depth ≤ m.depth) ls (l ∷ []) (vacuous op l.depth ls h)
        ((λ e. omega arith), tt),
  )
  | inr other ↦ rw other (All-append (λ m. m.op ≢ op) ls (l ∷ []) h (ground arith, tt))
]
least_depth-IsLeastDepth op ls l (pos d) h = elim (Bool-cases (nat_beq l.op op && ltb l.depth d)) [
  | inl less ↦ rw less (
    OccursAt-last op ls l (ground arith),
    All-append (λ m. m.op ≡ op → l.depth ≤ m.depth) ls (l ∷ [])
        (lower op d l.depth ls (ground arith) h.1) ((λ e. omega arith), tt),
  )
  | inr more ↦ rw more (
    OccursAt-left op d ls (l ∷ []) h.0,
    All-append (λ m. m.op ≡ op → d ≤ m.depth) ls (l ∷ []) h.1 ((λ e. ground arith), tt),
  )
]

least_from-IsLeastDepth :
    (op : ℕ) (pre ls : List StructLog) (d : ℤ)
    → IsLeastDepth op pre d
    → IsLeastDepth op (pre ++ ls) (least_from op ls d)
unfolding least_from
least_from-IsLeastDepth op pre [] d h = rw (append-nil pre) h
least_from-IsLeastDepth op pre (l ∷ ls) d h =
    subst (λ ms. IsLeastDepth op ms (least_from op ls (least_depth op l d)))
      (append_assoc pre (l ∷ []) ls)
      (least_from-IsLeastDepth op (pre ++ l ∷ []) ls (least_depth op l d)
        (least_depth-IsLeastDepth op pre l d h))

module _ (chain : Chain) (options : Options) (update_coverage check_deployed : Bool) where
  turns-depths :
      (prev : Option StructLog) (ls : List StructLog) (s s' : Progress)
      → turns chain options update_coverage check_deployed prev ls s ≡ some s'
      → (s'.assertion_at_depth ≡ least_from assert_op ls s.assertion_at_depth)
        × (s'.revert_at_depth ≡ least_from revert_op ls s.revert_at_depth)
  unfolding turns least_from
  turns-depths prev [] s s' h =
      let e : s ≡ s' = some-injective s s' h in
      (
        ap (λ (t : Progress). t.assertion_at_depth) (sym e),
        ap (λ (t : Progress). t.revert_at_depth) (sym e),
      )
  turns-depths prev (l ∷ ls) s s' h =
      let (s₁, first, rest) =
        >>=-eq-some (turn chain options update_coverage check_deployed prev l ls s) _ h in
      let t = turn-Turned chain options update_coverage check_deployed prev l ls s s₁ first in
      let (a, r) = turns-depths (some l) ls s₁ s' rest in
      (a ∙ ap (least_from assert_op ls) t.assertion, r ∙ ap (least_from revert_op ls) t.revert)

module _ (sprint : Iface → String) (unpack : List GoType → List ℕ → List Value) (chain : Chain)
    (to : Option ℕ) {S : Type 0} where
  pub process_logs-depths :
      (o : Options) (tracer : Tracer) (pool pool' : Option ArgPool) (b b' : Backend S)
      → b.last_tx_res.struct_logger ≡ some tracer
      → process_logs sprint unpack chain to pool (some o) b ≡ some (pool', b')
      → IsLeastDepth assert_op tracer.logs b'.last_tx_res.assertion_at_depth
        × IsLeastDepth revert_op tracer.logs b'.last_tx_res.revert_at_depth
  process_logs-depths o tracer pool pool' b b' traced h =
      let p = process_logs-Processed sprint unpack chain to o tracer pool pool' b b' traced h in
      let (a, r) =
        turns-depths chain o (o.update_coverage && has_to to) o.check_deployed_contract none
          tracer.logs (start_of to p.pool₁ b) p.final p.looped in
      (
        subst (IsLeastDepth assert_op tracer.logs)
            (sym (ap (λ (t : Backend S). t.last_tx_res.assertion_at_depth) p.stored ∙ a))
            (least_from-IsLeastDepth assert_op [] tracer.logs (negsuc 0) tt),
        subst (IsLeastDepth revert_op tracer.logs)
            (sym (ap (λ (t : Backend S). t.last_tx_res.revert_at_depth) p.stored ∙ r))
            (least_from-IsLeastDepth revert_op [] tracer.logs (negsuc 0) tt),
      )
