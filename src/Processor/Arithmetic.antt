-- ===== src/Processor/Arithmetic.antt =====
-- The arithmetic of the virtual machine, and one check of a step against it.
use chain_fuzz.Prelude.{
  ℕ, nat_eq, int_eq, ◌+◌, ◌-◌, ◌*◌, ◌^◌, ◌%◌, ◌<◌, ◌≡◌, ◌↔◌, refl, sym, subst, ◌∙◌, Bool, true,
  false, not, ◌||◌, ◌==◌, Option, none, some, List, [], ◌∷◌, if◌then◌else◌, arith, nat_beq, ltb,
  leb, Option-cases, inl, inr,
}
use chain_fuzz.Prelude.Int.{ℤ, pos, sub_ℕ}
use mathlib.Core.Option.{some-injective}
use chain_fuzz.Backend.{from_top, StructLog, Report}
use chain_fuzz.Processor.{check_overflow, operators, sub_op, add_op, mul_op, exp_op}

abbrev pub word_mod : ℕ
word_mod = 2 ^ 256

-- The arithmetic of the virtual machine: words wrap at 2^256.
unfoldable pub evm_result : ℕ → ℕ → ℕ → ℕ
evm_result op a b =
    if nat_beq op sub_op
    then (a + word_mod - b) % word_mod
    else (if nat_beq op add_op
        then (a + b) % word_mod
        else (if nat_beq op mul_op then a * b % word_mod else a ^ b % word_mod))

-- The exact result is no word.
unfoldable pub leaves_range : ℕ → ℕ → ℕ → Bool
leaves_range op a b =
    if nat_beq op sub_op
    then ltb a b
    else (if nat_beq op add_op
        then leb word_mod (a + b)
        else (if nat_beq op mul_op
            then leb word_mod (a * b)
            else (if nat_beq op exp_op then leb word_mod (a ^ b) else false)))

unfoldable pub is_arith : ℕ → Bool
is_arith op = nat_beq op sub_op || (nat_beq op add_op || (nat_beq op mul_op || nat_beq op exp_op))

-- A step of the virtual machine with an arithmetic operation has two words on the stack, and leaves
-- the wrapped result on the next one.
abbrev pub StepConforms : StructLog → StructLog → Type 0
StepConforms l m =
    is_arith l.op ≡ true
    → (a b : ℕ) × (from_top 0 l.stack ≡ some a)
      × (from_top 1 l.stack ≡ some b)
      × (a < word_mod)
      × (b < word_mod)
      × (from_top 0 m.stack ≡ some (evm_result l.op a b))

abbrev pub Conforms : List StructLog → Type 0
Conforms [] = Unit
Conforms (l ∷ []) = Unit
Conforms (l ∷ m ∷ rest) = StepConforms l m × Conforms (m ∷ rest)

abbrev pub step_overflows : StructLog → Bool
step_overflows l = elim (from_top 0 l.stack) [
  | none ↦ false
  | some a ↦ elim (from_top 1 l.stack) [ none ↦ false | some b ↦ leaves_range l.op a b ]
]

-- Some step before the last one overflows.
abbrev pub any_overflow : List StructLog → Bool
any_overflow [] = false
any_overflow (l ∷ []) = false
any_overflow (l ∷ m ∷ rest) = step_overflows l || any_overflow (m ∷ rest)

sub_exact :
    (a b : ℕ)
    → a < word_mod
    → b < word_mod
    → (pos ((a + word_mod - b) % word_mod) == sub_ℕ a b) ≡ not (ltb a b)
sub_exact a b ha hb = ground arith

wrap_exact : (c : ℕ) → (pos (c % word_mod) == pos c) ≡ not (leb word_mod c)
wrap_exact c = ground arith

-- The exact result differs from the wrapped one exactly if it is no word: by the four tests of the
-- operation, in their order.
exact_table :
    (is_sub is_add is_mul is_exp : Bool) (a b : ℕ) (exact : ℕ → ℕ → ℤ)
    → (if is_sub
        then some (λ a b. sub_ℕ a b)
        else (if is_add
            then some (λ a b. pos (a + b))
            else (if is_mul
                then some (λ a b. pos (a * b))
                else (if is_exp then some (λ a b. pos (a ^ b)) else none))))
      ≡ some exact
    → a < word_mod
    → b < word_mod
    → ((is_sub || (is_add || (is_mul || is_exp))) ≡ true)
      × ((pos (
              if is_sub
              then (a + word_mod - b) % word_mod
              else (if is_add
                  then (a + b) % word_mod
                  else (if is_mul then a * b % word_mod else a ^ b % word_mod)))
            == exact a b)
          ≡ not (
              if is_sub
              then ltb a b
              else (if is_add
                  then leb word_mod (a + b)
                  else (if is_mul
                      then leb word_mod (a * b)
                      else (if is_exp then leb word_mod (a ^ b) else false)))))
exact_table true _ _ _ a b exact h ha hb = (
  refl,
  subst (λ (f : ℕ → ℕ → ℤ). (pos ((a + word_mod - b) % word_mod) == f a b) ≡ not (ltb a b))
      (some-injective _ exact h) (sub_exact a b ha hb),
)
exact_table false true _ _ a b exact h ha hb = (
  refl,
  subst (λ (f : ℕ → ℕ → ℤ). (pos ((a + b) % word_mod) == f a b) ≡ not (leb word_mod (a + b)))
      (some-injective _ exact h) (wrap_exact (a + b)),
)
exact_table false false true _ a b exact h ha hb = (
  refl,
  subst (λ (f : ℕ → ℕ → ℤ). (pos (a * b % word_mod) == f a b) ≡ not (leb word_mod (a * b)))
      (some-injective _ exact h) (wrap_exact (a * b)),
)
exact_table false false false true a b exact h ha hb = (
  refl,
  subst (λ (f : ℕ → ℕ → ℤ). (pos (a ^ b % word_mod) == f a b) ≡ not (leb word_mod (a ^ b)))
      (some-injective _ exact h) (wrap_exact (a ^ b)),
)
exact_table false false false false a b exact h ha hb = cc

pub exact_iff :
    (op a b : ℕ) (exact : ℕ → ℕ → ℤ)
    → operators op ≡ some exact
    → a < word_mod
    → b < word_mod
    → (is_arith op ≡ true) × ((pos (evm_result op a b) == exact a b) ≡ not (leaves_range op a b))
unfolding operators is_arith evm_result leaves_range
exact_iff op =
    exact_table (nat_beq op sub_op) (nat_beq op add_op) (nat_beq op mul_op) (nat_beq op exp_op)

no_operator_table :
    (is_sub is_add is_mul is_exp : Bool) (a b : ℕ)
    → ◌≡◌ {A = Option (ℕ → ℕ → ℤ)}
        (if is_sub
          then some (λ a b. sub_ℕ a b)
          else (if is_add
              then some (λ a b. pos (a + b))
              else (if is_mul
                  then some (λ a b. pos (a * b))
                  else (if is_exp then some (λ a b. pos (a ^ b)) else none))))
        none
    → (if is_sub
        then ltb a b
        else (if is_add
            then leb word_mod (a + b)
            else (if is_mul
                then leb word_mod (a * b)
                else (if is_exp then leb word_mod (a ^ b) else false))))
      ≡ false
no_operator_table true _ _ _ a b h = cc
no_operator_table false true _ _ a b h = cc
no_operator_table false false true _ a b h = cc
no_operator_table false false false true a b h = cc
no_operator_table false false false false a b h = refl

no_operator : (op a b : ℕ) → operators op ≡ none → leaves_range op a b ≡ false
unfolding operators leaves_range
no_operator op =
    no_operator_table (nat_beq op sub_op) (nat_beq op add_op) (nat_beq op mul_op)
      (nat_beq op exp_op)

step_at :
    (l : StructLog) (a b : ℕ)
    → from_top 0 l.stack ≡ some a
    → from_top 1 l.stack ≡ some b
    → step_overflows l ≡ leaves_range l.op a b
step_at l a b ta tb = rw (ta, step_overflows) (rw tb)

no_step : (l : StructLog) → operators l.op ≡ none → step_overflows l ≡ false
no_step l h = elim (Option-cases (from_top 0 l.stack)) [
  | inl short ↦ rw (short, step_overflows)
  | inr (a, ta) ↦ elim (Option-cases (from_top 1 l.stack)) [
    | inl short ↦ rw (ta, step_overflows) (rw short)
    | inr (b, tb) ↦ step_at l a b ta tb ∙ no_operator l.op a b h
  ]
]

pub check_other :
    (l : StructLog) (rest : List StructLog)
    → operators l.op ≡ none
    → check_overflow l rest none ≡ some none
unfolding check_overflow
check_other l rest h = rw (h, check_overflow)

abbrev pub report_of : StructLog → ℕ → ℕ → ℕ → ℤ → Report
report_of l a b r expected = record {
  operand_a = a;
  op = l.op;
  operand_b = b;
  result = r;
  expected = expected;
}

pub check_exact :
    (l m : StructLog) (rest : List StructLog) (exact : ℕ → ℕ → ℤ) (a b r : ℕ)
    → operators l.op ≡ some exact
    → from_top 0 l.stack ≡ some a
    → from_top 1 l.stack ≡ some b
    → from_top 0 m.stack ≡ some r
    → check_overflow l (m ∷ rest) none
      ≡ some (if pos r == exact a b then none else some (report_of l a b r (exact a b)))
unfolding check_overflow
check_exact l m rest exact a b r is ta tb tr = rw (is, check_overflow) (rw (ta, tb, tr))

decide_step :
    (l : StructLog) (a b : ℕ) (same : Bool) (found : Option Report) (report : Report)
    → from_top 0 l.stack ≡ some a
    → from_top 1 l.stack ≡ some b
    → same ≡ not (leaves_range l.op a b)
    → found ≡ (if same then none else some report)
    → (found ≡ none) ↔ (step_overflows l ≡ false)
decide_step l a b true found report ta tb iff e = (λ _. step_at l a b ta tb ∙ ground arith, λ _. e)
decide_step l a b false found report ta tb iff e =
    (λ h. cc, λ h. absurd (range l.op a b iff (sym (step_at l a b ta tb) ∙ h)))
  where
    range : (op a b : ℕ) → false ≡ not (leaves_range op a b) → leaves_range op a b ≡ false → ⊥
    range op a b h k = ground arith

-- One step: no report exactly if the step does not overflow.
pub check_step :
    (l m : StructLog) (rest : List StructLog) (found : Option Report)
    → StepConforms l m
    → check_overflow l (m ∷ rest) none ≡ some found
    → (found ≡ none) ↔ (step_overflows l ≡ false)
check_step l m rest found conforms h = elim (Option-cases (operators l.op)) [
  | inl other ↦
      (λ _. no_step l other, λ _. some-injective _ _ (sym h ∙ check_other l (m ∷ rest) other))
  | inr (exact, is) ↦
      let arith_op = (exact_iff l.op 0 0 exact is (omega arith) (omega arith)).0 in
      let (a, b, ta, tb, ha, hb, tr) = conforms arith_op in
      let (_, iff) = exact_iff l.op a b exact is ha hb in
      let e =
        some-injective _ _
          (sym h ∙ check_exact l m rest exact a b (evm_result l.op a b) is ta tb tr) in
      decide_step l a b (pos (evm_result l.op a b) == exact a b) found
        (report_of l a b (evm_result l.op a b) (exact a b)) ta tb iff e
]
