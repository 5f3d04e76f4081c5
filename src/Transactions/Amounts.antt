-- ===== src/Transactions/Amounts.antt =====
-- Amounts and prices as texts (utils/transactions.go).
use chain_fuzz.Prelude.{
  ℕ, ◌+◌, ◌-◌, ◌*◌, ◌^◌, ◌<◌, ◌≡◌, refl, ap, ◌∙◌, false, Option, some, none, List, [], ◌∷◌, All,
  arith, nat_beq, ltb, if◌then◌else◌, ◌>>=◌,
}
use chain_fuzz.Prelude.Int.{pos}
use chain_fuzz.Bytecode.{Text}
use chain_fuzz.Transactions.{decimal_from, decimal, parse_int, or_zero}

-- The number that some digits stand for, the first one first, and their text.
abbrev pub number_from : ℕ → List ℕ → ℕ
number_from n [] = n
number_from n (d ∷ ds) = number_from (n * 10 + d) ds

abbrev pub text_of : List ℕ → Text
text_of [] = []
text_of (d ∷ ds) = (b'0' + d) ∷ text_of ds

digit_read : (n d : ℕ) → n * 10 + (b'0' + d - b'0') ≡ n * 10 + d
digit_read n d = omega arith

decimal_from-text_of :
    (ds : List ℕ) (n : ℕ)
    → All (λ d. d < 10) ds
    → decimal_from n (text_of ds) ≡ some (number_from n ds)
decimal_from-text_of [] n all = refl
decimal_from-text_of (d ∷ ds) n (lt, all) = ground (
  arith,
  ap (λ m. decimal_from m (text_of ds)) (digit_read n d),
  decimal_from-text_of ds (n * 10 + d) all,
)

plain_digit :
    (d : ℕ) → d < 10 → (nat_beq (b'0' + d) b'-' ≡ false) × (nat_beq (b'0' + d) b'+' ≡ false)
plain_digit d lt = (ground arith, ground arith)

-- What is made of the number that has been read.
bounded :
    (o : Option ℕ) (n : ℕ)
    → o ≡ some n
    → or_zero (o >>= λ m. if ltb m (2 ^ 63) then some (pos m) else none)
      ≡ (if ltb n (2 ^ 63) then pos n else pos 0)
unfolding or_zero
bounded o n h = rw h (ground arith)

first_digit : (d : ℕ) → 0 * 10 + d ≡ d
first_digit d = omega arith

decimal-text_of :
    (d : ℕ) (ds : List ℕ)
    → d < 10
    → All (λ d. d < 10) ds
    → decimal (text_of (d ∷ ds)) ≡ some (number_from d ds)
decimal-text_of d ds lt all =
    decimal_from-text_of (d ∷ ds) 0 (lt, all) ∙ ap (λ n. some (number_from n ds)) (first_digit d)

-- A text of digits is read as its number if that is below 2^63, and as 0 from there on. A text that
-- begins with 0x is read as 0.
pub parse_int-text_of :
    (d : ℕ) (ds : List ℕ) (rest : Text)
    → d < 10
    → All (λ d. d < 10) ds
    → (or_zero (parse_int (text_of (d ∷ ds)))
        ≡ (if ltb (number_from d ds) (2 ^ 63) then pos (number_from d ds) else pos 0))
      × (or_zero (parse_int (b'0' ∷ b'x' ∷ rest)) ≡ pos 0)
unfolding parse_int or_zero
parse_int-text_of d ds rest lt all = (
  (let (no_minus, no_plus) = plain_digit d lt in
      rw no_minus (
        rw no_plus
          (bounded (decimal (text_of (d ∷ ds))) (number_from d ds) (decimal-text_of d ds lt all)))),
  refl,
)
