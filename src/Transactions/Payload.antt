-- ===== src/Transactions/Payload.antt =====
-- Payloads as hexadecimal texts and back (utils/transactions.go).
use chain_fuzz.Prelude.{
  ℕ, ◌+◌, ◌*◌, ◌/◌, ◌%◌, ◌<◌, ◌≡◌, refl, Bool, true, false, if◌then◌else◌, some, none, List, [],
  ◌∷◌, All, arith, >>=-some, ap, nat_beq,
}
use chain_fuzz.Bytecode.{hex, hex_digit}
use chain_fuzz.Transactions.{hex_value, hex_decode, get_payload}

-- A digit is read as what it was printed for.
hex_value-hex_digit : (n : ℕ) → n < 16 → hex_value (hex_digit n) ≡ some n
hex_value-hex_digit n h = ground arith

joined : (b : ℕ) → (b / 16) * 16 + b % 16 ≡ b
joined b = omega arith

hex_decode-hex : (bytes : List ℕ) → All (λ b. b < 256) bytes → hex_decode (hex bytes) ≡ some bytes
unfolding hex_decode hex
hex_decode-hex [] all = refl
hex_decode-hex (b ∷ bs) (lt, all) = >>=-some _ (hex_value-hex_digit (b / 16) (omega arith)) (
    >>=-some _ (hex_value-hex_digit (b % 16) (omega arith))
      (>>=-some _ (hex_decode-hex bs all) (ap (λ d. some (d ∷ bs)) (joined b))))

abbrev pub is_empty : {A : Type 0} → List A → Bool
is_empty [] = true
is_empty (_ ∷ _) = false

-- A digit is never the `x` of a prefix.
hex_digit_not_x : (n : ℕ) → n < 16 → nat_beq (hex_digit n) b'x' ≡ false
hex_digit_not_x n h = ground arith

-- The hexadecimal text of some bytes is read as those bytes with the prefix 0x, and without it if
-- there is at least one byte; the empty text is a panic.
pub get_payload-hex :
    (bytes : List ℕ)
    → All (λ b. b < 256) bytes
    → (get_payload (b'0' ∷ b'x' ∷ hex bytes) ≡ some bytes)
      × (get_payload (hex bytes) ≡ (if is_empty bytes then none else some bytes))
unfolding get_payload hex
get_payload-hex [] all = (hex_decode-hex [] all, refl)
get_payload-hex (b ∷ bs) (lt, all) = (
  hex_decode-hex (b ∷ bs) (lt, all),
  rw (hex_digit_not_x (b % 16) (omega arith)) (hex_decode-hex (b ∷ bs) (lt, all)),
)
