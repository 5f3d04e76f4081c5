-- ===== src/Bytecode/Placeholders.antt =====
-- Replacing the placeholders of libraries in a bytecode.
use chain_fuzz.Prelude.{
  ℕ, ◌+◌, ◌*◌, ◌/◌, ◌%◌, ◌<◌, ◌≤◌, ◌≡◌, ◌≢◌, refl, sym, ap, ap₂, ◌∙◌, false, [], ◌∷◌, ◌++◌, length,
  replicate, nat_beq, ltb, arith,
}
use chain_fuzz.Bytecode.{Text, string_of_byte, replace_from, replace_place_holders}

-- A bytecode made of ASCII characters, of other bytes, and of placeholders, `_` and 39 more bytes each;
-- and what becomes of it: a byte of 0x80 or more is written as the two bytes that encode its number,
-- and a placeholder becomes 40 zeros.
pub data Linked : Text → Text → Type 0 where
  end : Linked [] []
  plain : {c : ℕ} {s t : Text} → c ≢ b'_' → c < 128 → Linked s t → Linked (c ∷ s) (c ∷ t)
  wide :
      (high low : ℕ) {s t : Text}
      → 2 ≤ high
      → high < 4
      → low < 64
      → Linked s t
      → Linked ((high * 64 + low) ∷ s) ((0xc0 + high) ∷ (0x80 + low) ∷ t)
  hole :
      (name : Text) {s t : Text}
      → length name ≡ 39
      → Linked s t
      → Linked (b'_' ∷ (name ++ s)) (replicate 40 b'0' ++ t)

skip-name : (name s : Text) → replace_from (length name) (name ++ s) ≡ replace_from 0 s
unfolding replace_from
skip-name [] [] = refl
skip-name [] (c ∷ s) = refl
skip-name (c ∷ name) s = skip-name name s

replace_end : replace_from 0 [] ≡ []
unfolding replace_from
replace_end = refl

replace_hole :
    (name s : Text)
    → length name ≡ 39
    → replace_from 0 (b'_' ∷ (name ++ s)) ≡ replicate 40 b'0' ++ replace_from 0 s
unfolding replace_from
replace_hole name s h =
    ap (λ l. replicate 40 b'0' ++ l)
      (ap (λ k. replace_from k (name ++ s)) (sym h) ∙ skip-name name s)

replace_plain :
    (c : ℕ) (s : Text) → c ≢ b'_' → c < 128 → replace_from 0 (c ∷ s) ≡ c ∷ replace_from 0 s
unfolding replace_from
replace_plain c s h ascii = ground arith

wide_byte :
    (high low : ℕ)
    → 2 ≤ high
    → low < 64
    → string_of_byte (high * 64 + low) ≡ (0xc0 + high) ∷ (0x80 + low) ∷ []
wide_byte high low two small =
    let not_ascii : ltb (high * 64 + low) 128 ≡ false = ground arith in
    rw not_ascii (ap₂ (λ x y. x ∷ y ∷ []) (two_bytes_high) (two_bytes_low))
  where
    two_bytes_high : (high * 64 + low) / 64 + 192 ≡ 0xc0 + high
    two_bytes_high = omega arith

    two_bytes_low : (high * 64 + low) % 64 + 128 ≡ 0x80 + low
    two_bytes_low = omega arith

replace_wide :
    (high low : ℕ) (s : Text)
    → 2 ≤ high
    → low < 64
    → replace_from 0 ((high * 64 + low) ∷ s) ≡ (0xc0 + high) ∷ (0x80 + low) ∷ replace_from 0 s
unfolding replace_from
replace_wide high low s two small =
    let no_hole : nat_beq (high * 64 + low) b'_' ≡ false = ground arith in
    rw no_hole (ap (λ l. l ++ replace_from 0 s) (wide_byte high low two small))

-- On a bytecode of ASCII characters, other bytes and whole placeholders `ReplacePlaceHolders` keeps
-- the characters, writes each other byte as the two bytes that encode its number, and writes 40
-- zeros for each placeholder.
pub replace_place_holders-Linked : {s t : Text} → Linked s t → replace_place_holders s ≡ t
unfolding replace_place_holders
replace_place_holders-Linked end = replace_end
replace_place_holders-Linked (plain {c = c} {s = s} ne ascii l) =
    replace_plain c s ne ascii ∙ ap (λ r. c ∷ r) (replace_place_holders-Linked l)
replace_place_holders-Linked (wide high low {s = s} two four small l) =
    replace_wide high low s two small
    ∙ ap (λ r. (0xc0 + high) ∷ (0x80 + low) ∷ r) (replace_place_holders-Linked l)
replace_place_holders-Linked (hole name {s = s} h l) =
    replace_hole name s h ∙ ap (λ r. replicate 40 b'0' ++ r) (replace_place_holders-Linked l)
