-- ===== src/Bytecode.antt =====
-- Texts of bytecode in utils/contracts.go: the swarm hash by which a contract is recognised, the
-- placeholders of unlinked libraries, the positions of the instructions. A text is the list of its
-- bytes; `none` is the panic of a slice out of range.
pub mod SwarmHash
pub mod Placeholders
use chain_fuzz.Prelude.{
  ℕ, zero, suc, ◌+◌, ◌-◌, ◌/◌, ◌%◌, Bool, true, false, ◌&&◌, Option, none, some, List, [], ◌∷◌,
  ◌++◌, length, take, drop, replicate, ◌>>=◌, ltb, leb, nat_beq, if◌then◌else◌,
}

abbrev pub Text : Type 0
Text = List ℕ

abbrev pub hex_digit : ℕ → ℕ
hex_digit n = if ltb n 10 then b'0' + n else b'a' + (n - 10)

-- `fmt.Sprintf("%x", bytes)`
unfoldable pub hex : List ℕ → Text
hex [] = []
hex (b ∷ bs) = hex_digit (b / 16) ∷ hex_digit (b % 16) ∷ hex bs

-- `"\xa1\x65" + "bzzr0"` in hexadecimal, before the swarm hash.
unfoldable pub bzzr0 : Text
unfolding hex
bzzr0 = hex (0xa1 ∷ 0x65 ∷ b'b' ∷ b'z' ∷ b'z' ∷ b'r' ∷ b'0' ∷ [])

abbrev pub starts_with : Text → Text → Bool
starts_with s [] = true
starts_with [] (p ∷ ps) = false
starts_with (c ∷ cs) (p ∷ ps) = nat_beq c p && starts_with cs ps

-- `strings.LastIndex(s, sep)` for a `sep` that is not empty; `none` is -1.
unfoldable pub last_index : Text → Text → Option ℕ
last_index [] sep = none
last_index (c ∷ cs) sep = elim (last_index cs sep) [
  | some i ↦ some (suc i)
  | none ↦ if starts_with (c ∷ cs) sep then some 0 else none
]

-- `s[from:to]`
unfoldable pub slice : ℕ → ℕ → Text → Option Text
slice from to s =
    if leb from to && leb to (length s) then some (take (to - from) (drop from s)) else none

-- The inner option is the `bool` that is returned beside the hash.
unfoldable pub get_swarm_hash : Text → Option (Option Text)
get_swarm_hash bytecode = elim (last_index bytecode bzzr0) [
  | none ↦ some none
  | some idx ↦ do
    hash ← slice (idx + length bzzr0) (idx + length bzzr0 + 64) bytecode
    some (some hash)
]

-- `string(b)` for a byte: the UTF-8 text of the character with that number, two bytes from 0x80 on.
abbrev pub string_of_byte : ℕ → Text
string_of_byte b = if ltb b 128 then b ∷ [] else (b / 64 + 192) ∷ (b % 64 + 128) ∷ []

-- `ReplacePlaceHolders`: at `_` the index of the loop jumps over 39 more characters. The first
-- argument counts those that are still jumped over.
unfoldable pub replace_from : ℕ → Text → Text
replace_from skip [] = []
replace_from (suc skip) (c ∷ cs) = replace_from skip cs
replace_from zero (c ∷ cs) =
    let kept = string_of_byte c ++ replace_from zero cs in
    let replaced = replicate 40 b'0' ++ replace_from 39 cs in
    if nat_beq c b'_' then replaced else kept

unfoldable pub replace_place_holders : Text → Text
replace_place_holders = replace_from 0

-- `GetOpcodeIndices` for the deployed bytecode of the contract. `disassemble` stands for
-- `hex.DecodeString` and go-ethereum's instruction iterator: the offsets of the instructions.
unfoldable pub get_opcode_indices : (Text → List ℕ) → Text → Option (List ℕ)
get_opcode_indices disassemble bytecode = do
  -- `idx` is -1 where there is no hash, and then, as for 0, the end of the slice is negative
  idx ← last_index bytecode bzzr0
  end ← (if nat_beq idx 0 then none else some (idx - 1))
  code ← slice 0 end bytecode
  some (disassemble (replace_place_holders code))
