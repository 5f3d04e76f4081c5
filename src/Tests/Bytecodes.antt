-- ===== src/Tests/Bytecodes.antt =====
-- Concrete bytecodes: one with a swarm hash of 64 times `7`, one with a placeholder and the byte 0xe9.
use chain_fuzz.Prelude.{◌≡◌, refl, nat_eq, some, [], ◌∷◌, ◌++◌, replicate, arith}
use chain_fuzz.Bytecode.{Text, bzzr0, hex, last_index, get_swarm_hash, replace_place_holders}
use chain_fuzz.Bytecode.SwarmHash.{get_swarm_hash-last}
use chain_fuzz.Bytecode.Placeholders.{Linked, plain, wide, hole, end, replace_place_holders-Linked}

abbrev hash : Text
hash = replicate 64 b'7'

get_swarm_hash-last_example :
    get_swarm_hash ((b'6' ∷ b'0' ∷ []) ++ (bzzr0 ++ (hash ++ b'0' ∷ []))) ≡ some (some hash)
get_swarm_hash-last_example =
    get_swarm_hash-last (b'6' ∷ b'0' ∷ []) (hash ++ b'0' ∷ []) (unfold last_index bzzr0 hex in refl)

abbrev name : Text
name = replicate 39 b'_'

abbrev with_hole : Text
with_hole = b'7' ∷ 0xe9 ∷ (b'_' ∷ (name ++ b'6' ∷ b'0' ∷ []))

abbrev linked_code : Text
linked_code = b'7' ∷ 0xc3 ∷ 0xa9 ∷ (replicate 40 b'0' ++ b'6' ∷ b'0' ∷ [])

with_hole-Linked : Linked with_hole linked_code
with_hole-Linked = plain (ground arith) (omega arith) (
    wide 3 41 (omega arith) (omega arith) (omega arith) (
      hole name refl (plain (ground arith) (omega arith) (plain (ground arith) (omega arith) end))))

replace_place_holders-Linked_example : replace_place_holders with_hole ≡ linked_code
replace_place_holders-Linked_example = replace_place_holders-Linked with_hole-Linked
