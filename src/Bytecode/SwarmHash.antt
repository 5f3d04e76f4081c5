-- ===== src/Bytecode/SwarmHash.antt =====
-- Which hash is found in a bytecode.
use chain_fuzz.Prelude.{
  ℕ, ◌+◌, ◌-◌, ◌≡◌, refl, sym, ap, ap₂, drop-append, drop-length, append_assoc, ◌∙◌, true, none,
  some, [], ◌∷◌, ◌++◌, length, length-append, take, drop, ◌>>=◌, leb, if◌then◌else◌, arith,
}
use chain_fuzz.Bytecode.{Text, bzzr0, starts_with, last_index, slice, get_swarm_hash}

starts_with-append : (p s : Text) → starts_with (p ++ s) p ≡ true
starts_with-append [] s = refl
starts_with-append (c ∷ p) s = ground (arith, starts_with-append p s)

-- A last occurrence stays the last one behind any prefix.
last_index-append :
    (pre s sep : Text) (i : ℕ)
    → last_index s sep ≡ some i
    → last_index (pre ++ s) sep ≡ some (length pre + i)
unfolding last_index
last_index-append [] s sep i h = h ∙ ap some (omega arith)
last_index-append (c ∷ pre) s sep i h = rw (last_index-append pre s sep i h) (ap some (omega arith))

slice-behind :
    (p rest : Text) (n : ℕ)
    → slice (length p) (length p + n) (p ++ rest)
      ≡ (if leb n (length rest) then some (take n rest) else none)
unfolding slice
slice-behind p rest n =
    let behind : drop (length p) (p ++ rest) ≡ rest =
      drop-append (length p) p rest (omega arith) ∙ ap (λ l. l ++ rest) (drop-length p) in
    let count : length p + n - length p ≡ n = omega arith in
    rw (behind, count) (ground (arith, length-append p rest))

found_at :
    (bytecode : Text) (i : ℕ)
    → last_index bytecode bzzr0 ≡ some i
    → get_swarm_hash bytecode
      ≡ (slice (i + length bzzr0) (i + length bzzr0 + 64) bytecode >>= λ hash. some (some hash))
unfolding get_swarm_hash
found_at bytecode i h = rw (h, get_swarm_hash)

-- Where `a165627a7a7230` occurs and not again behind that place, `GetSwarmHash` returns the 64
-- characters behind it if there are that many, whatever is before it, and panics if there are
-- fewer.
pub get_swarm_hash-last :
    (pre rest : Text)
    → last_index (bzzr0 ++ rest) bzzr0 ≡ some 0
    → get_swarm_hash (pre ++ (bzzr0 ++ rest))
      ≡ (if leb 64 (length rest) then some (some (take 64 rest)) else none)
get_swarm_hash-last pre rest last =
    found_at (pre ++ (bzzr0 ++ rest)) (length pre + 0)
      (last_index-append pre (bzzr0 ++ rest) bzzr0 0 last)
    ∙ ap₂ (λ i s. slice i (i + 64) s >>= λ hash. some (some hash))
        (omega (arith, length-append pre bzzr0)) (sym (append_assoc pre bzzr0 rest))
    ∙ ap (λ o. o >>= λ hash. some (some hash)) (slice-behind (pre ++ bzzr0) rest 64)
    ∙ out
  where
    out :
        ((if leb 64 (length rest) then some (take 64 rest) else none) >>= λ hash. some (some hash))
        ≡ (if leb 64 (length rest) then some (some (take 64 rest)) else none)
    out = ground arith
