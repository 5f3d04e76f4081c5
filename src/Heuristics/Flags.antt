-- ===== src/Heuristics/Flags.antt =====
-- The bits of the option `-o` (utils/heuristics.go).
use chain_fuzz.Prelude.{ℕ, ◌+◌, ◌≡◌, refl, Bool, true, false, if◌then◌else◌}
use chain_fuzz.Heuristics.{no_flags, set_flag}

abbrev pub flag : Bool → ℕ → ℕ
flag b n = if b then n else 0

-- From no flags, the number whose bits are four Booleans sets exactly the flags of those Booleans.
pub set_flag_lem :
    (h d s g : Bool)
    → set_flag (flag h 1 + (flag d 2 + (flag s 4 + flag g 8))) no_flags ≡ record {
      retry_half_ether = h;
      retry_diff_sender = d;
      snapshots_enabled = s;
      gen_statistics = g;
    }
unfolding set_flag
set_flag_lem true true true true = refl
set_flag_lem true true true false = refl
set_flag_lem true true false true = refl
set_flag_lem true true false false = refl
set_flag_lem true false true true = refl
set_flag_lem true false true false = refl
set_flag_lem true false false true = refl
set_flag_lem true false false false = refl
set_flag_lem false true true true = refl
set_flag_lem false true true false = refl
set_flag_lem false true false true = refl
set_flag_lem false true false false = refl
set_flag_lem false false true true = refl
set_flag_lem false false true false = refl
set_flag_lem false false false true = refl
set_flag_lem false false false false = refl
