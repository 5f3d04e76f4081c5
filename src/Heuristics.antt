-- ===== src/Heuristics.antt =====
-- The options and the clock of a run (utils/heuristics.go), and the snapshot of the state
-- (utils/snapshots.go). `S` is the struct of go-ethereum's `StateDB`; reverting assigns that struct.
pub mod Clock
pub mod Flags
pub mod Rec
pub mod Reports
use Prim.Native.Nat.{bit_and}
use chain_fuzz.Prelude.{
  ℕ, Bool, true, false, not, Option, none, some, ◌>>=◌, nat_beq, ltb, if◌then◌else◌,
}
use chain_fuzz.Prelude.Int.{ℤ}
use chain_fuzz.ArgPool.{ArgPool, current_timestamp, next_timestamp}
use chain_fuzz.Stats.{get_count, reset_counter}
use chain_fuzz.Backend.{Backend}

pub record OptMode : Type 0 where
  pub retry_half_ether : Bool
  pub retry_diff_sender : Bool
  pub snapshots_enabled : Bool
  pub gen_statistics : Bool

abbrev pub no_flags : OptMode
no_flags = record {
  retry_half_ether = false;
  retry_diff_sender = false;
  snapshots_enabled = false;
  gen_statistics = false;
}

-- Each set bit sets its flag; no flag is cleared.
unfoldable pub set_flag : ℕ → OptMode → OptMode
set_flag opt_flag o =
    let o₁ = if nat_beq (bit_and opt_flag 1) 0 then o else record o { retry_half_ether = true } in
    let o₂ =
      if nat_beq (bit_and opt_flag 2) 0 then o₁ else record o₁ { retry_diff_sender = true } in
    let o₃ =
      if nat_beq (bit_and opt_flag 4) 0 then o₂ else record o₂ { snapshots_enabled = true } in
    if nat_beq (bit_and opt_flag 8) 0 then o₃ else record o₃ { gen_statistics = true }

-- `backendSnapshot` is a nil pointer before the first snapshot. `copy` is `StateDB.Copy`.
abbrev pub snapshot_backend : {S : Type 0} → (S → S) → Backend S → Option S
snapshot_backend copy b = some (copy b.state)

unfoldable pub revert_backend : {S : Type 0} → Option S → Backend S → Option (Backend S)
revert_backend snapshot b = do s ← snapshot; some (record b { state = s })

-- `now` is the clock of the machine.
unfoldable pub gen_timestamp :
    {S : Type 0} → ℕ → Option S → Backend S → ArgPool → Option (Option ℤ × Backend S × ArgPool)
gen_timestamp now snapshot b a =
    let stay = (do t ← current_timestamp now a; some (t, b, a)) in
    let move = (do
      (t, should_revert, a') ← next_timestamp now a
      let b₁ = record b { stats = reset_counter b.stats }
      b₂ ← (if should_revert then revert_backend snapshot b₁ else some b₁)
      some (t, b₂, a')) in
    if ltb (get_count b.stats) 2048 then stay else move
