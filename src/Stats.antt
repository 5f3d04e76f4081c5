-- ===== src/Stats.antt =====
-- The counters of utils/statistics.go: for every contract and method the calls that failed and all
-- calls, and the number of transactions since the counter was last reset.
pub mod Counts
use chain_fuzz.Prelude.{
  ℕ, ◌+◌, Bool, Option, none, some, String, List, [], ◌∷◌, map, string_eq, if◌then◌else◌,
}
use chain_fuzz.Prelude.Dict.{Dict, lookup, insert}

-- The `[]int{failed, total}` of a method.
pub record Pair : Type 0 where
  pub failed : ℕ
  pub total : ℕ

-- A nil map reads as an empty one: a missing key.
abbrev pub ContractStatsMap : Type 0
ContractStatsMap = Dict String Pair

abbrev pub StatsMap : Type 0
StatsMap = Dict String ContractStatsMap

pub record Stats : Type 0 where
  pub stats_map : StatsMap
  pub tx_cnt_after_revert : ℕ

abbrev pub no_stats : Stats
no_stats = record { stats_map = []; tx_cnt_after_revert = 0 }

abbrev pub row_of : String → StatsMap → ContractStatsMap
row_of contract m = elim (lookup contract m) [ none ↦ [] | some row ↦ row ]

abbrev pub pair_of : String → ContractStatsMap → Pair
pair_of method row = elim (lookup method row) [
  | none ↦ record { failed = 0; total = 0 }
  | some p ↦ p
]

-- `statsMap[contract][method]`, with the zeros that `setIfNil` puts there.
unfoldable pub read : String → String → StatsMap → Pair
read contract method m = pair_of method (row_of contract m)

-- `statsMap[contract][method] = …`, in the maps that `setIfNil` makes.
unfoldable pub write : String → String → Pair → StatsMap → StatsMap
write contract method p m = insert contract (insert method p (row_of contract m)) m

pub set_if_nil : String → String → Stats → Stats
set_if_nil contract method s = record s {
  stats_map = write contract method (read contract method s.stats_map) s.stats_map;
}

unfoldable pub add_failed_tx : String → String → Stats → Stats
unfolding set_if_nil
add_failed_tx contract method s =
    let s' = set_if_nil contract method s in
    let p = read contract method s'.stats_map in
    record s' {
      stats_map =
          write contract method (record { failed = p.failed + 1; total = p.total + 1 })
            s'.stats_map;
    }

unfoldable pub add_successful_tx : String → String → Stats → Stats
unfolding set_if_nil
add_successful_tx contract method s =
    let s' = set_if_nil contract method s in
    let p = read contract method s'.stats_map in
    record s' { stats_map = write contract method (record p { total = p.total + 1 }) s'.stats_map }

unfoldable pub inc_tx_cnt : Stats → Stats
inc_tx_cnt s = record s { tx_cnt_after_revert = s.tx_cnt_after_revert + 1 }

unfoldable pub reset_counter : Stats → Stats
reset_counter s = record s { tx_cnt_after_revert = 0 }

abbrev pub get_count : Stats → ℕ
get_count s = s.tx_cnt_after_revert

unfoldable pub add_tx : String → String → Bool → Stats → Stats
add_tx contract method failed s =
    let s' = inc_tx_cnt s in
    if failed then add_failed_tx contract method s' else add_successful_tx contract method s'

unfoldable pub get_total_of : String → String → Stats → ℕ × Stats
unfolding set_if_nil
get_total_of contract method s =
    let s' = set_if_nil contract method s in ((read contract method s'.stats_map).total, s')

-- The text of a pair has a failure rate of two decimals, by Go's floats: it is a parameter.
unfoldable pub get_stats : (Pair → String) → Stats → Dict String (Dict String String)
get_stats render s =
    map (λ entry. (entry.0, map (λ cell. (cell.0, render cell.1)) entry.1)) s.stats_map
