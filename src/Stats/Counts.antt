-- ===== src/Stats/Counts.antt =====
-- The counters against the history of the transactions that were counted.
use chain_fuzz.Prelude.{
  ℕ, ◌+◌, ◌≡◌, refl, ap, ap₂, ◌∙◌, Bool, true, false, ◌&&◌, String, List, [], ◌∷◌, length,
  string_eq, ◌==◌, ==_iff, if◌then◌else◌, arith,
}
use chain_fuzz.Prelude.Dict.{insert, lookup-insert}
use chain_fuzz.Stats.{
  Pair, Stats, StatsMap, ContractStatsMap, row_of, pair_of, read, write, add_failed_tx,
  add_successful_tx, add_tx, inc_tx_cnt,
}

-- One counted transaction: contract, method, whether it failed.
pub record Tx : Type 0 where
  pub contract : String
  pub method : String
  pub failed : Bool

-- The counters after `AddTx` for each transaction of a history.
pub count_all : List Tx → Stats → Stats
count_all [] s = s
count_all (t ∷ ts) s = count_all ts (add_tx t.contract t.method t.failed s)

-- The transactions of a history that called this method, and those of them that failed.
abbrev pub calls_of : String → String → List Tx → ℕ
calls_of c m [] = 0
calls_of c m (t ∷ ts) = (if (t.contract == c) && (t.method == m) then 1 else 0) + calls_of c m ts

abbrev pub failures_of : String → String → List Tx → ℕ
failures_of c m [] = 0
failures_of c m (t ∷ ts) =
    (if (t.contract == c) && ((t.method == m) && t.failed) then 1 else 0) + failures_of c m ts

row_of-insert :
    (c c' : String) (row : ContractStatsMap) (s : StatsMap)
    → row_of c' (insert c row s) ≡ (if c == c' then row else row_of c' s)
row_of-insert c c' row s = ground (arith, lookup-insert c c' row s)

pair_of-insert :
    (m m' : String) (p : Pair) (row : ContractStatsMap)
    → pair_of m' (insert m p row) ≡ (if m == m' then p else pair_of m' row)
pair_of-insert m m' p row = ground (arith, lookup-insert m m' p row)

read-write :
    (c m c' m' : String) (p : Pair) (s : StatsMap)
    → read c' m' (write c m p s) ≡ (if (c == c') && (m == m') then p else read c' m' s)
unfolding read write
read-write c m c' m' p s = ground (
  arith,
  row_of-insert c c' (insert m p (row_of c s)) s,
  pair_of-insert m m' p (row_of c s),
  ==_iff c c',
  λ (e : c ≡ c'). ap (λ k. row_of k s) e,
)

-- Writing back a value computed from what was there.
read-update :
    (c m c' m' : String) (f : Pair → Pair) (s : StatsMap)
    → read c' m' (write c m (f (read c m (write c m (read c m s) s))) (write c m (read c m s) s))
      ≡ (if (c == c') && (m == m') then f (read c' m' s) else read c' m' s)
read-update c m c' m' f s =
    let s₁ : StatsMap = write c m (read c m s) s in
    let again : read c m s₁ ≡ read c m s =
      read-write c m c m (read c m s) s ∙ ground (arith, ==_iff c c, ==_iff m m) in
    ground (
      arith,
      read-write c m c' m' (f (read c m s₁)) s₁,
      read-write c m c' m' (read c m s) s,
      ap f again,
      ==_iff c c',
      ==_iff m m',
      λ (e : c ≡ c') (d : m ≡ m'). ap₂ (λ k l. f (read k l s)) e d,
      λ (e : c ≡ c') (d : m ≡ m'). ap₂ (λ k l. read k l s) e d,
    )

-- What `AddTx` adds to a pair.
abbrev counted : Bool → Pair → Pair
counted failed p = record { failed = p.failed + (if failed then 1 else 0); total = p.total + 1 }

read-add_tx :
    (c m c' m' : String) (f : Bool) (s : Stats)
    → read c' m' (add_tx c m f s).stats_map ≡ (
        if (c == c') && (m == m')
        then counted f (read c' m' s.stats_map)
        else read c' m' s.stats_map)
unfolding add_tx add_failed_tx add_successful_tx inc_tx_cnt
read-add_tx c m c' m' true s =
    read-update c m c' m' (λ p. record { failed = p.failed + 1; total = p.total + 1 }) s.stats_map
read-add_tx c m c' m' false s =
    read-update c m c' m' (λ p. record p { total = p.total + 1 }) s.stats_map ∙ ground arith

count-add_tx :
    (c m : String) (f : Bool) (s : Stats)
    → (add_tx c m f s).tx_cnt_after_revert ≡ s.tx_cnt_after_revert + 1
unfolding add_tx add_failed_tx add_successful_tx inc_tx_cnt
count-add_tx c m true s = refl
count-add_tx c m false s = refl

-- After any history of `AddTx` the pair of each method holds, on top of what it held, the number of
-- that method's transactions that failed and the number of all of them; the counter has gone up by
-- the length of the history.
pub count_all_lem :
    (c m : String) (ts : List Tx) (s : Stats)
    → let s' = count_all ts s in
      ((read c m s'.stats_map).failed ≡ (read c m s.stats_map).failed + failures_of c m ts)
      × ((read c m s'.stats_map).total ≡ (read c m s.stats_map).total + calls_of c m ts)
      × (s'.tx_cnt_after_revert ≡ s.tx_cnt_after_revert + length ts)
unfolding count_all
count_all_lem c m [] s = omega arith
count_all_lem c m (t ∷ ts) s = ground (
  arith,
  count_all_lem c m ts (add_tx t.contract t.method t.failed s),
  read-add_tx t.contract t.method c m t.failed s,
  count-add_tx t.contract t.method t.failed s,
)
