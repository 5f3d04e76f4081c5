-- ===== src/Tests/Pools.antt =====
-- Concrete pools, counters and registries.
use chain_fuzz.Prelude.{
  ℕ, nat_eq, int_eq, string_eq, ◌+◌, ◌%◌, ◌<◌, ◌≤◌, ◌≡◌, refl, true, false, none, some, String,
  List, [], ◌∷◌, ◌++◌, elem, All, arith,
}
use chain_fuzz.Prelude.Int.{ℤ, pos_part}
use mathlib.Core.Logic.{◌↔◌, inl, inr}
use chain_fuzz.Pool
use chain_fuzz.Pool.{Pool}
use chain_fuzz.Pool.Valid.{IsValid, add-IsValid, empty-IsValid, step-IsValid}
use chain_fuzz.Pool.Cycle.{contents, draws, next_refines, draws_round, draws_reaches, contents-add}
use chain_fuzz.TypedPools.{Iface}
use chain_fuzz.Timestamps
use chain_fuzz.Timestamps.{TimestampPool}
use chain_fuzz.Timestamps.Rounds
use chain_fuzz.Timestamps.Rounds.{sort-add-IsValid, next-all_passed, next-wraps}
use chain_fuzz.Stats.{no_stats, read}
use chain_fuzz.Stats.Counts.{Tx, count_all, count_all_lem}
use chain_fuzz.ArgPool.Globals.{
  Globals, new_arg_pool, get_arg_pool, reset_arg_pool, write, reset_keeps_registered,
}

-- A pool of machine integers whose index stands on its second item.
abbrev same : ℕ → ℕ
same x = x

abbrev two_items : Pool ℕ ℕ
two_items = Pool.add same 7 (Pool.add same 5 Pool.empty)

abbrev moved : Pool ℕ ℕ
moved = record two_items { idx = 1 }

two_items-IsValid : IsValid same two_items
two_items-IsValid = add-IsValid same 7 (add-IsValid same 5 (empty-IsValid same))

moved-IsValid : IsValid same moved
unfolding Pool.add
moved-IsValid = step-IsValid same two_items-IsValid (omega arith)

draws_round_example : draws 0 2 moved ≡ some (7 ∷ 5 ∷ [], moved)
unfolding Pool.add
draws_round_example = draws_round same 0 moved-IsValid

draws_reaches_example :
    (p' p'' : Pool ℕ ℕ) × (draws 0 1 moved ≡ some (7 ∷ [], p')) × (Pool.next 0 p' ≡ some (5, p''))
unfolding Pool.add
draws_reaches_example = draws_reaches same 0 1 moved-IsValid refl

next_refines_example :
    (x : ℕ) × (q : List ℕ) × (Pool.next 0 moved ≡ some (x, record moved { idx = (1 + 1) % 2 }))
    × (contents moved ≡ x ∷ q)
    × (contents (record moved { idx = (1 + 1) % 2 }) ≡ q ++ x ∷ [])
unfolding Pool.add
next_refines_example = next_refines same 0 moved-IsValid (omega arith)

contents-add_example : contents (Pool.add same 9 moved) ≡ 7 ∷ 9 ∷ 5 ∷ []
unfolding Pool.add
contents-add_example = contents-add same 0 9 moved-IsValid

-- Timestamps put in out of order.
abbrev no_times : TimestampPool
no_times = Timestamps.get_timestamp_pool

abbrev put : ℕ → TimestampPool → TimestampPool
put t p = Timestamps.sort (Timestamps.add t p)

no_times-IsValid : Rounds.IsValid no_times
unfolding Timestamps.contains_item
no_times-IsValid = record {
  in_range = inr (refl, refl);
  times = tt;
  ascending = tt;
  agrees = λ k h. refl;
}

abbrev one_time : TimestampPool
one_time = put 1600000000 no_times

one_time-IsValid : Rounds.IsValid one_time
one_time-IsValid =
    sort-add-IsValid 1600000000 (omega arith) (unfold Timestamps.contains_item in refl)
      no_times-IsValid

two_times-IsValid : Rounds.IsValid (put 1500000000 one_time)
unfolding Timestamps.contains_item Timestamps.sort Timestamps.add
two_times-IsValid = sort-add-IsValid 1500000000 (omega arith) refl one_time-IsValid

abbrev two_times : TimestampPool
two_times = put 1500000000 one_time

abbrev last_time : TimestampPool
last_time = record two_times { idx = 1 }

next-all_passed_example :
    (t : ℤ) × (p' : TimestampPool) × (Timestamps.next two_times ≡ some (some t, p'))
    × (elem t two_times.storage ≡ true)
    × ((Timestamps.all_passed p' ≡ true) ↔ All (λ u. pos_part u ≤ pos_part t) two_times.storage)
unfolding Timestamps.sort Timestamps.add Timestamps.sorted Timestamps.insert_sorted
next-all_passed_example = next-all_passed two_times-IsValid (omega arith)

last_time-IsValid : Rounds.IsValid last_time
unfolding Timestamps.sort Timestamps.add Timestamps.sorted Timestamps.insert_sorted
    Timestamps.contains_item
last_time-IsValid = record {
  in_range = inl (omega arith);
  times = two_times-IsValid.times;
  ascending = two_times-IsValid.ascending;
  agrees = two_times-IsValid.agrees;
}

next-wraps_example :
    (t u : ℤ) × (p' : TimestampPool) × (Timestamps.get_current last_time ≡ some (some u))
    × (Timestamps.next last_time ≡ some (some t, p'))
    × (pos_part t < pos_part u)
    × (Timestamps.all_passed p' ≡ false)
unfolding Timestamps.sort Timestamps.add Timestamps.sorted Timestamps.insert_sorted
    Timestamps.all_passed
next-wraps_example = next-wraps last_time-IsValid (omega arith) refl

-- Three transactions.
abbrev history : List Tx
history =
    record { contract = "Bank"; method = "pay"; failed = true }
    ∷ record { contract = "Bank"; method = "pay"; failed = false }
    ∷ record { contract = "Shop"; method = "pay"; failed = true }
    ∷ []

count_all_lem_example :
    ((read "Bank" "pay" (count_all history no_stats).stats_map).failed ≡ 1)
    × ((read "Bank" "pay" (count_all history no_stats).stats_map).total ≡ 2)
    × ((count_all history no_stats).tx_cnt_after_revert ≡ 3)
unfolding read
count_all_lem_example = count_all_lem "Bank" "pay" history no_stats

-- A registry that has been used.
abbrev used_globals : Globals
used_globals = (get_arg_pool (record { arg_pool = none; pools = [] })).1

abbrev one_address : Pool String Iface
one_address = Pool.add (λ x. "0x2a") (Iface.address 42) Pool.empty

reset_keeps_registered_example :
    (get_arg_pool (reset_arg_pool (write (new_arg_pool one_address Pool.empty) used_globals))).0
    ≡ new_arg_pool one_address Pool.empty
reset_keeps_registered_example =
    reset_keeps_registered used_globals (new_arg_pool one_address Pool.empty)
