-- ===== src/Tests/Choices.antt =====
-- Concrete contracts, configurations, hints and clocks.
use chain_fuzz.Prelude.{
  ℕ, nat_eq, string_eq, int_eq, ◌<◌, ◌≤◌, ◌≡◌, refl, true, false, none, some, String, [], ◌∷◌, ◌++◌,
  elem, length, replicate, arith, if◌then◌else◌, nat_beq, inl, ◌⊎◌,
}
use chain_fuzz.Prelude.Int.{ℤ, pos, negsuc, leb_ℤ}
use chain_fuzz.Prelude.Dict.{Dict}
use chain_fuzz.Pool
use chain_fuzz.TypedPools.{Iface}
use chain_fuzz.Timestamps
use chain_fuzz.Timestamps.Rounds
use chain_fuzz.Timestamps.Rounds.{sort-add-IsValid}
use chain_fuzz.ArgPool.{ArgPool, add_big_int}
use chain_fuzz.ArgPool.Globals.{new_arg_pool}
use chain_fuzz.ArgPool.Valid
use chain_fuzz.ArgPool.Valid.{IsValid}
use chain_fuzz.Args.Init.{fresh-IsValid}
use chain_fuzz.Bytecode.{Text, bzzr0, hex, last_index, get_swarm_hash}
use chain_fuzz.Bytecode.SwarmHash.{get_swarm_hash-last}
use chain_fuzz.Backend.{Backend}
use chain_fuzz.Contracts.{
  ContractConfig, process_config, get_contract_name_by_hash, get_random_contract, get_random_method,
}
use chain_fuzz.Contracts.Ignore.{IsWell, Leaves, methods_of, deployed, listed, offers}
use chain_fuzz.Contracts.Config.{ignored_by, muted_by, process_config-Leaves}
use chain_fuzz.Contracts.Hashes.{Carries, get_contract_name_by_hash-Carries}
use chain_fuzz.Contracts.Choice.{get_random_contract-get_random_method}
use chain_fuzz.Generator.{draw_amount}
use chain_fuzz.Generator.Amount.{draw_amount_total}
use chain_fuzz.Heuristics.{gen_timestamp}
use chain_fuzz.Heuristics.Clock.{Moved, gen_timestamp_total}

abbrev fresh : ArgPool
fresh = new_arg_pool Pool.empty Pool.empty

-- Two contracts on the list; the state is a number.
abbrev backend : Backend ℕ
backend = record {
  state = 1;
  deployed_contracts =
      ("Bank", record { addresses = 42 ∷ []; methods = "pay" ∷ "get" ∷ [] })
      ∷ ("Shop", record { addresses = 43 ∷ []; methods = "buy" ∷ [] })
      ∷ [];
  contracts_list = "Bank" ∷ "Shop" ∷ [];
  last_tx_in = none;
  last_tx_res = record {
    output = [];
    revert_at_depth = negsuc 0;
    assertion_at_depth = negsuc 0;
    overflow = none;
    struct_logger = none;
  };
  opcode_indices = [];
  stats = record { stats_map = []; tx_cnt_after_revert = 2048 };
  tx_count = 0;
}

backend-IsWell : IsWell backend
backend-IsWell = record {
  distinct = refl;
  known = λ c h. ground (arith, h);
  methods = λ c. ground arith;
}

abbrev configs : Dict String ContractConfig
configs =
    ("Shop", record { ignore_all = true; ignored_functions = []; timestamps = [] })
    ∷ ("Bank", record { ignore_all = false; ignored_functions = "pay" ∷ []; timestamps = [] })
    ∷ []

process_config-Leaves_example :
    Leaves (ignored_by configs) (muted_by configs) backend (process_config configs fresh backend).1
process_config-Leaves_example = process_config-Leaves configs fresh backend backend-IsWell

get_random_contract-get_random_method_example :
    (c : String) × (get_random_contract 1 backend ≡ some c)
    × (listed c backend ≡ true)
    × (deployed c backend ≡ true)
    × (0 < length (methods_of c backend.deployed_contracts)
        → (m : String) × (get_random_method 5 c backend ≡ some m) × (offers c m backend ≡ true))
get_random_contract-get_random_method_example =
    get_random_contract-get_random_method 1 5 backend backend-IsWell (omega arith)

abbrev hash : Text
hash = replicate 64 b'7'

abbrev code : Text
code = bzzr0 ++ (hash ++ b'0' ∷ [])

marked_code : get_swarm_hash code ≡ some (some hash)
marked_code = get_swarm_hash-last [] (hash ++ b'0' ∷ []) (unfold last_index bzzr0 hex in refl)

get_contract_name_by_hash-Carries_example :
    (found : String) × (get_contract_name_by_hash hash (("Bank", code) ∷ []) ≡ some found)
    × Carries hash found (("Bank", code) ∷ [])
get_contract_name_by_hash-Carries_example =
    get_contract_name_by_hash-Carries hash (("Bank", code) ∷ []) "Bank"
      ((some hash, marked_code), tt) (inl (refl, marked_code))

-- A pool with 9 and 2 to draw from, and a balance of 5.
abbrev print : Iface → String
print (Iface.big_int (pos n)) = if nat_beq n 9 then "9" else "2"
print _ = "2"

abbrev amounts : ArgPool
amounts = add_big_int print (pos 2) (add_big_int print (pos 9) fresh)

amounts-IsValid : IsValid print amounts
amounts-IsValid =
    Valid.add_big_int-IsValid print (Valid.add_big_int-IsValid print (fresh-IsValid print) (pos 9))
      (pos 2)

draw_amount_total_example :
    (x : ℤ) × (a' : ArgPool) × (draw_amount 2 (pos 5) amounts ≡ some (x, a'))
    × (leb_ℤ x (pos 5) ≡ true)
    × IsValid print a'
draw_amount_total_example =
    draw_amount_total print 1 2 (pos 2) (pos 5) amounts-IsValid
      (unfold add_big_int Pool.add Pool.contains_item in refl) refl (omega arith)

abbrev timed : ArgPool
timed = record fresh {
  timestamps = Timestamps.sort (Timestamps.add 1500000000 Timestamps.get_timestamp_pool);
}

timed-IsValid : Rounds.IsValid timed.timestamps
timed-IsValid =
    sort-add-IsValid 1500000000 (omega arith) (unfold Timestamps.contains_item in refl)
      (fresh-IsValid print).timestamps

gen_timestamp_total_example :
    (t : ℤ) × (b' : Backend ℕ) × (a' : ArgPool) × (gen_timestamp 0 (some 7) backend timed
      ≡ some (some t, b', a'))
    × (elem t timed.timestamps.storage ≡ true)
    × (((2048 < 2048) × (b' ≡ backend) × (a' ≡ timed))
        ⊎ ((2048 ≤ 2048) × Moved 0 7 t timed backend b'))
gen_timestamp_total_example = gen_timestamp_total 0 7 backend timed timed-IsValid (
    unfold Timestamps.sort Timestamps.add Timestamps.sorted Timestamps.insert_sorted in omega arith)
