-- ===== src/Contracts.antt =====
-- The deployed contracts and the list of those that are fuzzed (utils/contracts.go): contracts and
-- methods that the configuration ignores, libraries, and the random choice.
pub mod Delete
pub mod Ignore
pub mod Config
pub mod Hashes
pub mod Choice
use chain_fuzz.Prelude.{
  ℕ, nat_eq, list_eq, string_eq, ◌%◌, Bool, Option, none, some, String, List, [], ◌∷◌, length,
  get_elem?, nat_beq, ◌==◌, ◌>>=◌, if◌then◌else◌,
}
use chain_fuzz.Prelude.Dict.{Dict, lookup, contains, insert, delete}
use chain_fuzz.ArgPool.{ArgPool, add_timestamp}
use chain_fuzz.Bytecode.{Text, get_swarm_hash}
use chain_fuzz.Backend.{Contract, Backend}

-- `a[len(a)-1]` and `a[:len(a)-1]` of `x ∷ xs`.
abbrev pub last_of : {A : Type 0} → A → List A → A
last_of x [] = x
last_of x (y ∷ ys) = last_of y ys

abbrev pub all_but_last : {A : Type 0} → A → List A → List A
all_but_last x [] = []
all_but_last x (y ∷ ys) = x ∷ all_but_last y ys

-- The last element takes the place of the first `val`, if there is one behind it.
abbrev pub fill_gap : List String → List String
fill_gap [] = []
fill_gap (x ∷ xs) = last_of x xs ∷ all_but_last x xs

unfoldable pub delete_from_slice : String → List String → List String
delete_from_slice val [] = []
delete_from_slice val (s ∷ rest) =
    let later = s ∷ delete_from_slice val rest in if s == val then fill_gap rest else later

-- `ContractConfig` of utils/utils.go.
pub record ContractConfig : Type 0 where
  pub ignore_all : Bool
  pub ignored_functions : List String
  pub timestamps : List ℕ

-- `for _, timestamp := range config.Timestamps { argPool.AddTimestamp(timestamp) }`
unfoldable pub add_timestamps : List ℕ → ArgPool → ArgPool
add_timestamps [] a = a
add_timestamps (t ∷ ts) a = add_timestamps ts (add_timestamp t a)

module _ {S : Type 0} where
  unfoldable pub ignore_contract : String → Backend S → Backend S
  ignore_contract contract b =
      if contains contract b.deployed_contracts
      then record b {
        deployed_contracts = delete contract b.deployed_contracts;
        contracts_list = delete_from_slice contract b.contracts_list;
      }
      else b

  unfoldable pub ignore_contract_method : String → String → Backend S → Backend S
  ignore_contract_method contract method b = elim (lookup contract b.deployed_contracts) [
    | none ↦ b
    | some c ↦ record b {
      deployed_contracts =
          insert contract (record c { methods = delete_from_slice method c.methods })
            b.deployed_contracts;
    }
  ]

  -- The loop over the ignored functions of one contract.
  unfoldable pub ignore_methods : String → List String → Backend S → Backend S
  ignore_methods contract [] b = b
  ignore_methods contract (m ∷ ms) b =
      ignore_methods contract ms (ignore_contract_method contract m b)

  unfoldable pub process_contract : String → ContractConfig → Backend S → Backend S
  process_contract contract config b =
      if config.ignore_all
      then ignore_contract contract b
      else ignore_methods contract config.ignored_functions b

  -- The map of the configuration comes in any order of its entries: here it is the order of a list.
  unfoldable pub process_config :
      Dict String ContractConfig → ArgPool → Backend S → ArgPool × Backend S
  process_config [] a b = (a, b)
  process_config (entry ∷ rest) a b =
      process_config rest (add_timestamps entry.1.timestamps a) (process_contract entry.0 entry.1 b)

  -- `Libraries` is the set of libraries that the ABI map has found.
  unfoldable pub remove_libraries : List String → Backend S → Backend S
  remove_libraries [] b = b
  remove_libraries (l ∷ ls) b =
      remove_libraries ls (record b { deployed_contracts = delete l b.deployed_contracts })

  -- `rand` is the result of `rand.Int()`. A remainder by zero is a panic.
  unfoldable pub get_random_contract : ℕ → Backend S → Option String
  get_random_contract rand b =
      if nat_beq (length b.contracts_list) 0
      then none
      else get_elem? b.contracts_list (rand % length b.contracts_list)

  -- A missing contract is a nil pointer.
  unfoldable pub get_random_method : ℕ → String → Backend S → Option String
  get_random_method rand contract b = do
    c ← lookup contract b.deployed_contracts
    if nat_beq (length c.methods) 0 then none else get_elem? c.methods (rand % length c.methods)

-- `ReadContractsHashes`, where nothing is cached: names by the swarm hashes of their deployed
-- bytecodes, which come in any order.
unfoldable pub add_hashes : Dict String Text → Dict Text String → Option (Dict Text String)
add_hashes [] hashes = some hashes
add_hashes (entry ∷ rest) hashes = do
  found ← get_swarm_hash entry.1
  elim found [
    | none ↦ add_hashes rest hashes
    | some hash ↦ add_hashes rest (insert hash entry.0 hashes)
  ]

-- A hash that is not known is a panic.
unfoldable pub get_contract_name_by_hash : Text → Dict String Text → Option String
get_contract_name_by_hash hash codes = do hashes ← add_hashes codes []; lookup hash hashes
