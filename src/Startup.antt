-- ===== src/Startup.antt =====
-- `NewBackend` (utils/backend.go): balances, the deployment transactions, the argument pool, and the
-- contracts and methods that are fuzzed. The chain, the state and the configuration of go-ethereum
-- are parameters.
pub mod Listing
pub mod Pool
pub mod Bare
pub mod Well
use chain_fuzz.Prelude.{
  ℕ, string_eq, nat_beq, Bool, true, false, Option, none, some, String, List, [], ◌∷◌, ◌++◌, map,
  length, ◌==◌, ◌>>=◌, ◌||◌, if◌then◌else◌,
}
use chain_fuzz.Prelude.Int.{ℤ, negsuc}
use chain_fuzz.Prelude.Dict.{Dict, keys, lookup}
use chain_fuzz.Values.{GoType, Value}
use chain_fuzz.TypedPools.{Iface}
use chain_fuzz.ArgPool.{ArgPool}
use chain_fuzz.Args.{Env, Funds, init_arg_pool}
use chain_fuzz.Stats.{no_stats}
use chain_fuzz.Bytecode.{Text}
use chain_fuzz.Backend.{Contract, LastTxResult, Backend, Options}
use chain_fuzz.Processor.{Chain}
use chain_fuzz.Commit.{Evm, commit_transaction}
use chain_fuzz.Contracts.{
  ContractConfig, process_config, remove_libraries, get_contract_name_by_hash,
}
use chain_fuzz.Accounts.{AccountJson, Key, Account, Store, read_accounts}
use chain_fuzz.Transactions.{Deployment, Raw, read_transactions}
use chain_fuzz.Artifacts.{Abi, Built, ContractData, get_abi_map, read_deployed_bytecodes}

-- The files of a project, as the decoders read them.
pub record Project : Type 0 where
  pub files : Option (List Built)
  pub accounts : Option (List AccountJson)
  pub lines : List (Option Deployment)
  pub config : Option (Dict String ContractConfig)

-- What go-ethereum answers: keys and addresses, signing, the state, applying a signed transaction, its
-- recipient, and the address that its receipt gives.
pub record Node (S T : Type 0) : Type 0 where
  pub hex_to_key : String → Option ℕ
  pub address_of : ℕ → ℕ
  pub hex_to_address : Text → ℕ
  pub sign : Raw → Key → Option T
  pub empty_state : S
  pub set_balance : ℕ → ℤ → S → S
  pub evm : T → Evm S
  pub to_of : T → Option ℕ
  pub deployed_at : T → Option ℕ

-- The options of the deployment transactions.
abbrev pub deployment_options : Options
deployment_options = record {
  update_coverage = true;
  check_deployed_contract = true;
  update_arg_pool = false;
  extract_timestamps = true;
}

-- `LastTxRes` as its zero value.
abbrev pub no_result : LastTxResult
no_result = record {
  output = [];
  revert_at_depth = ℤ.pos 0;
  assertion_at_depth = ℤ.pos 0;
  overflow = none;
  struct_logger = none;
}

abbrev pub empty_backend : {S : Type 0} → S → Backend S
empty_backend state = record {
  state = state;
  deployed_contracts = [];
  contracts_list = [];
  last_tx_in = none;
  last_tx_res = no_result;
  opcode_indices = [];
  stats = no_stats;
  tx_count = 0;
}

abbrev pub funds : List Account → List Funds
funds [] = []
funds (acc ∷ rest) = (acc.address, acc.amount) ∷ funds rest

-- The methods of every deployed contract, and the list of those with methods in their ABI, except for
-- "Migrations". A contract without an ABI is a panic.
unfoldable pub list_contracts :
    Dict String Abi → Dict String Contract → Option (Dict String Contract × List String)
list_contracts abis [] = some ([], [])
list_contracts abis (entry ∷ rest) = do
  abi ← lookup entry.0 abis
  (contracts, listed) ← list_contracts abis rest
  let methods = keys abi.methods
  some (
    (entry.0, record entry.1 { methods = entry.1.methods ++ methods }) ∷ contracts,
    if (entry.0 == "Migrations") || nat_beq (length methods) 0 then listed else entry.0 ∷ listed,
  )

module _ (sprint : Iface → String) (unpack : List GoType → List ℕ → List Value) (rand : ℕ → ℕ)
    {S T : Type 0} (node : Node S T) where
  unfoldable pub set_balances : List Account → S → S
  set_balances [] s = s
  set_balances (acc ∷ rest) s = set_balances rest (node.set_balance acc.address acc.amount s)

  -- `GetContractNameByHash`, from the bytecodes of the project.
  abbrev pub chain_for : Project → ContractData → T → Chain
  chain_for project g tx = record {
    name_of_hash = λ hash. do
      (codes, g') ← read_deployed_bytecodes project.files g
      get_contract_name_by_hash hash codes;
    deployed_address = node.deployed_at tx;
  }

  -- The loop over the transactions. Their errors are ignored.
  unfoldable pub deploy_all :
      (T → Chain) → List T → ArgPool → Backend S → Option (ArgPool × Backend S)
  deploy_all chain [] a b = some (a, b)
  deploy_all chain (tx ∷ txs) a b = do
    (failed, pool, b') ←
        commit_transaction sprint unpack (chain tx) (node.evm tx) (node.to_of tx) (some a)
          (some deployment_options) b
    a' ← pool
    deploy_all chain txs a' b'

  -- What is left when `NewBackend` returns: the backend, the pool, and the package variables.
  pub record Started : Type 0 where
    pub backend : Backend S
    pub env : Env
    pub contract_data : ContractData
    pub store : Store

  -- `none` is `os.Exit(0)`, where no contract is left to fuzz.
  abbrev pub started : ContractData → Store → Env → ArgPool × Backend S → Option Started
  started g st e (a, b) =
      if nat_beq (length b.contracts_list) 0
      then none
      else some (record { backend = b; env = record e { pool = a }; contract_data = g; store = st })

  -- The hashes of contracts are read anew for every deployment; the cache gives the same ones.
  unfoldable pub new_backend : Project → ContractData → Store → Env → Option (Option Started)
  new_backend project g st e = do
    (abis, g₁) ← get_abi_map project.files g
    (accs, st₁) ← read_accounts node.hex_to_key node.address_of project.accounts st
    (txs, st₂) ← read_transactions node.hex_to_address node.sign project.lines st₁
    (a, b) ←
        deploy_all (chain_for project g₁) txs e.pool
          (empty_backend (set_balances accs node.empty_state))
    let e₁ = init_arg_pool sprint rand (funds accs) (record e { pool = a })
    let b₁ = remove_libraries (keys g₁.libraries) b
    (contracts, listed) ← list_contracts abis b₁.deployed_contracts
    config ← project.config
    let b₂ = record b₁ { deployed_contracts = contracts; contracts_list = listed }
    some (started g₁ st₂ e₁ (process_config config e₁.pool b₂))
