-- ===== src/Tests/Startups.antt =====
-- A project with one contract, deployed by one transaction.
use chain_fuzz.Prelude.{
  ℕ, nat_eq, string_eq, list_eq, int_eq, ◌+◌, ◌≡◌, refl, true, false, Option, none, some, String,
  List, [], ◌∷◌, replicate,
}
use chain_fuzz.Prelude.Int.{pos}
use chain_fuzz.Prelude.Dict.{Dict, lookup}
use chain_fuzz.Pool
use chain_fuzz.TypedPools.{Iface}
use chain_fuzz.ArgPool.Globals.{new_arg_pool}
use chain_fuzz.Args.{Env}
use chain_fuzz.Bytecode.{hex, bzzr0, last_index, slice, get_swarm_hash}
use chain_fuzz.Values.{GoType, Value}
use chain_fuzz.Commit.{commit_transaction}
use chain_fuzz.Contracts.{
  ContractConfig, process_config, add_timestamps, process_contract, ignore_methods,
  ignore_contract_method, remove_libraries, get_contract_name_by_hash, add_hashes,
  delete_from_slice,
}
use chain_fuzz.Generator.{Method}
use chain_fuzz.Processor.{
  return_op, check_overflow, operators, extract_timestamps, least_depth, push, detect_deployment,
  add_deployed,
}
use chain_fuzz.Processor.Loop.{process_logs, harvest, run_loop, turns, turn, cover}
use chain_fuzz.Accounts.{
  nothing_read, read_accounts, read_file, add_accounts, mark_used, get_key_from_address,
}
use chain_fuzz.Transactions.{
  Raw, read_transactions, convert_and_sign, raw_of, get_payload, hex_decode, is_contract_creation,
  parse_int, or_zero,
}
use chain_fuzz.Artifacts.{
  Abi, Built, ContractData, get_abi_map, add_files, add_file, note_libraries, payable_flags,
  read_deployed_bytecodes, add_bytecodes,
}
use chain_fuzz.Metadata.{get_filename}
use chain_fuzz.Artifacts.Abis.{FromFile, get_abi_map-FromFile}
use chain_fuzz.Startup.{
  Project, Node, Started, new_backend, deploy_all, set_balances, list_contracts,
}
use chain_fuzz.ArgPool.Sessions.{IsReady}
use chain_fuzz.Args.Init.{fresh-IsValid}
use chain_fuzz.Accounts.{AccountJson}
use chain_fuzz.Startup.Pool.{new_backend-IsReady}
use chain_fuzz.Startup.Well.{WellStarted, new_backend-WellStarted}

abbrev print : Iface → String
print _ = "item"

abbrev no_values : List GoType → List ℕ → List Value
no_values types output = []

abbrev draw : ℕ → ℕ
draw n = n

-- The code that is deployed: a marker and 32 bytes of hash.
abbrev deployed_code : List ℕ
deployed_code = 0xa1 ∷ 0x65 ∷ b'b' ∷ b'z' ∷ b'z' ∷ b'r' ∷ b'0' ∷ replicate 32 7

abbrev getter : Method
getter = record { inputs = []; outputs = []; is_const = true }

abbrev bank_file : Built
bank_file = record {
  file_name = "Bank.json";
  deployed_bytecode = b'0' ∷ b'x' ∷ hex deployed_code;
  contract_name = "Bank";
  nodes = ("contract", "Bank") ∷ ("library", "Math") ∷ [];
  abi = record { constructor = getter; methods = ("get", getter) ∷ ("pay", getter) ∷ [] };
  entries = record { name = "pay"; payable = true } ∷ record { name = "get"; payable = false } ∷ [];
}

abbrev configs : Dict String ContractConfig
configs =
    ("Bank", record { ignore_all = false; ignored_functions = "pay" ∷ []; timestamps = [] }) ∷ []

abbrev project : Project
project = record {
  files = some (bank_file ∷ []);
  accounts = some (record { key = "aa"; amount = pos 5 } ∷ []);
  lines =
      some (record {
        account_nonce = 0;
        from = b'1' ∷ [];
        recipient = [];
        amount = b'0' ∷ [];
        gas_limit = 9000000;
        price = b'0' ∷ [];
        payload = b'0' ∷ b'x' ∷ b'6' ∷ b'0' ∷ [];
      })
      ∷ [];
  config = some configs;
}

abbrev node : Node ℕ Raw
node = record {
  hex_to_key = λ _. some 10;
  address_of = λ key. key + 100;
  hex_to_address = λ _. 110;
  sign = λ raw key. some raw;
  empty_state = 0;
  set_balance = λ address amount s. s + 1;
  evm = λ raw. record {
    apply = λ s. record {
      state = s + 1;
      tracer = record {
        output = [];
        logs =
            record { op = return_op; pc = 0; depth = 1; stack = []; memory = deployed_code } ∷ [];
      };
      failed = false;
    };
    restore = λ s _. s;
  };
  to_of = λ raw. raw.to;
  deployed_at = λ raw. some 42;
}

abbrev no_data : ContractData
no_data = record {
  contract_hashes = [];
  deployed_bytecodes = none;
  abi_map = none;
  payable = [];
  libraries = [];
}

abbrev env : Env
env = record { pool = new_arg_pool Pool.empty Pool.empty; drawn = 0 }

abbrev Begun : Type 0
Begun = Started print no_values draw node

abbrev begun : Option (Option Begun)
begun = new_backend print no_values draw node project no_data nothing_read env

abbrev nothing_begun : Begun
nothing_begun = record {
  backend = record {
    state = 0;
    deployed_contracts = [];
    contracts_list = [];
    last_tx_in = none;
    last_tx_res = record {
      output = [];
      revert_at_depth = pos 0;
      assertion_at_depth = pos 0;
      overflow = none;
      struct_logger = none;
    };
    opcode_indices = [];
    stats = record { stats_map = []; tx_cnt_after_revert = 0 };
    tx_count = 0;
  };
  env = env;
  contract_data = no_data;
  store = nothing_read;
}

abbrev begun_as : Option (Option Begun) → Begun
begun_as (some (some s)) = s
begun_as _ = nothing_begun

begins : begun ≡ some (some (begun_as begun))
unfolding new_backend get_abi_map add_files add_file note_libraries payable_flags get_filename
    read_deployed_bytecodes add_bytecodes read_accounts read_file add_accounts mark_used
    get_key_from_address read_transactions convert_and_sign raw_of get_payload hex_decode
    is_contract_creation parse_int or_zero deploy_all set_balances list_contracts commit_transaction
    process_logs harvest run_loop turns turn cover check_overflow operators extract_timestamps
    least_depth push detect_deployment add_deployed get_swarm_hash last_index slice bzzr0 hex
    process_config add_timestamps process_contract ignore_methods ignore_contract_method
    remove_libraries get_contract_name_by_hash add_hashes delete_from_slice
begins = refl

new_backend-WellStarted_example :
    (abis : Dict String Abi) × ((begun_as begun).contract_data.abi_map ≡ some abis)
    × WellStarted configs abis (begun_as begun).backend
new_backend-WellStarted_example =
    new_backend-WellStarted print no_values draw node project (bank_file ∷ []) configs no_data
      nothing_read env (begun_as begun) refl refl refl (refl, tt) begins

abbrev first_account : AccountJson
first_account = record { key = "aa"; amount = pos 5 }

new_backend-IsReady_example : IsReady print (begun_as begun).env.pool
new_backend-IsReady_example =
    new_backend-IsReady print no_values draw node project first_account [] configs no_data
      nothing_read env (begun_as begun) refl refl refl (tt, tt) (fresh-IsValid print) begins

abbrev data_of : Option (Dict String Abi × ContractData) → ContractData
data_of none = no_data
data_of (some r) = r.1

abbrev abis_of : Option (Dict String Abi × ContractData) → Dict String Abi
abis_of none = []
abis_of (some r) = r.0

abbrev mapped : Option (Dict String Abi × ContractData)
mapped = get_abi_map (some (bank_file ∷ [])) no_data

maps : mapped ≡ some (abis_of mapped, data_of mapped)
unfolding get_abi_map
maps = refl

bank_known : lookup "Bank" (abis_of mapped) ≡ some bank_file.abi
unfolding get_abi_map add_files add_file note_libraries get_filename
bank_known = refl

get_abi_map-FromFile_example : FromFile (bank_file ∷ []) "Bank" bank_file.abi (data_of mapped)
get_abi_map-FromFile_example =
    get_abi_map-FromFile (bank_file ∷ []) no_data (data_of mapped) (abis_of mapped) refl maps "Bank"
      bank_file.abi bank_known
