-- ===== src/Artifacts.antt =====
-- What is read from the built files of a project, and the package variables that cache it (the readers
-- of utils/contracts.go). A file is what the JSON decoder makes of it, and `none` is one that cannot
-- be read or decoded, which is a panic.
pub mod Abis
pub mod Libraries
use Prim.Native.Char.{code}
use chain_fuzz.Prelude.{
  ℕ, zero, suc, string_eq, nat_eq, list_eq, Bool, true, false, not, ◌&&◌, Option, none, some,
  String, List, [], ◌∷◌, ◌==◌, ◌>>=◌, nat_beq, if◌then◌else◌,
}
use chain_fuzz.Prelude.Dict.{Dict, lookup, contains, insert}
use chain_fuzz.Bytecode.{Text, slice}
use chain_fuzz.Values.{Value}
use chain_fuzz.Contracts.{ContractConfig, add_hashes}
use chain_fuzz.Generator.{Method}
use chain_fuzz.Metadata.{get_filename}

-- `abi.ABI`, as far as the program reads it.
pub record Abi : Type 0 where
  pub constructor : Method
  pub methods : Dict String Method

-- An entry of a file's ABI list: methods, events, the constructor and the fallback alike.
pub record Entry : Type 0 where
  pub name : String
  pub payable : Bool

-- A file of the build directory. `nodes` are the kind and the name of the nodes of its syntax tree.
pub record Built : Type 0 where
  pub file_name : String
  pub deployed_bytecode : Text
  pub contract_name : String
  pub nodes : List (String × String)
  pub abi : Abi
  pub entries : List Entry

-- The package variables of utils/contracts.go. A nil map that is only read is empty.
pub record ContractData : Type 0 where
  pub contract_hashes : Dict String (Dict Text String)
  pub deployed_bytecodes : Option (Dict String Text)
  pub abi_map : Option (Dict String Abi)
  pub payable : Dict String (Dict String Bool)
  pub libraries : Dict String Bool

-- `ResetContractData`
unfoldable pub reset_contract_data : ContractData → ContractData
reset_contract_data g = record {
  contract_hashes = [];
  deployed_bytecodes = none;
  abi_map = none;
  payable = [];
  libraries = [];
}

-- `files` are the built files of the project of the metadata, in the order of the directory.
-- `M["deployedBytecode"][2:]` is a panic where the text is shorter.
abbrev pub without_prefix : Text → Option Text
without_prefix (_ ∷ _ ∷ code) = some code
without_prefix _ = none

unfoldable pub add_bytecodes : List Built → Dict String Text → Option (Dict String Text)
add_bytecodes [] m = some m
add_bytecodes (f ∷ fs) m = do
  code ← without_prefix f.deployed_bytecode
  add_bytecodes fs (insert (get_filename f.file_name) code m)

-- The map is a new variable of the function: the package variable of that name stays as it is.
unfoldable pub read_deployed_bytecodes :
    Option (List Built) → ContractData → Option (Dict String Text × ContractData)
read_deployed_bytecodes files g = elim g.deployed_bytecodes [
  | some codes ↦ some (codes, g)
  | none ↦ do fs ← files; codes ← add_bytecodes fs []; some (codes, g)
]

unfoldable pub read_contracts_hashes :
    Option (List Built) → String → ContractData → Option (Dict Text String × ContractData)
read_contracts_hashes files metadata g = elim (lookup metadata g.contract_hashes) [
  | some hashes ↦ some (hashes, g)
  | none ↦ do
    (codes, g') ← read_deployed_bytecodes files g
    hashes ← add_hashes codes []
    some (hashes, record g' { contract_hashes = insert metadata hashes g'.contract_hashes })
]

-- What `GetABIMap` fills.
pub record Tables : Type 0 where
  pub abis : Dict String Abi
  pub payable : Dict String (Dict String Bool)
  pub libraries : Dict String Bool

unfoldable pub note_libraries : List (String × String) → Dict String Bool → Dict String Bool
note_libraries [] m = m
note_libraries (node ∷ nodes) m =
    note_libraries nodes (if node.0 == "library" then insert node.1 true m else m)

-- `Payable[filename][method.Name] = method.Payable`, for every entry in turn.
unfoldable pub payable_flags : List Entry → Dict String Bool → Dict String Bool
payable_flags [] m = m
payable_flags (entry ∷ entries) m = payable_flags entries (insert entry.name entry.payable m)

unfoldable pub add_file : Built → Tables → Tables
add_file f t =
    let libraries = note_libraries f.nodes t.libraries in
    let name = get_filename f.file_name in
    if contains f.contract_name libraries then record t { libraries = libraries } else record {
      abis = insert name f.abi t.abis;
      payable = insert name (payable_flags f.entries []) t.payable;
      libraries = libraries;
    }

unfoldable pub add_files : List Built → Tables → Tables
add_files [] t = t
add_files (f ∷ fs) t = add_files fs (add_file f t)

abbrev pub no_tables : Tables
no_tables = record { abis = []; payable = []; libraries = [] }

-- All three maps are made anew when the ABI map is.
unfoldable pub get_abi_map :
    Option (List Built) → ContractData → Option (Dict String Abi × ContractData)
get_abi_map files g = elim g.abi_map [
  | some abis ↦ some (abis, g)
  | none ↦ do
    fs ← files
    let t = add_files fs no_tables
    some (t.abis, record g { abi_map = some t.abis; payable = t.payable; libraries = t.libraries })
]

unfoldable pub get_contract_abi :
    Option (List Built) → String → ContractData → Option (Abi × ContractData)
get_contract_abi files contract g = do
  (abis, g') ← get_abi_map files g
  abi ← lookup contract abis
  some (abi, g')

-- The empty name stands for the constructor.
unfoldable pub get_contract_method :
    Option (List Built) → String → String → ContractData → Option (Method × ContractData)
get_contract_method files contract method g = do
  (abi, g') ← get_contract_abi files contract g
  found ← (if method == "" then some abi.constructor else lookup method abi.methods)
  some (found, g')

-- `pack` is the method `Pack` of go-ethereum's ABI, `none` its error.
unfoldable pub get_call_bytecode :
    (Abi → String → List Value → Option (List ℕ))
    → Option (List Built)
    → String
    → String
    → List Value
    → ContractData
    → Option (List ℕ × ContractData)
get_call_bytecode pack files contract method args g = do
  (abi, g') ← get_contract_abi files contract g
  input ← pack abi method args
  some (input, g')

-- A missing contract or method reads `false`.
unfoldable pub is_payable : String → String → ContractData → Bool
is_payable contract method g = elim (lookup contract g.payable) [
  | none ↦ false
  | some row ↦ elim (lookup method row) [ none ↦ false | some flag ↦ flag ]
]
