-- ===== src/Metadata.antt =====
-- The metadata of a project, its configuration, and the names of files (utils/utils.go). A file is what
-- the JSON decoder makes of it, and `none` is one that cannot be read, which is a panic.
use Prim.Native.Char.{code}
use chain_fuzz.Prelude.{
  ℕ, zero, suc, string_eq, nat_eq, list_eq, Bool, true, false, not, ◌&&◌, Option, none, some,
  String, ◌>>=◌, nat_beq, if◌then◌else◌,
}
use chain_fuzz.Prelude.Dict.{Dict, lookup, insert}
use chain_fuzz.Contracts.{ContractConfig}

-- `MetadataJSON`
pub record MetadataJson : Type 0 where
  pub truffle_dir : String
  pub transactions : String
  pub accounts_file : String
  pub config_file : String

abbrev pub MetadataMap : Type 0
MetadataMap = Dict String MetadataJson

-- `read` gives the metadata file of a name.
unfoldable pub get_meta :
    (String → Option MetadataJson) → String → MetadataMap → Option (MetadataJson × MetadataMap)
get_meta read metadata m = elim (lookup metadata m) [
  | some meta ↦ some (meta, m)
  | none ↦ do meta ← read metadata; some (meta, insert metadata meta m)
]

-- `getTxJSONFile`, `getAccountsJSONFile`, `getTruffleDir`
unfoldable pub get_tx_json_file :
    (String → Option MetadataJson) → String → MetadataMap → Option (String × MetadataMap)
get_tx_json_file read metadata m = do
  (meta, m') ← get_meta read metadata m
  some (meta.transactions, m')

unfoldable pub get_accounts_json_file :
    (String → Option MetadataJson) → String → MetadataMap → Option (String × MetadataMap)
get_accounts_json_file read metadata m = do
  (meta, m') ← get_meta read metadata m
  some (meta.accounts_file, m')

unfoldable pub get_truffle_dir :
    (String → Option MetadataJson) → String → MetadataMap → Option (String × MetadataMap)
get_truffle_dir read metadata m = do
  (meta, m') ← get_meta read metadata m
  some (meta.truffle_dir, m')

-- `GetConfig`: one cache, `fuzzingConfig`, for the configuration of whatever metadata came first.
unfoldable pub get_config :
    (String → Option MetadataJson)
    → (String → Option (Dict String ContractConfig))
    → String
    → MetadataMap
    → Option (Dict String ContractConfig)
    → Option (Dict String ContractConfig × MetadataMap)
get_config read read_config metadata m (some config) = some (config, m)
get_config read read_config metadata m none = do
  (meta, m') ← get_meta read metadata m
  config ← read_config meta.config_file
  some (config, m')

-- The index of the last dot of the last part of a path; `filepath.Ext` begins there.
abbrev pub has_slash : String → Bool
has_slash String.[] = false
has_slash (String.◌∷◌ c s) = if nat_beq (code c) b'/' then true else has_slash s

abbrev pub last_dot : String → Option ℕ
last_dot String.[] = none
last_dot (String.◌∷◌ c s) = elim (last_dot s) [
  | some i ↦ some (suc i)
  | none ↦ if nat_beq (code c) b'.' && not (has_slash s) then some 0 else none
]

abbrev pub prefix : ℕ → String → String
prefix zero s = String.[]
prefix (suc n) String.[] = String.[]
prefix (suc n) (String.◌∷◌ c s) = String.◌∷◌ c (prefix n s)

-- `strings.TrimSuffix(filename, filepath.Ext(filename))`
unfoldable pub get_filename : String → String
get_filename s = elim (last_dot s) [ none ↦ s | some i ↦ prefix i s ]
