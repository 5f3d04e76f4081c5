-- ===== src/Accounts.antt =====
-- The accounts of the metadata file (utils/accounts.go). A private key is a number. The maps are keyed
-- by `ecdsa.PrivateKey`, a struct of pointers that is compared by their identity: `object` says which
-- parsed key it is. Every account of the file has an amount.
pub mod Roundtrip
use chain_fuzz.Prelude.{
  ℕ, suc, ◌+◌, nat_eq, Bool, true, false, Option, none, some, String, List, [], ◌∷◌, ◌++◌, length,
  get_elem?, ◌==◌, ◌>>=◌, ◌%◌, nat_beq, if◌then◌else◌,
}
use chain_fuzz.Prelude.Int.{ℤ}
use chain_fuzz.Prelude.Dict.{Dict, lookup, insert}

-- `accountJSON`
pub record AccountJson : Type 0 where
  pub key : String
  pub amount : ℤ

pub record Key : Type 0 where
  pub object : ℕ
  pub scalar : ℕ

pub record Account : Type 0 where
  pub key : Key
  pub address : ℕ
  pub amount : ℤ
  pub used : Bool

-- The package variables. `accounts` is nil until the file has been read.
pub record Store : Type 0 where
  pub accounts : Option (List Account)
  pub key_to_address : Dict ℕ ℕ
  pub address_to_key : Dict ℕ Key

abbrev pub nothing_read : Store
nothing_read = record { accounts = none; key_to_address = []; address_to_key = [] }

-- The lookups; `none` is their panic.
unfoldable pub get_address_from_key : Key → Store → Option ℕ
get_address_from_key key st = lookup key.object st.key_to_address

unfoldable pub get_key_from_address : ℕ → Store → Option Key
get_key_from_address address st = lookup address st.address_to_key

abbrev pub find_account : ℕ → List Account → Option Account
find_account address [] = none
find_account address (acc ∷ rest) =
    let later = find_account address rest in if acc.address == address then some acc else later

-- `accounts` that is nil has length 0.
abbrev pub listed : Store → List Account
listed st = elim st.accounts [ none ↦ [] | some accs ↦ accs ]

unfoldable pub get_account_from_address : ℕ → Store → Option Account
get_account_from_address address st = find_account address (listed st)

-- `GetAccountFromAddress(address).Used = true`, a write through the pointer that it returns.
abbrev pub use_account : ℕ → List Account → Option (List Account)
use_account address [] = none
use_account address (acc ∷ rest) =
    let later = (do rest' ← use_account address rest; some (acc ∷ rest')) in
    if acc.address == address then some (record acc { used = true } ∷ rest) else later

unfoldable pub mark_used : ℕ → Store → Option Store
mark_used address st = do
  accs ← use_account address (listed st)
  some (record st { accounts = some accs })

-- `hex_to_key` is `crypto.HexToECDSA`, `address_of` the address of a key's public half.
module _ (hex_to_key : String → Option ℕ) (address_of : ℕ → ℕ) where
  -- The loop over the accounts of the file, from the `i`-th on, after `accs`.
  unfoldable pub add_accounts : ℕ → List AccountJson → List Account → Store → Option Store
  add_accounts i [] accs st = some (record st { accounts = some accs })
  add_accounts i (json ∷ rest) accs st = do
    scalar ← hex_to_key json.key
    let key : Key = record { object = i; scalar = scalar }
    let acc : Account = record {
      key = key;
      address = address_of scalar;
      amount = json.amount;
      used = false;
    }
    add_accounts (suc i) rest (accs ++ acc ∷ []) (record st {
      address_to_key = insert acc.address key st.address_to_key;
      key_to_address = insert key.object acc.address st.key_to_address;
    })

  -- `file` is what the file says; `none` is one that cannot be read or parsed.
  unfoldable pub read_file : Option (List AccountJson) → Option (List Account × Store)
  read_file file = do jsons ← file; st ← add_accounts 0 jsons [] nothing_read; some (listed st, st)

  -- Only the first call reads the file; the maps are made anew then.
  unfoldable pub read_accounts : Option (List AccountJson) → Store → Option (List Account × Store)
  read_accounts file st = elim st.accounts [ some accs ↦ some (accs, st) | none ↦ read_file file ]

  -- `rand` is the result of `rand.Intn`, brought below the number of accounts; no account is a panic.
  unfoldable pub get_rand_account : ℕ → Option (List AccountJson) → Store → Option (Account × Store)
  get_rand_account rand file st = do
    (accs, st') ← read_accounts file st
    acc ← (if nat_beq (length accs) 0 then none else get_elem? accs (rand % length accs))
    some (acc, st')
