-- ===== src/Tests/Deployments.antt =====
-- Concrete accounts and deployment transactions.
use chain_fuzz.Prelude.{
  ℕ, nat_eq, list_eq, string_eq, ◌+◌, ◌≡◌, refl, Option, none, some, String, List, [], ◌∷◌, ◌==◌,
  if◌then◌else◌, arith,
}
use chain_fuzz.Prelude.Int.{pos}
use chain_fuzz.Bytecode.{Text, hex}
use chain_fuzz.Accounts.{
  AccountJson, Key, Account, Store, nothing_read, read_accounts, read_file, add_accounts, mark_used,
  get_key_from_address,
}
use chain_fuzz.Accounts.Roundtrip.{RoundTrips, read_accounts-RoundTrips}
use chain_fuzz.Transactions.{
  Deployment, Raw, get_payload, hex_decode, parse_int, or_zero, convert_and_sign, raw_of,
  is_contract_creation,
}
use chain_fuzz.Transactions.Payload.{get_payload-hex}
use chain_fuzz.Transactions.Amounts.{text_of, parse_int-text_of}
use chain_fuzz.Transactions.Signed.{Converted, convert_and_sign-Converted}

-- Two keys; the address is the key and 100.
abbrev to_key : String → Option ℕ
to_key s = if s == "aa" then some 10 else some 11

abbrev address : ℕ → ℕ
address key = key + 100

abbrev file : Option (List AccountJson)
file = some (record { key = "aa"; amount = pos 5 } ∷ record { key = "bb"; amount = pos 6 } ∷ [])

abbrev read : Option (List Account × Store)
read = read_accounts to_key address file nothing_read

abbrev store_of : Option (List Account × Store) → Store
store_of none = nothing_read
store_of (some r) = r.1

abbrev accounts_of : Option (List Account × Store) → List Account
accounts_of none = []
accounts_of (some r) = r.0

read_both : read ≡ some (accounts_of read, store_of read)
unfolding read_accounts read_file add_accounts
read_both = refl

read_accounts-RoundTrips_example : RoundTrips address to_key (accounts_of read) (store_of read)
read_accounts-RoundTrips_example =
    read_accounts-RoundTrips address to_key file nothing_read (store_of read) (accounts_of read)
      refl read_both

get_payload-hex_example :
    (get_payload (b'0' ∷ b'x' ∷ hex (96 ∷ 255 ∷ [])) ≡ some (96 ∷ 255 ∷ []))
    × (get_payload (hex (96 ∷ 255 ∷ [])) ≡ some (96 ∷ 255 ∷ []))
get_payload-hex_example = get_payload-hex (96 ∷ 255 ∷ []) (omega arith, (omega arith, tt))

parse_int-text_of_example :
    (or_zero (parse_int (text_of (4 ∷ 2 ∷ []))) ≡ pos 42)
    × (or_zero (parse_int (b'0' ∷ b'x' ∷ b'2' ∷ [])) ≡ pos 0)
parse_int-text_of_example = parse_int-text_of 4 (2 ∷ []) (b'2' ∷ []) (omega arith) (omega arith, tt)

-- A deployment with more gas than a block has.
abbrev deployment : Deployment
deployment = record {
  account_nonce = 0;
  from = b'1' ∷ [];
  recipient = [];
  amount = b'7' ∷ [];
  gas_limit = 9000000;
  price = [];
  payload = b'0' ∷ b'x' ∷ b'6' ∷ b'0' ∷ [];
}

abbrev sender_of : Text → ℕ
sender_of text = 110

abbrev signing : Raw → Key → Option Raw
signing raw key = some raw

abbrev converted : Option (Raw × Store)
converted = convert_and_sign sender_of signing deployment (store_of read)

abbrev raw_in : Option (Raw × Store) → Raw
raw_in none = record {
  nonce = 0;
  to = none;
  value = pos 0;
  gas = 0;
  gas_price = pos 0;
  payload = [];
}
raw_in (some r) = r.0

abbrev left_in : Option (Raw × Store) → Store
left_in none = nothing_read
left_in (some r) = r.1

converts : converted ≡ some (raw_in converted, left_in converted)
unfolding convert_and_sign raw_of get_payload hex_decode mark_used get_key_from_address parse_int
    or_zero is_contract_creation read_accounts read_file add_accounts
converts = refl

convert_and_sign-Converted_example :
    Converted sender_of signing deployment (store_of read) (left_in converted) (raw_in converted)
convert_and_sign-Converted_example =
    convert_and_sign-Converted sender_of signing deployment (store_of read) (left_in converted)
      (raw_in converted) converts
