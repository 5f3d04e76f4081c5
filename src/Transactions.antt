-- ===== src/Transactions.antt =====
-- The deployment transactions (utils/transactions.go): they are read from a file, converted, and
-- signed with the keys of the accounts. Texts that are parsed are lists of bytes. The file is the
-- list of its lines as the JSON decoder reads them; a line that cannot be read is `none`.
pub mod Payload
pub mod Amounts
pub mod Signed
use chain_fuzz.Prelude.{
  ℕ, zero, suc, ◌+◌, ◌-◌, ◌*◌, ◌^◌, nat_eq, Bool, true, false, ◌&&◌, ◌||◌, Option, none, some, List,
  [], ◌∷◌, ◌>>=◌, ltb, leb, nat_beq, if◌then◌else◌,
}
use chain_fuzz.Prelude.Int.{ℤ, pos, negsuc}
use chain_fuzz.Bytecode.{Text}
use chain_fuzz.Accounts.{Key, Store, get_key_from_address, mark_used}

-- `transaction`, without the fields that are read by nothing (hash, block and index).
pub record Deployment : Type 0 where
  pub account_nonce : ℕ
  pub from : Text
  pub recipient : Text
  pub amount : Text
  pub gas_limit : ℕ
  pub price : Text
  pub payload : Text

-- The value of a hexadecimal digit, of either case.
abbrev pub hex_value : ℕ → Option ℕ
hex_value c =
    if leb b'0' c && leb c b'9'
    then some (c - b'0')
    else (if leb b'a' c && leb c b'f'
        then some (c - b'a' + 10)
        else (if leb b'A' c && leb c b'F' then some (c - b'A' + 10) else none))

-- `hex.DecodeString`, with an error for an odd length or another character.
unfoldable pub hex_decode : Text → Option (List ℕ)
hex_decode [] = some []
hex_decode (_ ∷ []) = none
hex_decode (c ∷ d ∷ rest) = do
  high ← hex_value c
  low ← hex_value d
  bytes ← hex_decode rest
  some ((high * 16 + low) ∷ bytes)

-- The second character is read without a test of the length.
unfoldable pub get_payload : Text → Option (List ℕ)
get_payload [] = none
get_payload (_ ∷ []) = none
get_payload (c ∷ d ∷ rest) = if nat_beq d b'x' then hex_decode rest else hex_decode (c ∷ d ∷ rest)

-- The digits of a number in base ten, after `n`.
abbrev pub decimal_from : ℕ → Text → Option ℕ
decimal_from n [] = some n
decimal_from n (c ∷ cs) =
    let rest = decimal_from (n * 10 + (c - b'0')) cs in
    if leb b'0' c && leb c b'9' then rest else none

abbrev pub decimal : Text → Option ℕ
decimal [] = none
decimal (c ∷ cs) = decimal_from 0 (c ∷ cs)

abbrev pub negated : ℕ → ℤ
negated zero = pos 0
negated (suc n) = negsuc n

-- `strconv.ParseInt(s, 10, 64)`: an optional sign, digits, and a number of 64 bits; `none` is an error.
unfoldable pub parse_int : Text → Option ℤ
parse_int [] = none
parse_int (c ∷ cs) =
    let minus = (do n ← decimal cs; if leb n (2 ^ 63) then some (negated n) else none) in
    let plus = (do n ← decimal cs; if ltb n (2 ^ 63) then some (pos n) else none) in
    let plain = (do n ← decimal (c ∷ cs); if ltb n (2 ^ 63) then some (pos n) else none) in
    if nat_beq c b'-' then minus else (if nat_beq c b'+' then plus else plain)

-- `amount, err := …; if err != nil { amount = 0 }`
unfoldable pub or_zero : Option ℤ → ℤ
or_zero none = pos 0
or_zero (some n) = n

-- `maxGasPool` of utils/backend.go.
abbrev pub max_gas_pool : ℕ
max_gas_pool = 8000000

-- A transaction of go-ethereum before it is signed. `none` as recipient creates a contract.
pub record Raw : Type 0 where
  pub nonce : ℕ
  pub to : Option ℕ
  pub value : ℤ
  pub gas : ℕ
  pub gas_price : ℤ
  pub payload : List ℕ

-- `hex_to_address` is `common.HexToAddress`, and `sign` is `types.SignTx`, with `none` for an error.
module _ {T : Type 0} (hex_to_address : Text → ℕ) (sign : Raw → Key → Option T) where
  -- Twenty bytes print as `NullAddress` if they are all 0.
  unfoldable pub is_contract_creation : Deployment → Bool
  is_contract_creation t = elim t.recipient [
    | [] ↦ true
    | _ ∷ _ ↦ nat_beq (hex_to_address t.recipient) 0
  ]

  -- The limit is written back into the transaction before it is used.
  unfoldable pub raw_of : Deployment → List ℕ → Raw
  raw_of t payload = record {
    nonce = t.account_nonce;
    to = if is_contract_creation t then none else some (hex_to_address t.recipient);
    value = or_zero (parse_int t.amount);
    gas = if ltb max_gas_pool t.gas_limit then max_gas_pool else t.gas_limit;
    gas_price = or_zero (parse_int t.price);
    payload = payload;
  }

  unfoldable pub convert_and_sign : Deployment → Store → Option (T × Store)
  convert_and_sign t st = do
    payload ← get_payload t.payload
    let sender = hex_to_address t.from
    st' ← mark_used sender st
    key ← get_key_from_address sender st'
    signed ← sign (raw_of t payload) key
    some (signed, st')

  unfoldable pub read_transactions : List (Option Deployment) → Store → Option (List T × Store)
  read_transactions [] st = some ([], st)
  read_transactions (line ∷ lines) st = do
    t ← line
    (tx, st₁) ← convert_and_sign t st
    (txs, st₂) ← read_transactions lines st₁
    some (tx ∷ txs, st₂)
