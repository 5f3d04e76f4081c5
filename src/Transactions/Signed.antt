-- ===== src/Transactions/Signed.antt =====
-- What converting and signing a deployment transaction does (utils/transactions.go).
use chain_fuzz.Prelude.{
  ℕ, ◌≤◌, ◌≡◌, ◌≢◌, ◌⊎◌, refl, sym, ap, subst, ◌∙◌, nat_eq, ◌==◌, Bool, true, false, Option, some,
  none, List, [], ◌∷◌, arith, >>=-eq-some, Bool-cases, inl, inr, ◌>>=◌, ==_iff, nat_beq,
}
use mathlib.Core.Option.{some-injective}
use chain_fuzz.Prelude.Dict.{lookup}
use chain_fuzz.Accounts.{
  Account, Key, Store, listed, find_account, use_account, mark_used, get_key_from_address,
  get_account_from_address,
}
use chain_fuzz.Bytecode.{Text}
use chain_fuzz.Transactions.{
  Deployment, Raw, get_payload, is_contract_creation, or_zero, parse_int, raw_of, max_gas_pool,
  convert_and_sign,
}

-- An account as it is found afterwards, if it was the sender or not.
abbrev pub marked_if : Bool → Option Account → Option Account
marked_if true (some acc) = some (record acc { used = true })
marked_if _ o = o

marked-none : (c : Bool) → marked_if c none ≡ none
marked-none true = refl
marked-none false = refl

marked_if-false : (o : Option Account) → marked_if false o ≡ o
marked_if-false none = refl
marked_if-false (some acc) = refl

marked_here :
    (x a : ℕ) (acc : Account) (rest : List Account)
    → (acc.address == x) ≡ true
    → find_account a (record acc { used = true } ∷ rest)
      ≡ marked_if (x == a) (find_account a (acc ∷ rest))
marked_here x a acc rest here = ground (
  arith,
  marked_if-false (find_account a rest),
  ==_iff acc.address x,
  ==_iff acc.address a,
  ==_iff x a,
  here,
)

marked_behind :
    (x a : ℕ) (acc : Account) (rest rest' : List Account)
    → (acc.address == x) ≡ false
    → find_account a rest' ≡ marked_if (x == a) (find_account a rest)
    → find_account a (acc ∷ rest') ≡ marked_if (x == a) (find_account a (acc ∷ rest))
marked_behind x a acc rest rest' there h = elim (Bool-cases (acc.address == a)) [
  | inl found ↦ ground (arith, ==_iff acc.address x, ==_iff acc.address a, ==_iff x a, there, found)
  | inr other ↦ rw other h
]

use_account-marked_if :
    (x : ℕ) (accs accs' : List Account)
    → use_account x accs ≡ some accs'
    → (a : ℕ) → find_account a accs' ≡ marked_if (x == a) (find_account a accs)
use_account-marked_if x [] accs' h a = cc
use_account-marked_if x (acc ∷ rest) accs' h a = elim (Bool-cases (acc.address == x)) [
  | inl here ↦
      let e = some-injective (record acc { used = true } ∷ rest) accs' (ground (arith, h, here)) in
      ap (find_account a) (sym e) ∙ marked_here x a acc rest here
  | inr there ↦
      let later : (use_account x rest >>= λ rest'. some (acc ∷ rest')) ≡ some accs' =
        ground (arith, h, there) in
      let (rest', left, e) = >>=-eq-some (use_account x rest) _ later in
      ap (find_account a) (sym (some-injective (acc ∷ rest') accs' e))
      ∙ marked_behind x a acc rest rest' there (use_account-marked_if x rest rest' left a)
]

mark_used-marked_if :
    (x : ℕ) (st st' : Store)
    → mark_used x st ≡ some st'
    → ((a : ℕ) → get_key_from_address a st' ≡ get_key_from_address a st)
      × ((a : ℕ)
          → get_account_from_address a st' ≡ marked_if (x == a) (get_account_from_address a st))
unfolding mark_used get_key_from_address get_account_from_address
mark_used-marked_if x st st' h =
    let (accs, marked, e) = >>=-eq-some (use_account x (listed st)) _ h in
    let same = some-injective (record st { accounts = some accs }) st' e in
    (
      λ a. ap (λ (s : Store). lookup a s.address_to_key) (sym same),
      λ a.
          ap (λ (s : Store). find_account a (listed s)) (sym same)
          ∙ use_account-marked_if x (listed st) accs marked a,
    )

-- The test for a creation, on a recipient and its address.
abbrev without_recipient : Text → ℕ → Bool
without_recipient recipient address = elim recipient [ [] ↦ true | _ ∷ _ ↦ nat_beq address 0 ]

creates :
    (recipient : Text) (address : ℕ)
    → (recipient ≡ []) ⊎ (address ≡ 0)
    → without_recipient recipient address ≡ true
creates [] address h = refl
creates (c ∷ cs) address (inl empty) = cc
creates (c ∷ cs) address (inr null) = ground (arith, null)

calls :
    (recipient : Text) (address : ℕ)
    → recipient ≢ []
    → address ≢ 0
    → without_recipient recipient address ≡ false
calls [] address some_text some_address = absurd (some_text refl)
calls (c ∷ cs) address some_text some_address = ground (arith, some_address)

module _ {T : Type 0} (hex_to_address : Text → ℕ) (sign : Raw → Key → Option T) where
  -- What stands in a transaction that is sent to be signed, and by whom.
  pub record Converted (t : Deployment) (st st' : Store) (tx : T) : Type 0 where
    pub raw : Raw
    pub key : Key
    pub signed : sign raw key ≡ some tx
    pub signer : get_key_from_address (hex_to_address t.from) st ≡ some key
    pub payload : get_payload t.payload ≡ some raw.payload
    pub nonce : raw.nonce ≡ t.account_nonce
    pub gas_capped : (raw.gas ≤ max_gas_pool) × (raw.gas ≤ t.gas_limit)
    pub gas_kept : t.gas_limit ≤ max_gas_pool → raw.gas ≡ t.gas_limit
    pub creation : (t.recipient ≡ []) ⊎ (hex_to_address t.recipient ≡ 0) → raw.to ≡ none
    pub call :
        t.recipient ≢ []
        → hex_to_address t.recipient ≢ 0
        → raw.to ≡ some (hex_to_address t.recipient)
    pub value : raw.value ≡ or_zero (parse_int t.amount)
    pub price : raw.gas_price ≡ or_zero (parse_int t.price)
    pub accounts :
        (a : ℕ)
        → get_account_from_address a st'
          ≡ marked_if (hex_to_address t.from == a) (get_account_from_address a st)

  made-Converted :
      (t : Deployment) (st st₁ : Store) (tx : T) (payload : List ℕ) (key : Key)
      → get_payload t.payload ≡ some payload
      → mark_used (hex_to_address t.from) st ≡ some st₁
      → get_key_from_address (hex_to_address t.from) st₁ ≡ some key
      → sign (raw_of hex_to_address sign t payload) key ≡ some tx
      → Converted t st st₁ tx
  unfolding raw_of is_contract_creation
  made-Converted t st st₁ tx payload key decoded used found made =
      let (same_keys, accounts) = mark_used-marked_if (hex_to_address t.from) st st₁ used in
      record {
        raw = raw_of hex_to_address sign t payload;
        key = key;
        signed = made;
        signer = sym (same_keys (hex_to_address t.from)) ∙ found;
        payload = decoded;
        nonce = refl;
        gas_capped = (ground arith, ground arith);
        gas_kept = λ small. ground arith;
        creation = λ c. rw (creates t.recipient (hex_to_address t.recipient) c) refl;
        call = λ some_text some_address.
            rw (calls t.recipient (hex_to_address t.recipient) some_text some_address) refl;
        value = refl;
        price = refl;
        accounts = accounts;
      }

  -- A deployment transaction that is converted and signed carries the nonce and the payload of the
  -- file, and what `parse_int` reads as its amount and price, an error as 0; its gas limit is that of
  -- the file, and at most 8000000; it has no recipient just where the file has none or the null
  -- address; the key of its sender signs it; and afterwards that account, and no other, is newly
  -- marked as used.
  pub convert_and_sign-Converted :
      (t : Deployment) (st st' : Store) (tx : T)
      → convert_and_sign hex_to_address sign t st ≡ some (tx, st')
      → Converted t st st' tx
  unfolding convert_and_sign
  convert_and_sign-Converted t st st' tx h =
      let x = hex_to_address t.from in
      let (payload, decoded, h₁) = >>=-eq-some (get_payload t.payload) _ h in
      let (st₁, used, h₂) = >>=-eq-some (mark_used x st) _ h₁ in
      let (key, found, h₃) = >>=-eq-some (get_key_from_address x st₁) _ h₂ in
      let (signed, made, h₄) = >>=-eq-some (sign (raw_of hex_to_address sign t payload) key) _ h₃ in
      let e : ◌≡◌ {A = T × Store} (signed, st₁) (tx, st') = some-injective _ _ h₄ in
      subst (λ (r : T × Store). Converted t st r.1 r.0) e
        (made-Converted t st st₁ signed payload key decoded used found made)
