-- ===== src/Accounts/Roundtrip.antt =====
-- Keys and addresses of the accounts (utils/accounts.go).
use chain_fuzz.Prelude.{
  ℕ, suc, ◌<◌, ◌≡◌, inl, inr, refl, sym, ap, subst, ◌∙◌, nat_eq, ◌==◌, Option, none, some, String,
  List, [], ◌∷◌, arith, All, All-append, Bool-cases, >>=-eq-some,
}
use mathlib.Core.Option.{some-injective}
use chain_fuzz.Prelude.Dict.{
  Dict, lookup, insert, lookup-insert, lookup-insert_same, lookup-insert_other, insert-cases,
}
use chain_fuzz.Accounts.{
  AccountJson, Key, Account, Store, nothing_read, get_address_from_key, get_key_from_address,
  listed, add_accounts, read_file, read_accounts,
}

still_there :
    (x a : ℕ) (new : Key) (m : Dict ℕ Key)
    → (k : Key) × (lookup a m ≡ some k)
    → (k : Key) × (lookup a (insert x new m) ≡ some k)
still_there x a new m (k, there) = elim (Bool-cases (x == a)) [
  | inl same ↦ (new, ground (arith, lookup-insert x a new m, same))
  | inr other ↦ (k, lookup-insert_other x a new m other ∙ there)
]

module _ (address_of : ℕ → ℕ) where
  -- What the two maps say of each other, with the keys numbered below `n`.
  record IsPaired (n : ℕ) (st : Store) : Type 0 where
    older : (a : ℕ) (k : Key) → lookup a st.address_to_key ≡ some k → k.object < n
    back :
        (a : ℕ) (k : Key)
        → lookup a st.address_to_key ≡ some k
        → lookup k.object st.key_to_address ≡ some a
    own : (a : ℕ) (k : Key) → lookup a st.address_to_key ≡ some k → address_of k.scalar ≡ a
    forth :
        (i a : ℕ)
        → lookup i st.key_to_address ≡ some a
        → (k : Key) × (lookup a st.address_to_key ≡ some k)

  next_pair : ℕ → ℕ → Store → Store
  next_pair n scalar st = record st {
    address_to_key =
        insert (address_of scalar) (record { object = n; scalar = scalar }) st.address_to_key;
    key_to_address = insert n (address_of scalar) st.key_to_address;
  }

  next_pair-IsPaired :
      (n scalar : ℕ) (st : Store) → IsPaired n st → IsPaired (suc n) (next_pair n scalar st)
  unfolding next_pair
  next_pair-IsPaired n scalar st p =
      let new : Key = record { object = n; scalar = scalar } in
      let x = address_of scalar in
      record {
        older = λ a k h. elim (insert-cases x a new k st.address_to_key h) [
          | inl (_, same) ↦ ground (arith, same)
          | inr old ↦ let lt = p.older a k old in omega arith
        ];
        back = λ a k h. elim (insert-cases x a new k st.address_to_key h) [
          | inl (at, same) ↦
              ap (λ (i : Key). lookup i.object (insert n x st.key_to_address)) same
              ∙ lookup-insert_same n x st.key_to_address
              ∙ ap some at
          | inr old ↦
              lookup-insert_other n k.object x st.key_to_address
                (let lt = p.older a k old in ground arith)
              ∙ p.back a k old
        ];
        own = λ a k h. elim (insert-cases x a new k st.address_to_key h) [
          | inl (at, same) ↦ ap (λ (i : Key). address_of i.scalar) same ∙ at
          | inr old ↦ p.own a k old
        ];
        forth = λ i a h. elim (insert-cases n i x a st.key_to_address h) [
          | inl (_, same) ↦ (
            new,
            ap (λ b. lookup b (insert x new st.address_to_key)) same
                ∙ lookup-insert_same x new st.address_to_key,
          )
          | inr old ↦ still_there x a new st.address_to_key (p.forth i a old)
        ];
      }

  -- An account that the maps know.
  abbrev IsKnown : ℕ → Store → Account → Type 0
  IsKnown n st acc =
      (acc.key.object < n)
      × (lookup acc.key.object st.key_to_address ≡ some acc.address)
      × (address_of acc.key.scalar ≡ acc.address)

  All-IsKnown :
      (n scalar : ℕ) (st : Store) (accs : List Account)
      → All (IsKnown n st) accs
      → All (IsKnown (suc n) (next_pair n scalar st)) accs
  unfolding next_pair
  All-IsKnown n scalar st [] all = tt
  All-IsKnown n scalar st (acc ∷ accs) ((lt, known, own), all) = (
    (
      omega arith,
      lookup-insert_other n acc.key.object (address_of scalar) st.key_to_address (ground arith)
          ∙ known,
      own,
    ),
    All-IsKnown n scalar st accs all,
  )

  -- The end of the loop: all accounts are listed and known.
  record IsRead (n : ℕ) (st : Store) : Type 0 where
    paired : IsPaired n st
    known : All (IsKnown n st) (listed st)
    read : st.accounts ≡ some (listed st)

  add_accounts-IsRead :
      (hex_to_key : String → Option ℕ) (n : ℕ) (jsons : List AccountJson) (accs : List Account)
      (st st' : Store)
      → IsPaired n st
      → All (IsKnown n st) accs
      → add_accounts hex_to_key address_of n jsons accs st ≡ some st'
      → (m : ℕ) × IsRead m st'
  unfolding add_accounts next_pair
  add_accounts-IsRead hex_to_key n [] accs st st' paired known h = (
    n,
    subst (IsRead n) (some-injective _ _ h) (record {
      paired = record {
        older = paired.older;
        back = paired.back;
        own = paired.own;
        forth = paired.forth;
      };
      known = known;
      read = refl;
    }),
  )
  add_accounts-IsRead hex_to_key n (json ∷ rest) accs st st' paired known h =
      let (scalar, _, h₁) = >>=-eq-some (hex_to_key json.key) _ h in
      add_accounts-IsRead hex_to_key (suc n) rest _ (next_pair n scalar st) st'
        (next_pair-IsPaired n scalar st paired)
        (All-append _ accs _ (All-IsKnown n scalar st accs known)
          ((omega arith, lookup-insert_same n (address_of scalar) st.key_to_address, refl), tt))
        h₁

  -- What holds of the accounts once they have been read.
  pub record RoundTrips (hex_to_key : String → Option ℕ) (accs : List Account) (st : Store)
      : Type 0 where
    pub key-address :
        (a : ℕ) (k : Key)
        → get_key_from_address a st ≡ some k
        → (get_address_from_key k st ≡ some a) × (address_of k.scalar ≡ a)
    pub accounts_known :
        All
          (λ acc.
            (get_address_from_key acc.key st ≡ some acc.address)
            × (address_of acc.key.scalar ≡ acc.address)
            × ((k : Key) × (get_key_from_address acc.address st ≡ some k)))
          accs
    pub again :
        (file : Option (List AccountJson))
        → read_accounts hex_to_key address_of file st ≡ some (accs, st)

  known_both_ways :
      (n : ℕ) (st : Store)
      → IsPaired n st
      → (accs : List Account) → All (IsKnown n st) accs
      → All
          (λ acc.
            (get_address_from_key acc.key st ≡ some acc.address)
            × (address_of acc.key.scalar ≡ acc.address)
            × ((k : Key) × (get_key_from_address acc.address st ≡ some k)))
          accs
  unfolding get_address_from_key get_key_from_address
  known_both_ways n st p [] all = tt
  known_both_ways n st p (acc ∷ accs) ((_, known, own), all) =
      ((known, own, p.forth acc.key.object acc.address known), known_both_ways n st p accs all)

  nothing-IsPaired : IsPaired 0 nothing_read
  nothing-IsPaired = record {
    older = λ a k h. absurd (cc);
    back = λ a k h. absurd (cc);
    own = λ a k h. absurd (cc);
    forth = λ i a h. absurd (cc);
  }

  unread_file :
      (hex_to_key : String → Option ℕ) (file : Option (List AccountJson)) (st : Store)
      → st.accounts ≡ none
      → read_accounts hex_to_key address_of file st ≡ read_file hex_to_key address_of file
  unfolding read_accounts
  unread_file hex_to_key file st unread = rw unread refl

  IsRead-RoundTrips :
      (hex_to_key : String → Option ℕ) (m : ℕ) (st : Store)
      → IsRead m st
      → RoundTrips hex_to_key (listed st) st
  unfolding read_accounts get_address_from_key get_key_from_address
  IsRead-RoundTrips hex_to_key m st done = record {
    key-address = λ a k h. (done.paired.back a k h, done.paired.own a k h);
    accounts_known = known_both_ways m st done.paired (listed st) done.known;
    again = λ file. ground (arith, done.read);
  }

  -- After the accounts have been read for the first time: the key that is found for an address leads
  -- back to that address, and the address is the one of that key; every account is found by its key,
  -- and has a key under its address; reading again returns the same accounts, whatever the file.
  pub read_accounts-RoundTrips :
      (hex_to_key : String → Option ℕ) (file : Option (List AccountJson)) (st st' : Store)
      (accs : List Account)
      → st.accounts ≡ none
      → read_accounts hex_to_key address_of file st ≡ some (accs, st')
      → RoundTrips hex_to_key accs st'
  unfolding read_file
  read_accounts-RoundTrips hex_to_key file st st' accs unread h =
      let (jsons, _, h₁) = >>=-eq-some file _ (sym (unread_file hex_to_key file st unread) ∙ h) in
      let (st₁, added, h₂) =
        >>=-eq-some (add_accounts hex_to_key address_of 0 jsons [] nothing_read) _ h₁ in
      let (m, done) =
        add_accounts-IsRead hex_to_key 0 jsons [] nothing_read st₁ nothing-IsPaired tt added in
      let e : ◌≡◌ {A = List Account × Store} (listed st₁, st₁) (accs, st') =
        some-injective _ _ h₂ in
      subst (λ (r : List Account × Store). RoundTrips hex_to_key r.0 r.1) e
        (IsRead-RoundTrips hex_to_key m st₁ done)
