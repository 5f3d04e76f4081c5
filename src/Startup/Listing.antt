-- ===== src/Startup/Listing.antt =====
-- The keys of the deployed contracts, and the list that `NewBackend` makes (utils/backend.go).
use chain_fuzz.Prelude.{
  ℕ, string_eq, ◌≡◌, refl, ap, subst, ◌∙◌, inl, inr, Bool, true, false, not, ◌&&◌, ◌||◌, ◌==◌,
  ==_iff, none, some, String, List, [], ◌∷◌, ◌++◌, elem, no_dup, length, nat_beq, Bool-cases,
  >>=-eq-some, arith, if◌then◌else◌,
}
use mathlib.Core.Option.{some-injective}
use chain_fuzz.Prelude.Dict.{Dict, keys, lookup, contains, delete, lookup-delete}
use chain_fuzz.Prelude.Keys.{elem-keys, no_dup-keys-insert, no_dup-keys-delete}
use chain_fuzz.Backend.{Contract}
use chain_fuzz.Processor.{add_deployed}
use chain_fuzz.Contracts.Ignore.{methods_of, methods_of-insert}
use chain_fuzz.Artifacts.{Abi}
use chain_fuzz.Startup.{list_contracts}

-- A deployment does not give a contract methods.
abbrev pub IsBare : Dict String Contract → Type 0
IsBare m = (no_dup (keys m) ≡ true) × ((c : String) → methods_of c m ≡ [])

abbrev known_contract : String → Dict String Contract → Contract
known_contract name m = elim (lookup name m) [
  | none ↦ record { addresses = []; methods = [] }
  | some c ↦ c
]

pub add_deployed-IsBare :
    (name : String) (address : ℕ) (m : Dict String Contract)
    → IsBare m
    → IsBare (add_deployed name address m)
unfolding add_deployed
add_deployed-IsBare name address m (distinct, bare) = (
  no_dup-keys-insert name _ m distinct,
  λ c. ground (
    arith,
    methods_of-insert name c
        (record (known_contract name m) {
          addresses = (known_contract name m).addresses ++ address ∷ [];
        })
        m,
    bare name,
    bare c,
  ),
)

pub delete-IsBare : (name : String) (m : Dict String Contract) → IsBare m → IsBare (delete name m)
delete-IsBare name m (distinct, bare) =
    (no_dup-keys-delete name m distinct, λ c. ground (arith, lookup-delete name c m, bare c))

-- What the list that `NewBackend` makes says of one contract.
pub record Listed (abis : Dict String Abi) (contracts : Dict String Contract) (listed : List String)
    (c : String) : Type 0 where
  pub abi : Abi
  pub known : lookup c abis ≡ some abi
  pub methods : methods_of c contracts ≡ keys abi.methods
  pub on_list :
      elem c listed ≡ (not (c == "Migrations") && not (nat_beq (length (keys abi.methods)) 0))

-- All of the list, for contracts that were bare before.
pub record IsListing (abis : Dict String Abi) (m contracts : Dict String Contract)
    (listed : List String) : Type 0 where
  pub same_keys : keys contracts ≡ keys m
  pub distinct : no_dup listed ≡ true
  pub deployed : (c : String) → contains c m ≡ true → Listed abis contracts listed c
  pub others : (c : String) → contains c m ≡ false → elem c listed ≡ false

rest_bare :
    (name c : String) (k : Contract) (rest : Dict String Contract)
    → contains name rest ≡ false
    → methods_of c ((name, k) ∷ rest) ≡ []
    → methods_of c rest ≡ []
rest_bare name c k rest absent bare = elim (Bool-cases (name == c)) [
  | inl same ↦
      let gone : contains c rest ≡ false =
        subst (λ x. contains x rest ≡ false) ((==_iff name c).0 same) absent in
      ground (arith, gone)
  | inr other ↦ ground (arith, bare, other)
]

rest-IsBare :
    (name : String) (k : Contract) (rest : Dict String Contract)
    → IsBare ((name, k) ∷ rest)
    → (k.methods ≡ []) × (contains name rest ≡ false) × IsBare rest
rest-IsBare name k rest (distinct, bare) =
    let absent : contains name rest ≡ false = ground (arith, distinct, elem-keys name rest) in
    (
      ground (arith, bare name, ==_iff name name),
      absent,
      (ground (arith, distinct), λ c. rest_bare name c k rest absent (bare c)),
    )

-- The list and the contracts with one more in front.
abbrev put : Bool → String → List String → List String
put skipped name listed = if skipped then listed else name ∷ listed

module _ (abis : Dict String Abi) (name : String) (k : Contract) (abi : Abi)
    (rest contracts : Dict String Contract) (listed : List String)
    (absent : contains name rest ≡ false) (l : IsListing abis rest contracts listed) where
  elem-put :
      (skipped : Bool) (c : String)
      → elem c (put skipped name listed) ≡ (if name == c then not skipped else elem c listed)
  elem-put true c =
      ground
        (arith, ==_iff name c, λ (e : name ≡ c). ap (λ x. elem x listed) e, l.others name absent)
  elem-put false c = ground arith

  no_dup-put : (skipped : Bool) → no_dup (put skipped name listed) ≡ true
  no_dup-put true = l.distinct
  no_dup-put false = ground (arith, l.distinct, l.others name absent)

  -- The contract in front, with the methods of its ABI.
  abbrev filled : Dict String Contract
  filled = (name, record k { methods = k.methods ++ keys abi.methods }) ∷ contracts

  abbrev is_skipped : Bool
  is_skipped = (name == "Migrations") || nat_beq (length (keys abi.methods)) 0

  methods_of-filled :
      (c : String)
      → methods_of c filled
        ≡ (if name == c then k.methods ++ keys abi.methods else methods_of c contracts)
  methods_of-filled c = ground arith

  own-Listed :
      lookup name abis ≡ some abi
      → k.methods ≡ []
      → Listed abis filled (put is_skipped name listed) name
  own-Listed known empty = record {
    abi = abi;
    known = known;
    methods =
        ground (
          arith,
          methods_of-filled name,
          ==_iff name name,
          ap (λ ms. ms ++ keys abi.methods) empty,
        );
    on_list = elem-put is_skipped name ∙ ground (arith, ==_iff name name);
  }

  other-Listed :
      (c : String)
      → (name == c) ≡ false
      → Listed abis contracts listed c
      → Listed abis filled (put is_skipped name listed) c
  other-Listed c other d = record {
    abi = d.abi;
    known = d.known;
    methods = ground (arith, methods_of-filled c, other, d.methods);
    on_list = ground (arith, elem-put is_skipped c, other, d.on_list);
  }

  cons-IsListing :
      lookup name abis ≡ some abi
      → k.methods ≡ []
      → IsListing abis ((name, k) ∷ rest) filled (put is_skipped name listed)
  cons-IsListing known empty = record {
    same_keys = ap (λ ks. name ∷ ks) l.same_keys;
    distinct = no_dup-put is_skipped;
    deployed = λ c h. elim (Bool-cases (name == c)) [
      | inl same ↦
          subst (Listed abis filled (put is_skipped name listed)) ((==_iff name c).0 same)
            (own-Listed known empty)
      | inr other ↦ other-Listed c other (l.deployed c (ground (arith, h, other)))
    ];
    others = λ c h. ground (arith, elem-put is_skipped c, l.others c, h);
  }

pub list_contracts-IsListing :
    (abis : Dict String Abi) (m contracts : Dict String Contract) (listed : List String)
    → IsBare m
    → list_contracts abis m ≡ some (contracts, listed)
    → IsListing abis m contracts listed
unfolding list_contracts
list_contracts-IsListing abis [] contracts listed bare h =
    subst (λ (r : Dict String Contract × List String). IsListing abis [] r.0 r.1)
      (some-injective _ _ h)
      (record {
        same_keys = refl;
        distinct = refl;
        deployed = λ c there. absurd (cc);
        others = λ c there. refl;
      })
list_contracts-IsListing abis ((name, k) ∷ rest) contracts listed bare h =
    let (empty, absent, bare') = rest-IsBare name k rest bare in
    let (abi, known, h₁) = >>=-eq-some (lookup name abis) _ h in
    let (sub, found, h₂) = >>=-eq-some (list_contracts abis rest) _ h₁ in
    subst (λ (r : Dict String Contract × List String). IsListing abis ((name, k) ∷ rest) r.0 r.1)
      (some-injective _ _ h₂)
      (cons-IsListing abis name k abi rest sub.0 sub.1 absent
        (list_contracts-IsListing abis rest sub.0 sub.1 bare' found) known empty)
