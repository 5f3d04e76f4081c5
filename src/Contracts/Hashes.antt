-- ===== src/Contracts/Hashes.antt =====
-- The name that `GetContractNameByHash` (utils/contracts.go) answers for a swarm hash.
use chain_fuzz.Prelude.{
  nat_eq, list_eq, string_eq, ◌≡◌, refl, sym, ap, ◌∙◌, true, false, ◌==◌, ==_iff, Option, none,
  some, String, [], ◌∷◌, All, >>=-some, Bool-cases, Option-cases, inl, inr, ◌⊎◌, arith,
  if◌then◌else◌,
}
use mathlib.Core.Option.{some-injective}
use chain_fuzz.Prelude.Dict.{Dict, lookup, contains, insert, lookup-insert, contains-insert}
use chain_fuzz.Bytecode.{Text, get_swarm_hash}
use chain_fuzz.Contracts.{add_hashes, get_contract_name_by_hash}

-- A bytecode in which a hash can be looked for without a panic.
abbrev pub IsReadable : String × Text → Type 0
IsReadable entry = (found : Option Text) × (get_swarm_hash entry.1 ≡ some found)

-- A contract of this name with this hash is among the bytecodes.
abbrev pub Carries : Text → String → Dict String Text → Type 0
Carries hash name [] = ⊥
Carries hash name (entry ∷ rest) =
    ((entry.0 ≡ name) × (get_swarm_hash entry.1 ≡ some (some hash))) ⊎ Carries hash name rest

-- The map of hashes after some bytecodes, over what was there before.
record Added (codes : Dict String Text) (before after : Dict Text String) : Type 0 where
  sound :
      (hash : Text) (name : String)
      → lookup hash after ≡ some name
      → Carries hash name codes ⊎ (lookup hash before ≡ some name)
  kept : (hash : Text) → contains hash before ≡ true → contains hash after ≡ true
  complete : (hash : Text) (name : String) → Carries hash name codes → contains hash after ≡ true

no_hash : (hash : Text) → ◌≡◌ {A = Option (Option Text)} (some none) (some (some hash)) → ⊥
no_hash hash h = cc

Added-skip :
    (entry : String × Text) (rest : Dict String Text) (before after : Dict Text String)
    → get_swarm_hash entry.1 ≡ some none
    → Added rest before after
    → Added (entry ∷ rest) before after
Added-skip entry rest before after is r = record {
  sound = λ hash name found. elim (r.sound hash name found) [ inl c ↦ inl (inr c) | inr b ↦ inr b ];
  kept = r.kept;
  complete = λ hash name c. elim c [
    | inl (_, got) ↦ absurd (no_hash hash (sym is ∙ got))
    | inr later ↦ r.complete hash name later
  ];
}

-- What an inserted name answers.
answered :
    (hash₀ hash : Text) (n name : String) (before : Dict Text String)
    → lookup hash (insert hash₀ n before) ≡ some name
    → ((hash₀ ≡ hash) × (n ≡ name)) ⊎ (lookup hash before ≡ some name)
answered hash₀ hash n name before found = elim (Bool-cases (hash₀ == hash)) [
  | inl same ↦ inl (
    (==_iff hash₀ hash).0 same,
    some-injective n name (
        sym (
          lookup-insert hash₀ hash n before
          ∙ ap (λ t. if t then some n else lookup hash before) same)
        ∙ found),
  )
  | inr other ↦ inr (
      sym (
        lookup-insert hash₀ hash n before
        ∙ ap (λ t. if t then some n else lookup hash before) other)
      ∙ found)
]

put_there :
    (hash₀ hash : Text) (n : String) (before : Dict Text String)
    → (hash₀ ≡ hash) ⊎ (contains hash before ≡ true)
    → contains hash (insert hash₀ n before) ≡ true
put_there hash₀ hash n before (inl e) =
    ground (arith, contains-insert hash₀ hash n before, ==_iff hash₀ hash)
put_there hash₀ hash n before (inr h) = ground (arith, contains-insert hash₀ hash n before)

Added-cons :
    (entry : String × Text) (rest : Dict String Text) (hash₀ : Text)
    (before after : Dict Text String)
    → get_swarm_hash entry.1 ≡ some (some hash₀)
    → Added rest (insert hash₀ entry.0 before) after
    → Added (entry ∷ rest) before after
Added-cons entry rest hash₀ before after is r = record {
  sound = λ hash name found. elim (r.sound hash name found) [
    | inl c ↦ inl (inr c)
    | inr b ↦ elim (answered hash₀ hash entry.0 name before b) [
      | inl (same, named) ↦ inl (inl (named, is ∙ ap (λ h. some (some h)) same))
      | inr old ↦ inr old
    ]
  ];
  kept = λ hash there. r.kept hash (put_there hash₀ hash entry.0 before (inr there));
  complete = λ hash name c. elim c [
    | inl (_, got) ↦ r.kept hash (
        put_there hash₀ hash entry.0 before
          (inl (some-injective hash₀ hash (some-injective _ _ (sym is ∙ got)))))
    | inr later ↦ r.complete hash name later
  ];
}

add_hashes-Added :
    (codes : Dict String Text) (before : Dict Text String)
    → All IsReadable codes
    → (after : Dict Text String) × (add_hashes codes before ≡ some after) × Added codes before after
unfolding add_hashes
add_hashes-Added [] before h = (
  before,
  refl,
  record { sound = λ hash name e. inr e; kept = λ hash e. e; complete = λ hash name e. absurd e },
)
add_hashes-Added (entry ∷ rest) before ((none, is), h) =
    let (after, e, r) = add_hashes-Added rest before h in
    (after, >>=-some _ is e, Added-skip entry rest before after is r)
add_hashes-Added (entry ∷ rest) before ((some hash₀, is), h) =
    let (after, e, r) = add_hashes-Added rest (insert hash₀ entry.0 before) h in
    (after, >>=-some _ is e, Added-cons entry rest hash₀ before after is r)

named :
    (hash : Text) (m : Dict Text String)
    → contains hash m ≡ true
    → (name : String) × (lookup hash m ≡ some name)
named hash m h = elim (Option-cases (lookup hash m)) [
  | inl missing ↦ absurd (clash (lookup hash m) missing h)
  | inr found ↦ found
]
  where
    clash : (o : Option String) → o ≡ none → elim o [ none ↦ false | some _ ↦ true ] ≡ true → ⊥
    clash o e k = ground arith

-- Where the deployed bytecodes can all be read and some contract has the hash,
-- `GetContractNameByHash` does not panic, and returns the name of a contract with that hash.
pub get_contract_name_by_hash-Carries :
    (hash : Text) (codes : Dict String Text) (name : String)
    → All IsReadable codes
    → Carries hash name codes
    → (found : String) × (get_contract_name_by_hash hash codes ≡ some found)
      × Carries hash found codes
unfolding get_contract_name_by_hash
get_contract_name_by_hash-Carries hash codes name readable c =
    let (after, e, r) = add_hashes-Added codes [] readable in
    let (found, is) = named hash after (r.complete hash name c) in
    (found, >>=-some _ e is, elim (r.sound hash found is) [ inl c ↦ c | inr nothing ↦ absurd (cc) ])
