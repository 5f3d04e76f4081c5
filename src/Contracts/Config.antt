-- ===== src/Contracts/Config.antt =====
-- `ProcessConfig` (utils/contracts.go) as a whole.
use chain_fuzz.Prelude.{
  string_eq, ◌≡◌, refl, ap, ◌∙◌, Bool, true, false, not, ◌&&◌, ◌||◌, ◌==◌, String, List, [], ◌∷◌,
  elem, arith, Bool-cases, inl, inr,
}
use chain_fuzz.Prelude.Dict.{Dict}
use chain_fuzz.ArgPool.{ArgPool}
use chain_fuzz.Backend.{Backend}
use chain_fuzz.Contracts.{
  ContractConfig, ignore_methods, ignore_contract_method, process_contract, process_config,
  add_timestamps,
}
use chain_fuzz.Contracts.Ignore.{
  IsWell, Leaves, ignore_contract-Leaves, ignore_contract_method-Leaves, deployed, listed, offers,
}

-- The contracts that a configuration ignores, and the methods, those of ignored contracts too.
abbrev pub ignored_by : Dict String ContractConfig → String → Bool
ignored_by [] c = false
ignored_by (entry ∷ rest) c = (entry.1.ignore_all && (entry.0 == c)) || ignored_by rest c

abbrev pub muted_by : Dict String ContractConfig → String → String → Bool
muted_by [] c m = false
muted_by (entry ∷ rest) c m =
    ((entry.0 == c) && (entry.1.ignore_all || elem m entry.1.ignored_functions))
    || muted_by rest c m

-- Two steps of taking away.
both : (p q d : Bool) → (not q && (not p && d)) ≡ (not (p || q) && d)
both true true d = refl
both true false d = refl
both false true d = refl
both false false d = refl

module _ {S : Type 0} where
  Leaves-refl : {b : Backend S} → IsWell b → Leaves (λ c. false) (λ c m. false) b b
  Leaves-refl w = record {
    well = w;
    deployed_left = λ c. refl;
    listed_left = λ c. refl;
    offers_left = λ c m. refl;
  }

  Leaves-trans :
      (g g' : String → Bool) (m m' : String → String → Bool) {b b' b'' : Backend S}
      → Leaves g m b b'
      → Leaves g' m' b' b''
      → Leaves (λ c. g c || g' c) (λ c n. m c n || m' c n) b b''
  Leaves-trans g g' m m' {b} l k = record {
    well = k.well;
    deployed_left = λ c.
        k.deployed_left c
        ∙ ap (λ t. not (g' c) && t) (l.deployed_left c)
        ∙ both (g c) (g' c) (deployed c b);
    listed_left = λ c.
        k.listed_left c
        ∙ ap (λ t. not (g' c) && t) (l.listed_left c)
        ∙ both (g c) (g' c) (listed c b);
    offers_left = λ c n.
        k.offers_left c n
        ∙ ap (λ t. not (m' c n) && t) (l.offers_left c n)
        ∙ both (m c n) (m' c n) (offers c n b);
  }

  Leaves-same :
      (g g' : String → Bool) (m m' : String → String → Bool) {b b' : Backend S}
      → ((c : String) → g c ≡ g' c)
      → ((c n : String) → m c n ≡ m' c n)
      → Leaves g m b b'
      → Leaves g' m' b b'
  Leaves-same g g' m m' {b} e f l = record {
    well = l.well;
    deployed_left = λ c. l.deployed_left c ∙ ap (λ t. not t && deployed c b) (e c);
    listed_left = λ c. l.listed_left c ∙ ap (λ t. not t && listed c b) (e c);
    offers_left = λ c n. l.offers_left c n ∙ ap (λ t. not t && offers c n b) (f c n);
  }

  ignore_methods-Leaves :
      (c : String) (ms : List String) (b : Backend S)
      → IsWell b
      → Leaves (λ x. false) (λ x n. (c == x) && elem n ms) b (ignore_methods c ms b)
  unfolding ignore_methods
  ignore_methods-Leaves c [] b w =
      Leaves-same (λ x. false) (λ x. false) (λ x n. false) (λ x n. (c == x) && false) (λ x. refl)
        (λ x n. ground arith) (Leaves-refl w)
  ignore_methods-Leaves c (m ∷ ms) b w =
      let l = ignore_contract_method-Leaves c m b w in
      Leaves-same (λ x. false || false) (λ x. false)
        (λ x n. ((c == x) && (m == n)) || ((c == x) && elem n ms))
        (λ x n. (c == x) && elem n (m ∷ ms)) (λ x. refl) (λ x n. ground arith)
        (Leaves-trans (λ x. false) (λ x. false) (λ x n. (c == x) && (m == n))
          (λ x n. (c == x) && elem n ms) l
          (ignore_methods-Leaves c ms (ignore_contract_method c m b) l.well))

  process_contract-Leaves :
      (c : String) (config : ContractConfig) (b : Backend S)
      → IsWell b
      → Leaves
          (λ x. config.ignore_all && (c == x))
          (λ x n. (c == x) && (config.ignore_all || elem n config.ignored_functions))
          b
          (process_contract c config b)
  unfolding process_contract
  process_contract-Leaves c config b w = elim (Bool-cases config.ignore_all) [
    | inl all ↦ rw all (
        Leaves-same (λ x. c == x) (λ x. c == x) (λ x n. c == x) (λ x n. (c == x) && true)
          (λ x. refl) (λ x n. ground arith) (ignore_contract-Leaves c b w))
    | inr some_only ↦ rw some_only (ignore_methods-Leaves c config.ignored_functions b w)
  ]

  -- From lists without duplicates, with every contract on the list deployed, `ProcessConfig` leaves
  -- such lists again: a contract is deployed, or on the list, exactly if it was and no entry ignores
  -- all of it, and offers exactly the methods that it did and that no entry of its name ignores.
  pub process_config-Leaves :
      (configs : Dict String ContractConfig) (a : ArgPool) (b : Backend S)
      → IsWell b
      → Leaves (ignored_by configs) (muted_by configs) b (process_config configs a b).1
  unfolding process_config
  process_config-Leaves [] a b w = Leaves-refl w
  process_config-Leaves (entry ∷ rest) a b w =
      let l = process_contract-Leaves entry.0 entry.1 b w in
      Leaves-trans (λ x. entry.1.ignore_all && (entry.0 == x)) (ignored_by rest)
        (λ x n. (entry.0 == x) && (entry.1.ignore_all || elem n entry.1.ignored_functions))
        (muted_by rest) l
        (process_config-Leaves rest (add_timestamps entry.1.timestamps a)
          (process_contract entry.0 entry.1 b) l.well)
