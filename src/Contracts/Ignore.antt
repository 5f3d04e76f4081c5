-- ===== src/Contracts/Ignore.antt =====
-- What the configuration leaves of the contracts and methods to fuzz.
use chain_fuzz.Prelude.{
  nat_eq, string_eq, ◌≡◌, refl, sym, ap, subst, ◌∙◌, Bool, true, false, not, ◌&&◌, ◌==◌, ==_iff,
  none, some, String, List, [], elem, no_dup, Bool-cases, Option-cases, inl, inr, arith,
  if◌then◌else◌,
}
use chain_fuzz.Prelude.Dict.{
  Dict, lookup, contains, insert, delete, lookup-insert, lookup-delete, contains-insert,
}
use chain_fuzz.Backend.{Contract, Backend}
use chain_fuzz.Contracts.{delete_from_slice, ignore_contract, ignore_contract_method}
use chain_fuzz.Contracts.Delete.{elem-delete_from_slice, no_dup-delete_from_slice}

-- Methods of a contract that is deployed.
abbrev pub methods_of : String → Dict String Contract → List String
methods_of c m = elim (lookup c m) [ none ↦ [] | some k ↦ k.methods ]

pub methods_of-insert :
    (c x : String) (k : Contract) (m : Dict String Contract)
    → methods_of x (insert c k m) ≡ (if c == x then k.methods else methods_of x m)
methods_of-insert c x k m = ground (arith, lookup-insert c x k m)

methods_of-delete :
    (c x : String) (m : Dict String Contract)
    → methods_of x (delete c m) ≡ (if c == x then [] else methods_of x m)
methods_of-delete c x m = ground (arith, lookup-delete c x m)

contains-delete :
    (c x : String) (m : Dict String Contract)
    → contains x (delete c m) ≡ (not (c == x) && contains x m)
contains-delete c x m = ground (arith, lookup-delete c x m)

absent : (p : String → Bool) (c x : String) → p c ≡ false → p x ≡ (not (c == x) && p x)
absent p c x h = ground (arith, ==_iff c x, λ (e : c ≡ x). ap p e)

pub no_methods :
    (c : String) (m : Dict String Contract) → contains c m ≡ false → methods_of c m ≡ []
no_methods c m h = ground arith

either :
    (t : Bool) (l l' : List String)
    → no_dup l ≡ true
    → no_dup l' ≡ true
    → no_dup (if t then l else l') ≡ true
either true l l' h k = h
either false l l' h k = k

not_true : (p q : Bool) → (p ≡ true → q ≡ true) → q ≡ false → p ≡ false
not_true p q h k = ground arith

module _ {S : Type 0} where
  abbrev pub deployed : String → Backend S → Bool
  deployed c b = contains c b.deployed_contracts

  -- On the list that contracts are drawn from.
  abbrev pub listed : String → Backend S → Bool
  listed c b = elem c b.contracts_list

  abbrev pub offers : String → String → Backend S → Bool
  offers c m b = elem m (methods_of c b.deployed_contracts)

  -- Lists without duplicates, and every contract on the list is deployed.
  pub record IsWell (b : Backend S) : Type 0 where
    pub distinct : no_dup b.contracts_list ≡ true
    pub known : (c : String) → listed c b ≡ true → deployed c b ≡ true
    pub methods : (c : String) → no_dup (methods_of c b.deployed_contracts) ≡ true

  -- What a step takes away: contracts, and methods of contracts.
  pub record Leaves (gone : String → Bool) (mute : String → String → Bool) (b b' : Backend S)
      : Type 0 where
    pub well : IsWell b'
    pub deployed_left : (c : String) → deployed c b' ≡ (not (gone c) && deployed c b)
    pub listed_left : (c : String) → listed c b' ≡ (not (gone c) && listed c b)
    pub offers_left : (c m : String) → offers c m b' ≡ (not (mute c m) && offers c m b)

  pub ignore_contract-Leaves :
      (c : String) (b : Backend S)
      → IsWell b
      → Leaves (λ x. c == x) (λ x m. c == x) b (ignore_contract c b)
  unfolding ignore_contract
  ignore_contract-Leaves c b w = elim (Bool-cases (contains c b.deployed_contracts)) [
    | inl there ↦ rw there (record {
      well = record {
        distinct = no_dup-delete_from_slice c b.contracts_list w.distinct;
        known = λ x h. ground (
          arith,
          contains-delete c x b.deployed_contracts,
          elem-delete_from_slice c x b.contracts_list w.distinct,
          w.known x,
        );
        methods = λ x. ground (arith, methods_of-delete c x b.deployed_contracts, w.methods x);
      };
      deployed_left = λ x. contains-delete c x b.deployed_contracts;
      listed_left = λ x. elem-delete_from_slice c x b.contracts_list w.distinct;
      offers_left = λ x m. ap (elem m) (methods_of-delete c x b.deployed_contracts) ∙ ground arith;
    })
    | inr missing ↦ rw missing (record {
      well = w;
      deployed_left = λ x. absent (λ y. deployed y b) c x missing;
      listed_left = λ x.
          absent (λ y. listed y b) c x (not_true (listed c b) (deployed c b) (w.known c) missing);
      offers_left = λ x m.
          absent (λ y. offers y m b) c x (ap (elem m) (no_methods c b.deployed_contracts missing));
    })
  ]

  without_method : String → String → Contract → Backend S → Backend S
  without_method c n k b = record b {
    deployed_contracts =
        insert c (record k { methods = delete_from_slice n k.methods }) b.deployed_contracts;
  }

  method_missing :
      (c n : String) (b : Backend S)
      → lookup c b.deployed_contracts ≡ none
      → ignore_contract_method c n b ≡ b
  unfolding ignore_contract_method
  method_missing c n b h = rw (h, ignore_contract_method)

  method_there :
      (c n : String) (k : Contract) (b : Backend S)
      → lookup c b.deployed_contracts ≡ some k
      → ignore_contract_method c n b ≡ without_method c n k b
  unfolding ignore_contract_method without_method
  method_there c n k b h = rw (h, ignore_contract_method)

  methods_without :
      (c n x : String) (k : Contract) (b : Backend S)
      → methods_of x (without_method c n k b).deployed_contracts
        ≡ (if c == x then delete_from_slice n k.methods else methods_of x b.deployed_contracts)
  unfolding without_method
  methods_without c n x k b =
      methods_of-insert c x (record k { methods = delete_from_slice n k.methods })
        b.deployed_contracts

  stored_methods :
      (c x : String) (k : Contract) (b : Backend S)
      → lookup c b.deployed_contracts ≡ some k
      → c ≡ x
      → methods_of x b.deployed_contracts ≡ k.methods
  stored_methods c x k b h e =
      subst (λ y. methods_of y b.deployed_contracts ≡ k.methods) e (ground (arith, h))

  deployed_without :
      (c n x : String) (k : Contract) (b : Backend S)
      → lookup c b.deployed_contracts ≡ some k
      → deployed x (without_method c n k b) ≡ deployed x b
  unfolding without_method
  deployed_without c n x k b there =
      let is : contains c b.deployed_contracts ≡ true = ground (arith, there) in
      ground (
        arith,
        contains-insert c x (record k { methods = delete_from_slice n k.methods })
            b.deployed_contracts,
        ==_iff c x,
        λ (e : c ≡ x). ap (λ y. contains y b.deployed_contracts) e,
        is,
      )

  offers_without :
      (c n x m : String) (k : Contract) (b : Backend S)
      → lookup c b.deployed_contracts ≡ some k
      → no_dup k.methods ≡ true
      → offers x m (without_method c n k b) ≡ (not ((c == x) && (n == m)) && offers x m b)
  offers_without c n x m k b there distinct =
      ap (elem m) (methods_without c n x k b)
      ∙ ground (
        arith,
        elem-delete_from_slice n m k.methods distinct,
        ==_iff c x,
        λ (e : c ≡ x). ap (elem m) (stored_methods c x k b there e),
      )

  never_offered :
      (c n x m : String) (b : Backend S)
      → methods_of c b.deployed_contracts ≡ []
      → offers x m b ≡ (not ((c == x) && (n == m)) && offers x m b)
  never_offered c n x m b none_here =
      let not_c : offers c m b ≡ false = ap (elem m) none_here in
      ground (arith, ==_iff c x, λ (e : c ≡ x). ap (λ y. offers y m b) e, not_c)

  without_method-Leaves :
      (c n : String) (k : Contract) (b : Backend S)
      → lookup c b.deployed_contracts ≡ some k
      → IsWell b
      → Leaves (λ x. false) (λ x m. (c == x) && (n == m)) b (without_method c n k b)
  without_method-Leaves c n k b there w =
      let distinct : no_dup k.methods ≡ true =
        subst (λ l. no_dup l ≡ true) (stored_methods c c k b there refl) (w.methods c) in
      let kept : (x : String) → deployed x (without_method c n k b) ≡ deployed x b =
        λ x. deployed_without c n x k b there in
      record {
        well = record {
          distinct = unfold without_method in w.distinct;
          known = λ x h. kept x ∙ w.known x (unfold without_method in h);
          methods = λ x.
              subst (λ l. no_dup l ≡ true) (sym (methods_without c n x k b))
                (either (c == x) _ _ (no_dup-delete_from_slice n k.methods distinct) (w.methods x));
        };
        deployed_left = kept;
        listed_left = λ x. unfold without_method in refl;
        offers_left = λ x m. offers_without c n x m k b there distinct;
      }

  pub ignore_contract_method-Leaves :
      (c n : String) (b : Backend S)
      → IsWell b
      → Leaves (λ x. false) (λ x m. (c == x) && (n == m)) b (ignore_contract_method c n b)
  ignore_contract_method-Leaves c n b w = elim (Option-cases (lookup c b.deployed_contracts)) [
    | inl missing ↦
        subst (Leaves (λ x. false) (λ x m. (c == x) && (n == m)) b)
          (sym (method_missing c n b missing))
          (record {
            well = w;
            deployed_left = λ x. refl;
            listed_left = λ x. refl;
            offers_left =
                λ x m. never_offered c n x m b (no_methods c b.deployed_contracts (ground arith));
          })
    | inr (k, there) ↦
        subst (Leaves (λ x. false) (λ x m. (c == x) && (n == m)) b)
          (sym (method_there c n k b there)) (without_method-Leaves c n k b there w)
  ]
