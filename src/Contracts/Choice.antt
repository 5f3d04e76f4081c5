-- ===== src/Contracts/Choice.antt =====
-- The random choice of a contract and of one of its methods.
use chain_fuzz.Prelude.{
  ℕ, nat_eq, string_eq, ◌%◌, ◌<◌, ◌≡◌, ap, subst, ◌∙◌, true, some, none, String, List, length,
  get_elem?, get_elem?_total, get_elem?-elem, elem, nat_beq, >>=-some, Option-cases, inl, inr,
  arith, if◌then◌else◌,
}
use chain_fuzz.Prelude.Dict.{lookup}
use chain_fuzz.Backend.{Backend}
use chain_fuzz.Contracts.{get_random_contract, get_random_method}
use chain_fuzz.Contracts.Ignore.{IsWell, methods_of, deployed, listed, offers}

-- A place in a list that is drawn.
drawn :
    (rand : ℕ) (xs : List String)
    → 0 < length xs
    → (x : String) × ((if nat_beq (length xs) 0 then none else get_elem? xs (rand % length xs))
        ≡ some x)
      × (elem x xs ≡ true)
drawn rand xs h =
    let (x, got) = get_elem?_total xs (rand % length xs) (omega arith) in
    (x, ground arith, get_elem?-elem x xs (rand % length xs) got)

module _ {S : Type 0} where
  -- Where the list is not empty and every contract on it is deployed, the contract that is drawn is
  -- on the list and deployed; if it has methods, one of them is drawn. Neither panics.
  pub get_random_contract-get_random_method :
      (rand rand' : ℕ) (b : Backend S)
      → IsWell b
      → 0 < length b.contracts_list
      → (c : String) × (get_random_contract rand b ≡ some c)
        × (listed c b ≡ true)
        × (deployed c b ≡ true)
        × (0 < length (methods_of c b.deployed_contracts)
            → (m : String) × (get_random_method rand' c b ≡ some m) × (offers c m b ≡ true))
  unfolding get_random_contract
  get_random_contract-get_random_method rand rand' b w h =
      let (c, chosen, on_list) = drawn rand b.contracts_list h in
      (c, chosen, on_list, w.known c on_list, λ some_method. method_of c some_method)
    where
      method_of :
          (c : String)
          → 0 < length (methods_of c b.deployed_contracts)
          → (m : String) × (get_random_method rand' c b ≡ some m) × (offers c m b ≡ true)
      method_of c some_method = elim (Option-cases (lookup c b.deployed_contracts)) [
        | inl missing ↦ absurd (ground (arith, missing, some_method))
        | inr (k, there) ↦
            let is : methods_of c b.deployed_contracts ≡ k.methods = ground (arith, there) in
            let (m, chosen, has) =
              drawn rand' k.methods (subst (λ l. 0 < length l) is some_method) in
            (m, unfold get_random_method in >>=-some _ there chosen, ap (elem m) is ∙ has)
      ]
