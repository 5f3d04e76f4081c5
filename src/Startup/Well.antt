-- ===== src/Startup/Well.antt =====
-- The backend that `NewBackend` returns (utils/backend.go).
use chain_fuzz.Prelude.{
  ℕ, ◌<◌, string_eq, ◌≡◌, refl, sym, ap, subst, ◌∙◌, inl, inr, Bool, true, false, not, ◌&&◌, ◌==◌,
  Option, none, some, String, List, elem, no_dup, length, nat_beq, Bool-cases, >>=-eq-some, arith,
  All, All-get_elem?, if◌then◌else◌,
}
use mathlib.Core.Option.{some-injective}
use chain_fuzz.Prelude.Dict.{Dict, keys, lookup, contains}
use chain_fuzz.Prelude.Keys.{elem-keys}
use chain_fuzz.Values.{GoType, Value}
use chain_fuzz.TypedPools.{Iface}
use chain_fuzz.ArgPool.{ArgPool}
use chain_fuzz.Args.{Env, init_arg_pool}
use chain_fuzz.Backend.{Contract, Backend}
use chain_fuzz.Contracts.{ContractConfig, process_config, remove_libraries}
use chain_fuzz.Contracts.Ignore.{IsWell, methods_of, no_methods, listed, offers}
use chain_fuzz.Contracts.Config.{ignored_by, muted_by, process_config-Leaves}
use chain_fuzz.Accounts.{Store, read_accounts}
use chain_fuzz.Transactions.{read_transactions}
use chain_fuzz.Artifacts.{Abi, Built, ContractData, get_abi_map}
use chain_fuzz.Artifacts.Abis.{get_abi_map-FromFile}
use chain_fuzz.Startup
use chain_fuzz.Startup.{
  Project, Node, Started, chain_for, deploy_all, deployment_options, empty_backend, set_balances,
  funds, list_contracts, new_backend,
}
use chain_fuzz.Startup.Bare.{remove_libraries-IsBare, deploy_all-IsBare}
use chain_fuzz.Startup.Listing.{IsListing, list_contracts-IsListing}

-- The ABI of every contract names each of its methods once.
abbrev AreDistinct : Dict String Abi → Type 0
AreDistinct abis =
    (c : String) (abi : Abi) → lookup c abis ≡ some abi → no_dup (keys abi.methods) ≡ true

-- A list of contracts with their methods, put into a backend.
listing-IsWell :
    {S : Type 0} (abis : Dict String Abi) (b : Backend S) (contracts : Dict String Contract)
    (list : List String)
    → AreDistinct abis
    → IsListing abis b.deployed_contracts contracts list
    → IsWell (record b { deployed_contracts = contracts; contracts_list = list })
listing-IsWell abis b contracts list distinct l =
    let same : (c : String) → contains c contracts ≡ contains c b.deployed_contracts = λ c.
      sym (elem-keys c contracts) ∙ ap (elem c) l.same_keys ∙ elem-keys c b.deployed_contracts in
    record {
      distinct = l.distinct;
      known = λ c h. ground (arith, same c, l.others c, h);
      methods = λ c. elim (Bool-cases (contains c b.deployed_contracts)) [
        | inl there ↦ let d = l.deployed c there in ap no_dup d.methods ∙ distinct c d.abi d.known
        | inr missing ↦ ap no_dup (no_methods c contracts (same c ∙ missing))
      ];
    }

-- What `NewBackend` promises.
pub record WellStarted {S : Type 0} (configs : Dict String ContractConfig) (abis : Dict String Abi)
    (b : Backend S) : Type 0 where
  pub well : IsWell b
  pub some_listed : 0 < length b.contracts_list
  pub listed_known :
      (c : String)
      → listed c b ≡ true
      → ((c == "Migrations") ≡ false)
        × (ignored_by configs c ≡ false)
        × ((abi : Abi) × (lookup c abis ≡ some abi) × (0 < length (keys abi.methods)))
  pub offers_known :
      (c m : String)
      → offers c m b ≡ true
      → (muted_by configs c m ≡ false)
        × ((abi : Abi) × (lookup c abis ≡ some abi) × (elem m (keys abi.methods) ≡ true))

both_parts : (p q : Bool) → (p && q) ≡ true → (p ≡ true) × (q ≡ true)
both_parts true true h = (refl, refl)
both_parts true false h = cc
both_parts false q h = cc

on_list_deployed :
    (abis : Dict String Abi) (m contracts : Dict String Contract) (list : List String)
    → IsListing abis m contracts list
    → (c : String) → elem c list ≡ true
    → contains c m ≡ true
on_list_deployed abis m contracts list l c on = elim (Bool-cases (contains c m)) [
  | inl there ↦ there
  | inr missing ↦ absurd (ground (arith, l.others c missing, on))
]

offering_deployed :
    (abis : Dict String Abi) (m contracts : Dict String Contract) (list : List String)
    → IsListing abis m contracts list
    → (c method : String) → elem method (methods_of c contracts) ≡ true
    → contains c m ≡ true
offering_deployed abis m contracts list l c method has = elim (Bool-cases (contains c m)) [
  | inl there ↦ there
  | inr missing ↦
      let none_here =
        no_methods c contracts
          (sym (elem-keys c contracts) ∙ ap (elem c) l.same_keys ∙ elem-keys c m ∙ missing) in
      absurd (ground (arith, ap (elem method) none_here, has))
]

configured :
    {S : Type 0} (configs : Dict String ContractConfig) (abis : Dict String Abi) (a : ArgPool)
    (b : Backend S) (contracts : Dict String Contract) (list : List String)
    → AreDistinct abis
    → IsListing abis b.deployed_contracts contracts list
    → 0
      < length
          (process_config configs a
            (record b { deployed_contracts = contracts; contracts_list = list })).1.contracts_list
    → WellStarted configs abis
        (process_config configs a
          (record b { deployed_contracts = contracts; contracts_list = list })).1
configured configs abis a b contracts list distinct l some_left =
    let b' = record b { deployed_contracts = contracts; contracts_list = list } in
    let left =
      process_config-Leaves configs a b' (listing-IsWell abis b contracts list distinct l) in
    record {
      well = left.well;
      some_listed = some_left;
      listed_known = λ c h.
          let (kept, on) =
            both_parts (not (ignored_by configs c)) (elem c list) (sym (left.listed_left c) ∙ h) in
          let d = l.deployed c (on_list_deployed abis b.deployed_contracts contracts list l c on) in
          let (named, full) =
            both_parts (not (c == "Migrations")) (not (nat_beq (length (keys d.abi.methods)) 0))
              (sym d.on_list ∙ on) in
          (ground (arith, named), ground (arith, kept), (d.abi, d.known, ground (arith, full)));
      offers_known = λ c m h.
          let (kept, has) =
            both_parts (not (muted_by configs c m)) (offers c m b')
              (sym (left.offers_left c m) ∙ h) in
          let d =
            l.deployed c (offering_deployed abis b.deployed_contracts contracts list l c m has) in
          (ground (arith, kept), (d.abi, d.known, sym (ap (elem m) d.methods) ∙ has));
    }

get_abi_map-cached :
    (files : Option (List Built)) (g g' : ContractData) (abis : Dict String Abi)
    → get_abi_map files g ≡ some (abis, g')
    → g'.abi_map ≡ some abis
unfolding get_abi_map
get_abi_map-cached files g g' abis h = ground arith

files-AreDistinct :
    (files : List Built) (g g' : ContractData) (abis : Dict String Abi)
    → All (λ (f : Built). no_dup (keys f.abi.methods) ≡ true) files
    → g.abi_map ≡ none
    → get_abi_map (some files) g ≡ some (abis, g')
    → AreDistinct abis
files-AreDistinct files g g' abis once unread mapped c abi found =
    let from = get_abi_map-FromFile files g g' abis unread mapped c abi found in
    ap (λ (x : Abi). no_dup (keys x.methods)) (sym from.same)
    ∙ All-get_elem? (λ (f : Built). no_dup (keys f.abi.methods) ≡ true) files from.place from.file
        once from.among

module _ (sprint : Iface → String) (unpack : List GoType → List ℕ → List Value) (rand : ℕ → ℕ)
    {S T : Type 0} (node : Node S T) where
  started-left :
      (g : ContractData) (st : Store) (e : Env) (r : ArgPool × Backend S)
      (s : Started sprint unpack rand node)
      → Startup.started sprint unpack rand node g st e r ≡ some s
      → (0 < length r.1.contracts_list) × (s.backend ≡ r.1) × (s.contract_data ≡ g)
  started-left g st e (a, b) s h = elim (Bool-cases (nat_beq (length b.contracts_list) 0)) [
    | inl empty ↦ absurd (ground (arith, h, empty))
    | inr full ↦
        let here : Started sprint unpack rand node = record {
          backend = b;
          env = record e { pool = a };
          contract_data = g;
          store = st;
        } in
        let same = some-injective here s (sym (ap (λ c. if c then none else some here) full) ∙ h) in
        (
          ground (arith, full),
          ap (λ (t : Started sprint unpack rand node). t.backend) (sym same),
          ap (λ (t : Started sprint unpack rand node). t.contract_data) (sym same),
        )
  ]

  -- If a project is read for the first time, and the ABI of every file of it names each method once,
  -- then the backend that `NewBackend` returns lists some contract and none twice; every contract on
  -- the list is deployed, has an ABI with methods, is not "Migrations", and is not ignored; and every
  -- method that a contract offers is one of its ABI, once, and not ignored.
  pub new_backend-WellStarted :
      (project : Project) (files : List Built) (configs : Dict String ContractConfig)
      (g : ContractData) (st : Store) (e : Env) (s : Started sprint unpack rand node)
      → project.files ≡ some files
      → project.config ≡ some configs
      → g.abi_map ≡ none
      → All (λ (f : Built). no_dup (keys f.abi.methods) ≡ true) files
      → new_backend sprint unpack rand node project g st e ≡ some (some s)
      → (abis : Dict String Abi) × (s.contract_data.abi_map ≡ some abis)
        × WellStarted configs abis s.backend
  unfolding new_backend
  new_backend-WellStarted project files configs g st e s there config unread once h =
      let ((abis, g₁), mapped, h₁) = >>=-eq-some (get_abi_map project.files g) _ h in
      let ((accs, st₁), _, h₂) =
        >>=-eq-some (read_accounts node.hex_to_key node.address_of project.accounts st) _ h₁ in
      let ((txs, st₂), _, h₃) =
        >>=-eq-some (read_transactions node.hex_to_address node.sign project.lines st₁) _ h₂ in
      let start = empty_backend (set_balances sprint unpack rand node accs node.empty_state) in
      let ((a, b), deploys, h₄) =
        >>=-eq-some
          (deploy_all sprint unpack rand node (chain_for sprint unpack rand node project g₁) txs
            e.pool start)
          _ h₃ in
      let e₁ = init_arg_pool sprint rand (funds accs) (record e { pool = a }) in
      let b₁ = remove_libraries (keys g₁.libraries) b in
      let ((contracts, list), lists, h₅) =
        >>=-eq-some (list_contracts abis b₁.deployed_contracts) _ h₄ in
      let (configs', config', h₆) = >>=-eq-some project.config _ h₅ in
      let b₂ = record b₁ { deployed_contracts = contracts; contracts_list = list } in
      let (some_left, same, same_data) =
        started-left g₁ st₂ e₁ (process_config configs' e₁.pool b₂) s (some-injective _ _ h₆) in
      let bare =
        deploy_all-IsBare sprint unpack rand node (chain_for sprint unpack rand node project g₁) txs
          e.pool a start b (refl, λ c. refl) deploys in
      let listing =
        list_contracts-IsListing abis b₁.deployed_contracts contracts list
          (remove_libraries-IsBare (keys g₁.libraries) b bare) lists in
      let distinct =
        files-AreDistinct files g g₁ abis once unread
          (sym (ap (λ f. get_abi_map f g) there) ∙ mapped) in
      let well = configured configs' abis e₁.pool b₁ contracts list distinct listing some_left in
      (
        abis,
        ap (λ (d : ContractData). d.abi_map) same_data
            ∙ get_abi_map-cached project.files g g₁ abis mapped,
        subst (λ (c : Dict String ContractConfig). WellStarted c abis s.backend)
            (some-injective configs' configs (sym config' ∙ config))
            (subst (WellStarted configs' abis) (sym same) well),
      )
