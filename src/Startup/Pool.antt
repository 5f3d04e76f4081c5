-- ===== src/Startup/Pool.antt =====
-- The argument pool that `NewBackend` leaves (utils/backend.go).
use chain_fuzz.Prelude.{
  ℕ, suc, ◌+◌, ◌^◌, ◌<◌, ◌≤◌, ◌≡◌, sym, ap, subst, ◌∙◌, inl, inr, false, Option, none, some, String,
  List, [], ◌∷◌, ◌++◌, length, length-append, nat_beq, Bool-cases, >>=-eq-some, arith, All,
  if◌then◌else◌,
}
use mathlib.Core.Option.{some-injective}
use chain_fuzz.Prelude.Dict.{Dict, keys}
use chain_fuzz.Values.{GoType, Value}
use chain_fuzz.TypedPools.{Iface}
use chain_fuzz.ArgPool.{ArgPool, add_timestamp}
use chain_fuzz.ArgPool.Valid
use chain_fuzz.ArgPool.Valid.{IsValid}
use chain_fuzz.ArgPool.Sessions.{IsReady}
use chain_fuzz.Args.{Env, init_arg_pool}
use chain_fuzz.Args.Init.{init_arg_pool-IsReady}
use chain_fuzz.Args.Refill.{timestamp-IsReady}
use chain_fuzz.Backend.{Backend}
use chain_fuzz.Processor.{Chain}
use chain_fuzz.Processor.Refill.{Holds}
use chain_fuzz.Commit.{commit_transaction}
use chain_fuzz.Commit.Refill.{commit_transaction-Holds}
use chain_fuzz.Contracts.{
  ContractConfig, add_timestamps, process_config, process_contract, remove_libraries,
}
use chain_fuzz.Accounts.{
  AccountJson, Key, Account, Store, nothing_read, listed, add_accounts, read_file, read_accounts,
}
use chain_fuzz.Transactions.{read_transactions}
use chain_fuzz.Artifacts.{ContractData, get_abi_map}
use chain_fuzz.Startup
use chain_fuzz.Startup.{
  Project, Node, Started, chain_for, deploy_all, deployment_options, empty_backend, set_balances,
  funds, list_contracts, new_backend,
}

-- The timestamps of a configuration are below 2^63.
abbrev pub AreTimes : Dict String ContractConfig → Type 0
AreTimes configs =
    All (λ (c : String × ContractConfig). All (λ t. t < 2 ^ 63) c.1.timestamps) configs

module _ (sprint : Iface → String) where
  add_timestamps-IsReady :
      (ts : List ℕ) (a : ArgPool)
      → All (λ t. t < 2 ^ 63) ts
      → IsReady sprint a
      → IsReady sprint (add_timestamps ts a)
  unfolding add_timestamps
  add_timestamps-IsReady [] a small r = r
  add_timestamps-IsReady (t ∷ ts) a small r =
      add_timestamps-IsReady ts (add_timestamp t a) small.1 (timestamp-IsReady sprint t a small.0 r)

  process_config-IsReady :
      {S : Type 0} (configs : Dict String ContractConfig) (a : ArgPool) (b : Backend S)
      → AreTimes configs
      → IsReady sprint a
      → IsReady sprint (process_config configs a b).0
  unfolding process_config
  process_config-IsReady [] a b small r = r
  process_config-IsReady (entry ∷ rest) a b small r =
      process_config-IsReady rest (add_timestamps entry.1.timestamps a)
        (process_contract entry.0 entry.1 b) small.1
        (add_timestamps-IsReady entry.1.timestamps a small.0 r)

module _ (hex_to_key : String → Option ℕ) (address_of : ℕ → ℕ) where
  add_accounts-length :
      (i : ℕ) (jsons : List AccountJson) (accs : List Account) (st st' : Store)
      → add_accounts hex_to_key address_of i jsons accs st ≡ some st'
      → length accs + length jsons ≤ length (listed st')
  unfolding add_accounts
  add_accounts-length i [] accs st st' h = ground (arith, h)
  add_accounts-length i (json ∷ rest) accs st st' h =
      let (scalar, _, later) = >>=-eq-some (hex_to_key json.key) _ h in
      let key : Key = record { object = i; scalar = scalar } in
      let acc : Account = record {
        key = key;
        address = address_of scalar;
        amount = json.amount;
        used = false;
      } in
      omega (
        arith,
        add_accounts-length (suc i) rest (accs ++ acc ∷ []) _ st' later,
        length-append accs (acc ∷ []),
      )

  -- A file with an account gives some account.
  read_accounts-some :
      (json : AccountJson) (jsons : List AccountJson) (st st' : Store) (accs : List Account)
      → st.accounts ≡ none
      → read_accounts hex_to_key address_of (some (json ∷ jsons)) st ≡ some (accs, st')
      → 0 < length accs
  unfolding read_accounts read_file
  read_accounts-some json jsons st st' accs unread h =
      let (st₁, added, same) =
        >>=-eq-some (add_accounts hex_to_key address_of 0 (json ∷ jsons) [] nothing_read) _
          (rw unread at h) in
      let more = add_accounts-length 0 (json ∷ jsons) [] nothing_read st₁ added in
      subst (λ (r : List Account × Store). 0 < length r.0) (some-injective _ _ same) (omega arith)

module _ (sprint : Iface → String) (unpack : List GoType → List ℕ → List Value) (rand : ℕ → ℕ)
    {S T : Type 0} (node : Node S T) where
  -- The deployments put nothing but timestamps into the pool.
  deploy_all-IsValid :
      (chain : T → Chain) (txs : List T) (a a' : ArgPool) (b b' : Backend S)
      → IsValid sprint a
      → deploy_all sprint unpack rand node chain txs a b ≡ some (a', b')
      → IsValid sprint a'
  unfolding deploy_all
  deploy_all-IsValid chain [] a a' b b' v h =
      subst (λ (r : ArgPool × Backend S). IsValid sprint r.0) (some-injective _ _ h) v
  deploy_all-IsValid chain (tx ∷ txs) a a' b b' v h =
      let ((failed, pool, b₁), committed, h₁) =
        >>=-eq-some
          (commit_transaction sprint unpack (chain tx) (node.evm tx) (node.to_of tx) (some a)
            (some deployment_options) b)
          _ h in
      let (a₁, is, h₂) = >>=-eq-some pool _ h₁ in
      let held =
        commit_transaction-Holds (IsValid sprint)
          (λ val a small v. Valid.add_timestamp-IsValid sprint v val small) sprint unpack
          deployment_options (λ on types output a v. absurd (ground (arith, on))) (chain tx)
          (node.evm tx) (node.to_of tx) (some a) pool b b₁ failed v committed in
      deploy_all-IsValid chain txs a₁ a' b₁ b' (subst (Holds (IsValid sprint)) is held) h₂

  started-pool :
      (g : ContractData) (st : Store) (e : Env) (r : ArgPool × Backend S)
      (s : Started sprint unpack rand node)
      → Startup.started sprint unpack rand node g st e r ≡ some s
      → s.env.pool ≡ r.0
  started-pool g st e (a, b) s h = elim (Bool-cases (nat_beq (length b.contracts_list) 0)) [
    | inl empty ↦ absurd (ground (arith, h, empty))
    | inr full ↦
        let here : Started sprint unpack rand node = record {
          backend = b;
          env = record e { pool = a };
          contract_data = g;
          store = st;
        } in
        ap (λ (t : Started sprint unpack rand node). t.env.pool)
          (sym (some-injective here s (sym (ap (λ c. if c then none else some here) full) ∙ h)))
  ]

  init-IsReady :
      (accs : List Account) (e : Env)
      → 0 < length accs
      → IsValid sprint e.pool
      → IsReady sprint (init_arg_pool sprint rand (funds accs) e).pool
  init-IsReady [] e more v = absurd (omega arith)
  init-IsReady (acc ∷ accs) e more v =
      init_arg_pool-IsReady sprint rand (acc.address, acc.amount) (funds accs) e v

  -- If the accounts are read for the first time from a file that has some, the timestamps of the
  -- configuration are below 2^63, and the argument pool is valid at the start, then the pool is ready
  -- when `NewBackend` returns: valid, without an item twice, and with an address and a big integer to
  -- hand out.
  pub new_backend-IsReady :
      (project : Project) (json : AccountJson) (jsons : List AccountJson)
      (configs : Dict String ContractConfig) (g : ContractData) (st : Store) (e : Env)
      (s : Started sprint unpack rand node)
      → project.accounts ≡ some (json ∷ jsons)
      → st.accounts ≡ none
      → project.config ≡ some configs
      → AreTimes configs
      → IsValid sprint e.pool
      → new_backend sprint unpack rand node project g st e ≡ some (some s)
      → IsReady sprint s.env.pool
  unfolding new_backend
  new_backend-IsReady project json jsons configs g st e s there unread config small v h =
      let ((abis, g₁), _, h₁) = >>=-eq-some (get_abi_map project.files g) _ h in
      let ((accs, st₁), reads, h₂) =
        >>=-eq-some (read_accounts node.hex_to_key node.address_of project.accounts st) _ h₁ in
      let ((txs, st₂), _, h₃) =
        >>=-eq-some (read_transactions node.hex_to_address node.sign project.lines st₁) _ h₂ in
      let start = empty_backend (set_balances sprint unpack rand node accs node.empty_state) in
      let ((a, b), deploys, h₄) =
        >>=-eq-some
          (deploy_all sprint unpack rand node (chain_for sprint unpack rand node project g₁) txs
            e.pool start)
          _ h₃ in
      let e₁ = init_arg_pool sprint rand (funds accs) (record e { pool = a }) in
      let b₁ = remove_libraries (keys g₁.libraries) b in
      let ((contracts, list), _, h₅) =
        >>=-eq-some (list_contracts abis b₁.deployed_contracts) _ h₄ in
      let (configs', config', h₆) = >>=-eq-some project.config _ h₅ in
      let b₂ = record b₁ { deployed_contracts = contracts; contracts_list = list } in
      let known =
        read_accounts-some node.hex_to_key node.address_of json jsons st st₁ accs unread
          (sym (ap (λ f. read_accounts node.hex_to_key node.address_of f st) there) ∙ reads) in
      let valid =
        deploy_all-IsValid (chain_for sprint unpack rand node project g₁) txs e.pool a start b v
          deploys in
      subst (IsReady sprint)
        (sym
          (started-pool g₁ st₂ e₁ (process_config configs' e₁.pool b₂) s (some-injective _ _ h₆)))
        (process_config-IsReady sprint configs' e₁.pool b₂
          (subst AreTimes (some-injective configs configs' (sym config ∙ config')) small)
          (init-IsReady accs (record e { pool = a }) known valid))
