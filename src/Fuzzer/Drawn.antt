-- ===== src/Fuzzer/Drawn.antt =====
-- The transaction that the main loop asks for: `GenTransaction` with the empty hint
-- (utils/generator.go, fuzzer/fuzzer.go).
use chain_fuzz.Prelude.{
  ℕ, ◌+◌, ◌<◌, string_eq, int_eq, ◌==◌, ◌≡◌, refl, sym, ap, subst, ◌∙◌, Bool, true, false, Option,
  some, none, String, List, [], All, map, length, get_elem?, get_elem?-lt, get_elem?-turned,
  >>=-some, inl, inr, arith, length-take-drop, Option-cases, if◌then◌else◌,
}
use chain_fuzz.Prelude.Int.{ℤ, pos, leb_ℤ}
use chain_fuzz.Prelude.Dict.{lookup}
use chain_fuzz.Pool
use chain_fuzz.Pool.Cycle.{contents}
use chain_fuzz.Values.{Value, type_of}
use chain_fuzz.TypedPools.{Iface}
use chain_fuzz.ArgPool.{ArgPool}
use chain_fuzz.ArgPool.Valid.{IsValid}
use chain_fuzz.ArgPool.Sessions.{IsReady}
use chain_fuzz.Args.{Env}
use chain_fuzz.Args.Keeps.{Same, further, Same-Draws, construct_args-Same}
use chain_fuzz.Args.Typing.{IsKnown, IsWellTyped, construct_args-typed}
use chain_fuzz.Backend.{Backend, Contract}
use chain_fuzz.Contracts.{get_random_contract, get_random_method}
use chain_fuzz.Contracts.Choice.{get_random_contract-get_random_method}
use chain_fuzz.Contracts.Ignore.{IsWell, methods_of, listed, offers}
use chain_fuzz.Generator.{
  Hint, Method, Transaction, World, given_or, choose_amount, choose_sender, arguments,
  gen_transaction,
}
use chain_fuzz.Generator.Amount.{draw_amount_total, draw_amount-keeps}
use chain_fuzz.Fuzzer.{empty_hint}

-- The addresses at which a contract is deployed.
abbrev pub addresses_of : {S : Type 0} → String → Backend S → List ℕ
addresses_of c b = elim (lookup c b.deployed_contracts) [ none ↦ [] | some k ↦ k.addresses ]

Same-IsReady :
    (sprint : Iface → String) (a a' : ArgPool)
    → IsReady sprint a
    → IsValid sprint a'
    → Same a a'
    → IsReady sprint a'
Same-IsReady sprint a a' r valid s = record {
  valid = valid;
  some_address = subst (λ l. 0 < length l) (sym s.addresses) r.some_address;
  some_big_int = subst (λ l. 0 < length l) (sym s.big_ints) r.some_big_int;
}

module _ {S : Type 0} (w : World S) (rand : ℕ → ℕ) (sprint : Iface → String) where
  -- Every contract on the list has methods and an address; each of its methods has an ABI whose types
  -- the program knows, and packs what fits them; there is an account for every random number.
  pub record IsServed (b : Backend S) : Type 0 where
    pub has_methods :
        (c : String) → listed c b ≡ true → 0 < length (methods_of c b.deployed_contracts)
    pub address :
        (c : String) → listed c b ≡ true → (to : ℕ) × (get_elem? (addresses_of c b) 0 ≡ some to)
    pub method :
        (c m : String)
        → listed c b ≡ true
        → offers c m b ≡ true
        → (abi : Method) × (w.method_of c m ≡ some abi)
          × All IsKnown abi.inputs
          × ((vs : List Value)
              → map type_of vs ≡ abi.inputs
              → All IsWellTyped vs
              → (input : List ℕ) × (w.pack c m vs ≡ some input))
    pub account : (r : ℕ) → (sender : ℕ) × (w.random_account r ≡ some sender)

  given_or-draws :
      (draw : ℕ → Option String) (e : Env) (x : String)
      → draw (rand e.drawn) ≡ some x
      → given_or w rand "" draw e ≡ some (x, record e { drawn = e.drawn + 1 })
  unfolding given_or
  given_or-draws draw e x h = >>=-some _ h refl

  choose_amount_total :
      (payable : Bool) (balance : ℤ) (e : Env) (i : ℕ) (y : ℤ)
      → IsReady sprint e.pool
      → get_elem? e.pool.big_ints.storage i ≡ some (Iface.big_int y)
      → leb_ℤ y balance ≡ true
      → (x : ℤ) × (e' : Env) × (choose_amount w rand none payable balance e ≡ some (x, e'))
        × ((if payable then leb_ℤ x balance else x == pos 0) ≡ true)
        × IsReady sprint e'.pool
  unfolding choose_amount
  choose_amount_total false balance e i y r at reach = (pos 0, e, refl, refl, r)
  choose_amount_total true balance e i y r at reach =
      let (j, turned) =
        get_elem?-turned e.pool.big_ints.idx e.pool.big_ints.storage i (Iface.big_int y) at in
      let (x, a, drew, small, valid) =
        draw_amount_total sprint j (Pool.size e.pool.big_ints) y balance r.valid turned reach (
          omega (
            arith,
            get_elem?-lt (contents e.pool.big_ints) j turned,
            length-take-drop e.pool.big_ints.idx e.pool.big_ints.storage,
          )) in
      (
        x,
        record e { pool = a },
        >>=-some _ drew refl,
        small,
        Same-IsReady sprint e.pool a r valid (
            draw_amount-keeps Same further Same-Draws.big_ints (Pool.size e.pool.big_ints) balance x
              e.pool a drew),
      )

  first_address :
      (c : String) (b : Backend S) (to : ℕ)
      → get_elem? (addresses_of c b) 0 ≡ some to
      → (k : Contract) × (lookup c b.deployed_contracts ≡ some k)
        × (get_elem? k.addresses 0 ≡ some to)
  first_address c b to h = elim (Option-cases (lookup c b.deployed_contracts)) [
    | inl missing ↦ absurd (ground (arith, missing, h))
    | inr (k, there) ↦ (k, there, ground (arith, there, h))
  ]

  -- The transaction that is made, and what is left.
  pub record Made (b : Backend S) (e : Env) : Type 0 where
    pub tx : Transaction
    pub hint : Hint
    pub left : Backend S
    pub env : Env
    pub abi : Method
    pub args : List Value
    pub run : gen_transaction w rand (some empty_hint) b e ≡ some (tx, hint, left, env)
    pub on_list : listed hint.contract b ≡ true
    pub offered : offers hint.contract hint.method b ≡ true
    pub to : get_elem? (addresses_of hint.contract b) 0 ≡ some tx.to
    pub known : w.method_of hint.contract hint.method ≡ some abi
    pub typed : map type_of args ≡ abi.inputs
    pub well : All IsWellTyped args
    pub packed : w.pack hint.contract hint.method args ≡ some tx.input
    pub amount : hint.amount ≡ some tx.amount
    pub affordable :
        (if w.is_payable hint.contract hint.method
          then leb_ℤ tx.amount (w.balance b.state tx.sender)
          else tx.amount == pos 0)
        ≡ true
    pub remembered : left ≡ record b {
      last_tx_in = some (record {
        contract = hint.contract;
        method = hint.method;
        is_const = abi.is_const;
        ether = tx.amount;
        input = args;
        out_args = abi.outputs;
        sender = tx.sender;
      });
    }
    pub ready : IsReady sprint env.pool

  -- If the argument pool is ready, the list of contracts is well formed and not empty, the contracts on
  -- it are served by their ABIs, and the pool holds an amount that every account can pay, then
  -- `GenTransaction` with the empty hint makes a transaction, without a panic and without drawing
  -- forever: it goes to the first address of a contract on the list, its input is the packing of
  -- arguments of the types of one of that contract's methods, its amount is at most the balance of its
  -- sender, and 0 if the method is not payable; the hint and the backend remember it; and the pool
  -- stays ready.
  pub gen_transaction-Made :
      (b : Backend S) (e : Env) (i : ℕ) (y : ℤ)
      → IsReady sprint e.pool
      → IsWell b
      → 0 < length b.contracts_list
      → IsServed b
      → get_elem? e.pool.big_ints.storage i ≡ some (Iface.big_int y)
      → ((sender : ℕ) → leb_ℤ y (w.balance b.state sender) ≡ true)
      → Made b e
  unfolding gen_transaction arguments choose_sender
  gen_transaction-Made b e i y r well some_contract served at reach =
      let e₁ : Env = record e { drawn = e.drawn + 1 } in
      let e₂ : Env = record e { drawn = e.drawn + 1 + 1 } in
      let (c, chosen, on_list, _, pick) =
        get_random_contract-get_random_method (rand e.drawn) (rand (e.drawn + 1)) b well
          some_contract in
      let (m, picked, offered) = pick (served.has_methods c on_list) in
      let (to, at_first) = served.address c on_list in
      let (k, there, first) = first_address c b to at_first in
      let (abi, known, types, packs) = served.method c m on_list offered in
      let (args, e₃, made, typed, fits, r₃) =
        construct_args-typed sprint rand abi.inputs e₂ types r in
      let same = construct_args-Same rand abi.inputs e₂ e₃ args made in
      let (input, packed) = packs args typed fits in
      let (sender, account) = served.account (rand e₃.drawn) in
      let e₄ : Env = record e₃ { drawn = e₃.drawn + 1 } in
      let (x, e₅, paid, affordable, r₅) =
        choose_amount_total (w.is_payable c m) (w.balance b.state sender) e₄ i y r₃
          (ap (λ l. get_elem? l i) same.big_ints ∙ at) (reach sender) in
      record {
        tx = record {
          nonce = w.nonce b.state sender;
          to = to;
          amount = x;
          input = input;
          sender = sender;
        };
        hint = record empty_hint { contract = c; method = m; amount = some x };
        left = record b {
          last_tx_in = some (record {
            contract = c;
            method = m;
            is_const = abi.is_const;
            ether = x;
            input = args;
            out_args = abi.outputs;
            sender = sender;
          });
        };
        env = e₅;
        abi = abi;
        args = args;
        run = >>=-some _ (given_or-draws (λ n. get_random_contract n b) e c chosen) (
            >>=-some _ (given_or-draws (λ n. get_random_method n c b) e₁ m picked) (
              >>=-some _ there (
                >>=-some _ first (
                  >>=-some _ known (
                    >>=-some _ made (
                      >>=-some _ packed
                        (>>=-some _ (>>=-some _ account refl) (>>=-some _ paid refl))))))));
        on_list = on_list;
        offered = offered;
        to = at_first;
        known = known;
        typed = typed;
        well = fits;
        packed = packed;
        amount = refl;
        affordable = affordable;
        remembered = refl;
        ready = r₅;
      }
