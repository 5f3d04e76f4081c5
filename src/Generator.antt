-- ===== src/Generator.antt =====
-- The next transaction (utils/generator.go): contract, method, arguments, sender and amount, each
-- taken from the hint or drawn.
pub mod Amount
pub mod Endless
pub mod Refill
use chain_fuzz.Prelude.{
  ℕ, zero, suc, ◌+◌, string_eq, Bool, true, false, not, ◌&&◌, Option, none, some, String, List,
  ◌==◌, ◌>>=◌, get_elem?, if◌then◌else◌,
}
use chain_fuzz.Prelude.Int.{ℤ, pos, leb_ℤ}
use chain_fuzz.Prelude.Dict.{lookup}
use chain_fuzz.Pool
use chain_fuzz.ArgPool.{ArgPool, next_big_int}
use chain_fuzz.Values.{GoType, Value}
use chain_fuzz.Args.{Env, construct_args}
use chain_fuzz.Backend.{Backend, LastTxInput}
use chain_fuzz.Contracts.{get_random_contract, get_random_method}

-- The loop draws until an amount is at most the balance, with fuel for the draws.
unfoldable pub draw_amount : ℕ → ℤ → ArgPool → Option (ℤ × ArgPool)
draw_amount zero balance a = none
draw_amount (suc fuel) balance a = do
  (x, a') ← next_big_int a
  let rest = draw_amount fuel balance a'
  if leb_ℤ x balance then some (x, a') else rest

-- An empty text is not given.
pub record Hint : Type 0 where
  pub contract : String
  pub method : String
  pub args : Option (List Value)
  pub amount : Option ℤ
  pub sender : Option ℕ
  pub fallback : Bool

pub record Transaction : Type 0 where
  pub nonce : ℕ
  pub to : ℕ
  pub amount : ℤ
  pub input : List ℕ
  pub sender : ℕ

-- `abi.Method`, as far as the program reads it.
pub record Method : Type 0 where
  pub inputs : List GoType
  pub outputs : List GoType
  pub is_const : Bool

-- What go-ethereum, the metadata and the random numbers answer. A `none` is a panic: a contract or
-- a method that the ABI does not have, arguments that do not fit, a sender without a key.
pub record World (S : Type 0) : Type 0 where
  pub method_of : String → String → Option Method
  pub is_payable : String → String → Bool
  pub pack : String → String → List Value → Option (List ℕ)
  pub has_key : ℕ → Bool
  pub random_account : ℕ → Option ℕ
  pub balance : S → ℕ → ℤ
  pub nonce : S → ℕ → ℕ

module _ {S : Type 0} (w : World S) (rand : ℕ → ℕ) where
  -- What the hint gives, or what is drawn with the next random number.
  unfoldable pub given_or : String → (ℕ → Option String) → Env → Option (String × Env)
  given_or given draw e =
      let drawn = (do x ← draw (rand e.drawn); some (x, record e { drawn = e.drawn + 1 })) in
      if given == "" then drawn else some (given, e)

  unfoldable pub arguments : Option (List Value) → List GoType → Env → Option (List Value × Env)
  arguments (some args) inputs e = some (args, e)
  arguments none inputs e = construct_args rand inputs e

  -- A given sender needs a key; an account that is drawn, by `rand.Intn`, has one.
  unfoldable pub choose_sender : Option ℕ → Env → Option (ℕ × Env)
  choose_sender (some sender) e = if w.has_key sender then some (sender, e) else none
  choose_sender none e = do
    sender ← w.random_account (rand e.drawn)
    some (sender, record e { drawn = e.drawn + 1 })

  -- One round of the pool is fuel enough: if it has no amount in reach the loop never ends.
  unfoldable pub choose_amount : Option ℤ → Bool → ℤ → Env → Option (ℤ × Env)
  choose_amount (some amount) payable balance e = some (amount, e)
  choose_amount none payable balance e =
      let drawn = (do
        (x, a) ← draw_amount (Pool.size e.pool.big_ints) balance e.pool
        some (x, record e { pool = a })) in
      if payable then drawn else some (pos 0, e)

  -- A nil hint is a panic: `hint.Fallback` is read without a test. The hint that is returned is the
  -- one that the pointer leads to afterwards.
  unfoldable pub gen_transaction :
      Option Hint → Backend S → Env → Option (Transaction × Hint × Backend S × Env)
  gen_transaction none b e = none
  gen_transaction (some hint) b e = do
    (contract, e₁) ← given_or hint.contract (λ r. get_random_contract r b) e
    (drawn_method, e₂) ← given_or hint.method (λ r. get_random_method r contract b) e₁
    let method = if hint.fallback then "" else drawn_method
    target ← lookup contract b.deployed_contracts
    to ← get_elem? target.addresses 0
    abi ← w.method_of contract method
    (args, e₃) ← arguments hint.args abi.inputs e₂
    input ← w.pack contract method args
    (sender, e₄) ← choose_sender hint.sender e₃
    (amount, e₅) ←
        choose_amount hint.amount (w.is_payable contract method) (w.balance b.state sender) e₄
    some (
      record {
        nonce = w.nonce b.state sender;
        to = to;
        amount = amount;
        input = input;
        sender = sender;
      },
      record hint { contract = contract; method = method; amount = some amount },
      record b {
        last_tx_in = some (record {
          contract = contract;
          method = method;
          is_const = abi.is_const;
          ether = amount;
          input = args;
          out_args = abi.outputs;
          sender = sender;
        });
      },
      e₅,
    )
