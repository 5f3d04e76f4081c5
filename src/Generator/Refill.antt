-- ===== src/Generator/Refill.antt =====
-- `GenTransaction` (utils/generator.go) leaves the argument pool ready.
use chain_fuzz.Prelude.{
  ℕ, ◌≡◌, subst, Bool, true, false, Option, none, some, String, List, >>=-eq-some, string_eq, ◌==◌,
  Bool-cases, inl, inr, get_elem?, arith, ◌>>=◌, if◌then◌else◌,
}
use mathlib.Core.Option.{some-injective}
use chain_fuzz.Prelude.Int.{ℤ}
use chain_fuzz.Prelude.Dict.{lookup}
use chain_fuzz.Pool
use chain_fuzz.Values.{GoType, Value}
use chain_fuzz.TypedPools.{Iface}
use chain_fuzz.ArgPool.Sessions.{IsReady}
use chain_fuzz.Args.{Env}
use chain_fuzz.Args.Draws.{construct_args-keeps}
use chain_fuzz.Args.Keeps.{StaysReady, StaysReady-Draws}
use chain_fuzz.Backend.{Backend}
use chain_fuzz.Contracts.{get_random_contract, get_random_method}
use chain_fuzz.Generator.{
  Hint, Transaction, World, draw_amount, given_or, choose_amount, choose_sender, arguments,
  gen_transaction,
}
use chain_fuzz.Generator.Amount.{draw_amount-keeps}

module _ {S : Type 0} (w : World S) (rand : ℕ → ℕ) (sprint : Iface → String) where
  ends_with :
      {A : Type 0} {x x' : A} {e e' : Env}
      → ◌≡◌ {A = Option (A × Env)} (some (x, e)) (some (x', e'))
      → IsReady sprint e.pool
      → IsReady sprint e'.pool
  ends_with {A} h r = subst (λ (p : A × Env). IsReady sprint p.1.pool) (some-injective _ _ h) r

  given_or-StaysReady :
      (given : String) (draw : ℕ → Option String) (e e' : Env) (x : String)
      → given_or w rand given draw e ≡ some (x, e')
      → StaysReady sprint e.pool e'.pool
  unfolding given_or
  given_or-StaysReady given draw e e' x h r = elim (Bool-cases (given == "")) [
    | inl empty ↦
        let (y, _, h₁) = >>=-eq-some (draw (rand e.drawn)) _ (rw empty at h) in ends_with h₁ r
    | inr full ↦ ends_with (rw full at h) r
  ]

  arguments-StaysReady :
      (args : Option (List Value)) (inputs : List GoType) (e e' : Env) (vs : List Value)
      → arguments w rand args inputs e ≡ some (vs, e')
      → StaysReady sprint e.pool e'.pool
  unfolding arguments
  arguments-StaysReady (some args) inputs e e' vs h r = ends_with h r
  arguments-StaysReady none inputs e e' vs h r =
      construct_args-keeps (StaysReady sprint) (λ a r. r) (λ a b c s t r. t (s r))
        (StaysReady-Draws sprint) rand inputs e e' vs h r

  choose_sender-StaysReady :
      (sender : Option ℕ) (e e' : Env) (x : ℕ)
      → choose_sender w rand sender e ≡ some (x, e')
      → StaysReady sprint e.pool e'.pool
  unfolding choose_sender
  choose_sender-StaysReady (some sender) e e' x h r = elim (Bool-cases (w.has_key sender)) [
    | inl has ↦ ends_with (rw has at h) r
    | inr without ↦ absurd (ground (arith, without, h))
  ]
  choose_sender-StaysReady none e e' x h r =
      let (y, _, h₁) = >>=-eq-some (w.random_account (rand e.drawn)) _ h in ends_with h₁ r

  choose_amount-StaysReady :
      (amount : Option ℤ) (payable : Bool) (balance x : ℤ) (e e' : Env)
      → choose_amount w rand amount payable balance e ≡ some (x, e')
      → StaysReady sprint e.pool e'.pool
  unfolding choose_amount
  choose_amount-StaysReady (some amount) payable balance x e e' h r = ends_with h r
  choose_amount-StaysReady none false balance x e e' h r = ends_with h r
  choose_amount-StaysReady none true balance x e e' h r =
      let ((y, a), drew, h₁) =
        >>=-eq-some (draw_amount (Pool.size e.pool.big_ints) balance e.pool) _ h in
      ends_with h₁ (
        draw_amount-keeps (StaysReady sprint) (λ a b c s t r. t (s r))
          (StaysReady-Draws sprint).big_ints (Pool.size e.pool.big_ints) balance y e.pool a drew r)

  -- What a computation ends with, if it ends.
  abbrev EndsReady : {B : Type 0} → (B → Env) → Option B → Type 0
  EndsReady {B} env o = (r : B) → o ≡ some r → IsReady sprint (env r).pool

  after-EndsReady :
      {A B : Type 0} (env : B → Env) (o : Option A) (k : A → Option B)
      → ((a : A) → o ≡ some a → EndsReady env (k a))
      → EndsReady env (o >>= k)
  after-EndsReady env o k each r h = let (a, is, later) = >>=-eq-some o k h in each a is r later

  end-EndsReady :
      {B : Type 0} (env : B → Env) (b : B) → IsReady sprint (env b).pool → EndsReady env (some b)
  end-EndsReady env b ready r h =
      subst (λ r. IsReady sprint (env r).pool) (some-injective b r h) ready

  abbrev env_of : Transaction × Hint × Backend S × Env → Env
  env_of r = r.3

  given-EndsReady :
      (hint : Hint) (b : Backend S) (e : Env)
      → IsReady sprint e.pool
      → EndsReady env_of (gen_transaction w rand (some hint) b e)
  unfolding gen_transaction
  given-EndsReady hint b e r =
      after-EndsReady env_of (given_or w rand hint.contract (λ r. get_random_contract r b) e) _
        (λ (contract, e₁) got₁.
          let r₁ =
            given_or-StaysReady hint.contract (λ r. get_random_contract r b) e e₁ contract got₁ r in
          after-EndsReady env_of
            (given_or w rand hint.method (λ r. get_random_method r contract b) e₁) _
            (λ (drawn, e₂) got₂.
              let r₂ =
                given_or-StaysReady hint.method (λ r. get_random_method r contract b) e₁ e₂ drawn
                  got₂ r₁ in
              let method = if hint.fallback then "" else drawn in
              after-EndsReady env_of (lookup contract b.deployed_contracts) _ (λ target _.
                after-EndsReady env_of (get_elem? target.addresses 0) _ (λ to _.
                  after-EndsReady env_of (w.method_of contract method) _ (λ abi _.
                    after-EndsReady env_of (arguments w rand hint.args abi.inputs e₂) _
                      (λ (args, e₃) got₃.
                        let r₃ = arguments-StaysReady hint.args abi.inputs e₂ e₃ args got₃ r₂ in
                        after-EndsReady env_of (w.pack contract method args) _ (λ input _.
                          after-EndsReady env_of (choose_sender w rand hint.sender e₃) _
                            (λ (sender, e₄) got₄.
                              let r₄ = choose_sender-StaysReady hint.sender e₃ e₄ sender got₄ r₃ in
                              let payable = w.is_payable contract method in
                              let balance = w.balance b.state sender in
                              after-EndsReady env_of
                                (choose_amount w rand hint.amount payable balance e₄) _
                                (λ (amount, e₅) got₅. end-EndsReady env_of _ (
                                  choose_amount-StaysReady hint.amount payable balance amount e₄ e₅
                                    got₅ r₄))))))))))

  pub gen_transaction-StaysReady :
      (hint : Option Hint) (hint' : Hint) (b b' : Backend S) (e e' : Env) (tx : Transaction)
      → gen_transaction w rand hint b e ≡ some (tx, hint', b', e')
      → StaysReady sprint e.pool e'.pool
  gen_transaction-StaysReady none hint' b b' e e' tx h r = unfold gen_transaction in cc
  gen_transaction-StaysReady (some hint) hint' b b' e e' tx h r =
      given-EndsReady hint b e r (tx, hint', b', e') h
