-- ===== src/Fuzzer/Corner.antt =====
-- The first transaction to a contract without methods (fuzzer/fuzzer.go, utils/generator.go).
use chain_fuzz.Prelude.{
  ℕ, ◌+◌, string_eq, ◌≡◌, refl, false, length, >>=-some, >>=-none, inl, inr, ◌>>=◌, ap, ◌∙◌, Option,
  none, some, String, [], ◌==◌, arith, Option-cases,
}
use chain_fuzz.Prelude.Int.{ℤ}
use chain_fuzz.Prelude.Dict.{lookup}
use chain_fuzz.Args.{Env}
use chain_fuzz.Backend.{Backend, Contract}
use chain_fuzz.Contracts.{get_random_method}
use chain_fuzz.ArgPool.{ArgPool}
use chain_fuzz.Generator.{World, given_or, gen_transaction}
use chain_fuzz.Heuristics.{revert_backend, gen_timestamp}
use chain_fuzz.Heuristics.Rec.{panics, Session, Setup, attempt, rec}
use chain_fuzz.Fuzzer.{fallback_hint, corner_case}

module _ {S : Type 0} (w : World S) (rand : ℕ → ℕ) where
  -- A remainder by the number of methods.
  get_random_method-panics :
      (r : ℕ) (contract : String) (c : Contract) (b : Backend S)
      → lookup contract b.deployed_contracts ≡ some c
      → c.methods ≡ []
      → get_random_method r contract b ≡ none
  unfolding get_random_method
  get_random_method-panics r contract c b deployed empty =
      >>=-some _ deployed (ground (arith, ap length empty))

  given :
      (contract : String) (draw : ℕ → Option String) (e : Env)
      → (contract == "") ≡ false
      → given_or w rand contract draw e ≡ some (contract, e)
  unfolding given_or
  given contract draw e named = ground arith

  drawn :
      (draw : ℕ → Option String) (e : Env)
      → draw (rand e.drawn) ≡ none
      → given_or w rand "" draw e ≡ none
  unfolding given_or
  drawn draw e h = ap (λ m. m >>= λ x. some (x, record e { drawn = e.drawn + 1 })) h

  gen_transaction-panics :
      (contract : String) (c : Contract) (b : Backend S) (e : Env)
      → lookup contract b.deployed_contracts ≡ some c
      → c.methods ≡ []
      → (contract == "") ≡ false
      → gen_transaction w rand (some (fallback_hint contract)) b e ≡ none
  unfolding gen_transaction
  gen_transaction-panics contract c b e deployed empty named =
      >>=-some _ (given contract _ e named) (
        >>=-none _ (
          drawn (λ r. get_random_method r contract b) e
            (get_random_method-panics (rand e.drawn) contract c b deployed empty)))

gen_timestamp-deployed :
    {S : Type 0} (now : ℕ) (snapshot : Option S) (b b' : Backend S) (a a' : ArgPool) (t : Option ℤ)
    → gen_timestamp now snapshot b a ≡ some (t, b', a')
    → b'.deployed_contracts ≡ b.deployed_contracts
unfolding gen_timestamp revert_backend
gen_timestamp-deployed now snapshot b b' a a' t h = ground arith

module _ {S : Type 0} (u : Setup S) where
  attempt-panics :
      (contract : String) (c : Contract) (s : Session S)
      → lookup contract s.backend.deployed_contracts ≡ some c
      → c.methods ≡ []
      → (contract == "") ≡ false
      → attempt u (record s { hint = fallback_hint contract }) ≡ none
  unfolding attempt
  attempt-panics contract c s deployed empty named =
      elim (Option-cases
        (gen_timestamp (u.clock s.backend.tx_count) u.snapshot s.backend s.env.pool)) [
          | inl stuck ↦ >>=-none _ stuck
          | inr ((t, b, a), timed) ↦ >>=-some _ timed (
              >>=-none _ (
                gen_transaction-panics u.world u.rand contract c b (record s.env { pool = a })
                  (ap (lookup contract) (
                      gen_timestamp-deployed (u.clock s.backend.tx_count) u.snapshot s.backend b
                        s.env.pool a t timed)
                    ∙ deployed)
                  empty named))
        ]

  -- If a deployed contract has a name that is not empty and no methods, the fuzzer panics in its
  -- first transaction to it, whatever the settings: the hint asks for the fallback, but a method is
  -- drawn before that is looked at, by a remainder by zero.
  pub corner_case-panics :
      (contract : String) (c : Contract) (s : Session S)
      → lookup contract s.backend.deployed_contracts ≡ some c
      → c.methods ≡ []
      → (contract == "") ≡ false
      → corner_case u contract s ≡ panics
  unfolding corner_case rec
  corner_case-panics contract c s deployed empty named =
      rw (attempt-panics contract c s deployed empty named) refl
