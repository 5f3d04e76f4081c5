-- ===== src/Args/Init.antt =====
-- The argument pool that `InitArgPool` (utils/args.go) leaves.
use chain_fuzz.Prelude.{
  ℕ, zero, suc, ◌+◌, ◌*◌, ◌-◌, ◌%◌, ◌^◌, ◌<◌, ◌≡◌, refl, sym, ap, ◌∙◌, Bool, true, false, String,
  List, [], ◌∷◌, map, length, length-append, elem, if◌then◌else◌, arith, leb, ltb, nat_eq,
  string_eq, list_eq, Bool-cases, inl, inr,
}
use chain_fuzz.Prelude.Int.{ℤ, pos}
use chain_fuzz.Prelude.Dict.{contains}
use chain_fuzz.Pool
use chain_fuzz.Pool.{Pool}
use chain_fuzz.Pool.Valid.{IsValid as IsValidPool}
use chain_fuzz.TypedPools.{Iface, iface_pool, add_new}
use chain_fuzz.TypedPools.Unique.{empty-IsDistinct}
use chain_fuzz.Timestamps
use chain_fuzz.ArgPool.{
  ArgPool, add_int64, add_int32, add_int16, add_int8, add_bytes32, add_string, add_address,
  add_big_int,
}
use chain_fuzz.ArgPool.Valid
use chain_fuzz.ArgPool.Valid.{IsValid, IsBytes32}
use chain_fuzz.ArgPool.Sessions.{IsReady}
use chain_fuzz.ArgPool.Globals.{new_arg_pool}
use chain_fuzz.Args.{
  Env, Funds, add_powers, random_bytes, add_random_bytes32, add_small_ints, add_accounts,
  init_arg_pool,
}

-- The argument pool around two empty pools of the registry.
pub fresh-IsValid : (sprint : Iface → String) → IsValid sprint (new_arg_pool Pool.empty Pool.empty)
unfolding Timestamps.contains_item
fresh-IsValid sprint = record {
  int8s = empty-IsDistinct (λ x. x);
  int16s = empty-IsDistinct (λ x. x);
  int32s = empty-IsDistinct (λ x. x);
  int64s = empty-IsDistinct (λ x. x);
  bytes32s = empty-IsDistinct ⦃e = list_eq⦄ (λ x. x);
  addresses = empty-IsDistinct sprint;
  big_ints = empty-IsDistinct sprint;
  strings = empty-IsDistinct (λ x. x);
  timestamps = record {
    in_range = inr (refl, refl);
    times = tt;
    ascending = tt;
    agrees = λ k h. refl;
  };
  all_addresses = tt;
  all_big_ints = tt;
  all_wide = tt;
}

length-random_bytes :
    (sprint : Iface → String) (rand : ℕ → ℕ) (n d : ℕ) → length (random_bytes sprint rand n d) ≡ n
unfolding random_bytes
length-random_bytes sprint rand zero d = refl
length-random_bytes sprint rand (suc n) d = ap suc (length-random_bytes sprint rand n (d + 1))

something :
    (sprint : Iface → String) (k : String) (xs : List Iface)
    → elem k (map sprint xs) ≡ true
    → 0 < length xs
something sprint k [] h = cc
something sprint k (x ∷ xs) h = omega arith

-- The guarded `Add` leaves a pool that holds something, also where it adds nothing.
size-added :
    (sprint : Iface → String) (item : Iface) (p : Pool String Iface)
    → IsValidPool sprint p
    → 0 < Pool.size (add_new (iface_pool sprint) item p)
unfolding Pool.add Pool.contains_item
size-added sprint item p v = elim (Bool-cases (contains (sprint item) p.storage_map)) [
  | inl there ↦
      rw there (something sprint (sprint item) p.storage (sym (v.agrees (sprint item)) ∙ there))
  | inr new ↦ rw new (omega (arith, length-append p.storage (item ∷ [])))
]

module _ (sprint : Iface → String) where
  -- Valid, with a big integer to hand out.
  record HasInt (a : ArgPool) : Type 0 where
    valid : IsValid sprint a
    some_big_int : 0 < Pool.size a.big_ints

  HasInt-if : (b : Bool) {a a' : ArgPool} → HasInt a → HasInt a' → HasInt (if b then a else a')
  HasInt-if true h k = h
  HasInt-if false h k = k

  with_int64 : (x : ℕ) {a : ArgPool} → HasInt a → HasInt (add_int64 x a)
  with_int64 x h = record {
    valid = Valid.add_int64-IsValid sprint h.valid x;
    some_big_int = unfold add_int64 in h.some_big_int;
  }

  with_int32 : (x : ℕ) {a : ArgPool} → HasInt a → HasInt (add_int32 x a)
  with_int32 x h = record {
    valid = Valid.add_int32-IsValid sprint h.valid x;
    some_big_int = unfold add_int32 in h.some_big_int;
  }

  with_int16 : (x : ℕ) {a : ArgPool} → HasInt a → HasInt (add_int16 x a)
  with_int16 x h = record {
    valid = Valid.add_int16-IsValid sprint h.valid x;
    some_big_int = unfold add_int16 in h.some_big_int;
  }

  with_int8 : (x : ℕ) {a : ArgPool} → HasInt a → HasInt (add_int8 x a)
  with_int8 x h = record {
    valid = Valid.add_int8-IsValid sprint h.valid x;
    some_big_int = unfold add_int8 in h.some_big_int;
  }

  with_bytes32 : (x : List ℕ) {a : ArgPool} → IsBytes32 x → HasInt a → HasInt (add_bytes32 x a)
  with_bytes32 x wide h = record {
    valid = Valid.add_bytes32-IsValid sprint h.valid x wide;
    some_big_int = unfold add_bytes32 in h.some_big_int;
  }

  with_string : (x : String) {a : ArgPool} → HasInt a → HasInt (add_string x a)
  with_string x h = record {
    valid = Valid.add_string-IsValid sprint h.valid x;
    some_big_int = unfold add_string in h.some_big_int;
  }

  with_big_int : (x : ℤ) {a : ArgPool} → IsValid sprint a → HasInt (add_big_int sprint x a)
  with_big_int x {a} v = record {
    valid = Valid.add_big_int-IsValid sprint v x;
    some_big_int =
        unfold add_big_int in size-added sprint (Iface.big_int x) a.big_ints v.big_ints.valid;
  }

  account-IsReady :
      (account : ℕ) (amount : ℤ) {a : ArgPool}
      → IsValid sprint a
      → IsReady sprint (add_big_int sprint amount (add_address sprint account a))
  account-IsReady account amount {a} v =
      let h = with_big_int amount (Valid.add_address-IsValid sprint v account) in
      record {
        valid = h.valid;
        some_address =
            unfold add_big_int add_address in
            size-added sprint (Iface.address account) a.addresses v.addresses.valid;
        some_big_int = h.some_big_int;
      }

module _ (sprint : Iface → String) (rand : ℕ → ℕ) where
  powers-HasInt :
      (fuel i : ℕ) {a : ArgPool} → HasInt sprint a → HasInt sprint (add_powers sprint rand fuel i a)
  unfolding add_powers
  powers-HasInt zero i h = h
  powers-HasInt (suc fuel) i h =
      let h₁ = HasInt-if sprint (leb i (2 ^ 31 - 1)) (with_int32 sprint i h) h in
      let h₂ = HasInt-if sprint (leb i (2 ^ 15 - 1)) (with_int16 sprint i h₁) h₁ in
      let h₃ = with_int64 sprint i (with_big_int sprint (pos i) h₂.valid) in
      HasInt-if sprint (ltb i (10 ^ 18)) (powers-HasInt fuel (i * 2 % 2 ^ 64) h₃) h

  random-HasInt :
      (n : ℕ) (e : Env)
      → HasInt sprint e.pool
      → HasInt sprint (add_random_bytes32 sprint rand n e).pool
  unfolding add_random_bytes32
  random-HasInt zero e h = h
  random-HasInt (suc n) e h =
      random-HasInt n
        (record {
          pool = add_bytes32 (random_bytes sprint rand 32 e.drawn) e.pool;
          drawn = e.drawn + 32;
        })
        (with_bytes32 sprint (random_bytes sprint rand 32 e.drawn)
          (length-random_bytes sprint rand 32 e.drawn) h)

  small-HasInt :
      (n i : ℕ) {a : ArgPool} → HasInt sprint a → HasInt sprint (add_small_ints sprint rand n i a)
  unfolding add_small_ints
  small-HasInt zero i h = h
  small-HasInt (suc n) i h = small-HasInt n (i + 1) (
      with_int64 sprint i
        (with_int32 sprint i (with_int16 sprint i (with_int8 sprint (i % 2 ^ 8) h))))

  accounts-IsReady :
      (accounts : List Funds) {a : ArgPool}
      → IsReady sprint a
      → IsReady sprint (add_accounts sprint rand accounts a)
  unfolding add_accounts
  accounts-IsReady [] r = r
  accounts-IsReady ((account, amount) ∷ rest) r =
      accounts-IsReady rest (account-IsReady sprint account amount r.valid)

  -- From a valid argument pool and at least one account `InitArgPool` leaves a valid pool with an
  -- address and a big integer to hand out.
  pub init_arg_pool-IsReady :
      (account : Funds) (accounts : List Funds) (e : Env)
      → IsValid sprint e.pool
      → IsReady sprint (init_arg_pool sprint rand (account ∷ accounts) e).pool
  unfolding init_arg_pool add_accounts
  init_arg_pool-IsReady (account, amount) accounts e v =
      let h₁ = with_int64 sprint (2 ^ 64 - 1) (with_big_int sprint (pos 0) v) in
      let h₂ =
        random-HasInt 10
          (record e {
            pool =
                add_powers sprint rand 61 1
                  (add_int64 (2 ^ 64 - 1) (add_big_int sprint (pos 0) e.pool));
          })
          (powers-HasInt 61 1 h₁) in
      let h₃ = small-HasInt 256 0 (with_string sprint "ChainSecurity" h₂) in
      accounts-IsReady accounts (account-IsReady sprint account amount h₃.valid)
