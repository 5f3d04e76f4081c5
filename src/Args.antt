-- ===== src/Args.antt =====
-- Arguments for the calls (utils/args.go): values for the types of an ABI are taken from the argument
-- pool, values that calls return are put into it, and the pool is filled at the start.
pub mod Typing
pub mod Harvest
pub mod Booleans
pub mod Draws
pub mod Init
pub mod Keeps
pub mod Powers
pub mod Refill
use Prim.Native.Nat.{bit_and}
use chain_fuzz.Prelude.{
  ℕ, zero, suc, ◌+◌, ◌-◌, ◌*◌, ◌%◌, ◌^◌, Bool, true, false, Option, none, some, String, List, [],
  ◌∷◌, ◌>>=◌, ltb, leb, if◌then◌else◌,
}
use chain_fuzz.Prelude.Int.{ℤ, pos}
use chain_fuzz.TypedPools.{Iface}
use chain_fuzz.ArgPool.{
  ArgPool, add_int64, add_int32, add_int16, add_int8, add_bytes32, add_string, add_address,
  add_big_int, next_int64, next_int32, next_int16, next_int8, next_bytes32, next_string,
  next_address, next_big_int,
}
use chain_fuzz.Values.{
  GoType, int8, uint8, int16, uint16, int32, uint32, int64, uint64, address, big_int, bool, string,
  other, array, slice, is_bytes32, Value, int8_val, uint8_val, int16_val, uint16_val, int32_val,
  uint32_val, int64_val, uint64_val, address_val, big_int_val, bool_val, string_val, other_val,
  array_val, slice_val, Values, nil, cons, type_of, byte_values, bytes_of, length_values,
}

-- The argument pool, and how many random numbers have been drawn.
pub record Env : Type 0 where
  pub pool : ArgPool
  pub drawn : ℕ

-- A computation that may draw from both; `none` is a panic.
abbrev pub M : Type 0 → Type 0
M A = Env → Option (A × Env)

abbrev pub from_pool : {A B : Type 0} → (ArgPool → Option (A × ArgPool)) → (A → B) → M B
from_pool next f e = do (x, p) ← next e.pool; some (f x, record e { pool = p })

-- `for i := 0; i < n; i++ { val := body() … }`
unfoldable pub times : ℕ → M Value → M Values
times zero body e = some (nil, e)
times (suc n) body e = do (v, e₁) ← body e; (vs, e₂) ← times n body e₁; some (cons v vs, e₂)

-- `rand` gives the results of `rand.Int()` in turn.
module _ (rand : ℕ → ℕ) where
  -- The Boolean drawn is thrown away: both branches return `false`.
  abbrev pub fill_bool : M Value
  fill_bool e = some (bool_val false, record e { drawn = e.drawn + 1 })

  abbrev pub slice_length : ℕ → ℕ
  slice_length i = bit_and (rand i) 15 + 1

  unfoldable pub fill_recursively : GoType → M Value
  unfolding times
  fill_recursively int8 = from_pool next_int8 int8_val
  fill_recursively uint8 = from_pool next_int8 uint8_val
  fill_recursively int16 = from_pool next_int16 int16_val
  fill_recursively uint16 = from_pool next_int16 uint16_val
  fill_recursively int32 = from_pool next_int32 int32_val
  fill_recursively uint32 = from_pool next_int32 uint32_val
  fill_recursively int64 = from_pool next_int64 int64_val
  fill_recursively uint64 = from_pool next_int64 uint64_val
  fill_recursively address = from_pool next_address address_val
  fill_recursively string = from_pool next_string string_val
  fill_recursively bool = fill_bool
  fill_recursively big_int = from_pool next_big_int big_int_val
  fill_recursively (array n t) =
      let elements = fill_recursively t in
      if is_bytes32 (array n t)
      then from_pool next_bytes32 (λ bs. array_val uint8 (byte_values bs))
      else λ e. (do (vs, e') ← times n elements e; some (array_val t vs, e'))
  fill_recursively (slice t) = λ e. (do
    (vs, e') ← times (slice_length e.drawn) (fill_recursively t) (record e { drawn = e.drawn + 1 })
    some (slice_val t vs, e'))
  fill_recursively other = λ e. none

  -- One value for each argument of the method, in their order.
  unfoldable pub construct_args : List GoType → M (List Value)
  construct_args [] e = some ([], e)
  construct_args (t ∷ ts) e = do
    (v, e₁) ← fill_recursively t e
    (vs, e₂) ← construct_args ts e₁
    some (v ∷ vs, e₂)

-- The new values of a value that a call has returned. `int16(val.Uint())` and its like keep the bits.
module _ (sprint : Iface → String) where
  mutual
    pub update_recursively : Value → ArgPool → ArgPool
    update_recursively (int8_val _) a = a
    update_recursively (uint8_val _) a = a
    update_recursively (bool_val _) a = a
    update_recursively (int16_val x) a = add_int16 x a
    update_recursively (uint16_val x) a = add_int16 x a
    update_recursively (int32_val x) a = add_int32 x a
    update_recursively (uint32_val x) a = add_int32 x a
    update_recursively (int64_val x) a = add_int64 x a
    update_recursively (uint64_val x) a = add_int64 x a
    update_recursively (big_int_val x) a = add_big_int sprint x a
    update_recursively (address_val x) a = add_address sprint x a
    update_recursively (string_val x) a = add_string x a
    update_recursively (array_val t vs) a =
        let elements = update_elements vs a in
        if is_bytes32 (array (length_values vs) t) then add_bytes32 (bytes_of vs) a else elements
    update_recursively (slice_val t vs) a = update_elements vs a
    update_recursively other_val a = a

    pub update_elements : Values → ArgPool → ArgPool
    update_elements nil a = a
    update_elements (cons v vs) a = update_elements vs (update_recursively v a)

  pub update_all : List Value → ArgPool → ArgPool
  update_all [] a = a
  update_all (v ∷ vs) a = update_all vs (update_recursively v a)

  -- `UnpackValues` of go-ethereum turns the output into values: those that it returns, also beside
  -- an error, which is only logged.
  pub update_pool : (List ℕ → List Value) → List ℕ → ArgPool → ArgPool
  update_pool unpack output a = update_all (unpack output) a

-- An account as far as the argument pool uses it: its address and its amount.
abbrev pub Funds : Type 0
Funds = ℕ × ℤ

module _ (sprint : Iface → String) (rand : ℕ → ℕ) where
  -- `for i := int64(1); i < 1E18; i = i * 2`, with fuel for the rounds.
  pub add_powers : ℕ → ℕ → ArgPool → ArgPool
  add_powers zero i a = a
  add_powers (suc fuel) i a =
      let a₁ = if leb i (2 ^ 31 - 1) then add_int32 i a else a in
      let a₂ = if leb i (2 ^ 15 - 1) then add_int16 i a₁ else a₁ in
      let a₃ = add_int64 i (add_big_int sprint (pos i) a₂) in
      let rest = add_powers fuel (i * 2 % 2 ^ 64) a₃ in if ltb i (10 ^ 18) then rest else a

  -- `byte(rand.Int() % 256)`, 32 times from the `d`-th random number on.
  pub random_bytes : ℕ → ℕ → List ℕ
  random_bytes zero d = []
  random_bytes (suc n) d = (rand d % 256) ∷ random_bytes n (d + 1)

  pub add_random_bytes32 : ℕ → Env → Env
  unfolding random_bytes
  add_random_bytes32 zero e = e
  add_random_bytes32 (suc n) e =
      add_random_bytes32 n
        (record { pool = add_bytes32 (random_bytes 32 e.drawn) e.pool; drawn = e.drawn + 32 })

  -- `for i := 0; i < 256; i++`, from `i` for `n` rounds.
  pub add_small_ints : ℕ → ℕ → ArgPool → ArgPool
  add_small_ints zero i a = a
  add_small_ints (suc n) i a =
      add_small_ints n (i + 1) (add_int64 i (add_int32 i (add_int16 i (add_int8 (i % 2 ^ 8) a))))

  pub add_accounts : List Funds → ArgPool → ArgPool
  add_accounts [] a = a
  add_accounts ((account, amount) ∷ rest) a =
      add_accounts rest (add_big_int sprint amount (add_address sprint account a))

  -- The accounts of the metadata file are the argument.
  pub init_arg_pool : List Funds → Env → Env
  unfolding add_powers add_random_bytes32 add_small_ints add_accounts
  init_arg_pool accounts e =
      let a₁ = add_int64 (2 ^ 64 - 1) (add_big_int sprint (pos 0) e.pool) in
      let e₂ = add_random_bytes32 10 (record e { pool = add_powers 61 1 a₁ }) in
      let a₃ = add_small_ints 256 0 (add_string "ChainSecurity" e₂.pool) in
      record e₂ { pool = add_accounts accounts a₃ }
