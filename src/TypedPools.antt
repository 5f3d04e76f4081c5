-- ===== src/TypedPools.antt =====
-- The pools of one type each: argpool/int8pool.go, int16pool.go, int32pool.go, int64pool.go,
-- bytes32pool.go and stringpool.go repeat the code of argpool/pool.go with the stored value itself
-- as its key; pool.go keys an `interface{}` by the text that `fmt.Sprintf` prints.
pub mod Unique
use chain_fuzz.Prelude.{
  ℕ, if◌then◌else◌, Bool, Option, String, List, Eq, nat_eq, string_eq, list_eq, replicate,
}
use chain_fuzz.Prelude.Int.{ℤ}
use chain_fuzz.Pool
use chain_fuzz.Pool.{Pool}

-- The methods of a pool, and its constructor.
pub record PoolOps (K A : Type 0) : Type 0 where
  pub fresh : Pool K A
  pub add : A → Pool K A → Pool K A
  pub next : Pool K A → Option (A × Pool K A)
  pub contains : A → Pool K A → Bool
  pub size : Pool K A → ℕ

-- `if !pool.Contains(item) { pool.Add(item) }`, the guard of the `Add` methods of argpool.go.
abbrev pub add_new : {K A : Type 0} → PoolOps K A → A → Pool K A → Pool K A
add_new ops item p = if ops.contains item p then p else ops.add item p

abbrev pub pool_of : {K A : Type 0} ⦃e : Eq K⦄ → (A → K) → A → PoolOps K A
pool_of key zero_value = record {
  fresh = Pool.empty;
  add = Pool.add key;
  next = Pool.next zero_value;
  contains = Pool.contains_item key;
  size = Pool.size;
}

-- A machine integer is its bit pattern, so the signed and the unsigned type of one width agree.
abbrev pub int8_pool : PoolOps ℕ ℕ
int8_pool = pool_of (λ x. x) 0

abbrev pub int16_pool : PoolOps ℕ ℕ
int16_pool = pool_of (λ x. x) 0

abbrev pub int32_pool : PoolOps ℕ ℕ
int32_pool = pool_of (λ x. x) 0

abbrev pub int64_pool : PoolOps ℕ ℕ
int64_pool = pool_of (λ x. x) 0

-- `[32]byte{}` is 32 zeros.
abbrev pub bytes32_pool : PoolOps (List ℕ) (List ℕ)
bytes32_pool = pool_of (λ x. x) (replicate 32 0)

abbrev pub string_pool : PoolOps String String
string_pool = pool_of (λ x. x) ""

-- The values that the program stores under `interface{}`. An address is a number of 160 bits.
pub data Iface : Type 0 where
  nil : Iface
  address : ℕ → Iface
  big_int : ℤ → Iface

-- `fmt.Sprintf("%v", item)` prints an address by go-ethereum's own `Format`: it is a parameter.
abbrev pub iface_pool : (Iface → String) → PoolOps String Iface
iface_pool sprint = pool_of sprint nil
