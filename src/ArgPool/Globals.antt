-- ===== src/ArgPool/Globals.antt =====
-- The package variables of argpool: `argPool`, the one argument pool (argpool/argpool.go), and
-- `pools`, the registry of pools of `interface{}` values (argpool/pool.go).
-- The argument pool holds pointers into the registry, so what it writes to its pools of addresses
-- and of big integers stands in the registry too: `write` is a write through those pointers.
use chain_fuzz.Prelude.{◌≡◌, ◌∙◌, Option, none, some, String, string_eq}
use chain_fuzz.Prelude.Dict.{Dict, lookup, insert, lookup-insert}
use chain_fuzz.Pool
use chain_fuzz.Pool.{Pool}
use chain_fuzz.TypedPools.{
  Iface, int8_pool, int16_pool, int32_pool, int64_pool, bytes32_pool, string_pool,
}
use chain_fuzz.Timestamps
use chain_fuzz.ArgPool.{ArgPool}

abbrev pub Registry : Type 0
Registry = Dict String (Pool String Iface)

pub record Globals : Type 0 where
  pub arg_pool : Option ArgPool
  pub pools : Registry

-- `GetPool`: the registered pool, a new one the first time.
unfoldable pub get_pool : String → Registry → Pool String Iface × Registry
get_pool id pools = elim (lookup id pools) [
  | none ↦ (Pool.empty, insert id Pool.empty pools)
  | some p ↦ (p, pools)
]

-- The pool that `GetArgPool` makes, around the two pools of the registry.
abbrev pub new_arg_pool : Pool String Iface → Pool String Iface → ArgPool
new_arg_pool addresses big_ints = record {
  int8s = int8_pool.fresh;
  int16s = int16_pool.fresh;
  int32s = int32_pool.fresh;
  int64s = int64_pool.fresh;
  bytes32s = bytes32_pool.fresh;
  addresses = addresses;
  big_ints = big_ints;
  strings = string_pool.fresh;
  timestamps = Timestamps.get_timestamp_pool;
}

unfoldable pub get_arg_pool : Globals → ArgPool × Globals
get_arg_pool g = elim g.arg_pool [
  | some a ↦ (a, g)
  | none ↦
      let (addresses, pools₁) = get_pool "Address" g.pools in
      let (big_ints, pools₂) = get_pool "BigInt" pools₁ in
      let a : ArgPool = new_arg_pool addresses big_ints in
      (a, record { arg_pool = some a; pools = pools₂ })
]

unfoldable pub reset_arg_pool : Globals → Globals
reset_arg_pool g = record g { arg_pool = none }

-- The globals after the client has changed the argument pool through its pointer.
abbrev pub write : ArgPool → Globals → Globals
write a g = record {
  arg_pool = some a;
  pools = insert "Address" a.addresses (insert "BigInt" a.big_ints g.pools);
}

get_pool_known :
    (id : String) (p : Pool String Iface) (pools : Registry)
    → lookup id pools ≡ some p
    → get_pool id pools ≡ (p, pools)
unfolding get_pool
get_pool_known id p pools h = rw (h, get_pool)

-- After `ResetArgPool` the next argument pool has empty pools of machine integers, of `bytes32`, of
-- texts and of timestamps, but its pools of addresses and of big integers are the old ones, with
-- their items and indices.
pub reset_keeps_registered :
    (g : Globals) (a : ArgPool)
    → (get_arg_pool (reset_arg_pool (write a g))).0 ≡ new_arg_pool a.addresses a.big_ints
unfolding get_arg_pool reset_arg_pool
reset_keeps_registered g a = rw (
  get_pool_known "Address" a.addresses (write a g).pools
      (lookup-insert "Address" "Address" a.addresses (insert "BigInt" a.big_ints g.pools)),
  get_pool_known "BigInt" a.big_ints (write a g).pools (
      lookup-insert "Address" "BigInt" a.addresses (insert "BigInt" a.big_ints g.pools)
      ∙ lookup-insert "BigInt" "BigInt" a.big_ints g.pools),
)
