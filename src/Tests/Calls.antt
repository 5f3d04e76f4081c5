-- ===== src/Tests/Calls.antt =====
-- Arguments taken from, and results put into, a concrete argument pool.
use chain_fuzz.Prelude.{
  nat_eq, ◌≡◌, refl, true, false, some, String, List, [], ◌∷◌, All, map, arith, string_eq,
}
use chain_fuzz.Prelude.Int.{pos}
use chain_fuzz.Pool
use chain_fuzz.TypedPools.{Iface}
use chain_fuzz.ArgPool.{ArgPool}
use chain_fuzz.ArgPool.Globals.{new_arg_pool}
use chain_fuzz.ArgPool.Sessions.{Op, IsReady, run, run-IsReady}
use chain_fuzz.Values.{
  GoType, int16, uint8, uint16, address, big_int, bool, array, slice, Value, int16_val, int64_val,
  slice_val, bool_val, nil, cons, type_of,
}
use chain_fuzz.Args.{Env, Funds, fill_recursively, construct_args, update_pool, init_arg_pool}
use chain_fuzz.Args.{times}
use chain_fuzz.Args.Booleans.{HasNoTrue, construct_args-HasNoTrue}
use chain_fuzz.Args.Typing.{IsWellTyped, Yields, fill_recursively-Yields, construct_args-typed}
use chain_fuzz.Args.Harvest.{Width, has, has-update_pool}
use chain_fuzz.Args.Init.{fresh-IsValid, init_arg_pool-IsReady}

-- A text for each value, and random numbers.
abbrev print : Iface → String
print Iface.nil = "<nil>"
print (Iface.address x) = "0x2a"
print (Iface.big_int x) = "7"

abbrev fresh : ArgPool
fresh = new_arg_pool Pool.empty Pool.empty

abbrev start : Env
start = record { pool = fresh; drawn = 0 }

abbrev account : Funds
account = (42, pos 7)

abbrev filled : Env
filled = init_arg_pool print (λ i. i) (account ∷ []) start

init_arg_pool-IsReady_example : IsReady print filled.pool
init_arg_pool-IsReady_example =
    init_arg_pool-IsReady print (λ i. i) account [] start (fresh-IsValid print)

filled-IsReady : IsReady print filled.pool
filled-IsReady = init_arg_pool-IsReady print (λ i. i) account [] start (fresh-IsValid print)

abbrev session : List Op
session =
    Op.put_int8 5
    ∷ Op.get_int8
    ∷ Op.put_timestamp 1600000000
    ∷ Op.get_timestamp
    ∷ Op.get_current_timestamp
    ∷ Op.get_address
    ∷ []

run-IsReady_example :
    (a' : ArgPool) × (run print 1700000000 session filled.pool ≡ some a') × IsReady print a'
run-IsReady_example =
    run-IsReady print 1700000000 session (tt, (tt, (omega arith, (tt, (tt, (tt, tt))))))
      filled-IsReady

-- `uint16[2][]`
fill_recursively-Yields_example :
    Yields print
      (slice (array 2 uint16))
      (fill_recursively (λ i. i) (slice (array 2 uint16)) filled)
fill_recursively-Yields_example =
    fill_recursively-Yields print (λ i. i) (slice (array 2 uint16)) filled tt filled-IsReady

abbrev signature : List GoType
signature = address ∷ array 32 uint8 ∷ slice big_int ∷ bool ∷ []

construct_args-typed_example :
    (vs : List Value) × (e' : Env) × (construct_args (λ i. i) signature filled ≡ some (vs, e'))
    × (map type_of vs ≡ signature)
    × All IsWellTyped vs
    × IsReady print e'.pool
construct_args-typed_example =
    construct_args-typed print (λ i. i) signature filled (tt, (tt, (tt, (tt, tt)))) filled-IsReady

-- An output that is unpacked into `int16[]` of 3 and 4, and an `int64`.
abbrev returned : List Value
returned = slice_val int16 (cons (int16_val 3) (cons (int16_val 4) nil)) ∷ int64_val 9 ∷ []

has-update_pool_example :
    has Width.w16 4 (update_pool print (λ output. returned) (0 ∷ []) fresh) ≡ true
has-update_pool_example = has-update_pool print Width.w16 4 (λ output. returned) (0 ∷ []) fresh

-- `bool` and `bool[]`
construct_args-HasNoTrue_example :
    All HasNoTrue
      (bool_val false ∷ slice_val bool (cons (bool_val false) (cons (bool_val false) nil)) ∷ [])
construct_args-HasNoTrue_example =
    construct_args-HasNoTrue (λ i. i) (bool ∷ slice bool ∷ []) start (record start { drawn = 4 })
      (bool_val false ∷ slice_val bool (cons (bool_val false) (cons (bool_val false) nil)) ∷ [])
      (unfold construct_args fill_recursively times in refl)
