-- ===== src/Args/Typing.antt =====
-- The types of the values that `fillRecursively` and `ConstructArgs` make (utils/args.go).
use chain_fuzz.Prelude.{
  ℕ, zero, suc, ◌+◌, ◌≡◌, refl, sym, ap, ap₂, All, ◌∙◌, true, false, Option, some, String, List, [],
  ◌∷◌, map, Bool-cases, inl, inr, arith, length, >>=-some,
}
use chain_fuzz.Values.{
  GoType, int8, uint8, int16, uint16, int32, uint32, int64, uint64, address, big_int, bool, string,
  other, array, slice, is_bytes32, Value, int8_val, uint8_val, int16_val, uint16_val, int32_val,
  uint32_val, int64_val, uint64_val, address_val, big_int_val, bool_val, string_val, array_val,
  slice_val, Values, nil, cons, type_of, byte_values, length_values,
}
use chain_fuzz.TypedPools.{Iface}
use chain_fuzz.Pool
use chain_fuzz.ArgPool.{
  ArgPool, next_int8, next_int16, next_int32, next_int64, next_string, next_address, next_big_int,
}
use chain_fuzz.ArgPool.Valid
use chain_fuzz.ArgPool.Sessions.{IsReady, kept}
use chain_fuzz.Args.{Env, M, from_pool, times, fill_recursively, construct_args, slice_length}

-- The elements of the arrays and slices inside a value have the element type, at every depth.
abbrev mutual
  pub IsWellTyped : Value → Type 0
  IsWellTyped (array_val t vs) = AllOf t vs
  IsWellTyped (slice_val t vs) = AllOf t vs
  IsWellTyped _ = Unit

  pub AllOf : GoType → Values → Type 0
  AllOf t nil = Unit
  AllOf t (cons v vs) = (type_of v ≡ t) × IsWellTyped v × AllOf t vs

-- No part of the type is unknown to the program.
abbrev pub IsKnown : GoType → Type 0
IsKnown other = ⊥
IsKnown (array n t) = IsKnown t
IsKnown (slice t) = IsKnown t
IsKnown _ = Unit

-- A run that ends in a value of the type, with the argument pool ready for more.
abbrev pub Yields : (Iface → String) → GoType → Option (Value × Env) → Type 0
Yields sprint t r =
    (v : Value) × (e : Env) × (r ≡ some (v, e))
    × (type_of v ≡ t)
    × IsWellTyped v
    × IsReady sprint e.pool

pub is_bytes32-array : (n : ℕ) (t : GoType) → is_bytes32 (array n t) ≡ true → (n ≡ 32) × (t ≡ uint8)
is_bytes32-array n uint8 h = (ground arith, refl)
is_bytes32-array n int8 h = cc
is_bytes32-array n int16 h = cc
is_bytes32-array n uint16 h = cc
is_bytes32-array n int32 h = cc
is_bytes32-array n uint32 h = cc
is_bytes32-array n int64 h = cc
is_bytes32-array n uint64 h = cc
is_bytes32-array n address h = cc
is_bytes32-array n big_int h = cc
is_bytes32-array n bool h = cc
is_bytes32-array n string h = cc
is_bytes32-array n other h = cc
is_bytes32-array n (array m t) h = cc
is_bytes32-array n (slice t) h = cc

length-byte_values : (bs : List ℕ) → length_values (byte_values bs) ≡ length bs
length-byte_values [] = refl
length-byte_values (b ∷ bs) = ap suc (length-byte_values bs)

byte_values-AllOf : (bs : List ℕ) → AllOf uint8 (byte_values bs)
byte_values-AllOf [] = tt
byte_values-AllOf (b ∷ bs) = (refl, tt, byte_values-AllOf bs)

module _ (sprint : Iface → String) where
  -- A body that yields a value of the type, `n` times over.
  times-Yields :
      (t : GoType) (body : M Value)
      → ((e : Env) → IsReady sprint e.pool → Yields sprint t (body e))
      → (n : ℕ) (e : Env) → IsReady sprint e.pool
      → (vs : Values) × (e' : Env) × (times n body e ≡ some (vs, e'))
        × (length_values vs ≡ n)
        × AllOf t vs
        × IsReady sprint e'.pool
  unfolding times
  times-Yields t body each zero e r = (nil, e, refl, refl, tt, r)
  times-Yields t body each (suc n) e r =
      let (v, e₁, eq, typed, well, r₁) = each e r in
      let (vs, e₂, eq₂, len, all, r₂) = times-Yields t body each n e₁ r₁ in
      (cons v vs, e₂, rw (eq, eq₂), ap suc len, (typed, well, all), r₂)

  -- One value of a pool, wrapped.
  from_pool-Yields :
      {A : Type 0} (t : GoType) (e : Env) (next : ArgPool → Option (A × ArgPool)) (f : A → Value)
      (x : A × ArgPool)
      → next e.pool ≡ some x
      → type_of (f x.0) ≡ t
      → IsWellTyped (f x.0)
      → IsReady sprint x.1
      → Yields sprint t (from_pool next f e)
  from_pool-Yields t e next f x eq typed well r =
      (f x.0, record e { pool = x.1 }, >>=-some _ eq refl, typed, well, r)

module _ (sprint : Iface → String) (rand : ℕ → ℕ) where
  -- From a ready argument pool a value is made for every type that the program knows: there is no
  -- panic, the value has that type at every depth, and the pool stays ready.
  pub fill_recursively-Yields :
      (t : GoType) (e : Env)
      → IsKnown t
      → IsReady sprint e.pool
      → Yields sprint t (fill_recursively rand t e)
  unfolding fill_recursively
  fill_recursively-Yields int8 e known r =
      let (x, eq, valid, h, k) = Valid.next_int8-IsValid sprint r.valid in
      from_pool-Yields sprint int8 e next_int8 int8_val x eq refl tt
        (kept r valid (ap Pool.size h) (ap Pool.size k))
  fill_recursively-Yields uint8 e known r =
      let (x, eq, valid, h, k) = Valid.next_int8-IsValid sprint r.valid in
      from_pool-Yields sprint uint8 e next_int8 uint8_val x eq refl tt
        (kept r valid (ap Pool.size h) (ap Pool.size k))
  fill_recursively-Yields int16 e known r =
      let (x, eq, valid, h, k) = Valid.next_int16-IsValid sprint r.valid in
      from_pool-Yields sprint int16 e next_int16 int16_val x eq refl tt
        (kept r valid (ap Pool.size h) (ap Pool.size k))
  fill_recursively-Yields uint16 e known r =
      let (x, eq, valid, h, k) = Valid.next_int16-IsValid sprint r.valid in
      from_pool-Yields sprint uint16 e next_int16 uint16_val x eq refl tt
        (kept r valid (ap Pool.size h) (ap Pool.size k))
  fill_recursively-Yields int32 e known r =
      let (x, eq, valid, h, k) = Valid.next_int32-IsValid sprint r.valid in
      from_pool-Yields sprint int32 e next_int32 int32_val x eq refl tt
        (kept r valid (ap Pool.size h) (ap Pool.size k))
  fill_recursively-Yields uint32 e known r =
      let (x, eq, valid, h, k) = Valid.next_int32-IsValid sprint r.valid in
      from_pool-Yields sprint uint32 e next_int32 uint32_val x eq refl tt
        (kept r valid (ap Pool.size h) (ap Pool.size k))
  fill_recursively-Yields int64 e known r =
      let (x, eq, valid, h, k) = Valid.next_int64-IsValid sprint r.valid in
      from_pool-Yields sprint int64 e next_int64 int64_val x eq refl tt
        (kept r valid (ap Pool.size h) (ap Pool.size k))
  fill_recursively-Yields uint64 e known r =
      let (x, eq, valid, h, k) = Valid.next_int64-IsValid sprint r.valid in
      from_pool-Yields sprint uint64 e next_int64 uint64_val x eq refl tt
        (kept r valid (ap Pool.size h) (ap Pool.size k))
  fill_recursively-Yields string e known r =
      let (x, eq, valid, h, k) = Valid.next_string-IsValid sprint r.valid in
      from_pool-Yields sprint string e next_string string_val x eq refl tt
        (kept r valid (ap Pool.size h) (ap Pool.size k))
  fill_recursively-Yields address e known r =
      let (x, eq, valid, h, k) = Valid.next_address-IsValid sprint r.valid r.some_address in
      from_pool-Yields sprint address e next_address address_val x eq refl tt
        (kept r valid (ap length h) (ap Pool.size k))
  fill_recursively-Yields big_int e known r =
      let (x, eq, valid, h, k) = Valid.next_big_int-IsValid sprint r.valid r.some_big_int in
      from_pool-Yields sprint big_int e next_big_int big_int_val x eq refl tt
        (kept r valid (ap Pool.size k) (ap length h))
  fill_recursively-Yields bool e known r =
      (bool_val false, record e { drawn = e.drawn + 1 }, refl, refl, tt, r)
  fill_recursively-Yields other e known r = absurd known
  fill_recursively-Yields (slice t) e known r =
      let (vs, e', eq, _, all, r') =
        times-Yields sprint t (fill_recursively rand t) (λ e r. fill_recursively-Yields t e known r)
          (slice_length rand e.drawn) (record e { drawn = e.drawn + 1 }) r in
      (slice_val t vs, e', rw eq, refl, all, r')
  fill_recursively-Yields (array n t) e known r = elim (Bool-cases (is_bytes32 (array n t))) [
    | inl bytes32 ↦
        let (x, eq, valid, h, k, wide) = Valid.next_bytes32-IsValid sprint r.valid in
        let (n32, t8) = is_bytes32-array n t bytes32 in
        (
          array_val uint8 (byte_values x.0),
          record e { pool = x.1 },
          rw (bytes32, eq),
          ap₂ array (length-byte_values x.0 ∙ wide ∙ sym n32) (sym t8),
          byte_values-AllOf x.0,
          kept r valid (ap Pool.size h) (ap Pool.size k),
        )
    | inr elements ↦
        let (vs, e', eq, len, all, r') =
          times-Yields sprint t (fill_recursively rand t)
            (λ e r. fill_recursively-Yields t e known r) n e r in
        (array_val t vs, e', rw (elements, eq), ap (λ k. array k t) len, all, r')
  ]

  -- From a ready argument pool `ConstructArgs` makes, for types that the program knows, one
  -- value for each argument, in order and of its type at every depth, without a panic; the pool
  -- stays ready.
  pub construct_args-typed :
      (ts : List GoType) (e : Env)
      → All IsKnown ts
      → IsReady sprint e.pool
      → (vs : List Value) × (e' : Env) × (construct_args rand ts e ≡ some (vs, e'))
        × (map type_of vs ≡ ts)
        × All IsWellTyped vs
        × IsReady sprint e'.pool
  unfolding construct_args
  construct_args-typed [] e known r = ([], e, refl, refl, tt, r)
  construct_args-typed (t ∷ ts) e known r =
      let (v, e₁, eq, typed, well, r₁) = fill_recursively-Yields t e known.0 r in
      let (vs, e₂, eq₂, types, wells, r₂) = construct_args-typed ts e₁ known.1 r₁ in
      (v ∷ vs, e₂, rw (eq, eq₂), ap₂ ◌∷◌ typed types, (well, wells), r₂)
