-- ===== src/Args/Draws.antt =====
-- A relation between the argument pool before and after, for all that `ConstructArgs` draws
-- (utils/args.go).
use chain_fuzz.Prelude.{
  ℕ, zero, suc, ◌+◌, ◌≡◌, subst, Option, some, List, [], ◌∷◌, >>=-eq-some, Bool-cases, inl, inr,
}
use mathlib.Core.Option.{some-injective}
use chain_fuzz.Values.{
  GoType, int8, uint8, int16, uint16, int32, uint32, int64, uint64, address, big_int, bool, string,
  other, array, slice, is_bytes32, Value, int8_val, uint8_val, int16_val, uint16_val, int32_val,
  uint32_val, int64_val, uint64_val, address_val, big_int_val, string_val, array_val, Values,
  byte_values,
}
use chain_fuzz.ArgPool.{
  ArgPool, next_int8, next_int16, next_int32, next_int64, next_string, next_address, next_big_int,
  next_bytes32,
}
use chain_fuzz.Args.{Env, M, from_pool, times, fill_recursively, construct_args, slice_length}

-- A draw from a pool, as a step of the relation.
abbrev pub Keeping :
    (ArgPool → ArgPool → Type 0) → {A : Type 0} → (ArgPool → Option (A × ArgPool)) → Type 0
Keeping R {A} next = (a a' : ArgPool) (x : A) → next a ≡ some (x, a') → R a a'

pub record Draws (R : ArgPool → ArgPool → Type 0) : Type 0 where
  pub int8s : Keeping R next_int8
  pub int16s : Keeping R next_int16
  pub int32s : Keeping R next_int32
  pub int64s : Keeping R next_int64
  pub strings : Keeping R next_string
  pub addresses : Keeping R next_address
  pub big_ints : Keeping R next_big_int
  pub bytes32s : Keeping R next_bytes32

module _ (R : ArgPool → ArgPool → Type 0) (still : (a : ArgPool) → R a a)
    (further : (a b c : ArgPool) → R a b → R b c → R a c) (draws : Draws R) (rand : ℕ → ℕ) where
  -- The pool after a run that has ended.
  ended :
      {A : Type 0} {v v' : A} {e e' : Env} {a : ArgPool}
      → ◌≡◌ {A = Option (A × Env)} (some (v, e)) (some (v', e'))
      → R a e.pool
      → R a e'.pool
  ended {A} {a = a} h s = subst (λ (p : A × Env). R a p.1.pool) (some-injective _ _ h) s

  wrapped :
      {A : Type 0} (next : ArgPool → Option (A × ArgPool)) (f : A → Value) (e e' : Env) (v : Value)
      → Keeping R next
      → from_pool next f e ≡ some (v, e')
      → R e.pool e'.pool
  wrapped next f e e' v keeps h =
      let ((x, a), drew, h₁) = >>=-eq-some (next e.pool) _ h in ended h₁ (keeps e.pool a x drew)

  times-keeps :
      (body : M Value)
      → ((e e' : Env) (v : Value) → body e ≡ some (v, e') → R e.pool e'.pool)
      → (n : ℕ) (e e' : Env) (vs : Values) → times n body e ≡ some (vs, e')
      → R e.pool e'.pool
  unfolding times
  times-keeps body each zero e e' vs h = ended h (still e.pool)
  times-keeps body each (suc n) e e' vs h =
      let ((v, e₁), first, h₁) = >>=-eq-some (body e) _ h in
      let ((rest, e₂), later, h₂) = >>=-eq-some (times n body e₁) _ h₁ in
      ended h₂ (further _ _ _ (each e e₁ v first) (times-keeps body each n e₁ e₂ rest later))

  fill_recursively-keeps :
      (t : GoType) (e e' : Env) (v : Value)
      → fill_recursively rand t e ≡ some (v, e')
      → R e.pool e'.pool
  unfolding fill_recursively
  fill_recursively-keeps int8 e e' v h = wrapped next_int8 int8_val e e' v draws.int8s h
  fill_recursively-keeps uint8 e e' v h = wrapped next_int8 uint8_val e e' v draws.int8s h
  fill_recursively-keeps int16 e e' v h = wrapped next_int16 int16_val e e' v draws.int16s h
  fill_recursively-keeps uint16 e e' v h = wrapped next_int16 uint16_val e e' v draws.int16s h
  fill_recursively-keeps int32 e e' v h = wrapped next_int32 int32_val e e' v draws.int32s h
  fill_recursively-keeps uint32 e e' v h = wrapped next_int32 uint32_val e e' v draws.int32s h
  fill_recursively-keeps int64 e e' v h = wrapped next_int64 int64_val e e' v draws.int64s h
  fill_recursively-keeps uint64 e e' v h = wrapped next_int64 uint64_val e e' v draws.int64s h
  fill_recursively-keeps string e e' v h = wrapped next_string string_val e e' v draws.strings h
  fill_recursively-keeps address e e' v h =
      wrapped next_address address_val e e' v draws.addresses h
  fill_recursively-keeps big_int e e' v h = wrapped next_big_int big_int_val e e' v draws.big_ints h
  fill_recursively-keeps bool e e' v h = ended h (still e.pool)
  fill_recursively-keeps other e e' v h = cc
  fill_recursively-keeps (slice t) e e' v h =
      let ((vs, e₁), filled, h₁) =
        >>=-eq-some
          (times (slice_length rand e.drawn) (fill_recursively rand t)
            (record e { drawn = e.drawn + 1 }))
          _ h in
      ended h₁ (
        times-keeps (fill_recursively rand t) (fill_recursively-keeps t) (slice_length rand e.drawn)
          (record e { drawn = e.drawn + 1 }) e₁ vs filled)
  fill_recursively-keeps (array n t) e e' v h = elim (Bool-cases (is_bytes32 (array n t))) [
    | inl bytes32 ↦
        wrapped next_bytes32 (λ bs. array_val uint8 (byte_values bs)) e e' v draws.bytes32s
          (rw bytes32 at h)
    | inr elements ↦
        let ((vs, e₁), filled, h₁) =
          >>=-eq-some (times n (fill_recursively rand t) e) _ (rw elements at h) in
        ended h₁ (times-keeps (fill_recursively rand t) (fill_recursively-keeps t) n e e₁ vs filled)
  ]

  pub construct_args-keeps :
      (ts : List GoType) (e e' : Env) (vs : List Value)
      → construct_args rand ts e ≡ some (vs, e')
      → R e.pool e'.pool
  unfolding construct_args
  construct_args-keeps [] e e' vs h = ended h (still e.pool)
  construct_args-keeps (t ∷ ts) e e' vs h =
      let ((v, e₁), first, h₁) = >>=-eq-some (fill_recursively rand t e) _ h in
      let ((rest, e₂), later, h₂) = >>=-eq-some (construct_args rand ts e₁) _ h₁ in
      ended h₂ (
        further _ _ _ (fill_recursively-keeps t e e₁ v first)
          (construct_args-keeps ts e₁ e₂ rest later))
