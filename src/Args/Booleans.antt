-- ===== src/Args/Booleans.antt =====
-- Booleans in the values that `fillRecursively` and `ConstructArgs` make (utils/args.go).
use chain_fuzz.Prelude.{
  ℕ, zero, suc, ◌+◌, ◌≡◌, refl, ap, subst, false, Option, some, List, [], ◌∷◌, All, >>=-eq-some,
  Bool-cases, inl, inr,
}
use mathlib.Core.Option.{some-injective}
use chain_fuzz.Values.{
  GoType, int8, uint8, int16, uint16, int32, uint32, int64, uint64, address, big_int, bool, string,
  other, array, slice, is_bytes32, Value, int8_val, uint8_val, int16_val, uint16_val, int32_val,
  uint32_val, int64_val, uint64_val, address_val, big_int_val, bool_val, string_val, array_val,
  slice_val, Values, nil, cons, byte_values,
}
use chain_fuzz.ArgPool.{
  ArgPool, next_int8, next_int16, next_int32, next_int64, next_string, next_address, next_big_int,
  next_bytes32,
}
use chain_fuzz.Args.{Env, M, from_pool, times, fill_recursively, construct_args, slice_length}

-- No Boolean inside a value is true.
abbrev mutual
  pub HasNoTrue : Value → Type 0
  HasNoTrue (bool_val b) = b ≡ false
  HasNoTrue (array_val t vs) = NoneTrue vs
  HasNoTrue (slice_val t vs) = NoneTrue vs
  HasNoTrue _ = Unit

  pub NoneTrue : Values → Type 0
  NoneTrue nil = Unit
  NoneTrue (cons v vs) = HasNoTrue v × NoneTrue vs

bytes-NoneTrue : (bs : List ℕ) → NoneTrue (byte_values bs)
bytes-NoneTrue [] = tt
bytes-NoneTrue (b ∷ bs) = (tt, bytes-NoneTrue bs)

-- The value of a run that has ended.
value_of :
    {A : Type 0} {v v' : A} {e e' : Env}
    → ◌≡◌ {A = Option (A × Env)} (some (v, e)) (some (v', e'))
    → v ≡ v'
value_of {A} h = ap (λ (p : A × Env). p.0) (some-injective _ _ h)

wrapped :
    {A : Type 0} (next : ArgPool → Option (A × ArgPool)) (f : A → Value) (e e' : Env) (v : Value)
    → ((x : A) → HasNoTrue (f x))
    → from_pool next f e ≡ some (v, e')
    → HasNoTrue v
wrapped next f e e' v each h =
    let (x, _, ended) = >>=-eq-some (next e.pool) _ h in subst HasNoTrue (value_of ended) (each x.0)

times-NoneTrue :
    (body : M Value)
    → ((e e' : Env) (v : Value) → body e ≡ some (v, e') → HasNoTrue v)
    → (n : ℕ) (e e' : Env) (vs : Values) → times n body e ≡ some (vs, e')
    → NoneTrue vs
unfolding times
times-NoneTrue body each zero e e' vs h = subst NoneTrue (value_of h) tt
times-NoneTrue body each (suc n) e e' vs h =
    let ((v, e₁), first, h₁) = >>=-eq-some (body e) _ h in
    let ((rest, e₂), later, h₂) = >>=-eq-some (times n body e₁) _ h₁ in
    subst NoneTrue (value_of h₂) (each e e₁ v first, times-NoneTrue body each n e₁ e₂ rest later)

module _ (rand : ℕ → ℕ) where
  fill_recursively-HasNoTrue :
      (t : GoType) (e e' : Env) (v : Value) → fill_recursively rand t e ≡ some (v, e') → HasNoTrue v
  unfolding fill_recursively
  fill_recursively-HasNoTrue int8 e e' v h = wrapped next_int8 int8_val e e' v (λ x. tt) h
  fill_recursively-HasNoTrue uint8 e e' v h = wrapped next_int8 uint8_val e e' v (λ x. tt) h
  fill_recursively-HasNoTrue int16 e e' v h = wrapped next_int16 int16_val e e' v (λ x. tt) h
  fill_recursively-HasNoTrue uint16 e e' v h = wrapped next_int16 uint16_val e e' v (λ x. tt) h
  fill_recursively-HasNoTrue int32 e e' v h = wrapped next_int32 int32_val e e' v (λ x. tt) h
  fill_recursively-HasNoTrue uint32 e e' v h = wrapped next_int32 uint32_val e e' v (λ x. tt) h
  fill_recursively-HasNoTrue int64 e e' v h = wrapped next_int64 int64_val e e' v (λ x. tt) h
  fill_recursively-HasNoTrue uint64 e e' v h = wrapped next_int64 uint64_val e e' v (λ x. tt) h
  fill_recursively-HasNoTrue string e e' v h = wrapped next_string string_val e e' v (λ x. tt) h
  fill_recursively-HasNoTrue address e e' v h = wrapped next_address address_val e e' v (λ x. tt) h
  fill_recursively-HasNoTrue big_int e e' v h = wrapped next_big_int big_int_val e e' v (λ x. tt) h
  fill_recursively-HasNoTrue bool e e' v h = subst HasNoTrue (value_of h) refl
  fill_recursively-HasNoTrue other e e' v h = cc
  fill_recursively-HasNoTrue (slice t) e e' v h =
      let ((vs, e₁), filled, h₁) =
        >>=-eq-some
          (times (slice_length rand e.drawn) (fill_recursively rand t)
            (record e { drawn = e.drawn + 1 }))
          _ h in
      subst HasNoTrue (value_of h₁) (
        times-NoneTrue (fill_recursively rand t) (fill_recursively-HasNoTrue t)
          (slice_length rand e.drawn) (record e { drawn = e.drawn + 1 }) e₁ vs filled)
  fill_recursively-HasNoTrue (array n t) e e' v h = elim (Bool-cases (is_bytes32 (array n t))) [
    | inl bytes32 ↦
        wrapped next_bytes32 (λ bs. array_val uint8 (byte_values bs)) e e' v bytes-NoneTrue
          (rw bytes32 at h)
    | inr elements ↦
        let ((vs, e₁), filled, h₁) =
          >>=-eq-some (times n (fill_recursively rand t) e) _ (rw elements at h) in
        subst HasNoTrue (value_of h₁)
          (times-NoneTrue (fill_recursively rand t) (fill_recursively-HasNoTrue t) n e e₁ vs filled)
  ]

  -- No argument that `ConstructArgs` makes has a true Boolean in it, at any depth.
  pub construct_args-HasNoTrue :
      (ts : List GoType) (e e' : Env) (vs : List Value)
      → construct_args rand ts e ≡ some (vs, e')
      → All HasNoTrue vs
  unfolding construct_args
  construct_args-HasNoTrue [] e e' vs h = subst (All HasNoTrue) (value_of h) tt
  construct_args-HasNoTrue (t ∷ ts) e e' vs h =
      let ((v, e₁), first, h₁) = >>=-eq-some (fill_recursively rand t e) _ h in
      let ((rest, e₂), later, h₂) = >>=-eq-some (construct_args rand ts e₁) _ h₁ in
      subst (All HasNoTrue) (value_of h₂)
        (fill_recursively-HasNoTrue t e e₁ v first, construct_args-HasNoTrue ts e₁ e₂ rest later)
