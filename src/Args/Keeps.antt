-- ===== src/Args/Keeps.antt =====
-- What making arguments leaves of the pools of addresses and of big integers (utils/args.go).
use chain_fuzz.Prelude.{
  ℕ, length, ◌≡◌, refl, sym, ap, subst, ◌∙◌, Option, some, String, List, >>=-eq-some, arith,
}
use mathlib.Core.Option.{some-injective}
use chain_fuzz.Prelude.Int.{ℤ}
use chain_fuzz.Pool
use chain_fuzz.Pool.{Pool}
use chain_fuzz.Values.{GoType, Value}
use chain_fuzz.TypedPools.{Iface}
use chain_fuzz.ArgPool.{
  ArgPool, next_int8, next_int16, next_int32, next_int64, next_string, next_address, next_big_int,
  next_bytes32, as_address, as_big_int,
}
use chain_fuzz.ArgPool.Valid
use chain_fuzz.ArgPool.Sessions.{IsReady, kept}
use chain_fuzz.Args.Draws.{Keeping, Draws, construct_args-keeps}
use chain_fuzz.Args.{Env, construct_args}

-- The same items are stored, at the same places.
pub record Same (a a' : ArgPool) : Type 0 where
  pub addresses : a'.addresses.storage ≡ a.addresses.storage
  pub big_ints : a'.big_ints.storage ≡ a.big_ints.storage

pub still : (a : ArgPool) → Same a a
still a = record { addresses = refl; big_ints = refl }

pub further : (a b c : ArgPool) → Same a b → Same b c → Same a c
further a b c s t = record {
  addresses = t.addresses ∙ s.addresses;
  big_ints = t.big_ints ∙ s.big_ints;
}

next-storage :
    (p p' : Pool String Iface) (x : Iface)
    → Pool.next Iface.nil p ≡ some (x, p')
    → p'.storage ≡ p.storage
unfolding Pool.next
next-storage p p' x h = ground arith

next_int8-Keeping : Keeping Same next_int8
unfolding next_int8
next_int8-Keeping a a' x h = record { addresses = ground arith; big_ints = ground arith }

next_int16-Keeping : Keeping Same next_int16
unfolding next_int16
next_int16-Keeping a a' x h = record { addresses = ground arith; big_ints = ground arith }

next_int32-Keeping : Keeping Same next_int32
unfolding next_int32
next_int32-Keeping a a' x h = record { addresses = ground arith; big_ints = ground arith }

next_int64-Keeping : Keeping Same next_int64
unfolding next_int64
next_int64-Keeping a a' x h = record { addresses = ground arith; big_ints = ground arith }

next_string-Keeping : Keeping Same next_string
unfolding next_string
next_string-Keeping a a' x h = record { addresses = ground arith; big_ints = ground arith }

next_bytes32-Keeping : Keeping Same next_bytes32
unfolding next_bytes32
next_bytes32-Keeping a a' x h = record { addresses = ground arith; big_ints = ground arith }

next_address-Keeping : Keeping Same next_address
unfolding next_address
next_address-Keeping a a' x h =
    let ((item, p), drew, h₁) = >>=-eq-some (Pool.next Iface.nil a.addresses) _ h in
    let (y, is, h₂) = >>=-eq-some (as_address item) _ h₁ in
    record {
      addresses =
          ap (λ (r : ℕ × ArgPool). r.1.addresses.storage) (sym (some-injective _ _ h₂))
          ∙ next-storage a.addresses p item drew;
      big_ints = ap (λ (r : ℕ × ArgPool). r.1.big_ints.storage) (sym (some-injective _ _ h₂));
    }

pub next_big_int-Keeping : Keeping Same next_big_int
unfolding next_big_int
next_big_int-Keeping a a' x h =
    let ((item, p), drew, h₁) = >>=-eq-some (Pool.next Iface.nil a.big_ints) _ h in
    let (y, is, h₂) = >>=-eq-some (as_big_int item) _ h₁ in
    record {
      big_ints =
          ap (λ (r : ℤ × ArgPool). r.1.big_ints.storage) (sym (some-injective _ _ h₂))
          ∙ next-storage a.big_ints p item drew;
      addresses = ap (λ (r : ℤ × ArgPool). r.1.addresses.storage) (sym (some-injective _ _ h₂));
    }

pub Same-Draws : Draws Same
Same-Draws = record {
  int8s = next_int8-Keeping;
  int16s = next_int16-Keeping;
  int32s = next_int32-Keeping;
  int64s = next_int64-Keeping;
  strings = next_string-Keeping;
  addresses = next_address-Keeping;
  big_ints = next_big_int-Keeping;
  bytes32s = next_bytes32-Keeping;
}

pub construct_args-Same :
    (rand : ℕ → ℕ) (ts : List GoType) (e e' : Env) (vs : List Value)
    → construct_args rand ts e ≡ some (vs, e')
    → Same e.pool e'.pool
construct_args-Same rand = construct_args-keeps Same still further Same-Draws rand

-- A draw leaves a ready pool ready.
module _ (sprint : Iface → String) where
  abbrev pub StaysReady : ArgPool → ArgPool → Type 0
  StaysReady a a' = IsReady sprint a → IsReady sprint a'

  drawn-StaysReady :
      {A : Type 0} (a a' : ArgPool) (x : A) (r : A × ArgPool) (o : Option (A × ArgPool))
      → o ≡ some r
      → o ≡ some (x, a')
      → IsReady sprint r.1
      → IsReady sprint a'
  drawn-StaysReady {A} a a' x r o eq is ready =
      subst (λ (p : A × ArgPool). IsReady sprint p.1) (some-injective r (x, a') (sym eq ∙ is)) ready

  pub StaysReady-Draws : Draws StaysReady
  StaysReady-Draws = record {
    int8s = λ a a' x is r.
        let (p, eq, valid, h, k) = Valid.next_int8-IsValid sprint r.valid in
        drawn-StaysReady a a' x p (next_int8 a) eq is
          (kept r valid (ap Pool.size h) (ap Pool.size k));
    int16s = λ a a' x is r.
        let (p, eq, valid, h, k) = Valid.next_int16-IsValid sprint r.valid in
        drawn-StaysReady a a' x p (next_int16 a) eq is
          (kept r valid (ap Pool.size h) (ap Pool.size k));
    int32s = λ a a' x is r.
        let (p, eq, valid, h, k) = Valid.next_int32-IsValid sprint r.valid in
        drawn-StaysReady a a' x p (next_int32 a) eq is
          (kept r valid (ap Pool.size h) (ap Pool.size k));
    int64s = λ a a' x is r.
        let (p, eq, valid, h, k) = Valid.next_int64-IsValid sprint r.valid in
        drawn-StaysReady a a' x p (next_int64 a) eq is
          (kept r valid (ap Pool.size h) (ap Pool.size k));
    strings = λ a a' x is r.
        let (p, eq, valid, h, k) = Valid.next_string-IsValid sprint r.valid in
        drawn-StaysReady a a' x p (next_string a) eq is
          (kept r valid (ap Pool.size h) (ap Pool.size k));
    bytes32s = λ a a' x is r.
        let (p, eq, valid, h, k, _) = Valid.next_bytes32-IsValid sprint r.valid in
        drawn-StaysReady a a' x p (next_bytes32 a) eq is
          (kept r valid (ap Pool.size h) (ap Pool.size k));
    addresses = λ a a' x is r.
        let (p, eq, valid, h, k) = Valid.next_address-IsValid sprint r.valid r.some_address in
        drawn-StaysReady a a' x p (next_address a) eq is
          (kept r valid (ap length h) (ap Pool.size k));
    big_ints = λ a a' x is r.
        let (p, eq, valid, h, k) = Valid.next_big_int-IsValid sprint r.valid r.some_big_int in
        drawn-StaysReady a a' x p (next_big_int a) eq is
          (kept r valid (ap Pool.size k) (ap length h));
  }
