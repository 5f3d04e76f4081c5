-- ===== src/Args/Refill.antt =====
-- What is put back into the argument pool leaves it ready (`UpdatePool` of utils/args.go).
use chain_fuzz.Prelude.{
  ℕ, ◌<◌, ◌^◌, suc, ◌≡◌, refl, sym, ap, subst, All, some, ◌∙◌, String, List, [], ◌∷◌, length,
  Bool-cases, inl, inr,
}
use mathlib.Core.Option.{some-injective}
use chain_fuzz.Values.{
  GoType, uint8, array, is_bytes32, Value, int8_val, uint8_val, int16_val, uint16_val, int32_val,
  uint32_val, int64_val, uint64_val, address_val, big_int_val, bool_val, string_val, array_val,
  slice_val, other_val, Values, nil, cons, length_values, bytes_of,
}
use chain_fuzz.TypedPools.{Iface}
use chain_fuzz.ArgPool.{ArgPool, add_timestamp}
use chain_fuzz.ArgPool.Sessions.{IsReady, Op, IsProper, step, step-IsReady}
use chain_fuzz.Args.{update_recursively, update_elements, update_all, update_pool}
use chain_fuzz.Args.Typing.{is_bytes32-array, IsWellTyped, AllOf}

length-bytes_of : (vs : Values) → AllOf uint8 vs → length (bytes_of vs) ≡ length_values vs
length-bytes_of nil all = refl
length-bytes_of (cons (uint8_val b) vs) (typed, well, more) = ap suc (length-bytes_of vs more)
length-bytes_of (cons (int8_val x) vs) (typed, well, more) = cc
length-bytes_of (cons (int16_val x) vs) (typed, well, more) = cc
length-bytes_of (cons (uint16_val x) vs) (typed, well, more) = cc
length-bytes_of (cons (int32_val x) vs) (typed, well, more) = cc
length-bytes_of (cons (uint32_val x) vs) (typed, well, more) = cc
length-bytes_of (cons (int64_val x) vs) (typed, well, more) = cc
length-bytes_of (cons (uint64_val x) vs) (typed, well, more) = cc
length-bytes_of (cons (address_val x) vs) (typed, well, more) = cc
length-bytes_of (cons (big_int_val x) vs) (typed, well, more) = cc
length-bytes_of (cons (bool_val x) vs) (typed, well, more) = cc
length-bytes_of (cons (string_val x) vs) (typed, well, more) = cc
length-bytes_of (cons other_val vs) (typed, well, more) = cc
length-bytes_of (cons (array_val t us) vs) (typed, well, more) = cc
length-bytes_of (cons (slice_val t us) vs) (typed, well, more) = cc

module _ (sprint : Iface → String) where
  put-IsReady :
      (op : Op) (a a' : ArgPool)
      → IsProper op
      → step sprint 0 op a ≡ some a'
      → IsReady sprint a
      → IsReady sprint a'
  put-IsReady op a a' proper is r =
      let (b, eq, ready) = step-IsReady sprint 0 op proper r in
      subst (IsReady sprint) (some-injective b a' (sym eq ∙ is)) ready

  pub timestamp-IsReady :
      (val : ℕ) (a : ArgPool)
      → val < 2 ^ 63
      → IsReady sprint a
      → IsReady sprint (add_timestamp val a)
  timestamp-IsReady val a small r = put-IsReady (Op.put_timestamp val) a _ small refl r

  mutual
    unfolding update_recursively

    update_recursively-IsReady :
        (v : Value) (a : ArgPool)
        → IsWellTyped v
        → IsReady sprint a
        → IsReady sprint (update_recursively sprint v a)
    update_recursively-IsReady (int8_val x) a well r = r
    update_recursively-IsReady (uint8_val x) a well r = r
    update_recursively-IsReady (bool_val x) a well r = r
    update_recursively-IsReady other_val a well r = r
    update_recursively-IsReady (int16_val x) a well r = put-IsReady (Op.put_int16 x) a _ tt refl r
    update_recursively-IsReady (uint16_val x) a well r = put-IsReady (Op.put_int16 x) a _ tt refl r
    update_recursively-IsReady (int32_val x) a well r = put-IsReady (Op.put_int32 x) a _ tt refl r
    update_recursively-IsReady (uint32_val x) a well r = put-IsReady (Op.put_int32 x) a _ tt refl r
    update_recursively-IsReady (int64_val x) a well r = put-IsReady (Op.put_int64 x) a _ tt refl r
    update_recursively-IsReady (uint64_val x) a well r = put-IsReady (Op.put_int64 x) a _ tt refl r
    update_recursively-IsReady (big_int_val x) a well r =
        put-IsReady (Op.put_big_int x) a _ tt refl r
    update_recursively-IsReady (address_val x) a well r =
        put-IsReady (Op.put_address x) a _ tt refl r
    update_recursively-IsReady (string_val x) a well r = put-IsReady (Op.put_string x) a _ tt refl r
    update_recursively-IsReady (slice_val t vs) a well r = update_elements-IsReady t vs a well r
    update_recursively-IsReady (array_val t vs) a well r =
        elim (Bool-cases (is_bytes32 (array (length_values vs) t))) [
          | inl bytes32 ↦
              let (wide, byte) = is_bytes32-array (length_values vs) t bytes32 in
              rw bytes32 (
                put-IsReady (Op.put_bytes32 (bytes_of vs)) a _
                  (length-bytes_of vs (subst (λ t. AllOf t vs) byte well) ∙ wide) refl r)
          | inr elements ↦ rw elements (update_elements-IsReady t vs a well r)
        ]

    update_elements-IsReady :
        (t : GoType) (vs : Values) (a : ArgPool)
        → AllOf t vs
        → IsReady sprint a
        → IsReady sprint (update_elements sprint vs a)
    update_elements-IsReady t nil a all r = r
    update_elements-IsReady t (cons v vs) a (typed, well, more) r =
        update_elements-IsReady t vs (update_recursively sprint v a) more
          (update_recursively-IsReady v a well r)

  update_all-IsReady :
      (vs : List Value) (a : ArgPool)
      → All IsWellTyped vs
      → IsReady sprint a
      → IsReady sprint (update_all sprint vs a)
  unfolding update_all
  update_all-IsReady [] a all r = r
  update_all-IsReady (v ∷ vs) a all r =
      update_all-IsReady vs (update_recursively sprint v a) all.1
        (update_recursively-IsReady v a all.0 r)

  -- Well-typed values that are put back leave the pool ready.
  pub update_pool-IsReady :
      (unpack : List ℕ → List Value) (output : List ℕ) (a : ArgPool)
      → All IsWellTyped (unpack output)
      → IsReady sprint a
      → IsReady sprint (update_pool sprint unpack output a)
  unfolding update_pool
  update_pool-IsReady unpack output a all r = update_all-IsReady (unpack output) a all r
