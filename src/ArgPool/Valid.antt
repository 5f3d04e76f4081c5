-- ===== src/ArgPool/Valid.antt =====
-- The invariant of the argument pool (argpool/argpool.go), and each operation with respect to it.
use chain_fuzz.Prelude.{
  ℕ, ◌^◌, ◌<◌, ◌≡◌, refl, sym, ap, Bool, false, Option, some, String, List, [], ◌∷◌, All,
  All-append, All-get_elem?, get_elem?, arith, Bool-cases, Eq, length, replicate, subst, inl, inr,
  ◌⊎◌, nat_eq, string_eq, list_eq, nat_beq,
}
use chain_fuzz.Prelude.Int.{ℤ, pos}
use chain_fuzz.Pool
use chain_fuzz.Pool.{Pool}
use chain_fuzz.TypedPools.{Iface, add_new, pool_of}
use chain_fuzz.TypedPools.Unique.{IsDistinct, add_new-IsDistinct, next_set}
use chain_fuzz.Timestamps
use chain_fuzz.Timestamps.{TimestampPool}
use chain_fuzz.Timestamps.Rounds
use chain_fuzz.ArgPool.{
  ArgPool, add_int64, add_int32, add_int16, add_int8, add_bytes32, add_string, add_address,
  add_big_int, add_timestamp, next_int64, next_int32, next_int16, next_int8, next_bytes32,
  next_string, next_address, next_big_int, next_timestamp,
}

abbrev pub IsAddress : Iface → Type 0
IsAddress item = (x : ℕ) × (item ≡ Iface.address x)

abbrev pub IsBigInt : Iface → Type 0
IsBigInt item = (x : ℤ) × (item ≡ Iface.big_int x)

-- A `[32]byte` has 32 bytes.
abbrev pub IsBytes32 : List ℕ → Type 0
IsBytes32 bs = length bs ≡ 32

-- Every pool is valid and without duplicates, and the two pools of `interface{}` values hold values
-- of one dynamic type each.
pub record IsValid (sprint : Iface → String) (a : ArgPool) : Type 0 where
  pub int8s : IsDistinct (λ x. x) a.int8s
  pub int16s : IsDistinct (λ x. x) a.int16s
  pub int32s : IsDistinct (λ x. x) a.int32s
  pub int64s : IsDistinct (λ x. x) a.int64s
  pub bytes32s : IsDistinct (λ x. x) a.bytes32s
  pub addresses : IsDistinct sprint a.addresses
  pub big_ints : IsDistinct sprint a.big_ints
  pub strings : IsDistinct (λ x. x) a.strings
  pub timestamps : Rounds.IsValid a.timestamps
  pub all_addresses : All IsAddress a.addresses.storage
  pub all_big_ints : All IsBigInt a.big_ints.storage
  pub all_wide : All IsBytes32 a.bytes32s.storage

-- The guarded `Add` keeps what all items have.
All-add_new :
    {K A : Type 0} ⦃e : Eq K⦄ (key : A → K) (z : A) (P : A → Type 0) (item : A) (p : Pool K A)
    → P item
    → All P p.storage
    → All P (add_new (pool_of key z) item p).storage
unfolding Pool.add
All-add_new key z P item p h k = elim (Bool-cases (Pool.contains_item key item p)) [
  | inl there ↦ rw there k
  | inr new ↦ rw new (All-append P p.storage (item ∷ []) k (h, tt))
]

-- What a pool that holds something returns has what all its items have.
stored_is :
    (P : Iface → Type 0) (p : Pool String Iface) (item : Iface)
    → 0 < Pool.size p
    → All P p.storage
    → ((Pool.size p ≡ 0) × (item ≡ Iface.nil)) ⊎ (get_elem? p.storage p.idx ≡ some item)
    → P item
stored_is P p item h all (inl none_stored) = absurd (omega arith)
stored_is P p item h all (inr got) = All-get_elem? P p.storage p.idx item all got

read_wide :
    (p : Pool (List ℕ) (List ℕ)) (x : List ℕ)
    → All IsBytes32 p.storage
    → ((Pool.size p ≡ 0) × (x ≡ replicate 32 0)) ⊎ (get_elem? p.storage p.idx ≡ some x)
    → IsBytes32 x
read_wide p x all (inl (_, zeros)) = ap length zeros
read_wide p x all (inr got) = All-get_elem? IsBytes32 p.storage p.idx x all got

module _ (sprint : Iface → String) {a : ArgPool} (v : IsValid sprint a) where
  pub add_int64-IsValid : (item : ℕ) → IsValid sprint (add_int64 item a)
  unfolding add_int64
  add_int64-IsValid item = assumption (add_new-IsDistinct (λ x. x) 0 item v.int64s)

  pub add_int32-IsValid : (item : ℕ) → IsValid sprint (add_int32 item a)
  unfolding add_int32
  add_int32-IsValid item = assumption (add_new-IsDistinct (λ x. x) 0 item v.int32s)

  pub add_int16-IsValid : (item : ℕ) → IsValid sprint (add_int16 item a)
  unfolding add_int16
  add_int16-IsValid item = assumption (add_new-IsDistinct (λ x. x) 0 item v.int16s)

  pub add_int8-IsValid : (item : ℕ) → IsValid sprint (add_int8 item a)
  unfolding add_int8
  add_int8-IsValid item = assumption (add_new-IsDistinct (λ x. x) 0 item v.int8s)

  pub add_bytes32-IsValid : (item : List ℕ) → IsBytes32 item → IsValid sprint (add_bytes32 item a)
  unfolding add_bytes32
  add_bytes32-IsValid item h = assumption (
    add_new-IsDistinct (λ x. x) item item v.bytes32s,
    All-add_new (λ x. x) item IsBytes32 item a.bytes32s h v.all_wide,
  )

  pub add_string-IsValid : (item : String) → IsValid sprint (add_string item a)
  unfolding add_string
  add_string-IsValid item = assumption (add_new-IsDistinct (λ x. x) item item v.strings)

  pub add_address-IsValid : (item : ℕ) → IsValid sprint (add_address sprint item a)
  unfolding add_address
  add_address-IsValid item = assumption (
    add_new-IsDistinct sprint Iface.nil (Iface.address item) v.addresses,
    All-add_new sprint Iface.nil IsAddress (Iface.address item) a.addresses (item, refl)
        v.all_addresses,
  )

  pub add_big_int-IsValid : (item : ℤ) → IsValid sprint (add_big_int sprint item a)
  unfolding add_big_int
  add_big_int-IsValid item = assumption (
    add_new-IsDistinct sprint Iface.nil (Iface.big_int item) v.big_ints,
    All-add_new sprint Iface.nil IsBigInt (Iface.big_int item) a.big_ints (item, refl)
        v.all_big_ints,
  )

  pub add_timestamp-IsValid : (item : ℕ) → item < 2 ^ 63 → IsValid sprint (add_timestamp item a)
  unfolding add_timestamp
  add_timestamp-IsValid item small =
      elim (Bool-cases (Timestamps.contains_item item a.timestamps)) [
        | inl there ↦ rw there v
        | inr new ↦ rw new (assumption (Rounds.sort-add-IsValid item small new v.timestamps))
      ]

  -- The typed `Next` methods do not panic and leave the pool valid.
  pub next_int64-IsValid :
      (r : ℕ × ArgPool) × (next_int64 a ≡ some r)
      × IsValid sprint r.1
      × (r.1.addresses ≡ a.addresses)
      × (r.1.big_ints ≡ a.big_ints)
  unfolding next_int64
  next_int64-IsValid =
      let (x, p, step, valid, _, _) = next_set (λ x. x) 0 v.int64s in
      ((x, record a { int64s = p }), rw step, assumption valid, refl, refl)

  pub next_int32-IsValid :
      (r : ℕ × ArgPool) × (next_int32 a ≡ some r)
      × IsValid sprint r.1
      × (r.1.addresses ≡ a.addresses)
      × (r.1.big_ints ≡ a.big_ints)
  unfolding next_int32
  next_int32-IsValid =
      let (x, p, step, valid, _, _) = next_set (λ x. x) 0 v.int32s in
      ((x, record a { int32s = p }), rw step, assumption valid, refl, refl)

  pub next_int16-IsValid :
      (r : ℕ × ArgPool) × (next_int16 a ≡ some r)
      × IsValid sprint r.1
      × (r.1.addresses ≡ a.addresses)
      × (r.1.big_ints ≡ a.big_ints)
  unfolding next_int16
  next_int16-IsValid =
      let (x, p, step, valid, _, _) = next_set (λ x. x) 0 v.int16s in
      ((x, record a { int16s = p }), rw step, assumption valid, refl, refl)

  pub next_int8-IsValid :
      (r : ℕ × ArgPool) × (next_int8 a ≡ some r)
      × IsValid sprint r.1
      × (r.1.addresses ≡ a.addresses)
      × (r.1.big_ints ≡ a.big_ints)
  unfolding next_int8
  next_int8-IsValid =
      let (x, p, step, valid, _, _) = next_set (λ x. x) 0 v.int8s in
      ((x, record a { int8s = p }), rw step, assumption valid, refl, refl)

  pub next_bytes32-IsValid :
      (r : List ℕ × ArgPool) × (next_bytes32 a ≡ some r)
      × IsValid sprint r.1
      × (r.1.addresses ≡ a.addresses)
      × (r.1.big_ints ≡ a.big_ints)
      × IsBytes32 r.0
  unfolding next_bytes32
  next_bytes32-IsValid =
      let (x, p, step, valid, same, from) = next_set (λ x. x) (replicate 32 0) v.bytes32s in
      (
        (x, record a { bytes32s = p }),
        rw step,
        assumption (valid, subst (All IsBytes32) (sym same) v.all_wide),
        refl,
        refl,
        read_wide a.bytes32s x v.all_wide from,
      )

  pub next_string-IsValid :
      (r : String × ArgPool) × (next_string a ≡ some r)
      × IsValid sprint r.1
      × (r.1.addresses ≡ a.addresses)
      × (r.1.big_ints ≡ a.big_ints)
  unfolding next_string
  next_string-IsValid =
      let (x, p, step, valid, _, _) = next_set (λ x. x) "" v.strings in
      ((x, record a { strings = p }), rw step, assumption valid, refl, refl)

  pub next_address-IsValid :
      0 < Pool.size a.addresses
      → (r : ℕ × ArgPool) × (next_address a ≡ some r)
        × IsValid sprint r.1
        × (r.1.addresses.storage ≡ a.addresses.storage)
        × (r.1.big_ints ≡ a.big_ints)
  unfolding next_address
  next_address-IsValid h =
      let (item, p, step, valid, same, from) = next_set sprint Iface.nil v.addresses in
      let (x, is) = stored_is IsAddress a.addresses item h v.all_addresses from in
      (
        (x, record a { addresses = p }),
        rw (step, is),
        assumption (valid, subst (All IsAddress) (sym same) v.all_addresses),
        same,
        refl,
      )

  pub next_big_int-IsValid :
      0 < Pool.size a.big_ints
      → (r : ℤ × ArgPool) × (next_big_int a ≡ some r)
        × IsValid sprint r.1
        × (r.1.big_ints.storage ≡ a.big_ints.storage)
        × (r.1.addresses ≡ a.addresses)
  unfolding next_big_int
  next_big_int-IsValid h =
      let (item, p, step, valid, same, from) = next_set sprint Iface.nil v.big_ints in
      let (x, is) = stored_is IsBigInt a.big_ints item h v.all_big_ints from in
      (
        (x, record a { big_ints = p }),
        rw (step, is),
        assumption (valid, subst (All IsBigInt) (sym same) v.all_big_ints),
        same,
        refl,
      )

  pub next_timestamp-IsValid :
      (now : ℕ)
      → (r : Option ℤ × Bool × ArgPool) × (next_timestamp now a ≡ some r)
        × IsValid sprint r.2
        × (r.2.addresses ≡ a.addresses)
        × (r.2.big_ints ≡ a.big_ints)
  unfolding next_timestamp
  next_timestamp-IsValid now = elim (Bool-cases (nat_beq (Timestamps.size a.timestamps) 0)) [
    | inl nothing ↦ ((some (pos now), false, a), rw nothing, v, refl, refl)
    | inr stored ↦
        let ((t, p), step, valid) = Rounds.next-IsValid v.timestamps in
        (
          (t, Timestamps.all_passed p, record a { timestamps = p }),
          rw (stored, step),
          assumption valid,
          refl,
          refl,
        )
  ]
