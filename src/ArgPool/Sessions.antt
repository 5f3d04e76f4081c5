-- ===== src/ArgPool/Sessions.antt =====
-- Whole sessions of calls on the argument pool.
use chain_fuzz.Prelude.{
  ℕ, ◌^◌, ◌<◌, ◌≡◌, refl, ap, Option, some, String, List, [], ◌∷◌, All, length, length-append,
  arith, Bool-cases, inl, inr, ◌>>=◌, string_eq, nat_beq, get_elem?_total,
}
use chain_fuzz.Prelude.Int.{ℤ, pos}
use chain_fuzz.Timestamps
use chain_fuzz.Timestamps.Rounds
use chain_fuzz.Pool
use chain_fuzz.Pool.{Pool}
use chain_fuzz.TypedPools.{Iface, add_new, iface_pool}
use chain_fuzz.ArgPool.{
  ArgPool, add_int64, add_int32, add_int16, add_int8, add_bytes32, add_string, add_address,
  add_big_int, add_timestamp, next_int64, next_int32, next_int16, next_int8, next_bytes32,
  next_string, next_address, next_big_int, next_timestamp, current_timestamp,
}
use chain_fuzz.ArgPool.Valid
use chain_fuzz.ArgPool.Valid.{IsValid, IsBytes32}

-- What a client can ask of the argument pool. `GetSizes` is left out: it reads lengths only.
pub data Op : Type 0 where
  put_int64 put_int32 put_int16 put_int8 put_address put_timestamp : ℕ → Op
  put_bytes32 : List ℕ → Op
  put_string : String → Op
  put_big_int : ℤ → Op
  get_int64 get_int32 get_int16 get_int8 get_bytes32 get_string get_address get_big_int
        get_timestamp get_current_timestamp :
      Op

module _ (sprint : Iface → String) (now : ℕ) where
  -- The pool after one call. `none` is a panic.
  abbrev pub step : Op → ArgPool → Option ArgPool
  step (Op.put_int64 x) a = some (add_int64 x a)
  step (Op.put_int32 x) a = some (add_int32 x a)
  step (Op.put_int16 x) a = some (add_int16 x a)
  step (Op.put_int8 x) a = some (add_int8 x a)
  step (Op.put_bytes32 x) a = some (add_bytes32 x a)
  step (Op.put_string x) a = some (add_string x a)
  step (Op.put_address x) a = some (add_address sprint x a)
  step (Op.put_big_int x) a = some (add_big_int sprint x a)
  step (Op.put_timestamp x) a = some (add_timestamp x a)
  step Op.get_int64 a = do r ← next_int64 a; some r.1
  step Op.get_int32 a = do r ← next_int32 a; some r.1
  step Op.get_int16 a = do r ← next_int16 a; some r.1
  step Op.get_int8 a = do r ← next_int8 a; some r.1
  step Op.get_bytes32 a = do r ← next_bytes32 a; some r.1
  step Op.get_string a = do r ← next_string a; some r.1
  step Op.get_address a = do r ← next_address a; some r.1
  step Op.get_big_int a = do r ← next_big_int a; some r.1
  step Op.get_timestamp a = do r ← next_timestamp now a; some r.2
  step Op.get_current_timestamp a = do t ← current_timestamp now a; some a

  pub run : List Op → ArgPool → Option ArgPool
  run [] a = some a
  run (op ∷ ops) a = do a' ← step op a; run ops a'

-- The timestamps that are put in are below 2^63, and a `[32]byte` has 32 bytes.
abbrev pub IsProper : Op → Type 0
IsProper (Op.put_timestamp x) = x < 2 ^ 63
IsProper (Op.put_bytes32 x) = IsBytes32 x
IsProper _ = Unit

-- Valid, with an address and a big integer to hand out.
pub record IsReady (sprint : Iface → String) (a : ArgPool) : Type 0 where
  pub valid : IsValid sprint a
  pub some_address : 0 < Pool.size a.addresses
  pub some_big_int : 0 < Pool.size a.big_ints

pub size-add_new :
    (sprint : Iface → String) (item : Iface) (p : Pool String Iface)
    → 0 < Pool.size p
    → 0 < Pool.size (add_new (iface_pool sprint) item p)
unfolding Pool.add
size-add_new sprint item p h = elim (Bool-cases (Pool.contains_item sprint item p)) [
  | inl there ↦ rw there h
  | inr new ↦ rw new (omega (arith, length-append p.storage (item ∷ [])))
]

same_addresses :
    (x : ℕ) (a : ArgPool) → Pool.size (add_timestamp x a).addresses ≡ Pool.size a.addresses
unfolding add_timestamp
same_addresses x a = ground arith

same_big_ints :
    (x : ℕ) (a : ArgPool) → Pool.size (add_timestamp x a).big_ints ≡ Pool.size a.big_ints
unfolding add_timestamp
same_big_ints x a = ground arith

-- Reading the clock does not panic.
current_timestamp_total :
    (now : ℕ) (a : ArgPool)
    → Rounds.IsValid a.timestamps
    → (t : Option ℤ) × (current_timestamp now a ≡ some t)
unfolding current_timestamp Timestamps.get_current
current_timestamp_total now a v = elim (Bool-cases (nat_beq (Timestamps.size a.timestamps) 0)) [
  | inl nothing ↦ (some (pos now), rw nothing)
  | inr stored ↦
      let (t, got) =
        get_elem?_total a.timestamps.storage a.timestamps.idx
          (ground (arith, v.in_range, stored)) in
      (some t, rw (stored, got))
]

pub kept :
    {sprint : Iface → String} {a a' : ArgPool}
    → IsReady sprint a
    → IsValid sprint a'
    → Pool.size a'.addresses ≡ Pool.size a.addresses
    → Pool.size a'.big_ints ≡ Pool.size a.big_ints
    → IsReady sprint a'
kept r v h k = record { valid = v; some_address = omega arith; some_big_int = omega arith }

module _ (sprint : Iface → String) (now : ℕ) where
  -- One call on a ready pool does not panic and leaves a ready pool.
  pub step-IsReady :
      (op : Op) {a : ArgPool}
      → IsProper op
      → IsReady sprint a
      → (a' : ArgPool) × (step sprint now op a ≡ some a') × IsReady sprint a'
  unfolding add_int64 add_int32 add_int16 add_int8 add_bytes32 add_string add_address add_big_int
      add_timestamp
  step-IsReady (Op.put_int64 x) {a} _ r =
      (add_int64 x a, refl, kept r (Valid.add_int64-IsValid sprint r.valid x) refl refl)
  step-IsReady (Op.put_int32 x) {a} _ r =
      (add_int32 x a, refl, kept r (Valid.add_int32-IsValid sprint r.valid x) refl refl)
  step-IsReady (Op.put_int16 x) {a} _ r =
      (add_int16 x a, refl, kept r (Valid.add_int16-IsValid sprint r.valid x) refl refl)
  step-IsReady (Op.put_int8 x) {a} _ r =
      (add_int8 x a, refl, kept r (Valid.add_int8-IsValid sprint r.valid x) refl refl)
  step-IsReady (Op.put_bytes32 x) {a} wide r =
      (add_bytes32 x a, refl, kept r (Valid.add_bytes32-IsValid sprint r.valid x wide) refl refl)
  step-IsReady (Op.put_string x) {a} _ r =
      (add_string x a, refl, kept r (Valid.add_string-IsValid sprint r.valid x) refl refl)
  step-IsReady (Op.put_address x) {a} _ r = (
    add_address sprint x a,
    refl,
    record {
      valid = Valid.add_address-IsValid sprint r.valid x;
      some_address = size-add_new sprint (Iface.address x) a.addresses r.some_address;
      some_big_int = r.some_big_int;
    },
  )
  step-IsReady (Op.put_big_int x) {a} _ r = (
    add_big_int sprint x a,
    refl,
    record {
      valid = Valid.add_big_int-IsValid sprint r.valid x;
      some_address = r.some_address;
      some_big_int = size-add_new sprint (Iface.big_int x) a.big_ints r.some_big_int;
    },
  )
  step-IsReady (Op.put_timestamp x) {a} small r = (
    add_timestamp x a,
    refl,
    kept r (Valid.add_timestamp-IsValid sprint r.valid x small) (same_addresses x a)
        (same_big_ints x a),
  )
  step-IsReady Op.get_int64 _ r =
      let (x, eq, valid, h, k) = Valid.next_int64-IsValid sprint r.valid in
      (x.1, rw eq, kept r valid (ap Pool.size h) (ap Pool.size k))
  step-IsReady Op.get_int32 _ r =
      let (x, eq, valid, h, k) = Valid.next_int32-IsValid sprint r.valid in
      (x.1, rw eq, kept r valid (ap Pool.size h) (ap Pool.size k))
  step-IsReady Op.get_int16 _ r =
      let (x, eq, valid, h, k) = Valid.next_int16-IsValid sprint r.valid in
      (x.1, rw eq, kept r valid (ap Pool.size h) (ap Pool.size k))
  step-IsReady Op.get_int8 _ r =
      let (x, eq, valid, h, k) = Valid.next_int8-IsValid sprint r.valid in
      (x.1, rw eq, kept r valid (ap Pool.size h) (ap Pool.size k))
  step-IsReady Op.get_bytes32 _ r =
      let (x, eq, valid, h, k, _) = Valid.next_bytes32-IsValid sprint r.valid in
      (x.1, rw eq, kept r valid (ap Pool.size h) (ap Pool.size k))
  step-IsReady Op.get_string _ r =
      let (x, eq, valid, h, k) = Valid.next_string-IsValid sprint r.valid in
      (x.1, rw eq, kept r valid (ap Pool.size h) (ap Pool.size k))
  step-IsReady Op.get_address _ r =
      let (x, eq, valid, h, k) = Valid.next_address-IsValid sprint r.valid r.some_address in
      (x.1, rw eq, kept r valid (ap length h) (ap Pool.size k))
  step-IsReady Op.get_big_int _ r =
      let (x, eq, valid, h, k) = Valid.next_big_int-IsValid sprint r.valid r.some_big_int in
      (x.1, rw eq, kept r valid (ap Pool.size k) (ap length h))
  step-IsReady Op.get_timestamp _ r =
      let (x, eq, valid, h, k) = Valid.next_timestamp-IsValid sprint r.valid now in
      (x.2, rw eq, kept r valid (ap Pool.size h) (ap Pool.size k))
  step-IsReady Op.get_current_timestamp {a} _ r =
      let (t, eq) = current_timestamp_total now a r.valid.timestamps in (a, rw eq, r)

  -- From a valid argument pool with an address and a big integer, no sequence of calls panics,
  -- if the timestamps put in are below 2^63 and the `bytes32` put in have 32 bytes; the pool
  -- that it leaves is valid again and has both.
  pub run-IsReady :
      (ops : List Op) {a : ArgPool}
      → All IsProper ops
      → IsReady sprint a
      → (a' : ArgPool) × (run sprint now ops a ≡ some a') × IsReady sprint a'
  unfolding run
  run-IsReady [] {a} h r = (a, refl, r)
  run-IsReady (op ∷ ops) h r =
      let (a₁, eq, r₁) = step-IsReady op h.0 r in
      let (a₂, eq₂, r₂) = run-IsReady ops h.1 r₁ in (a₂, rw (eq, eq₂), r₂)
