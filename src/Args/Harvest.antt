-- ===== src/Args/Harvest.antt =====
-- What `updateRecursively` (utils/args.go) puts into the pools of machine integers.
use chain_fuzz.Prelude.{
  ℕ, nat_eq, ◌≡◌, refl, sym, ap, ◌∙◌, Bool, true, false, ◌||◌, String, List, [], ◌∷◌, ◌++◌, elem,
  elem-append, Bool-cases, inl, inr, if◌then◌else◌, arith,
}
use chain_fuzz.Values.{
  array, is_bytes32, Value, int8_val, uint8_val, int16_val, uint16_val, int32_val, uint32_val,
  int64_val, uint64_val, address_val, big_int_val, bool_val, string_val, other_val, array_val,
  slice_val, Values, nil, cons, bytes_of, length_values,
}
use chain_fuzz.Pool
use chain_fuzz.Pool.{Pool}
use chain_fuzz.TypedPools.{Iface}
use chain_fuzz.TypedPools.Unique.{contains-add_new}
use chain_fuzz.ArgPool.{
  ArgPool, add_int64, add_int32, add_int16, add_bytes32, add_string, add_address, add_big_int,
}
use chain_fuzz.Args.{update_recursively, update_elements, update_all, update_pool}

-- The widths whose pools are updated; 8 bits are left out by the program.
pub data Width : Type 0 where
  w16 w32 w64 : Width

abbrev pub ints_of : Width → ArgPool → Pool ℕ ℕ
ints_of w16 a = a.int16s
ints_of w32 a = a.int32s
ints_of w64 a = a.int64s

abbrev pub has : Width → ℕ → ArgPool → Bool
has w x a = Pool.contains_item (λ k. k) x (ints_of w a)

abbrev only16 : Width → ℕ → List ℕ
only16 w16 x = x ∷ []
only16 _ x = []

abbrev only32 : Width → ℕ → List ℕ
only32 w32 x = x ∷ []
only32 _ x = []

abbrev only64 : Width → ℕ → List ℕ
only64 w64 x = x ∷ []
only64 _ x = []

-- The words of a width in a value. A `[32]byte` is one value and has none.
abbrev mutual
  pub words : Width → Value → List ℕ
  words w (int16_val x) = only16 w x
  words w (uint16_val x) = only16 w x
  words w (int32_val x) = only32 w x
  words w (uint32_val x) = only32 w x
  words w (int64_val x) = only64 w x
  words w (uint64_val x) = only64 w x
  words w (array_val t vs) =
      let inner = words_in w vs in if is_bytes32 (array (length_values vs) t) then [] else inner
  words w (slice_val t vs) = words_in w vs
  words w _ = []

  pub words_in : Width → Values → List ℕ
  words_in w nil = []
  words_in w (cons v vs) = words w v ++ words_in w vs

has-add_int16 :
    (w : Width) (x y : ℕ) (a : ArgPool)
    → has w y (add_int16 x a) ≡ (elem y (only16 w x) || has w y a)
unfolding add_int16
has-add_int16 w16 x y a = contains-add_new (λ k. k) 0 x y a.int16s ∙ ground arith
has-add_int16 w32 x y a = refl
has-add_int16 w64 x y a = refl

has-add_int32 :
    (w : Width) (x y : ℕ) (a : ArgPool)
    → has w y (add_int32 x a) ≡ (elem y (only32 w x) || has w y a)
unfolding add_int32
has-add_int32 w16 x y a = refl
has-add_int32 w32 x y a = contains-add_new (λ k. k) 0 x y a.int32s ∙ ground arith
has-add_int32 w64 x y a = refl

has-add_int64 :
    (w : Width) (x y : ℕ) (a : ArgPool)
    → has w y (add_int64 x a) ≡ (elem y (only64 w x) || has w y a)
unfolding add_int64
has-add_int64 w16 x y a = refl
has-add_int64 w32 x y a = refl
has-add_int64 w64 x y a = contains-add_new (λ k. k) 0 x y a.int64s ∙ ground arith

or_swap : (p q h : Bool) → (q || (p || h)) ≡ ((p || q) || h)
or_swap true true h = refl
or_swap true false h = refl
or_swap false true h = refl
or_swap false false h = refl

or_regroup :
    (y : ℕ) (xs ys : List ℕ) (h : Bool) → (elem y ys || (elem y xs || h)) ≡ (elem y (xs ++ ys) || h)
or_regroup y xs ys h =
    or_swap (elem y xs) (elem y ys) h ∙ ap (λ b. b || h) (sym (elem-append y xs ys))

module _ (sprint : Iface → String) (w : Width) (y : ℕ) where
  same_ints :
      (a a' : ArgPool)
      → a'.int16s ≡ a.int16s
      → a'.int32s ≡ a.int32s
      → a'.int64s ≡ a.int64s
      → has w y a' ≡ has w y a
  same_ints a a' h k l = go w
    where
      go : (w : Width) → has w y a' ≡ has w y a
      go w16 = ap (Pool.contains_item (λ k. k) y) h
      go w32 = ap (Pool.contains_item (λ k. k) y) k
      go w64 = ap (Pool.contains_item (λ k. k) y) l

  mutual
    unfolding update_recursively add_big_int add_address add_string add_bytes32

    has-update :
        (v : Value) (a : ArgPool)
        → has w y (update_recursively sprint v a) ≡ (elem y (words w v) || has w y a)
    has-update (int8_val x) a = refl
    has-update (uint8_val x) a = refl
    has-update (bool_val x) a = refl
    has-update (int16_val x) a = has-add_int16 w x y a
    has-update (uint16_val x) a = has-add_int16 w x y a
    has-update (int32_val x) a = has-add_int32 w x y a
    has-update (uint32_val x) a = has-add_int32 w x y a
    has-update (int64_val x) a = has-add_int64 w x y a
    has-update (uint64_val x) a = has-add_int64 w x y a
    has-update (big_int_val x) a = same_ints a (add_big_int sprint x a) refl refl refl
    has-update (address_val x) a = same_ints a (add_address sprint x a) refl refl refl
    has-update (string_val x) a = same_ints a (add_string x a) refl refl refl
    has-update other_val a = refl
    has-update (slice_val t vs) a = has-update_elements vs a
    has-update (array_val t vs) a = elim (Bool-cases (is_bytes32 (array (length_values vs) t))) [
      | inl bytes32 ↦ rw bytes32 (same_ints a (add_bytes32 (bytes_of vs) a) refl refl refl)
      | inr elements ↦ rw elements (has-update_elements vs a)
    ]

    has-update_elements :
        (vs : Values) (a : ArgPool)
        → has w y (update_elements sprint vs a) ≡ (elem y (words_in w vs) || has w y a)
    has-update_elements nil a = refl
    has-update_elements (cons v vs) a =
        has-update_elements vs (update_recursively sprint v a)
        ∙ ap (λ b. elem y (words_in w vs) || b) (has-update v a)
        ∙ or_regroup y (words w v) (words_in w vs) (has w y a)

  -- The words of a width in a list of returned values.
  abbrev pub words_of_all : List Value → List ℕ
  words_of_all [] = []
  words_of_all (v ∷ vs) = words w v ++ words_of_all vs

  has-update_all :
      (vs : List Value) (a : ArgPool)
      → has w y (update_all sprint vs a) ≡ (elem y (words_of_all vs) || has w y a)
  unfolding update_all
  has-update_all [] a = refl
  has-update_all (v ∷ vs) a =
      has-update_all vs (update_recursively sprint v a)
      ∙ ap (λ b. elem y (words_of_all vs) || b) (has-update v a)
      ∙ or_regroup y (words w v) (words_of_all vs) (has w y a)

  -- After `UpdatePool` the pool of 16, 32 or 64 bit integers contains what it did, and exactly the
  -- words of that width in the values that the output was unpacked into.
  pub has-update_pool :
      (unpack : List ℕ → List Value) (output : List ℕ) (a : ArgPool)
      → has w y (update_pool sprint unpack output a)
        ≡ (elem y (words_of_all (unpack output)) || has w y a)
  unfolding update_pool
  has-update_pool unpack output a = has-update_all (unpack output) a
