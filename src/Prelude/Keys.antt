-- ===== src/Prelude/Keys.antt =====
-- The keys of a Go map after an assignment and after `delete`.
use mathlib.Core.Path.{◌≡◌, refl}
use mathlib.Core.Bool.{true, not, ◌&&◌, ◌||◌}
use mathlib.Core.List.{[], ◌∷◌}
use Prim.Native.String.{String}
use native.Mathlib.Omega.{arith}
use chain_fuzz.Prelude.Equality.{◌==◌, ==_iff, string_eq, elem, no_dup}
use chain_fuzz.Prelude.Dict.{Dict, keys, contains, insert, delete}

module _ {V : Type 0} where
  pub elem-keys : (c : String) (m : Dict String V) → elem c (keys m) ≡ contains c m
  elem-keys c [] = refl
  elem-keys c (entry ∷ rest) = ground (arith, elem-keys c rest)

  pub elem-keys-insert :
      (k c : String) (v : V) (m : Dict String V)
      → elem c (keys (insert k v m)) ≡ ((k == c) || elem c (keys m))
  elem-keys-insert k c v [] = ground arith
  elem-keys-insert k c v ((x, w) ∷ rest) =
      ground (arith, elem-keys-insert k c v rest, ==_iff x k, ==_iff x c, ==_iff k c)

  pub no_dup-keys-insert :
      (k : String) (v : V) (m : Dict String V)
      → no_dup (keys m) ≡ true
      → no_dup (keys (insert k v m)) ≡ true
  no_dup-keys-insert k v [] h = refl
  no_dup-keys-insert k v ((x, w) ∷ rest) h =
      ground
        (arith, no_dup-keys-insert k v rest, elem-keys-insert k x v rest, ==_iff x k, ==_iff k x)

  pub elem-keys-delete :
      (k c : String) (m : Dict String V)
      → elem c (keys (delete k m)) ≡ (not (k == c) && elem c (keys m))
  elem-keys-delete k c [] = ground arith
  elem-keys-delete k c ((x, w) ∷ rest) =
      ground (arith, elem-keys-delete k c rest, ==_iff x k, ==_iff x c, ==_iff k c)

  pub no_dup-keys-delete :
      (k : String) (m : Dict String V) → no_dup (keys m) ≡ true → no_dup (keys (delete k m)) ≡ true
  no_dup-keys-delete k [] h = refl
  no_dup-keys-delete k ((x, w) ∷ rest) h =
      ground (arith, no_dup-keys-delete k rest, elem-keys-delete k x rest)
