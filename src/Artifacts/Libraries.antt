-- ===== src/Artifacts/Libraries.antt =====
-- The libraries that the built files declare (`GetABIMap` of utils/contracts.go).
use chain_fuzz.Prelude.{
  ◌++◌, string_eq, ◌≡◌, refl, ◌∙◌, ◌==◌, Bool, true, false, ◌||◌, ◌&&◌, String, List, [], ◌∷◌,
  arith, if◌then◌else◌,
}
use chain_fuzz.Prelude.Dict.{Dict, contains, insert, contains-insert}
use chain_fuzz.Artifacts.{Built, note_libraries}

-- A node that declares a library.
abbrev pub declares : String → List (String × String) → Bool
declares name [] = false
declares name (node ∷ nodes) = ((node.0 == "library") && (node.1 == name)) || declares name nodes

joined :
    (c : Bool) (name declared : String) (later : Bool) (m : Dict String Bool)
    → (later || contains name (if c then insert declared true m else m))
      ≡ (((c && (declared == name)) || later) || contains name m)
joined true name declared later m = ground (arith, contains-insert declared name true m)
joined false name declared later m = ground arith

pub contains-note_libraries :
    (name : String) (nodes : List (String × String)) (m : Dict String Bool)
    → contains name (note_libraries nodes m) ≡ (declares name nodes || contains name m)
unfolding note_libraries
contains-note_libraries name [] m = refl
contains-note_libraries name (node ∷ nodes) m =
    contains-note_libraries name nodes (if node.0 == "library" then insert node.1 true m else m)
    ∙ joined (node.0 == "library") name node.1 (declares name nodes) m

-- Some of the files declares the library.
abbrev pub declared_in : String → List Built → Bool
declared_in name [] = false
declared_in name (f ∷ fs) = declares name f.nodes || declared_in name fs

pub declared_in-last :
    (name : String) (pre : List Built) (f : Built)
    → declared_in name (pre ++ f ∷ []) ≡ (declared_in name pre || declares name f.nodes)
declared_in-last name [] f = ground arith
declared_in-last name (g ∷ pre) f = ground (arith, declared_in-last name pre f)
