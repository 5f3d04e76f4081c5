-- ===== src/Artifacts/Abis.antt =====
-- What the ABI map holds (`GetABIMap` and `IsPayable` of utils/contracts.go).
use chain_fuzz.Prelude.{
  ◌++◌, take, length, append_assoc, ℕ, suc, string_eq, ◌≡◌, refl, sym, ap, subst, ◌∙◌, inl, inr,
  ◌==◌, ==_iff, Bool, true, false, get_elem?, Option, none, some, String, List, [], ◌∷◌, arith,
  Bool-cases, if◌then◌else◌,
}
use mathlib.Core.Option.{some-injective}
use chain_fuzz.Prelude.Dict.{Dict, lookup, contains, insert, lookup-insert, lookup-insert_other}
use chain_fuzz.Artifacts.{
  Abi, Entry, Built, ContractData, Tables, note_libraries, payable_flags, add_file, add_files,
  no_tables, get_abi_map, is_payable,
}
use chain_fuzz.Artifacts.Libraries.{declared_in, contains-note_libraries, declared_in-last}
use chain_fuzz.Metadata.{get_filename}

-- The flag of the last entry with a name.
abbrev pub last_flag : String → List Entry → Option Bool → Option Bool
last_flag m [] found = found
last_flag m (entry ∷ entries) found =
    last_flag m entries (if entry.name == m then some entry.payable else found)

lookup-payable_flags :
    (m : String) (entries : List Entry) (flags : Dict String Bool)
    → lookup m (payable_flags entries flags) ≡ last_flag m entries (lookup m flags)
unfolding payable_flags
lookup-payable_flags m [] flags = refl
lookup-payable_flags m (entry ∷ entries) flags =
    lookup-payable_flags m entries (insert entry.name entry.payable flags)
    ∙ ap (last_flag m entries) (lookup-insert entry.name m entry.payable flags)

abbrev pub or_false : Option Bool → Bool
or_false none = false
or_false (some flag) = flag

-- A file at a place, whose own contract is no library of the files up to there.
abbrev IsAmong : Built → List Built → Type 0
IsAmong f files =
    (i : ℕ) × (get_elem? files i ≡ some f)
    × (declared_in f.contract_name (take (suc i) files) ≡ false)

-- Where an ABI of the tables comes from.
record Stored (files : List Built) (c : String) (abi : Abi) (t : Tables) : Type 0 where
  file : Built
  among : IsAmong file files
  named : get_filename file.file_name ≡ c
  same : file.abi ≡ abi
  flags : lookup c t.payable ≡ some (payable_flags file.entries [])

AllStored : List Built → Tables → Type 0
AllStored files t = (c : String) (abi : Abi) → lookup c t.abis ≡ some abi → Stored files c abi t

AllStored-if :
    (files : List Built) (c : Bool) (t t' : Tables)
    → AllStored files t
    → (c ≡ false → AllStored files t')
    → AllStored files (if c then t else t')
AllStored-if files true t t' all h = all
AllStored-if files false t t' all h = h refl

-- The tables with a contract's file put in.
with_file : Built → Dict String Bool → Tables → Tables
with_file f libraries t = record {
  abis = insert (get_filename f.file_name) f.abi t.abis;
  payable = insert (get_filename f.file_name) (payable_flags f.entries []) t.payable;
  libraries = libraries;
}

with_file-AllStored :
    (files : List Built) (f : Built) (libraries : Dict String Bool) (t : Tables)
    → IsAmong f files
    → AllStored files t
    → AllStored files (with_file f libraries t)
unfolding with_file AllStored
with_file-AllStored files f libraries t among all c abi h =
    let name = get_filename f.file_name in
    let put = payable_flags f.entries [] in
    elim (Bool-cases (name == c)) [
      | inl here ↦ record {
        file = f;
        among = among;
        named = (==_iff name c).0 here;
        same =
            some-injective f.abi abi (ground (arith, lookup-insert name c f.abi t.abis, h, here));
        flags = ground (arith, lookup-insert name c put t.payable, here);
      }
      | inr other ↦
          let old = all c abi (sym (lookup-insert_other name c f.abi t.abis other) ∙ h) in
          record {
            file = old.file;
            among = old.among;
            named = old.named;
            same = old.same;
            flags = lookup-insert_other name c put t.payable other ∙ old.flags;
          }
    ]

same_tables :
    (files : List Built) (libraries : Dict String Bool) (t : Tables)
    → AllStored files t
    → AllStored files (record t { libraries = libraries })
unfolding AllStored
same_tables files libraries t all c abi h =
    let old = all c abi h in
    record {
      file = old.file;
      among = old.among;
      named = old.named;
      same = old.same;
      flags = old.flags;
    }

-- The libraries of the tables are at least those that the files before have declared.
Knows : List Built → Tables → Type 0
Knows pre t = (name : String) → contains name t.libraries ≡ false → declared_in name pre ≡ false

place_of :
    (pre fs : List Built) (f : Built)
    → (get_elem? (pre ++ f ∷ fs) (length pre) ≡ some f)
      × (take (suc (length pre)) (pre ++ f ∷ fs) ≡ pre ++ f ∷ [])
place_of [] fs f = (refl, refl)
place_of (g ∷ pre) fs f = let (at, before) = place_of pre fs f in (at, ap (λ l. g ∷ l) before)

-- No library is left out by a file, whether its own contract is one or not.
libraries_of :
    (f : Built) (t : Tables) → (add_file f t).libraries ≡ note_libraries f.nodes t.libraries
unfolding add_file with_file
libraries_of f t =
    either (contains f.contract_name (note_libraries f.nodes t.libraries))
      (record t { libraries = note_libraries f.nodes t.libraries })
      (with_file f (note_libraries f.nodes t.libraries) t) refl refl
  where
    either :
        (c : Bool) (t₁ t₂ : Tables) {m : Dict String Bool}
        → t₁.libraries ≡ m
        → t₂.libraries ≡ m
        → (if c then t₁ else t₂).libraries ≡ m
    either true t₁ t₂ h k = h
    either false t₁ t₂ h k = k

undeclared :
    (pre : List Built) (f : Built) (t : Tables) (name : String)
    → Knows pre t
    → contains name (note_libraries f.nodes t.libraries) ≡ false
    → declared_in name (pre ++ f ∷ []) ≡ false
unfolding Knows
undeclared pre f t name knows missing = ground (
  arith,
  contains-note_libraries name f.nodes t.libraries,
  declared_in-last name pre f,
  knows name,
  missing,
)

add_file-AllStored :
    (files pre fs : List Built) (f : Built) (t : Tables)
    → pre ++ f ∷ fs ≡ files
    → Knows pre t
    → AllStored files t
    → AllStored files (add_file f t)
unfolding add_file with_file
add_file-AllStored files pre fs f t split knows all =
    let libraries = note_libraries f.nodes t.libraries in
    AllStored-if files (contains f.contract_name libraries) (record t { libraries = libraries })
      (with_file f libraries t) (same_tables files libraries t all)
      (λ contract.
        let (at, before) = place_of pre fs f in
        with_file-AllStored files f libraries t
          (
            length pre,
            ap (λ l. get_elem? l (length pre)) (sym split) ∙ at,
            ap (λ l. declared_in f.contract_name (take (suc (length pre)) l)) (sym split)
                ∙ ap (declared_in f.contract_name) before
                ∙ undeclared pre f t f.contract_name knows contract,
          )
          all)

add_files-AllStored :
    (files pre fs : List Built) (t : Tables)
    → pre ++ fs ≡ files
    → Knows pre t
    → AllStored files t
    → AllStored files (add_files fs t)
unfolding add_files Knows
add_files-AllStored files pre [] t split knows all = all
add_files-AllStored files pre (f ∷ fs) t split knows all =
    add_files-AllStored files (pre ++ f ∷ []) fs (add_file f t)
      (append_assoc pre (f ∷ []) fs ∙ split)
      (λ name missing.
        undeclared pre f t name knows (ap (contains name) (sym (libraries_of f t)) ∙ missing))
      (add_file-AllStored files pre fs f t split knows all)

-- The file that an ABI of the map comes from, at its place among the files of the directory.
pub record FromFile (files : List Built) (c : String) (abi : Abi) (g : ContractData) : Type 0 where
  pub file : Built
  pub place : ℕ
  pub among : get_elem? files place ≡ some file
  pub named : get_filename file.file_name ≡ c
  pub same : file.abi ≡ abi
  pub own : declared_in file.contract_name (take (suc place) files) ≡ false
  pub flags : (m : String) → is_payable c m g ≡ or_false (last_flag m file.entries none)

filled : Tables → ContractData → ContractData
filled t g = record g { abi_map = some t.abis; payable = t.payable; libraries = t.libraries }

first_read :
    (files : List Built) (g : ContractData)
    → g.abi_map ≡ none
    → get_abi_map (some files) g
      ≡ some ((add_files files no_tables).abis, filled (add_files files no_tables) g)
unfolding get_abi_map filled
first_read files g unread = rw unread refl

no_tables-AllStored : (files : List Built) → AllStored files no_tables
unfolding AllStored
no_tables-AllStored files c abi h = cc

no_tables-Knows : Knows [] no_tables
unfolding Knows
no_tables-Knows name missing = refl

apply-Stored :
    (files : List Built) (t : Tables)
    → AllStored files t
    → (c : String) (abi : Abi) → lookup c t.abis ≡ some abi
    → Stored files c abi t
unfolding AllStored
apply-Stored files t all = all

payable_row :
    (c m : String) (g : ContractData) (row : Dict String Bool)
    → lookup c g.payable ≡ some row
    → is_payable c m g ≡ or_false (lookup m row)
unfolding is_payable
payable_row c m g row h = ground (arith, h)

Stored-FromFile :
    (files : List Built) (c : String) (abi : Abi) (t : Tables) (g : ContractData)
    → Stored files c abi t
    → FromFile files c abi (filled t g)
unfolding filled
Stored-FromFile files c abi t g stored = record {
  file = stored.file;
  place = stored.among.0;
  among = stored.among.1;
  own = stored.among.2;
  named = stored.named;
  same = stored.same;
  flags = λ m.
      payable_row c m (filled t g) (payable_flags stored.file.entries []) stored.flags
      ∙ ap or_false (lookup-payable_flags m stored.file.entries []);
}

-- Once the ABI map has been read for the first time, every contract in it has the ABI of a built file
-- whose name, without its extension, is the contract's; that file's `contractName`, which may be another
-- name, is not declared as a library by the file itself or by one before it; and a method is payable
-- just if the last entry of its name in that file says so.
pub get_abi_map-FromFile :
    (files : List Built) (g g' : ContractData) (abis : Dict String Abi)
    → g.abi_map ≡ none
    → get_abi_map (some files) g ≡ some (abis, g')
    → (c : String) (abi : Abi) → lookup c abis ≡ some abi
    → FromFile files c abi g'
get_abi_map-FromFile files g g' abis unread h c abi found =
    let e = some-injective _ _ (sym (first_read files g unread) ∙ h) in
    let t = add_files files no_tables in
    let stored =
      add_files-AllStored files [] files no_tables refl (no_tables-Knows)
        (no_tables-AllStored files) in
    subst (λ (s : ContractData). FromFile files c abi s)
      (ap (λ (r : Dict String Abi × ContractData). r.1) e)
      (Stored-FromFile files c abi t g (
        apply-Stored files t stored c abi
          (ap (λ (r : Dict String Abi × ContractData). lookup c r.0) e ∙ found)))
