-- ===== src/Heuristics/Reports.antt =====
-- The results of `Rec`, and what it reports of one transaction (utils/heuristics.go).
use Prim.Native.String.{◌++◌}
use text.Mathlib.Text.{starts_with}
use chain_fuzz.Prelude.{
  ℕ, int_eq, string_eq, Bool, true, false, not, ◌&&◌, none, some, String, List, [], length,
  get_elem?, ◌==◌, nat_beq, if◌then◌else◌,
}
use chain_fuzz.Prelude.Int.{pos, negsuc}
use chain_fuzz.Prelude.Dict.{Dict, lookup, contains, insert}
use chain_fuzz.Backend.{LastTxInput, LastTxResult, Report}

-- The texts that are stored in the results: the one of an overflow, the empty one, and the one of
-- the coverage, covered instructions of all.
pub data Note : Type 0 where
  blank : Note
  overflow : Report → Note
  coverage : ℕ → ℕ → Note

abbrev pub ResultsMap : Type 0
ResultsMap = Dict String (Dict String Note)

-- `result[contract] == nil` makes a map, `result[contract][key] = note` writes into it.
abbrev pub with_contract : String → ResultsMap → ResultsMap
with_contract contract r = if contains contract r then r else insert contract [] r

abbrev pub row : String → ResultsMap → Dict String Note
row contract r = elim (lookup contract r) [ none ↦ [] | some entries ↦ entries ]

unfoldable pub store : String → String → Note → ResultsMap → ResultsMap
store contract key note r = insert contract (insert key note (row contract r)) r

abbrev pub overflow_key : String → String
overflow_key method = method ++ ": Overflow"

abbrev pub assertion_key : String → String
assertion_key method = method ++ ": AssertionFailure"

abbrev pub violation_key : String → String
violation_key method = method ++ ": Property violation"

abbrev pub revert_key : String → String
revert_key method = method ++ ": Revert in fuzz function"

-- `strings.Index(method, "fuzz_always_true") == 0`
abbrev pub is_property : String → Bool
is_property method = starts_with method "fuzz_always_true"

abbrev pub is_reverted : LastTxResult → Bool
is_reverted r = r.revert_at_depth == pos 1

abbrev pub output_of : LastTxResult → List ℕ
output_of r = elim r.struct_logger [ none ↦ [] | some tracer ↦ tracer.output ]

-- 32 bytes with another last byte than 1.
abbrev pub is_violation : List ℕ → Bool
is_violation out =
    nat_beq (length out) 32
    && elim (get_elem? out 31) [ none ↦ false | some byte ↦ not (nat_beq byte 1) ]

unfoldable pub report_overflow : LastTxInput → LastTxResult → ResultsMap → ResultsMap
report_overflow desc res r = elim res.overflow [
  | none ↦ r
  | some found ↦
      if is_reverted res
      then r
      else store desc.contract (overflow_key desc.method) (Note.overflow found) r
]

unfoldable pub report_assertion : LastTxInput → LastTxResult → ResultsMap → ResultsMap
report_assertion desc res r =
    if res.assertion_at_depth == negsuc 0
    then r
    else store desc.contract (assertion_key desc.method) Note.blank r

-- The Boolean: whether `Rec` returns `true` here.
unfoldable pub report_property : LastTxInput → LastTxResult → ResultsMap → Bool × ResultsMap
report_property desc res r =
    if is_property desc.method
    then (if is_reverted res
        then (true, store desc.contract (revert_key desc.method) Note.blank r)
        else (if is_violation (output_of res)
            then (true, store desc.contract (violation_key desc.method) Note.blank r)
            else (false, r)))
    else (false, r)

unfoldable pub report : LastTxInput → LastTxResult → ResultsMap → Bool × ResultsMap
report desc res r =
    report_property desc res (report_assertion desc res (report_overflow desc res r))
