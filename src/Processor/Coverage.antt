-- ===== src/Processor/Coverage.antt =====
-- What the coverage of `processLogs` (utils/processor.go) records.
use chain_fuzz.Prelude.{
  ℕ, nat_eq, ◌≡◌, refl, ap, Bool, true, false, ◌&&◌, ◌||◌, ◌==◌, Option, none, some, [], >>=-some,
  arith,
}
use chain_fuzz.Prelude.Dict.{Dict, lookup, insert, contains, lookup-insert, contains-insert}
use chain_fuzz.Backend.{StructLog}
use chain_fuzz.Processor.{CallStack, follow_call, mark_covered}
use chain_fuzz.Processor.Loop.{Progress, cover}
use chain_fuzz.Processor.Calls.{Follows, Stands, top-Stands, follow-Stands}

-- `OpcodeIndices[address][pc]`
unfoldable pub is_covered : ℕ → ℕ → Dict ℕ (Dict ℕ Bool) → Bool
is_covered address pc m = elim (lookup address m) [ none ↦ false | some pcs ↦ contains pc pcs ]

-- A mark covers what it names, and nothing is lost or added besides.
pub is_covered-mark_covered :
    (address pc a p : ℕ) (m : Dict ℕ (Dict ℕ Bool))
    → is_covered a p (mark_covered address pc m)
      ≡ (((address == a) && (pc == p)) || is_covered a p m)
unfolding is_covered mark_covered
is_covered-mark_covered address pc a p m =
    let pcs : Dict ℕ Bool = elim (lookup address m) [ none ↦ [] | some pcs ↦ pcs ] in
    ground (
      arith,
      lookup-insert address a (insert pc true pcs) m,
      contains-insert pc p true pcs,
      λ (e : address ≡ a). ap (λ k. lookup k m) e,
    )

marks :
    (x to pc : ℕ) (m : Dict ℕ (Dict ℕ Bool))
    → x ≡ to
    → is_covered to pc (mark_covered x pc m) ≡ true
marks x to pc m h = ground (arith, is_covered-mark_covered x pc to pc m)

keeps :
    (x pc a p : ℕ) (m : Dict ℕ (Dict ℕ Bool))
    → is_covered a p m ≡ true
    → is_covered a p (mark_covered x pc m) ≡ true
keeps x pc a p m h = ground (arith, is_covered-mark_covered x pc a p m)

module _ (base to : ℕ) where
  -- Before the first log the called contract is alone on the call stack, and the log is at the depth
  -- of the start; later the stack is that of the log before.
  abbrev pub Before : Option StructLog → StructLog → CallStack → Type 0
  Before none log calls = Stands base to log.depth calls × (log.depth ≡ base)
  Before (some prev) log calls = Stands base to prev.depth calls × Follows base prev log

  called :
      (prev : Option StructLog) (log : StructLog) (calls : CallStack)
      → Before prev log calls
      → (calls' : CallStack) × (follow_call prev log calls ≡ some calls')
        × Stands base to log.depth calls'
  unfolding follow_call
  called none log calls h = (calls, refl, h.0)
  called (some prev) log calls h = follow-Stands base to prev log h.1 h.0

  -- What `cover` does to a state.
  pub record Covered (log : StructLog) (s s' : Progress) : Type 0 where
    pub pool : s'.pool ≡ s.pool
    pub stands : Stands base to log.depth s'.calls
    pub marked : log.depth ≡ base → is_covered to log.pc s'.opcode_indices ≡ true
    pub kept :
        (a p : ℕ) → is_covered a p s.opcode_indices ≡ true → is_covered a p s'.opcode_indices ≡ true

  pub cover-Covered :
      (prev : Option StructLog) (log : StructLog) (s : Progress)
      → Before prev log s.calls
      → (s' : Progress) × (cover prev log s ≡ some s') × Covered log s s'
  unfolding cover
  cover-Covered prev log s h =
      let (calls, followed, stands) = called prev log s.calls h in
      let (x, on_top, is_to) = top-Stands base to stands in
      (
        record s { calls = calls; opcode_indices = mark_covered x log.pc s.opcode_indices },
        >>=-some _ followed (>>=-some _ on_top refl),
        record {
          pool = refl;
          stands = stands;
          marked = λ at. marks x to log.pc s.opcode_indices (is_to at);
          kept = λ a p. keeps x log.pc a p s.opcode_indices;
        },
      )
