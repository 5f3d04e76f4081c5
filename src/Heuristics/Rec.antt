-- ===== src/Heuristics/Rec.antt =====
-- `Rec` of utils/heuristics.go: one transaction, what is reported of it, and the retries with half
-- the amount and with another sender. The saved JSON files and the log are output and are left out,
-- and so is `header.GasUsed`, which only go-ethereum reads.
pub mod Agree
pub mod Counts
pub mod Ready
pub mod Refused
pub mod Sent
pub mod Rounds
pub mod Terminates
pub mod Verdict
use Prim.Native.String.{◌++◌}
use text.Mathlib.Text.{starts_with}
use chain_fuzz.Prelude.{
  ℕ, zero, suc, ◌+◌, ◌-◌, ◌/◌, int_eq, string_eq, Bool, true, false, not, ◌&&◌, Option, none, some,
  String, List, [], ◌∷◌, length, get_elem?, ◌==◌, ◌>>=◌, ltb, nat_beq, if◌then◌else◌,
}
use chain_fuzz.Prelude.Int.{ℤ, pos, negsuc, pos_part}
use chain_fuzz.Prelude.Dict.{Dict, lookup, contains, insert}
use chain_fuzz.Values.{GoType, Value}
use chain_fuzz.TypedPools.{Iface}
use chain_fuzz.Args.{Env}
use chain_fuzz.Stats.{add_tx, inc_tx_cnt}
use chain_fuzz.Backend.{Backend, LastTxInput, LastTxResult, Report, Options}
use chain_fuzz.Processor.{Chain}
use chain_fuzz.Commit.{Evm, commit_transaction}
use chain_fuzz.Generator.{Hint, Transaction, World, gen_transaction}
use chain_fuzz.Heuristics.{OptMode, gen_timestamp}
use chain_fuzz.Heuristics.Reports.{
  Note, ResultsMap, with_contract, row, store, overflow_key, assertion_key, violation_key,
  revert_key, is_property, is_reverted, output_of, is_violation, report_overflow, report_assertion,
  report_property, report,
}

-- How a run ends: with a result, in a panic, or not within the fuel.
pub data Outcome {ℓ} (A : Type ℓ) : Type ℓ where
  returns : A → Outcome A
  panics : Outcome A
  out_of_fuel : Outcome A

abbrev pub and_then {ℓ κ} : {A : Type ℓ} {B : Type κ} → Outcome A → (A → Outcome B) → Outcome B
and_then (returns a) f = f a
and_then panics f = panics
and_then out_of_fuel f = out_of_fuel

abbrev pub or_panic {ℓ} : {A : Type ℓ} → Option A → Outcome A
or_panic none = panics
or_panic (some a) = returns a

-- What `Rec` changes through its pointers.
pub record Session (S : Type 0) : Type 0 where
  pub backend : Backend S
  pub env : Env
  pub hint : Hint
  pub results : ResultsMap

-- The statistics, or only their counter.
unfoldable pub count_tx : {S : Type 0} → Bool → LastTxInput → Backend S → Backend S
count_tx gen_statistics desc b = record b {
  stats =
      if gen_statistics
      then add_tx desc.contract desc.method (is_reverted b.last_tx_res) b.stats
      else inc_tx_cnt b.stats;
}

-- `x.Rsh(x, 1)`
abbrev pub rsh : ℤ → ℤ
rsh (pos n) = pos (n / 2)
rsh (negsuc n) = negsuc (n / 2)

-- The items at some places of the pool of big integers.
unfoldable pub halve_items : (ℕ → Bool) → ℕ → List Iface → List Iface
halve_items here i [] = []
halve_items here i (Iface.big_int x ∷ rest) =
    let x' = if here i then rsh x else x in Iface.big_int x' ∷ halve_items here (suc i) rest
halve_items here i (item ∷ rest) = item ∷ halve_items here (suc i) rest

-- What the calls of go-ethereum answer for a transaction at a time, the clock of the machine before
-- a transaction, the snapshot, and the options of the run. An amount is a pointer, and the pool may
-- hold the same one: `is_shared` says at which places.
pub record Setup (S : Type 0) : Type 0 where
  pub sprint : Iface → String
  pub unpack : List GoType → List ℕ → List Value
  pub chain : Chain
  pub world : World S
  pub rand : ℕ → ℕ
  pub evm : Transaction → Option ℤ → Evm S
  pub clock : ℕ → ℕ
  pub snapshot : Option S
  pub options : Options
  pub opt_mode : OptMode
  pub is_shared : Session S → ℕ → Bool

module _ {S : Type 0} (u : Setup S) where
  -- Up to the commit. The error that the commit returns is ignored.
  unfoldable pub attempt : Session S → Option (Transaction × LastTxInput × Session S)
  attempt s = do
    (time, b₁, a₁) ← gen_timestamp (u.clock s.backend.tx_count) u.snapshot s.backend s.env.pool
    (tx, hint, b₂, e₂) ←
        gen_transaction u.world u.rand (some s.hint) b₁ (record s.env { pool = a₁ })
    desc ← b₂.last_tx_in
    (_, pool, b₃) ←
        commit_transaction u.sprint u.unpack u.chain (u.evm tx time) (some tx.to) (some e₂.pool)
          (some u.options) b₂
    a₃ ← pool
    some (
      tx,
      desc,
      record {
        backend = b₃;
        env = record e₂ { pool = a₃ };
        hint = hint;
        results = with_contract desc.contract s.results;
      },
    )

  -- `hint.Amount.Rsh(hint.Amount, 1)` changes the number that the hint, the last input and perhaps
  -- the pool lead to; then the hint gets the last sender. A nil amount or input is a panic.
  unfoldable pub halved : Session S → Option (Session S)
  halved s = do
    amount ← s.hint.amount
    desc ← s.backend.last_tx_in
    let pool = s.env.pool
    let big_ints = record pool.big_ints {
      storage = halve_items (u.is_shared s) 0 pool.big_ints.storage;
    }
    some (record s {
      hint = record s.hint { amount = some (rsh amount); sender = some desc.sender };
      backend = record s.backend { last_tx_in = some (record desc { ether = rsh desc.ether }) };
      env = record s.env { pool = record pool { big_ints = big_ints } };
    })

  abbrev pub without_sender : Session S → Session S
  without_sender s = record s { hint = record s.hint { sender = none } }

  -- What is left of a nested call: its verdict is thrown away.
  abbrev pub discard : Outcome (Bool × Session S) → Outcome (Session S)
  discard r = and_then r (λ (p : Bool × Session S). returns p.1)

  abbrev pub when : Bool → (Session S → Outcome (Session S)) → Session S → Outcome (Session S)
  when true go s = go s
  when false go s = returns s

  abbrev pub is_positive : ℤ → Bool
  is_positive (pos n) = ltb 0 n
  is_positive (negsuc _) = false

  -- The two retries, where `again` is `Rec` one level deeper.
  unfoldable pub retry_half :
      (Session S → Outcome (Bool × Session S)) → Session S → Outcome (Session S)
  retry_half again s = and_then (or_panic (halved s)) (λ s'. discard (again s'))

  unfoldable pub retries :
      (Session S → Outcome (Bool × Session S)) → ℕ → Transaction → Session S → Outcome (Session S)
  retries again depth tx s =
      and_then (when (u.opt_mode.retry_half_ether && is_positive tx.amount) (retry_half again) s) (
        when (u.opt_mode.retry_diff_sender && ltb depth 4)
          (λ s'. discard (again (without_sender s'))))

  -- What `Rec` does after its reports: stop with `true`, retry and return `false`, or return it.
  abbrev pub finish :
      Bool
      → Bool
      → (Session S → Outcome (Session S))
      → Session S
      → Session S
      → Outcome (Bool × Session S)
  finish true reverted again with_reports counted_too = returns (true, with_reports)
  finish false true again with_reports counted_too =
      and_then (again counted_too) (λ (s : Session S). returns (false, s))
  finish false false again with_reports counted_too = returns (false, counted_too)

  -- Whether the reports end the call, the session with the reports, and with the transaction counted.
  abbrev pub verdict : LastTxInput → Session S → Bool
  verdict desc s = (report desc s.backend.last_tx_res s.results).0

  abbrev pub reported : LastTxInput → Session S → Session S
  reported desc s = record s { results = (report desc s.backend.last_tx_res s.results).1 }

  abbrev pub counted : LastTxInput → Session S → Session S
  counted desc s = record (reported desc s) {
    backend = count_tx u.opt_mode.gen_statistics desc s.backend;
  }

  -- After the commit: reports, counts, and retries where the transaction was reverted.
  unfoldable pub conclude :
      (Session S → Outcome (Bool × Session S))
      → ℕ
      → Transaction
      → LastTxInput
      → Session S
      → Outcome (Bool × Session S)
  conclude again depth tx desc s =
      finish (verdict desc s) (is_reverted s.backend.last_tx_res) (retries again depth tx)
        (reported desc s) (counted desc s)

  abbrev pub after_attempt :
      (Transaction → LastTxInput → Session S → Outcome (Bool × Session S))
      → Session S
      → Outcome (Bool × Session S)
  after_attempt go s =
      and_then (or_panic (attempt s))
        (λ (p : Transaction × LastTxInput × Session S). go p.0 p.1 p.2)

  -- `Rec`, with fuel for the depth of the calls.
  unfoldable pub rec_with : ℕ → ℕ → Session S → Outcome (Bool × Session S)
  rec_with zero depth s = out_of_fuel
  rec_with (suc fuel) depth s = after_attempt (conclude (rec_with fuel (suc depth)) depth) s

  -- Each retry halves the amount or goes one level deeper, of at most 4.
  abbrev pub fuel_for : ℕ → ℤ → ℕ
  fuel_for depth amount = suc (pos_part amount + (4 - depth))

  -- `Rec`, with the fuel that its first transaction shows to be enough.
  unfoldable pub rec : ℕ → Session S → Outcome (Bool × Session S)
  rec depth s =
      after_attempt (λ tx. conclude (rec_with (fuel_for depth tx.amount) (suc depth)) depth tx) s
