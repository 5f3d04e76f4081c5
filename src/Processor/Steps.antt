-- ===== src/Processor/Steps.antt =====
-- The parts of one turn of `processLogs` (utils/processor.go) on the traces that the virtual
-- machine makes.
use chain_fuzz.Prelude.{
  ℕ, ◌^◌, not, ◌||◌, nat_beq, int_eq, nat_eq, string_eq, ◌≡◌, refl, Bool, true, ◌&&◌, Option, none,
  some, String, List, [], ◌∷◌, Bool-cases, Option-cases, arith, ltb, inl, inr, ◌⊎◌,
}
use chain_fuzz.ArgPool.{ArgPool, add_timestamp}
use chain_fuzz.Bytecode.{Text, hex, get_swarm_hash}
use chain_fuzz.Backend.{from_top, StructLog, Report, Contract}
use chain_fuzz.Prelude.Int.{ℤ}
use chain_fuzz.Prelude.Dict.{Dict}
use chain_fuzz.Processor.{
  extract_timestamps, earliest_time, latest_time, add_deployed, check_overflow, operators, Chain,
  return_op, detect_deployment,
}
use chain_fuzz.Processor.Arithmetic.{is_arith, exact_iff, check_exact, check_other}
use chain_fuzz.Processor.Calls.{Follows}

abbrev pub HasResult : List StructLog → Type 0
HasResult [] = Unit
HasResult (m ∷ _) = (r : ℕ) × (from_top 0 m.stack ≡ some r)

-- An arithmetic operation has two words on the stack, and the log after it has one.
abbrev pub Operands : StructLog → List StructLog → Type 0
Operands log rest =
    is_arith log.op ≡ true
    → (a b : ℕ) × (from_top 0 log.stack ≡ some a) × (from_top 1 log.stack ≡ some b) × HasResult rest

-- Where a RETURN shows a swarm hash in the memory, the hash is known and the transaction has deployed
-- a contract.
abbrev pub IsReadable : Chain → StructLog → Type 0
IsReadable chain log =
    log.op ≡ return_op
    → (get_swarm_hash (hex log.memory) ≡ some none)
      ⊎ ((hash : Text) × (name : String) × (address : ℕ) × (get_swarm_hash (hex log.memory)
            ≡ some (some hash))
          × (chain.name_of_hash hash ≡ some name)
          × (chain.deployed_address ≡ some address))

-- The first log is at the base depth, each later one follows the log before it.
abbrev pub Legal : ℕ → Option StructLog → StructLog → Type 0
Legal base none log = log.depth ≡ base
Legal base (some prev) log = Follows base prev log

abbrev pub IsTrace : Chain → ℕ → Option StructLog → List StructLog → Type 0
IsTrace chain base prev [] = Unit
IsTrace chain base prev (log ∷ rest) =
    Legal base prev log
    × Operands log rest
    × IsReadable chain log
    × IsTrace chain base (some log) rest

pub extract_total :
    (vals : List ℕ) (a : ArgPool)
    → (a' : ArgPool) × (extract_timestamps vals (some a) ≡ some (some a'))
unfolding extract_timestamps
extract_total [] a = (a, refl)
extract_total (val ∷ vals) a =
    elim (Bool-cases (ltb val (2 ^ 64) && (ltb earliest_time val && ltb val latest_time))) [
      | inl time ↦ let (a', e) = extract_total vals (add_timestamp val a) in (a', rw time e)
      | inr other ↦ let (a', e) = extract_total vals a in (a', rw other e)
    ]

check_last :
    (log : StructLog) (exact : ℕ → ℕ → ℤ) (a b : ℕ)
    → operators log.op ≡ some exact
    → from_top 0 log.stack ≡ some a
    → from_top 1 log.stack ≡ some b
    → check_overflow log [] none ≡ some none
unfolding check_overflow
check_last log exact a b is ta tb = rw (is, check_overflow) (rw (ta, tb))

check_first :
    (log : StructLog) (rest : List StructLog) (exact : ℕ → ℕ → ℤ) (a b : ℕ)
    → operators log.op ≡ some exact
    → from_top 0 log.stack ≡ some a
    → from_top 1 log.stack ≡ some b
    → HasResult rest
    → (found : Option Report) × (check_overflow log rest none ≡ some found)
check_first log [] exact a b is ta tb h = (none, check_last log exact a b is ta tb)
check_first log (m ∷ rest) exact a b is ta tb (r, tr) =
    (_, check_exact log m rest exact a b r is ta tb tr)

pub check_total :
    (log : StructLog) (rest : List StructLog) (found : Option Report)
    → Operands log rest
    → (found' : Option Report) × (check_overflow log rest found ≡ some found')
check_total log rest (some report) h = (some report, unfold check_overflow in refl)
check_total log rest none h = elim (Option-cases (operators log.op)) [
  | inl other ↦ (none, check_other log rest other)
  | inr (exact, is) ↦
      let (a, b, ta, tb, result) =
        h (exact_iff log.op 0 0 exact is (omega arith) (omega arith)).0 in
      check_first log rest exact a b is ta tb result
]

pub detect_total :
    (chain : Chain) (check : Bool) (log : StructLog) (m : Dict String Contract)
    → IsReadable chain log
    → (m' : Dict String Contract) × (detect_deployment chain check log m ≡ some m')
unfolding detect_deployment
detect_total chain check log m h = elim (Bool-cases (not check || not (nat_beq log.op return_op))) [
  | inl skip ↦ (m, rw skip refl)
  | inr look ↦ elim (h (ground arith)) [
    | inl nothing ↦ (m, rw look (rw nothing refl))
    | inr (hash, name, address, is, named, deployed) ↦
        (add_deployed name address m, rw look (rw (is, named, deployed) refl))
  ]
]
