-- ===== src/Processor.antt =====
-- Reading the trace of a transaction (utils/processor.go): overflows, failed assertions, reverts,
-- coverage, deployments and timestamps. `none` is a panic.
pub mod Loop
pub mod Turn
pub mod Whole
pub mod Depths
pub mod Deployed
pub mod Refill
pub mod Arithmetic
pub mod Overflows
pub mod Calls
pub mod Coverage
pub mod Steps
pub mod Total
use chain_fuzz.Prelude.{
  ℕ, nat_eq, string_eq, int_eq, suc, ◌+◌, ◌-◌, ◌*◌, ◌^◌, ◌%◌, Bool, true, false, not, ◌&&◌, ◌||◌,
  ◌==◌, Option, none, some, String, List, [], ◌∷◌, ◌++◌, length, take, ltb, nat_beq, ◌>>=◌,
  if◌then◌else◌,
}
use chain_fuzz.Prelude.Int.{ℤ, pos, negsuc, sub_ℕ}
use chain_fuzz.Prelude.Dict.{Dict, lookup, insert}
use chain_fuzz.Values.{GoType, Value}
use chain_fuzz.TypedPools.{Iface}
use chain_fuzz.ArgPool.{ArgPool, add_timestamp}
use chain_fuzz.Args.{update_pool}
use chain_fuzz.Bytecode.{Text, hex, get_swarm_hash}
use chain_fuzz.Backend.{
  from_top, Contract, StructLog, Tracer, Report, LastTxInput, LastTxResult, Backend, Options,
}

-- The operation codes of the virtual machine that the program tests for.
abbrev pub add_op : ℕ
add_op = 0x01

abbrev pub mul_op : ℕ
mul_op = 0x02

abbrev pub sub_op : ℕ
sub_op = 0x03

abbrev pub exp_op : ℕ
exp_op = 0x0a

abbrev pub return_op : ℕ
return_op = 0xf3

abbrev pub revert_op : ℕ
revert_op = 0xfd

abbrev pub assert_op : ℕ
assert_op = 0xfe

-- `operators`: the exact result of an operation on integers.
unfoldable pub operators : ℕ → Option (ℕ → ℕ → ℤ)
operators op =
    if nat_beq op sub_op
    then some (λ a b. sub_ℕ a b)
    else (if nat_beq op add_op
        then some (λ a b. pos (a + b))
        else (if nat_beq op mul_op
            then some (λ a b. pos (a * b))
            else (if nat_beq op exp_op then some (λ a b. pos (a ^ b)) else none)))

abbrev pub earliest_time : ℕ
earliest_time = 1420070400

abbrev pub latest_time : ℕ
latest_time = 1735689600

-- The values of a stack that look like a time of 2015 to 2024 go into the argument pool. A call on
-- a nil pool is a panic.
unfoldable pub extract_timestamps : List ℕ → Option ArgPool → Option (Option ArgPool)
extract_timestamps [] pool = some pool
extract_timestamps (val ∷ vals) pool =
    let next = (do a ← pool; extract_timestamps vals (some (add_timestamp val a))) in
    let rest = extract_timestamps vals pool in
    if ltb val (2 ^ 64) && (ltb earliest_time val && ltb val latest_time) then next else rest

-- The first operation whose result on the next stack is not the exact one. `rest` holds the logs
-- after this one: there is none after running out of gas.
unfoldable pub check_overflow : StructLog → List StructLog → Option Report → Option (Option Report)
check_overflow log rest (some report) = some (some report)
check_overflow log rest none = elim (operators log.op) [
  | none ↦ some none
  | some exact ↦ do
    a ← from_top 0 log.stack
    b ← from_top 1 log.stack
    elim rest [
      | [] ↦ some none
      | after ∷ _ ↦ do
        result ← from_top 0 after.stack
        let expected = exact a b
        some (
            if pos result == expected
            then none
            else some (record {
              operand_a = a;
              op = log.op;
              operand_b = b;
              result = result;
              expected = expected;
            }))
    ]
]

-- `if d == -1 || d > depth { d = depth }` at the operation that is looked for.
unfoldable pub least_depth : ℕ → StructLog → ℤ → ℤ
least_depth op log (pos d) = if nat_beq log.op op && ltb log.depth d then pos log.depth else pos d
least_depth op log (negsuc n) = if nat_beq log.op op then pos log.depth else negsuc n

-- `callStack`: pointers to addresses, `tx.To()` of a deployment being nil.
abbrev pub CallStack : Type 0
CallStack = List (Option ℕ)

unfoldable pub push : Option ℕ → CallStack → CallStack
push address c = c ++ address ∷ []

unfoldable pub top : CallStack → Option (Option ℕ)
top c = from_top 0 c

unfoldable pub pop : CallStack → Option CallStack
pop c = if nat_beq (length c) 0 then none else some (take (length c - 1) c)

-- `common.BigToAddress`: the low 20 bytes of a word.
abbrev pub big_to_address : ℕ → ℕ
big_to_address word = word % 2 ^ 160

-- The call stack after the step from the log before to this one.
unfoldable pub follow_call : Option StructLog → StructLog → CallStack → Option CallStack
follow_call none log c = some c
follow_call (some prev) log c =
    if ltb prev.depth log.depth
    then (do callee ← from_top 1 prev.stack; some (push (some (big_to_address callee)) c))
    else (if ltb log.depth prev.depth then pop c else some c)

-- `m[address][pc] = true`, the inner map made where it is missing.
unfoldable pub mark_covered : ℕ → ℕ → Dict ℕ (Dict ℕ Bool) → Dict ℕ (Dict ℕ Bool)
mark_covered address pc m =
    insert address (insert pc true (elim (lookup address m) [ none ↦ [] | some pcs ↦ pcs ])) m

-- A contract is appended under its name, with one more address.
unfoldable pub add_deployed : String → ℕ → Dict String Contract → Dict String Contract
add_deployed name address m =
    let known : Contract = elim (lookup name m) [
      | none ↦ record { addresses = []; methods = [] }
      | some c ↦ c
    ] in
    insert name (record known { addresses = known.addresses ++ address ∷ [] }) m

-- What go-ethereum and the metadata answer: the name under which a swarm hash is known
-- (`GetContractNameByHash`), and the address of the contract that the transaction deploys; `none`
-- is a panic.
pub record Chain : Type 0 where
  pub name_of_hash : Text → Option String
  pub deployed_address : Option ℕ

unfoldable pub detect_deployment :
    Chain → Bool → StructLog → Dict String Contract → Option (Dict String Contract)
detect_deployment chain check log m =
    if not check || not (nat_beq log.op return_op) then some m else (do
      found ← get_swarm_hash (hex log.memory)
      elim found [
        | none ↦ some m
        | some hash ↦ do
          name ← chain.name_of_hash hash
          address ← chain.deployed_address
          some (add_deployed name address m)
      ])
