-- ===== src/Backend.antt =====
-- The state of the fuzzer (utils/backend.go, and `Contract` of utils/contracts.go, `Options` of
-- utils/processor.go): what is known of the deployed contracts, of the last transaction, of the
-- coverage. `S` is go-ethereum's `StateDB`; the receipt of a transaction is stored and never read,
-- and has no field here.
use chain_fuzz.Prelude.{
  ℕ, suc, ◌-◌, Bool, Option, none, String, List, length, get_elem?, ltb, if◌then◌else◌,
}
use chain_fuzz.Prelude.Int.{ℤ}
use chain_fuzz.Prelude.Dict.{Dict}
use chain_fuzz.Values.{GoType, Value}
use chain_fuzz.Stats.{Stats}

-- `s[len(s)-1-k]`, a panic where the index is negative.
unfoldable pub from_top {ℓ} : {A : Type ℓ} → ℕ → List A → Option A
from_top k s = if ltb k (length s) then get_elem? s (length s - suc k) else none

-- The addresses at which a contract has been deployed, and the methods that are fuzzed.
pub record Contract : Type 0 where
  pub addresses : List ℕ
  pub methods : List String

-- One step of the virtual machine, as the tracer of go-ethereum logs it. Words of the stack are
-- unsigned numbers, the top one last.
pub record StructLog : Type 0 where
  pub op : ℕ
  pub pc : ℕ
  pub depth : ℕ
  pub stack : List ℕ
  pub memory : List ℕ

-- What the tracer holds after a transaction.
pub record Tracer : Type 0 where
  pub output : List ℕ
  pub logs : List StructLog

-- The parts of the text that reports an overflow. That text is never empty, so the empty text that
-- stands for no overflow is `none`.
pub record Report : Type 0 where
  pub operand_a : ℕ
  pub op : ℕ
  pub operand_b : ℕ
  pub result : ℕ
  pub expected : ℤ

pub record LastTxInput : Type 0 where
  pub contract : String
  pub method : String
  pub is_const : Bool
  pub ether : ℤ
  pub input : List Value
  pub out_args : List GoType
  pub sender : ℕ

-- A depth is -1 where there was no such operation.
pub record LastTxResult : Type 0 where
  pub output : List ℕ
  pub revert_at_depth : ℤ
  pub assertion_at_depth : ℤ
  pub overflow : Option Report
  pub struct_logger : Option Tracer

pub record Backend (S : Type 0) : Type 0 where
  pub state : S
  pub deployed_contracts : Dict String Contract
  pub contracts_list : List String
  pub last_tx_in : Option LastTxInput
  pub last_tx_res : LastTxResult
  pub opcode_indices : Dict ℕ (Dict ℕ Bool)
  pub stats : Stats
  pub tx_count : ℕ

pub record Options : Type 0 where
  pub update_coverage : Bool
  pub check_deployed_contract : Bool
  pub update_arg_pool : Bool
  pub extract_timestamps : Bool
