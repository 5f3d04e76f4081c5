-- ===== src/Tests/Refusals.antt =====
-- A call of a property that cannot be applied, after a transaction that reverted.
use chain_fuzz.Prelude.{
  ℕ, ◌+◌, nat_eq, string_eq, list_eq, int_eq, ◌≡◌, refl, true, false, Option, none, some, [], ◌∷◌,
}
use chain_fuzz.Prelude.Int.{ℤ, pos, negsuc}
use chain_fuzz.Timestamps.{get_current}
use chain_fuzz.ArgPool.{current_timestamp}
use chain_fuzz.Args.{construct_args}
use chain_fuzz.Backend.{LastTxInput}
use chain_fuzz.Commit.{Evm, commit_transaction}
use chain_fuzz.Contracts.{get_random_contract, get_random_method}
use chain_fuzz.Generator.{
  Transaction, arguments, choose_amount, choose_sender, gen_transaction, given_or,
}
use chain_fuzz.Heuristics.{no_flags, gen_timestamp}
use chain_fuzz.Heuristics.Rec.{returns, Session, Setup, rec, attempt}
use chain_fuzz.Heuristics.Reports.{Note, is_property, revert_key}
use chain_fuzz.Heuristics.Rec.Verdict.{noted}
use chain_fuzz.Heuristics.Rec.Refused.{rec-refused}
use chain_fuzz.Tests.Runs.{setup, session}

abbrev refusing : Transaction → Option ℤ → Evm ℕ
refusing tx time = record {
  apply = λ s. record { state = s + 1; tracer = record { output = []; logs = [] }; failed = true };
  restore = λ s _. s;
}

abbrev refusing_setup : Setup ℕ
refusing_setup = record (setup no_flags) { evm = refusing }

abbrev fresh : Session ℕ
fresh = session ("fuzz_always_true" ∷ [])

abbrev after_revert : Session ℕ
after_revert = record fresh {
  backend = record fresh.backend {
    last_tx_res = record {
      output = [];
      revert_at_depth = pos 1;
      assertion_at_depth = negsuc 0;
      overflow = none;
      struct_logger = none;
    };
  };
}

abbrev Tried : Type 0
Tried = Transaction × LastTxInput × Session ℕ

abbrev no_input : LastTxInput
no_input = record {
  contract = "";
  method = "";
  is_const = false;
  ether = pos 0;
  input = [];
  out_args = [];
  sender = 0;
}

abbrev tried_in : Option Tried → Tried
tried_in (some r) = r
tried_in none =
    (record { nonce = 0; to = 0; amount = pos 0; input = []; sender = 0 }, no_input, fresh)

abbrev tried : Option Tried
tried = attempt refusing_setup after_revert

tries : tried ≡ some (tried_in tried)
unfolding attempt gen_timestamp current_timestamp gen_transaction given_or arguments choose_sender
    choose_amount get_random_contract get_random_method construct_args commit_transaction
    get_current
tries = refl

clock_stays :
    gen_timestamp 0 (some 0) after_revert.backend after_revert.env.pool
    ≡ some (some (pos 0), after_revert.backend, after_revert.env.pool)
unfolding gen_timestamp current_timestamp
clock_stays = refl

calls_property : is_property (tried_in tried).1.method ≡ true
unfolding attempt gen_timestamp current_timestamp gen_transaction given_or arguments choose_sender
    choose_amount get_random_contract get_random_method construct_args commit_transaction
    get_current
calls_property = refl

rec-refused_example :
    (s' : Session ℕ) × (rec refusing_setup 0 after_revert ≡ returns (true, s'))
    × (noted (tried_in tried).1.contract (revert_key (tried_in tried).1.method) s'.results
        ≡ some Note.blank)
rec-refused_example =
    rec-refused refusing_setup 0 after_revert (tried_in tried).2 (tried_in tried).0
      (tried_in tried).1 (some (pos 0)) after_revert.backend after_revert.env.pool tries clock_stays
      refl refl calls_property
