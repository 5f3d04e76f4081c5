-- ===== src/Lib.antt =====
-- ChainFuzz: a fuzzer for Ethereum contracts.
--
-- The fuzzer draws arguments for contract calls from an argument pool, runs the transactions on
-- go-ethereum's virtual machine, and reads the trace of each one: for overflows, failed assertions,
-- reverts, coverage, deployed contracts and new values, which go back into the pool.
--
-- The parts, and the files that model them:
--   * Prelude: tests, lists, integers, equality and dictionaries that all parts share. `Option`
--     with `>>=` is a computation that may panic, and `none` is the panic.
--   * Pool (argpool/pool.go): the circular pool, with the key by which `storageMap` knows an item
--     as a parameter. Pool/Valid has its invariant, Pool/Cycle what its rounds return.
--   * TypedPools (argpool/int8pool.go, int16pool.go, int32pool.go, int64pool.go, bytes32pool.go,
--     stringpool.go): the same pool at one type each, and the guarded `Add`. TypedPools/Unique:
--     the keys of its pool.
--   * Timestamps (argpool/timestamppool.go): the sorted pool that drives the clock.
--     Timestamps/Order is about `Sort`, Timestamps/Rounds about `Next` and `AllPassed`.
--   * ArgPool (argpool/argpool.go): the record of all pools and its operations `add_…` (`Add…`)
--     and `next_…` (`Next…`). ArgPool/Valid: the invariant. ArgPool/Sessions: whole sequences of
--     operations. ArgPool/Globals: the package variables `argPool` and `pools`.
--   * Stats (utils/statistics.go): the counters. Stats/Counts compares them with a history.
--   * Values (utils/types.go): the Go types and values that `reflect` hands to the program.
--   * Args (utils/args.go): `fillRecursively`, `updateRecursively`, `ConstructArgs`,
--     `UpdatePool`, `InitArgPool`. Args/Typing and Args/Booleans: the values that are made.
--     Args/Harvest: the values that are put back. Args/Draws and Args/Keeps: the items that stay
--     in the pool. Args/Refill: what is put back. Args/Init and Args/Powers: the first filling of
--     the pool.
--   * Bytecode (utils/contracts.go): `GetSwarmHash`, `ReplacePlaceHolders`, `GetOpcodeIndices`,
--     with Bytecode/SwarmHash and Bytecode/Placeholders.
--   * Backend (utils/backend.go): the state that a transaction leaves.
--   * Processor (utils/processor.go): `processLogs`, its loop in Processor/Loop. Processor/Turn
--     and Processor/Whole take a run apart; Processor/Arithmetic and Processor/Overflows are
--     about the reported overflow, Processor/Depths about the depths of assertions and reverts.
--     Processor/Calls is about the call stack, Processor/Coverage about what is marked,
--     Processor/Steps and Processor/Total about runs without a panic.
--   * Commit (utils/backend.go): `CommitTransaction`, its success in Commit/Outcome, what it leaves to
--     be read in Commit/Findings.
--   * Contracts (utils/contracts.go, and `ContractConfig` of utils/utils.go): contracts and
--     methods that the configuration ignores, the random choice, recognition by hash.
--     Contracts/Delete, Ignore and Config are about what is left, Hashes and Choice about the
--     other two.
--   * Generator (utils/generator.go): `GenTransaction`, with the loop over amounts in
--     Generator/Amount and Generator/Endless.
--   * Heuristics (utils/heuristics.go, utils/snapshots.go): options, clock, snapshot and revert,
--     with Heuristics/Flags and Heuristics/Clock.
--   * Heuristics/Reports (utils/heuristics.go): what `Rec` reports of a transaction.
--   * Heuristics/Rec (utils/heuristics.go): `Rec`, one transaction with its reports and retries,
--     over a record of settings. Rec/Rounds is about one round, Rec/Agree and Rec/Terminates
--     about the recursion, Rec/Sent about the transaction that is committed, Rec/Verdict and
--     Rec/Refused about what it returns, Rec/Counts about how many transactions it commits.
--   * Metadata (utils/utils.go): the metadata of a project, its configuration, and file names.
--   * Artifacts (utils/contracts.go): the package variables `ContractHashes`,
--     `DeployedBytecodes`, `ABIMap`, `Payable` and `Libraries`, and what fills and reads them.
--     Artifacts/Abis is about `GetABIMap`, Artifacts/Libraries about the libraries it learns of.
--   * Accounts (utils/accounts.go): the accounts with their keys. Accounts/Roundtrip is about the
--     maps between keys and addresses.
--   * Transactions (utils/transactions.go): the deployment transactions. Transactions/Payload and
--     Transactions/Amounts are about the texts that are parsed, Transactions/Signed about a whole
--     conversion.
--   * Startup (utils/backend.go): `NewBackend`, which composes Accounts, Transactions, Commit,
--     Args, Contracts and Artifacts. Startup/Listing is about the list of contracts, Startup/Bare
--     about the deployments, Startup/Well about the backend that is returned, Startup/Pool about
--     the argument pool; Processor/Deployed has what a trace leaves of the deployed contracts.
--   * Fuzzer (fuzzer/fuzzer.go): the flags, the first transactions, the main loop and the
--     coverage of `fuzz`, with Fuzzer/Limit and Fuzzer/Corner. Fuzzer/Drawn is about
--     the transaction that the main loop asks for. Fuzzer/Ready is about the argument pool during
--     a run; it rests on Heuristics/Rec/Ready, Generator/Refill, Commit/Refill and
--     Processor/Refill.
--   * Tests: concrete runs, and the properties applied to them.
--
-- A machine integer is its bit pattern, a number below 2^w; an address is a number of 160 bits; a
-- `*big.Int` is an integer of any size. Maps are association lists.
--
-- Parameters, for code that is not in the repository: the text of `fmt.Sprintf` for an address or a
-- big integer, the random numbers of `math/rand`, the clock, the unpacking of an output by the ABI,
-- the trace of the virtual machine, the disassembler, the address of a deployed contract.
-- In Commit also applying a transaction and the snapshots of the state; in Generator the ABI, the
-- keys and balances of accounts, and the packing of arguments. In Startup the files of a project as
-- the JSON decoder reads them, and keys, signatures and balances.
--
-- Fuel: the loop of `InitArgPool` over the powers of two below 10^18 makes 60 rounds, and 61 are
-- given. The loop that draws an amount has one round of the pool of big integers: what has not come
-- up by then never does, and the panic of the model stands there for a loop without end. A call of
-- `Rec` has the amount of its transaction and the levels up to 4 for its retries, and an outcome of
-- its own says that fuel ran out. All other loops go over a list or count to a bound.
--
-- Not modelled: the parsing of the command line, profiles and printing (fuzzer/fuzzer.go), logs and
-- saved JSON files, reading and decoding of files, and the set-up of go-ethereum's chain
-- (utils/backend.go). The order in which Go visits a map is the order of the association list.
pub mod Prelude
pub mod Accounts
pub mod Transactions
pub mod Pool
pub mod TypedPools
pub mod Timestamps
pub mod ArgPool
pub mod Startup
pub mod Stats
pub mod Values
pub mod Args
pub mod Bytecode
pub mod Backend
pub mod Processor
pub mod Commit
pub mod Contracts
pub mod Fuzzer
pub mod Generator
pub mod Heuristics
pub mod Metadata
pub mod Artifacts
pub mod Tests
