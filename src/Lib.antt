-- ===== src/Lib.antt =====
-- DeepBrainChain: the FRAME pallets of the agent economy and of the committee, as functions on their
-- storage.
--
-- The parts and how they meet. A customer reserves the price of a task order (task-mode); a miner
-- attests the result with a deposit that may be challenged (agent-attestation); a confirmed attestation
-- is settled by x402-settlement, which also holds payment intents that a facilitator verifies;
-- zk-compute pays for proofs that a verifier or the off-chain worker accepts; compute-pool-scheduler gives
-- tasks to staked pools, holds their rewards in escrow until a proof is verified, and tells a handler,
-- which agent-attestation implements, when one is completed; committee keeps the members and the stake of
-- those who check machines, and online-committee has three of them verify each machine, by a hash first
-- and an upload later, and slashes by the vote; dbc-price-ocw keeps the average price in which orders,
-- stakes and rents are charged. All but the oracle reserve funds of the same accounts.
--
-- The files.
--   Prelude            tests, lists, results, maps and machine words that the parts share
--   Frame              the parameters from FRAME: the reservable currency with its laws, origins, the
--                      interfaces of the settler and of the handler of completed tasks
--                      (pallets/support/src/traits.rs), sums of deposits over a storage map, and a ledger
--                      at which the laws hold
--   Support            ItemList: pallets/support/src/primitives.rs, the ordered lists; Online:
--                      verify_online.rs and the summary of utils.rs, with Members and Majority; Machines:
--                      the lists of machines in live_machine.rs and verify_online.rs
--   X402               pallets/x402-settlement/src/lib.rs: Escrow (reserves), Tracking, Expiry and Pending
--                      (the list of pending intents and the block hook), Lifecycle, Replay, Settlement,
--                      Refund, Settler (the interface that agent-attestation calls)
--   Zk                 pallets/zk-compute/src/lib.rs: Removal (the queue), Deposits, Verdicts, Claims,
--                      Once, History, Rewards, Unsigned (the calls of the off-chain worker)
--   TaskMode           pallets/task-mode/src/lib.rs: Pricing, Orders, Settlement
--   Attestation        pallets/agent-attestation/src/lib.rs: Deposits, Providers, Verdicts, Once, Handler
--   Scheduler          pallets/compute-pool-scheduler/src/lib.rs. The code: Registry (pools and stakes),
--                      Scores, Tasks, Outcomes (how a task ends), Hook. The agreement of tasks, rewards,
--                      escrows and reserves: Links, Reserves, Agreement, Endings, Pools, Submission, Claims,
--                      Disputes, Hooks. The life of a task: Lifecycle, Refinement, Creation, Verdicts,
--                      Deadlines, Refines. Besides: Payments, Overturned, Ranking
--   Committee          pallets/committee/src: Lists, Standing, Exit
--   OnlineCommittee    pallets/online-committee/src: the calls; Booking (who verifies a machine), with Draw and
--                      Staff; Summaries, with Total; Slash (slashes, reviews and their cancellation), with
--                      Reviews and Members; Steps (histories), with Total, Spent and Once
--   Price              pallets/dbc-price-ocw/src: the calls, with Window, Amounts and Flood
--   Chain              x402-settlement, task-mode and agent-attestation on one ledger
-- In each part, Types, or the parent file where there is none, holds the data, the storage (`State`) and
-- the parameters (`Config`), the parent file holds the calls, Steps the histories of calls with the
-- invariant, Tests the runs.
--
-- How code becomes definitions. A dispatchable `f(origin, args)` is a function of the same name that takes
-- the configuration, the origin, the block number where the code reads it, the arguments and the state,
-- and returns the new state or the error: an error is rolled back whole, so it carries no state. A
-- function whose error is not rolled back, such as `settle_for_attestation` and what a block hook calls,
-- returns its result with the state so far. Where the code would panic, the result is none. A storage map
-- is a function, into `Option` where the code's query is optional; a bounded vector is a list that
-- `try_push` and `try_into` check. Account identifiers, hashes and amounts are natural numbers; the
-- checked and saturating operations have the machine word's greatest value written out (`u32_max`,
-- `u64_max`, `u128_max`), a subtraction that saturates is that of the natural numbers, and an unchecked
-- sum wraps. The block number is a `u32` and a balance a `u128`, as in the runtime. The newest event
-- stands first in the list of events.
--
-- Loops run over the list that the code iterates (the pending intents, the pending tasks, the models of a
-- capability, the booked machines, the pools and the reviews in the order of storage, which an argument
-- gives), so every function is total and none takes fuel.
--
-- Parameters. The currency is arbitrary, with the laws of `Frame.Currency.IsLawful`, which say what the
-- traits document: amounts move between the named balances, and a reserve that is too small gives
-- what it has. Signature verification, the proof verifier, encodings, the price oracle, `Percent` and
-- `Perbill` products and the admin origin are arbitrary functions, with the documented bounds where a
-- theorem needs them.
--
-- The handler of completed tasks and the operations that online-committee calls in other pallets are
-- arbitrary functions on those pallets' state (`OnlineCommittee.Outside`). A byte string that the code only
-- compares is a number.
--
-- Not modelled: weights, storage versions, genesis, event indices, the encodings of storage keys and
-- transactions, the HTTP and JSON code of the price oracle, and the other pallets: online-profile,
-- maintain-committee, rent-machine, terminating-rental and what only they use of support,
-- council-reward, generic-func, the RPC pallets, and the pallets taken over from Substrate (staking,
-- assets, nfts); nor the runtime's composition, the node and the client. A change of a committee stake
-- without its reserve, which goes with a slash in another pallet, is a definition but no step of the
-- committee's histories. zk-compute, compute-pool-scheduler and online-committee are not yet among the
-- pallets of Chain.
pub mod Prelude
pub mod Frame
pub mod X402
pub mod Zk
pub mod TaskMode
pub mod Attestation
pub mod Chain
pub mod Support
pub mod Committee
pub mod OnlineCommittee
pub mod Price
pub mod Scheduler
