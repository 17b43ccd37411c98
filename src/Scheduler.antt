-- ===== src/Scheduler.antt =====
-- pallets/compute-pool-scheduler/src/lib.rs: pools of miners, the tasks that they compute for users who escrow
-- the reward, verification of proofs, disputes, and stakes on pools.
mod Types
mod Scores
mod Outcomes
mod Registry
mod Tasks
mod Hook
mod Tests
pub mod Reserves
pub mod Endings
pub mod Links
pub mod Agreement
pub mod Pools
pub mod Claims
pub mod Disputes
pub mod Submission
pub mod Hooks
pub mod Steps
pub mod Payments
pub mod Overturned
pub mod Ranking
pub mod Lifecycle
pub mod Refinement
pub mod Verdicts
pub mod Deadlines
pub mod Creation
pub mod Refines
unfoldable pub use Types.*
unfoldable pub use Scores.*
unfoldable pub use Outcomes.*
unfoldable pub use Registry.*
unfoldable pub use Tasks.*
unfoldable pub use Hook.*
