-- ===== src/Finops.antt =====
-- internal/finops: what an applied option does, and the supervisor's pass over a sprint's options.
pub mod Apply
pub mod Rank
pub mod Routing
pub mod Supervise
pub mod Pass
pub mod Console
pub mod Effects
pub mod Applying
pub mod Chosen
pub mod Carrying
pub mod Groups
pub mod Deciding
pub mod Passing
pub mod Supervised
pub mod Answered
pub mod Reach
pub mod Ranked
pub mod Marking
pub mod Stamps
pub mod Stamped
pub mod Restraint
mod Tests
