-- ===== src/Crew/Board.antt =====
-- The crew's board of internal/crew: sprints, tasks, deliverables, comments and the roster.
pub mod Tables
pub mod Work
pub mod Stamp
pub mod Sprints
pub mod Requests
pub mod Steps
pub mod Writes
pub mod Split
pub mod Sound
pub mod Unique
pub mod Settled
pub mod Kept
pub mod Effects
mod Tests
