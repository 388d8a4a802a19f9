-- ===== src/Anomaly.antt =====
-- internal/anomaly: findings that are stored, owned and closed by people.
pub mod Store
pub mod Transition
pub mod Detection
pub mod Lifecycle
pub mod Decisions
pub mod Closed
pub mod Invariant
pub mod Graph
pub mod Rerun
mod Tests
