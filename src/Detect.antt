-- ===== src/Detect.antt =====
-- internal/detect/detect.go: the irregular days of one series of spend.
pub mod Series
pub mod Median
pub mod Coalesce
pub mod Search
pub mod Kept
pub mod Middle
pub mod Floor
mod Tests
