-- ===== src/Crew/Options.antt =====
-- internal/crew/options.go and answer.go: the options of a deliverable, from the block that names
-- them to the answer that settles them.
pub mod Table
pub mod Fence
pub mod Block
pub mod Answer
pub mod Marks
pub mod Gate
pub mod Choice
pub mod Rows
pub mod Settle
pub mod Reads
pub mod Saved
mod Tests
