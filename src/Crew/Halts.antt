-- ===== src/Crew/Halts.antt =====
-- internal/crew/halt.go and the states of the roster (roster.go): a desk's halt suspends its active
-- analysts, and its lifting brings back the ones that it suspended.
pub mod Desk
pub mod Loops
pub mod Lists
pub mod Lifted
pub mod RoundTrip
pub mod Left
mod Tests
