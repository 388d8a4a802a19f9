-- ===== src/Crew.antt =====
-- internal/crew: the roles that decide and the board of work they decide about.
pub mod Roles
pub mod Board
pub mod Halts
pub mod Options
