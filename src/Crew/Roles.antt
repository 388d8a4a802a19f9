-- ===== src/Crew/Roles.antt =====
-- internal/crew/roles.go and roles.yaml: job descriptions and who decides what.
pub mod Defs
pub mod Table
pub mod Mandate
mod Tests
