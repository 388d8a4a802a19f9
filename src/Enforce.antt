-- ===== src/Enforce.antt =====
-- internal/enforce/enforce.go: unit budgets proposed to a control plane, and sent once approved.
pub mod Plans
pub mod Sending
pub mod Proposal
pub mod Approval
mod Tests
