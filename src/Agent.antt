-- ===== src/Agent.antt =====
-- internal/agent: the program on each protected server.
pub mod Action
pub mod Host
pub mod Verify
pub mod Policy
pub mod Audit
pub mod Spool
pub mod Deployment
pub mod Reports
pub mod Cycle
pub mod Commands
