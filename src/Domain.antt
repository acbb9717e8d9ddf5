-- ===== src/Domain.antt =====
-- internal/domain: the entities.
pub mod Incident
pub mod Task
pub mod Agent
pub mod ToolCall
pub mod Rules
pub mod Execution
pub mod Audit
pub mod User
pub mod Timeline
pub mod Chain
pub mod Identifier
