-- ===== src/Agents.antt =====
-- internal/agents: the specialists, what they share, and the orchestrator that runs them.
pub mod Program
pub mod Evidence
pub mod Wording
pub mod World
pub mod Specialists
pub mod Orchestrator
pub mod Investigation
pub mod Announced
pub mod Admission
