-- ===== src/Examples.antt =====
-- The theorems at concrete inputs. `Fixture` is a small installation: one tool, one agent, one
-- permission, one policy and one stored request.
pub mod Fixture
pub mod AtHarness
pub mod AtGates
pub mod AtDomain
pub mod AtStorage
pub mod AtBus
pub mod AtAuth
pub mod AtMigrate
pub mod AtAgents
