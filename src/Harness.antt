-- ===== src/Harness.antt =====
-- internal/harness/harness.go: the five gates assembled. `World` is the state that the harness reads
-- and writes, `Steps` its ports, `Pipeline` and `Rulings` the handlers; the other modules prove.
pub mod World
pub mod Steps
pub mod Pipeline
pub mod Rulings
pub mod Calls
pub mod Rows
pub mod Authorised
pub mod Frame
pub mod Account
pub mod Redelivery
pub mod Subscribed
pub mod Approved
