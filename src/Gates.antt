-- ===== src/Gates.antt =====
-- internal/harness: the five gates, one module each, and the rule cache that two of them share.
pub mod Cache
pub mod Registry
pub mod Permission
pub mod Policy
pub mod Approval
pub mod Executor
