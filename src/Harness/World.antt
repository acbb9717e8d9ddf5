-- ===== src/Harness/World.antt =====
-- The state of the harness and of what stands behind its ports, and the environment it runs in.
-- Each call of a port takes one step; what the outside answers at a step (a clock reading, a fresh
-- identifier, the rules in the database, whether a write fails) is a function of the step.
use aegisops_ai.Base.{ℕ, Bool, String, List, Option}
use aegisops_ai.Shared.{Uid, Time}
use aegisops_ai.Domain.ToolCall.{ToolCallRequest, Note, Decision, Risk}
use aegisops_ai.Domain.Rules.{Permission, Policy}
use aegisops_ai.Domain.Execution.{Execution}
use aegisops_ai.Domain.Timeline.{EventType}
use aegisops_ai.Domain.Audit.{Outcome}
use aegisops_ai.Gates.Cache.{Cache}
use aegisops_ai.Gates.Registry.{Host}
use aegisops_ai.Gates.Permission.{Permissions}
use aegisops_ai.Gates.Policy.{Policies, Autonomy}
use aegisops_ai.Gates.Approval.{ApprovalCode}
use aegisops_ai.Gates.Executor.{Executor, ToolCode, ToolInvocation}

-- The row of an agent, as far as the harness reads it.
pub record AgentRow : Type 0 where
  pub kind : String
  pub enabled : Bool

pub record Env : Type 0 where
  pub host : Host
  pub executor : Executor
  pub autonomy : Autonomy
  pub rule_ttl : ℕ
  pub approval_ttl : ℕ
  pub clock : ℕ → Time
  pub fresh_id : ℕ → Uid
  pub tool : ℕ → ToolCode
  pub list_permissions : ℕ → Option (List Permission)
  pub list_policies : ℕ → Option (List Policy)
  -- `none` where the harness was built without an agent repository; the inner `none` is an error
  pub agents : Option (ℕ → Uid → Option AgentRow)
  pub get_fails : ℕ → Bool
  pub update_fails : ℕ → Bool
  pub save_fails : ℕ → Bool
  pub append_fails : ℕ → Bool
  pub list_fails : ℕ → Bool
  -- the entry cannot be built or written
  pub event_fails : ℕ → Bool
  pub publish_fails : ℕ → Bool
  pub has_audit : Bool
  pub has_incidents : Bool
  pub has_bus : Bool

-- A ledger entry, as record builds it, without its redacted parameters, request identifier and
-- build version.
pub record LedgerEntry : Type 0 where
  pub id : Uid
  pub occurred_at : Time
  pub actor_id : Uid
  pub actor_name : String
  pub tool : String
  pub action : String
  pub tool_call_id : Uid
  pub incident_id : Uid
  pub outcome : Outcome
  pub reason : Note
  pub execution : Option Execution
  pub failed : Bool

pub record TimelineEntry : Type 0 where
  pub incident_id : Uid
  pub type_of : EventType
  pub actor_id : Uid
  pub actor_name : String
  pub tool_call_id : Uid
  pub decision : Decision
  pub risk : Risk

pub data Topic : Type 0 where
  approval_required approval_granted approval_denied tool_executed tool_rejected : Topic

pub record Published : Type 0 where
  pub topic : Topic
  pub incident_id : Uid
  pub tool_call_id : Uid
  pub tool : String
  pub action : String
  pub agent_id : Uid

pub record World : Type 0 where
  pub step : ℕ
  pub permissions : Cache Permissions
  pub policies : Cache Policies
  -- the tables tool_calls, executions and audit_logs, newest entry last
  pub calls : List ToolCallRequest
  pub executions : List Execution
  pub ledger : List LedgerEntry
  -- entries whose write failed, which the log reports
  pub lost : List LedgerEntry
  pub timeline : List TimelineEntry
  pub published : List Published
  -- the calls of tools, newest first
  pub invoked : List ToolInvocation

-- An error that a handler returns.
pub data Failure : Type 0 where
  approval_error : ApprovalCode → Failure
  harness_error : Failure

-- The Result of harness.go, with the error returned beside it.
pub record Result : Type 0 where
  pub request : ToolCallRequest
  pub execution : Option Execution
  pub reason : Note
  pub failure : Option Failure
