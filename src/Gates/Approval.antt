-- ===== src/Gates/Approval.antt =====
-- internal/harness/approval.go: gate four, which decides whether a human's ruling may be applied.
-- A method that mutates the request returns the new one; each reading of the clock is an argument.
pub mod Powers
use aegisops_ai.Base.{
  ℕ, ◌+◌, ◌-◌, Bool, true, false, not, String, Option, none, some, if◌then◌else◌, ltb, ◌==◌,
}
use aegisops_ai.Shared.{Uid, Time}
use aegisops_ai.Domain.ToolCall.{
  Risk, is_forbidden, Decision, awaiting_approval, rejected, expired, Note, written, nobody_ruled,
  ToolCallRequest, deny, approve,
}
use aegisops_ai.Domain.User.{Role}
use aegisops_ai.Rbac.{RbacPermission, approval_permission_for, can}

pub data ApprovalDecision : Type 0 where
  approves rejects : ApprovalDecision
  other : String → ApprovalDecision

unfoldable pub ruling_valid : ApprovalDecision → Bool
ruling_valid (other _) = false
ruling_valid _ = true

unfoldable pub is_reject : ApprovalDecision → Bool
is_reject rejects = true
is_reject _ = false

pub record Approver : Type 0 where
  pub user_id : Uid
  pub email : String
  pub role : Role

pub data ApprovalCode : Type 0 where
  not_pending too_late insufficient_authority forbidden_action policy_changed : ApprovalCode

unfoldable pub is_awaiting : Decision → Bool
is_awaiting awaiting_approval = true
is_awaiting _ = false

-- Expired: `now.Sub(req.CreatedAt) > ttl`; a negative difference is below every ttl, as is 0.
unfoldable pub has_expired : ℕ → Time → ToolCallRequest → Bool
unfolding is_awaiting
has_expired ttl now req =
    if not (is_awaiting req.decision) then false else ltb ttl (now - req.created_at)

unfoldable pub expires_at : ℕ → ToolCallRequest → Time
expires_at ttl req = req.created_at + ttl

-- The authority check on the permission that the tier needs.
unfoldable pub approve_with :
    Time
    → Approver
    → Note
    → ToolCallRequest
    → Option RbacPermission
    → ToolCallRequest × Option ApprovalCode
approve_with now by note req none = (req, some insufficient_authority)
approve_with now by note req (some needed) =
    if not (can by.role needed)
    then (req, some insufficient_authority)
    else (approve now by.user_id note req, none)

-- Rule: `now` is read by the expiry check, `later` by the stamp.
unfoldable pub rule :
    ℕ
    → Time
    → Time
    → ApprovalDecision
    → Approver
    → Note
    → ToolCallRequest
    → ToolCallRequest × Option ApprovalCode
rule ttl now later decision by note req =
    if not (ruling_valid decision)
    then (req, some not_pending)
    else if not (is_awaiting req.decision)
    then (req, some not_pending)
    else if has_expired ttl now req
    then (req, some too_late)
    else if is_reject decision
    then (
      record req {
        decision = rejected;
        decided_by = some by.user_id;
        decided_at = some later;
        decision_note = note;
      },
      none,
    )
    else if is_forbidden req.risk
    then (req, some forbidden_action)
    else approve_with later by note req (approval_permission_for req.risk)

-- Expire.
unfoldable pub expire : ℕ → Time → Time → ToolCallRequest → ToolCallRequest × Bool
expire ttl now later req =
    if not (has_expired ttl now req)
    then (req, false)
    else (deny later expired nobody_ruled req, true)
