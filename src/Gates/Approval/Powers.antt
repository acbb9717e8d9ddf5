-- ===== src/Gates/Approval/Powers.antt =====
-- Whose ruling is applied, to which requests, and what it makes of them.
use aegisops_ai.Base.{ℕ, ◌≤◌, ◌+◌, ◌≡◌, refl, ◌↔◌, true, false, none, some, arith, if◌then◌else◌}
use aegisops_ai.Shared.{Time}
use aegisops_ai.Domain.ToolCall.{
  Risk, forbidden, is_forbidden, awaiting_approval, rejected, Note, ToolCallRequest, approve,
}
use aegisops_ai.Domain.User.{Role, can_approve}
use aegisops_ai.Rbac.{approval_permission_for, can_approve_risk}
use aegisops_ai.Rbac.Authority.{can_approve_risk-eq-can_approve}
use aegisops_ai.Gates.Approval.{
  approves, rejects, Approver, ApprovalCode, ruling_valid, is_reject, is_awaiting, has_expired,
  approve_with, rule, expire,
}

-- The conditions under which an approval is applied.
pub record MayApprove (ttl : ℕ) (now : Time) (by : Approver) (req : ToolCallRequest) : Type 0 where
  pub open_ : req.decision ≡ awaiting_approval
  pub timely : now ≤ req.created_at + ttl
  pub empowered : can_approve by.role req.risk ≡ true

approve_with_lem :
    (now : Time) (by : Approver) (note : Note) (req : ToolCallRequest)
    → approve_with now by note req (approval_permission_for req.risk) ≡ (
        if can_approve_risk by.role req.risk
        then (approve now by.user_id note req, none)
        else (req, some ApprovalCode.insufficient_authority))
unfolding approve_with approval_permission_for can_approve_risk
approve_with_lem now by note req = ground arith

can_approve-forbidden :
    (role : Role) (risk : Risk) → is_forbidden risk ≡ true → can_approve role risk ≡ false
unfolding can_approve is_forbidden
can_approve-forbidden role forbidden h = refl
can_approve-forbidden role _ h = cc

module _ (ttl : ℕ) (now later : Time) (by : Approver) (note : Note) (req : ToolCallRequest) where
  -- An approval is applied exactly when the request still awaits a ruling, its window has not passed
  -- and the approver's role may approve its tier; it then makes the request approved, in that
  -- person's name, and otherwise leaves it as it was.
  pub approve_rule :
      (((rule ttl now later approves by note req).1 ≡ none) ↔ MayApprove ttl now by req)
      × ((rule ttl now later approves by note req).1 ≡ none
          → (rule ttl now later approves by note req).0 ≡ approve later by.user_id note req)
      × ((c : ApprovalCode)
          → (rule ttl now later approves by note req).1 ≡ some c
          → (rule ttl now later approves by note req).0 ≡ req)
  unfolding rule ruling_valid has_expired is_reject is_awaiting
  approve_rule =
      rw
        (approve_with_lem later by note req, rule, can_approve_risk-eq-can_approve by.role req.risk)
        (
          (λ h. ground arith, λ m. ground (arith, can_approve-forbidden by.role req.risk)),
          λ h. ground arith,
          λ c h. ground arith,
        )

  -- A rejection needs no authority: it is applied exactly when the request still awaits a ruling and
  -- its window has not passed, and it then makes the request rejected, in that person's name.
  pub reject_rule :
      (((rule ttl now later rejects by note req).1 ≡ none)
        ↔ ((req.decision ≡ awaiting_approval) × (now ≤ req.created_at + ttl)))
      × ((rule ttl now later rejects by note req).1 ≡ none
          → ((rule ttl now later rejects by note req).0.decision ≡ rejected)
            × ((rule ttl now later rejects by note req).0.decided_by ≡ some by.user_id))
  unfolding rule ruling_valid has_expired is_reject is_awaiting
  reject_rule = ((λ h. ground arith, λ m. ground arith), λ h. ground arith)

  -- The sweep takes a request exactly when it awaits a ruling and a rejection of it at the same instant
  -- would be refused as too late.
  pub rule_xor_expire : ((expire ttl now later req).1 ≡ true) ↔ (
      (req.decision ≡ awaiting_approval)
      × ((rule ttl now later rejects by note req).1 ≡ some ApprovalCode.too_late))
  unfolding rule expire ruling_valid has_expired is_reject is_awaiting
  rule_xor_expire = (λ h. ground arith, λ h. ground arith)
