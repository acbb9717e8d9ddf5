-- ===== src/Rbac/Authority.antt =====
-- Who may approve what: the matrix, the rule of the user entity, and the order of the roles agree.
use aegisops_ai.Base.{◌≡◌, refl, true, ◌≤◌, arith}
use aegisops_ai.Domain.ToolCall.{Risk, low, medium, high, forbidden}
use aegisops_ai.Domain.User.{Role, viewer, can_approve, role_rank}
use aegisops_ai.Rbac.{RbacPermission, incident_read, can, can_approve_risk}

-- The permission matrix and Role.CanApprove give the same answer for every role and tier.
pub can_approve_risk-eq-can_approve :
    (role : Role) (risk : Risk) → can_approve_risk role risk ≡ can_approve role risk
unfolding can_approve_risk can_approve can
can_approve_risk-eq-can_approve (Role.other s) low = refl
can_approve_risk-eq-can_approve viewer low = refl
can_approve_risk-eq-can_approve _ low = refl
can_approve_risk-eq-can_approve (Role.other s) medium = refl
can_approve_risk-eq-can_approve viewer medium = refl
can_approve_risk-eq-can_approve _ medium = refl
can_approve_risk-eq-can_approve (Role.other s) high = refl
can_approve_risk-eq-can_approve viewer high = refl
can_approve_risk-eq-can_approve _ high = refl
can_approve_risk-eq-can_approve role forbidden = refl
can_approve_risk-eq-can_approve role (Risk.other s) = refl

-- The roles are cumulative: whatever a role holds, every role of at least its rank holds.
pub can_mono :
    (r s : Role) (p : RbacPermission) → role_rank r ≤ role_rank s → can r p ≡ true → can s p ≡ true
unfolding can role_rank
can_mono r s incident_read h g = ground arith
can_mono r s _ h g = ground arith
