-- ===== src/Rbac.antt =====
-- internal/security/rbac/rbac.go: the permissions of the human roles.
pub mod Authority
use aegisops_ai.Base.{
  Bool, true, false, List, [], ◌∷◌, Option, none, some, any, ◌==◌, ℕ, ◌&&◌, ◌||◌, if◌then◌else◌,
}
use aegisops_ai.Domain.ToolCall.{Risk, low, medium, high, forbidden}
use aegisops_ai.Domain.User.{Role, viewer, operator, admin}

pub data RbacPermission : Type 0 where
  incident_read incident_create incident_update incident_close : RbacPermission
  agent_read agent_update agent_disable : RbacPermission
  approval_read approve_low approve_medium approve_high approval_reject : RbacPermission
  audit_read audit_verify policy_read policy_write : RbacPermission
  user_read user_write user_delete : RbacPermission

-- The catalogue's order, by which two permissions are compared.
permission_tag : RbacPermission → ℕ
permission_tag incident_read = 0
permission_tag incident_create = 1
permission_tag incident_update = 2
permission_tag incident_close = 3
permission_tag agent_read = 4
permission_tag agent_update = 5
permission_tag agent_disable = 6
permission_tag approval_read = 7
permission_tag approve_low = 8
permission_tag approve_medium = 9
permission_tag approve_high = 10
permission_tag approval_reject = 11
permission_tag audit_read = 12
permission_tag audit_verify = 13
permission_tag policy_read = 14
permission_tag policy_write = 15
permission_tag user_read = 16
permission_tag user_write = 17
permission_tag user_delete = 18

unfoldable pub rbac_permission_eq : RbacPermission → RbacPermission → Bool
unfolding permission_tag
rbac_permission_eq p q = permission_tag p == permission_tag q

-- `none` for a role that is no key of the matrix.
unfoldable pub matrix : Role → Option (List RbacPermission)
matrix viewer = some (incident_read ∷ agent_read ∷ approval_read ∷ audit_read ∷ policy_read ∷ [])
matrix operator = some (
    incident_read ∷ incident_create ∷ incident_update ∷ incident_close ∷ agent_read ∷ agent_disable
    ∷ approval_read ∷ approve_low ∷ approve_medium ∷ approval_reject ∷ audit_read ∷ policy_read
    ∷ [])
matrix admin = some (
    incident_read ∷ incident_create ∷ incident_update ∷ incident_close ∷ agent_read ∷ agent_update
    ∷ agent_disable ∷ approval_read ∷ approve_low ∷ approve_medium ∷ approve_high ∷ approval_reject
    ∷ audit_read ∷ audit_verify ∷ policy_read ∷ policy_write ∷ user_read ∷ user_write ∷ user_delete
    ∷ [])
matrix (Role.other _) = none

unfoldable pub can : Role → RbacPermission → Bool
unfolding matrix rbac_permission_eq any
can role perm = elim (matrix role) [
  | none ↦ false
  | some perms ↦ any (λ p. rbac_permission_eq p perm) perms
]

unfoldable pub can_all : Role → List RbacPermission → Bool
can_all role [] = true
can_all role (p ∷ perms) = can role p && can_all role perms

unfoldable pub can_any : Role → List RbacPermission → Bool
can_any role [] = false
can_any role (p ∷ perms) = can role p || can_any role perms

unfoldable pub approval_permission_for : Risk → Option RbacPermission
approval_permission_for low = some approve_low
approval_permission_for medium = some approve_medium
approval_permission_for high = some approve_high
approval_permission_for forbidden = none
approval_permission_for (Risk.other _) = none

unfoldable pub can_approve_risk : Role → Risk → Bool
unfolding approval_permission_for
can_approve_risk role risk = elim (approval_permission_for risk) [
  | none ↦ false
  | some perm ↦ can role perm
]
