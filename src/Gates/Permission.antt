-- ===== src/Gates/Permission.antt =====
-- internal/harness/permission.go: gate two. A compiled matrix is a function from the agent kind to
-- its rules in the order of resolution.
pub mod Resolution
use aegisops_ai.Base.{
  ℕ, Bool, true, false, not, ◌&&◌, ◌||◌, String, str_eq, List, Option, none, some, ltb, ◌==◌,
  if◌then◌else◌, keep, find_first, sort_stable,
}
use aegisops_ai.Shared.{Time}
use aegisops_ai.Domain.ToolCall.{Note, written, permission_denied}
use aegisops_ai.Domain.Rules.{
  Effect, allow, deny, Permission, permission_matches, permission_specificity,
}
use aegisops_ai.Gates.Cache.{Cache, lookup}

unfoldable pub is_deny : Effect → Bool
is_deny deny = true
is_deny _ = false

unfoldable pub is_allow : Effect → Bool
is_allow allow = true
is_allow _ = false

-- The order of resolution: more specific first, and a denial before the rest.
unfoldable pub precedes : Permission → Permission → Bool
precedes a b =
    if permission_specificity a == permission_specificity b
    then is_deny a.effect && not (is_deny b.effect)
    else ltb (permission_specificity b) (permission_specificity a)

abbrev pub Permissions : Type 0
Permissions = String → List Permission

unfoldable pub compile_permissions : List Permission → Permissions
unfolding keep
compile_permissions rules agent_kind =
    sort_stable precedes (keep (λ r. str_eq r.agent_kind agent_kind) rules)

-- The rule that governs, if any.
unfoldable pub governing : Permissions → String → String → String → Option Permission
unfolding find_first
governing p agent_kind tool action =
    find_first (λ r. permission_matches r tool action) (p agent_kind)

-- The effect of the rule; with none, the default that matters.
abbrev pub resolved : Option Permission → Bool × Option Permission
resolved none = (false, none)
resolved (some r) = (is_allow r.effect, some r)

unfoldable pub allows : Permissions → String → String → String → Bool × Option Permission
allows p agent_kind tool action = resolved (governing p agent_kind tool action)

pub record Verdict : Type 0 where
  pub allowed : Bool
  pub reason : Note
  pub rule : Option Permission

-- The switch of Check on the answer of Allows.
unfoldable pub verdict : String → String → Bool × Option Permission → Verdict
verdict tool action (allowed, rule) = record {
  allowed = allowed;
  reason = if allowed then written "permitted" else permission_denied tool action;
  rule = rule;
}

abbrev pub compiled_answer : Option (List Permission) → Option Permissions
compiled_answer none = none
compiled_answer (some rules) = some (compile_permissions rules)

abbrev pub ruled_by : String → String → String → Option Permissions → Option Verdict
ruled_by agent_kind tool action none = none
ruled_by agent_kind tool action (some p) =
    some (verdict tool action (allows p agent_kind tool action))

-- Check; `none` is the error of a matrix that cannot be loaded.
unfoldable pub check_permission :
    ℕ
    → Time
    → Time
    → Time
    → Option (List Permission)
    → String
    → String
    → String
    → Cache Permissions
    → Cache Permissions × Option Verdict
check_permission ttl first second third answer agent_kind tool action c =
    let (c', perms) = lookup ttl first second third (compiled_answer answer) c in
    (c', ruled_by agent_kind tool action perms)
