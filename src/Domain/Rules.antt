-- ===== src/Domain/Rules.antt =====
-- internal/domain/harness/policy.go: permission rows and policies.
use aegisops_ai.Base.{
  ℕ, ◌+◌, Bool, true, false, not, String, str_eq, ◌||◌, ◌&&◌, if◌then◌else◌, Float, lt_float, ℤ,
  zero_float, one_float, Option,
}
use aegisops_ai.Shared.{
  Uid, Time, says, Err, new_validator, check, required, max_len, in_range, not_zero_id,
  validator_err, ◌▸◌,
}
use aegisops_ai.Domain.ToolCall.{Risk, risk_valid, is_forbidden}

pub data Effect : Type 0 where
  allow deny : Effect
  other : String → Effect

unfoldable pub effect_valid : Effect → Bool
effect_valid (other _) = false
effect_valid _ = true

abbrev pub wildcard : String
wildcard = "*"

pub record Permission : Type 0 where
  pub id : Uid
  pub agent_kind : String
  pub tool : String
  pub action : String
  pub effect : Effect
  pub created_at : Time
  pub updated_at : Time

unfoldable pub permission_validate : Permission → Option Err
permission_validate p = validator_err (
    new_validator "permission"
    ▸ not_zero_id p.id "id"
    ▸ required p.agent_kind "agent_kind"
    ▸ required p.tool "tool"
    ▸ required p.action "action"
    ▸ check (effect_valid p.effect) "effect" (says "must be allow or deny"))

-- A pattern is a text or the wildcard.
unfoldable pub covers : String → String → Bool
covers pattern_ s = str_eq pattern_ wildcard || str_eq pattern_ s

unfoldable pub permission_matches : Permission → String → String → Bool
unfolding covers
permission_matches p tool action = covers p.tool tool && covers p.action action

unfoldable pub specificity_of : String → String → ℕ
specificity_of tool action =
    (if str_eq tool wildcard then 0 else 2) + (if str_eq action wildcard then 0 else 1)

unfoldable pub permission_specificity : Permission → ℕ
unfolding specificity_of
permission_specificity p = specificity_of p.tool p.action

pub record Policy : Type 0 where
  pub id : Uid
  pub name : String
  pub description : String
  pub tool : String
  pub action : String
  pub risk : Risk
  pub requires_approval : Bool
  pub min_confidence : Float
  pub priority : ℤ
  pub enabled : Bool
  pub created_at : Time
  pub updated_at : Time

abbrev pub max_policy_name_len : ℕ
max_policy_name_len = 200

unfoldable pub policy_validate : Policy → Option Err
policy_validate p = validator_err (
    new_validator "policy"
    ▸ not_zero_id p.id "id"
    ▸ required p.name "name"
    ▸ max_len p.name "name" max_policy_name_len
    ▸ required p.tool "tool"
    ▸ required p.action "action"
    ▸ check (risk_valid p.risk) "risk" (says "must be one of: low, medium, high, forbidden")
    ▸ in_range p.min_confidence "min_confidence" zero_float one_float)

unfoldable pub policy_matches : Policy → String → String → Bool
unfolding covers
policy_matches p tool action =
    if not p.enabled then false else covers p.tool tool && covers p.action action

unfoldable pub policy_specificity : Policy → ℕ
unfolding specificity_of
policy_specificity p = specificity_of p.tool p.action

unfoldable pub needs_approval : Policy → Float → Bool
needs_approval p confidence =
    if is_forbidden p.risk
    then true
    else if p.requires_approval
    then true
    else lt_float confidence p.min_confidence
