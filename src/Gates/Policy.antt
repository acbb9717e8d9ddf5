-- ===== src/Gates/Policy.antt =====
-- internal/harness/policy.go: gate three, the risk tier of an action and who has to say yes.
pub mod Autonomous
pub mod Order
use aegisops_ai.Base.{
  ℕ, Bool, true, false, not, ◌&&◌, ◌||◌, String, str_eq, List, [], ◌∷◌, ◌++◌, Option, none, some,
  ltb, ltb_ℤ, ◌==◌, if◌then◌else◌, find_first, sort_stable, Float, lt_float,
}
use aegisops_ai.Shared.{Time}
use aegisops_ai.Domain.ToolCall.{
  Risk, low, medium, high, forbidden, risk_valid, risk_rank, is_forbidden, at_or_below, Decision,
  allowed, denied_policy, awaiting_approval, Note, no_policy, forbidden_by_policy, no_autonomy,
  above_ceiling, policy_requires_human, low_confidence, permitted_by_policy, ToolCallRequest,
}
use aegisops_ai.Domain.Rules.{Policy, policy_matches, policy_specificity}
use aegisops_ai.Gates.Cache.{Cache, lookup}

-- harness.Risk(text).
unfoldable pub risk_of : String → Risk
risk_of s =
    if str_eq s "low"
    then low
    else if str_eq s "medium"
    then medium
    else if str_eq s "high"
    then high
    else if str_eq s "forbidden"
    then forbidden
    else Risk.other s

-- The configured part of the engine.
pub record Autonomy : Type 0 where
  pub ceiling : Risk
  pub allow_auto : Bool

-- NewPolicyEngine: anything but low, medium and high grants no autonomy.
unfoldable pub new_policy_engine : String → Autonomy
unfolding risk_of
new_policy_engine ceiling =
    let risk = risk_of ceiling in
    if risk_valid risk && not (is_forbidden risk)
    then record { ceiling = risk; allow_auto = true }
    else record { ceiling = Risk.other ""; allow_auto = false }

-- Ceiling; "none" is no tier.
unfoldable pub ceiling : Autonomy → Risk
ceiling a = if not a.allow_auto then Risk.other "none" else a.ceiling

-- More specific first, then the higher priority, then the riskier.
unfoldable pub policy_precedes : Policy → Policy → Bool
policy_precedes a b =
    if not (policy_specificity a == policy_specificity b)
    then ltb (policy_specificity b) (policy_specificity a)
    else if ltb_ℤ a.priority b.priority || ltb_ℤ b.priority a.priority
    then ltb_ℤ b.priority a.priority
    else ltb (risk_rank b.risk) (risk_rank a.risk)

abbrev pub Policies : Type 0
Policies = List Policy

unfoldable pub compile_policies : List Policy → Policies
compile_policies policies = sort_stable policy_precedes policies

-- Policies.For.
unfoldable pub policy_for : Policies → String → String → Option Policy
policy_for ordered tool action = find_first (λ p. policy_matches p tool action) ordered

pub record Ruling : Type 0 where
  pub risk : Risk
  pub decision : Decision
  pub requires_approval : Bool
  pub reason : Note
  pub policy : Option Policy

-- A ruling that sends the request to a human.
escalate : Policy → Note → Ruling
escalate p reason = record {
  risk = p.risk;
  decision = awaiting_approval;
  requires_approval = true;
  reason = reason;
  policy = some p;
}

-- Evaluate, from the policy that governs on.
unfoldable pub rule_on : Autonomy → ToolCallRequest → Option Policy → Ruling
unfolding escalate
rule_on a req none = record {
  risk = forbidden;
  decision = denied_policy;
  requires_approval = false;
  reason = no_policy req.tool req.action;
  policy = none;
}
rule_on a req (some p) =
    if is_forbidden p.risk
    then record {
      risk = forbidden;
      decision = denied_policy;
      requires_approval = false;
      reason = forbidden_by_policy p.name;
      policy = some p;
    }
    else if not a.allow_auto
    then escalate p (no_autonomy p.name)
    else if not (at_or_below p.risk a.ceiling)
    then escalate p (above_ceiling p.risk a.ceiling)
    else if p.requires_approval
    then escalate p (policy_requires_human p.name)
    else if lt_float req.confidence p.min_confidence
    then escalate p (low_confidence req.confidence p.min_confidence)
    else record {
      risk = p.risk;
      decision = allowed;
      requires_approval = false;
      reason = permitted_by_policy p.name;
      policy = some p;
    }

-- Evaluate, on the loaded policies.
unfoldable pub evaluate_policies : Autonomy → ToolCallRequest → Policies → Ruling
evaluate_policies a req policies = rule_on a req (policy_for policies req.tool req.action)

abbrev pub compiled_answer : Option (List Policy) → Option Policies
compiled_answer none = none
compiled_answer (some rules) = some (compile_policies rules)

abbrev pub ruled_by : Autonomy → ToolCallRequest → Option Policies → Option Ruling
ruled_by a req none = none
ruled_by a req (some policies) = some (evaluate_policies a req policies)

-- Evaluate; `none` is the error of policies that cannot be loaded.
unfoldable pub evaluate :
    ℕ
    → Autonomy
    → Time
    → Time
    → Time
    → Option (List Policy)
    → ToolCallRequest
    → Cache Policies
    → Cache Policies × Option Ruling
evaluate ttl a first second third answer req c =
    let (c', policies) = lookup ttl first second third (compiled_answer answer) c in
    (c', ruled_by a req policies)
