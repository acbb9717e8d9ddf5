-- ===== src/Gates/Policy/Autonomous.antt =====
-- When the policy gate lets a request through, when it asks a human, and when it refuses.
use aegisops_ai.Base.{
  ◌≤◌, ◌≡◌, refl, ◌⊎◌, inl, inr, ◌↔◌, true, false, Option, none, some, arith, String, lt_float,
  str_eq_iff,
}
use aegisops_ai.Domain.ToolCall.{
  allowed, denied_policy, is_forbidden, at_or_below, risk_rank, ToolCallRequest, risk_valid,
}
use aegisops_ai.Domain.Rules.{Policy}
use aegisops_ai.Gates.Policy.{
  Autonomy, new_policy_engine, rule_on, risk_of, Policies, policy_for, evaluate_policies,
}

-- The conditions under which a policy lets a request run without a human.
pub record RunsAlone (a : Autonomy) (req : ToolCallRequest) (p : Policy) : Type 0 where
  pub reachable : is_forbidden p.risk ≡ false
  pub autonomous : a.allow_auto ≡ true
  pub within : risk_rank p.risk ≤ risk_rank a.ceiling
  pub unattended : p.requires_approval ≡ false
  pub confident : lt_float req.confidence p.min_confidence ≡ false

module _ (a : Autonomy) (req : ToolCallRequest) where
  -- The gate lets a request run exactly when a policy governs it and that policy lets it run alone.
  pub rule_on_allowed :
      (o : Option Policy)
      → ((rule_on a req o).decision ≡ allowed) ↔ ((p : Policy) × (o ≡ some p) × RunsAlone a req p)
  unfolding rule_on at_or_below
  rule_on_allowed none = (λ h. cc, λ h. cc (h.1))
  rule_on_allowed (some p) = (λ h. (p, refl, ground arith), λ h. rule_on_runs h.0 h.1 h.2)
    where
      rule_on_runs :
          (q : Policy)
          → some p ≡ some q
          → RunsAlone a req q
          → (rule_on a req (some p)).decision ≡ allowed
      rule_on_runs q e r = ground arith

  -- It refuses exactly when no policy governs the action or the policy forbids it.
  pub rule_on_denied :
      (o : Option Policy)
      → ((rule_on a req o).decision ≡ denied_policy)
        ↔ ((o ≡ none) ⊎ ((p : Policy) × (o ≡ some p) × (is_forbidden p.risk ≡ true)))
  unfolding rule_on
  rule_on_denied none = (λ h. inl refl, λ h. refl)
  rule_on_denied (some p) = (λ h. inr (p, refl, ground arith), λ h. forbids h)
    where
      forbids :
          (some p ≡ none) ⊎ ((q : Policy) × (some p ≡ some q) × (is_forbidden q.risk ≡ true))
          → (rule_on a req (some p)).decision ≡ denied_policy
      forbids (inl e) = cc
      forbids (inr (q, e, f)) = ground arith

engine_bounds :
    (text : String) (req : ToolCallRequest) (p : Policy)
    → RunsAlone (new_policy_engine text) req p
    → (risk_rank p.risk ≤ risk_rank (risk_of text))
      × ((text ≡ "low") ⊎ (text ≡ "medium") ⊎ (text ≡ "high"))
unfolding new_policy_engine risk_of risk_valid is_forbidden
engine_bounds text req p r =
    let f = r.autonomous in
    let w = r.within in
    ground (
      arith,
      str_eq_iff text "low",
      str_eq_iff text "medium",
      str_eq_iff text "high",
      str_eq_iff text "forbidden",
    )

-- Whatever text the ceiling is configured with, an engine built by NewPolicyEngine lets nothing run
-- alone unless that text is low, medium or high, and nothing above the tier that it names.
pub configured_ceiling :
    (text : String) (req : ToolCallRequest) (policies : Policies)
    → (evaluate_policies (new_policy_engine text) req policies).decision ≡ allowed
    → (p : Policy) × (policy_for policies req.tool req.action ≡ some p)
      × (risk_rank p.risk ≤ risk_rank (risk_of text))
      × ((text ≡ "low") ⊎ (text ≡ "medium") ⊎ (text ≡ "high"))
unfolding evaluate_policies
configured_ceiling text req policies h =
    let (p, found, r) =
      (rule_on_allowed (new_policy_engine text) req (policy_for policies req.tool req.action)).0
        h in
    let (bounded, named) = engine_bounds text req p r in (p, found, bounded, named)
