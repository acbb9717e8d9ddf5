-- ===== src/Examples/AtGates.antt =====
-- The theorems on the gates.
use aegisops_ai.Base.{
  ◌≡◌, refl, ◌⊎◌, inl, inr, ◌≤◌, ◌<◌, ◌+◌, ◌↔◌, suc, ℕ, true, false, Bool, Option, none, some,
  length, List, [], ◌∷◌, All, In, String, num, pos, arith, ◌≢◌,
}
use aegisops_ai.Domain.ToolCall.{
  ToolCallRequest, Params, str, Value, Decision, allowed, denied_policy, awaiting_approval,
  rejected, Risk, low, is_forbidden, risk_rank, approve, written, medium,
}
use aegisops_ai.Domain.Rules.{
  Permission, Policy, permission_matches, permission_specificity, policy_matches,
}
use aegisops_ai.Domain.Execution.{
  Execution, execution_succeeded, succeeded, failed, no_failure, tool_error,
}
use aegisops_ai.Domain.User.{operator, can_approve}
use aegisops_ai.Rbac.{can_approve_risk}
use aegisops_ai.Rbac.Authority.{can_approve_risk-eq-can_approve}
use aegisops_ai.Gates.Cache.{Cache, lookup, settle, invalidate}
use aegisops_ai.Gates.Cache.Freshness.{lookup_origin, invalidate_lost}
use aegisops_ai.Gates.Registry.{
  ActionDescriptor, describe, validate_params, coerce, max_params, declared, register, new_registry,
  lookup_tool,
}
use aegisops_ai.Gates.Registry.Schema.{validate_params_sound, Treated, Filled}
use aegisops_ai.Gates.Permission.{allows, compile_permissions, is_allow, is_deny}
use aegisops_ai.Gates.Permission.Resolution.{Applies, allows_sound, allows_complete}
use aegisops_ai.Gates.Policy.{rule_on, policy_for, compile_policies, new_policy_engine}
use aegisops_ai.Gates.Policy.Order.{AtMost, policy_for_sound}
use aegisops_ai.Gates.Policy.Autonomous.{RunsAlone, rule_on_allowed}
use aegisops_ai.Gates.Approval.{approves, rule, ApprovalCode}
use aegisops_ai.Gates.Approval.Powers.{MayApprove, approve_rule}
use aegisops_ai.Gates.Executor.{execute, invocation_of, conclude, invoke}
use aegisops_ai.Gates.Executor.Effects.{Executed, execute-Executed}
use aegisops_ai.Examples.Fixture.{
  host, registry, executor, restarts, allow_restart, deny_docker, restart_policy, request,
  parked_request, approver,
}

abbrev rules : List Permission
rules = deny_docker ∷ allow_restart ∷ []

allow_restart-Applies : Applies rules "devops" "docker" "restart" allow_restart
unfolding permission_matches
allow_restart-Applies = record { listed = inr (inl refl); for_kind = refl; about = refl }

above_the_denial :
    (s : Permission)
    → Applies rules "devops" "docker" "restart" s
    → (permission_specificity s < permission_specificity allow_restart)
      ⊎ ((permission_specificity s ≡ permission_specificity allow_restart)
          × (is_allow s.effect ≡ true))
unfolding permission_specificity is_allow
above_the_denial s a = elim a.listed [
  | inl denial ↦ inl (rw (← denial) (omega arith))
  | inr (inl itself) ↦ inr (rw (← itself) (refl, refl))
  | inr (inr nothing) ↦ absurd nothing
]

allows_sound_example :
    (r : Permission) × Applies rules "devops" "docker" "restart" r
    × (is_allow r.effect ≡ true)
    × ((s : Permission)
        → Applies rules "devops" "docker" "restart" s
        → (permission_specificity s < permission_specificity r)
          ⊎ ((permission_specificity s ≡ permission_specificity r) × (is_deny s.effect ≡ false)))
unfolding allows aegisops_ai.Gates.Permission.governing compile_permissions
    aegisops_ai.Base.sort_stable aegisops_ai.Gates.Permission.precedes permission_specificity
    permission_matches is_allow
allows_sound_example = allows_sound rules "devops" "docker" "restart" refl

allows_complete_example : (allows (compile_permissions rules) "devops" "docker" "restart").0 ≡ true
unfolding is_allow
allows_complete_example =
    allows_complete rules "devops" "docker" "restart" allow_restart allow_restart-Applies refl
      above_the_denial

abbrev params : Params
params = ("name", str "api") ∷ []

validate_params_sound_example :
    (ad : ActionDescriptor) × (describe registry "docker" "restart" ≡ some ad)
    × (length params ≤ max_params)
    × All (λ e. declared ad.params e.0 ≡ true) params
    × All (Treated host registry "docker" "restart" params params) ad.params
    × All (λ e. Filled host registry "docker" "restart" ad.params params e.0 e.1) params
unfolding validate_params aegisops_ai.Gates.Registry.validate_against describe
    aegisops_ai.Gates.Registry.any_undeclared aegisops_ai.Gates.Registry.fill_all
validate_params_sound_example =
    validate_params_sound host registry "docker" "restart" params params refl

rule_on_allowed_example :
    ((rule_on (new_policy_engine "low") request (some restart_policy)).decision ≡ allowed) ↔ (
      (p : Policy) × (some restart_policy ≡ some p) × RunsAlone (new_policy_engine "low") request p)
rule_on_allowed_example = rule_on_allowed (new_policy_engine "low") request (some restart_policy)

abbrev no_rule : Option Policy
no_rule = none

abbrev text : String
text = "medium"

policy_for_sound_example :
    In restart_policy (restart_policy ∷ [])
    × (policy_matches restart_policy "docker" "restart" ≡ true)
    × ((s : Policy)
        → In s (restart_policy ∷ [])
        → policy_matches s "docker" "restart" ≡ true
        → AtMost s restart_policy)
unfolding policy_for aegisops_ai.Base.find_first compile_policies aegisops_ai.Base.sort_stable
    policy_matches
policy_for_sound_example =
    policy_for_sound (restart_policy ∷ []) "docker" "restart" {p = restart_policy} refl

abbrev permitted : ToolCallRequest
permitted = record request { decision = allowed }

abbrev restarted : Execution
restarted = record {
  id = 1000;
  tool_call_id = 7;
  status = succeeded;
  dry = false;
  exit_code = some (pos 0);
  stdout = [];
  stderr = [];
  truncated = false;
  error = no_failure;
  started_at = 100;
  finished_at = 101;
  duration_ms = pos 0;
  created_at = 100;
}

abbrev unimplemented : Execution
unimplemented = record restarted {
  status = failed;
  exit_code = none;
  error = tool_error "no implementation in this build";
}

execute-Executed_example :
    Executed executor restarts permitted (invocation_of executor permitted) restarted
unfolding execute aegisops_ai.Domain.ToolCall.permits lookup_tool describe
    aegisops_ai.Domain.Execution.new_execution aegisops_ai.Domain.Execution.validate
    aegisops_ai.Shared.validator_err aegisops_ai.Shared.check aegisops_ai.Shared.not_zero_id
    aegisops_ai.Shared.new_validator conclude invoke aegisops_ai.Domain.Execution.truncate
    aegisops_ai.Domain.Execution.complete
execute-Executed_example =
    execute-Executed executor 1000 100 101 restarts permitted
      {call = invocation_of executor permitted} {ex = restarted} refl

approve_rule_example :
    (((rule 3600 100 101 approves approver (written "ok") parked_request).1 ≡ none)
      ↔ MayApprove 3600 100 approver parked_request)
    × ((rule 3600 100 101 approves approver (written "ok") parked_request).1 ≡ none
        → (rule 3600 100 101 approves approver (written "ok") parked_request).0
          ≡ approve 101 9 (written "ok") parked_request)
    × ((c : ApprovalCode)
        → (rule 3600 100 101 approves approver (written "ok") parked_request).1 ≡ some c
        → (rule 3600 100 101 approves approver (written "ok") parked_request).0 ≡ parked_request)
approve_rule_example = approve_rule 3600 100 101 approver (written "ok") parked_request

abbrev warm : Cache ℕ
warm = record { current = some 1; loaded_at = 50 }

abbrev fresh : Option ℕ
fresh = some 2

lookup_origin_example :
    (fresh ≡ some 1)
    ⊎ ((warm.current ≡ some 1) × ((fresh ≡ none) ⊎ (100 < 50 + 60) ⊎ (101 < 50 + 60)))
unfolding lookup
lookup_origin_example = lookup_origin 60 100 101 102 fresh warm 1 refl

invalidate_lost_example :
    (lookup 60 100 101 102 fresh (settle 99 (some 1) (invalidate warm)).0).1 ≡ some 1
invalidate_lost_example = invalidate_lost 60 99 100 101 102 1 fresh warm (λ e. cc e) (omega arith)

can_approve_risk-eq-can_approve_example :
    can_approve_risk operator medium ≡ can_approve operator medium
can_approve_risk-eq-can_approve_example = can_approve_risk-eq-can_approve operator medium
