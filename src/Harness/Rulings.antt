-- ===== src/Harness/Rulings.antt =====
-- The handlers ApplyApproval and ExpirePending of internal/harness/harness.go.
use aegisops_ai.Base.{
  ℕ, ◌+◌, Bool, true, false, not, ◌==◌, List, [], ◌∷◌, Option, none, some, if◌then◌else◌, keep,
  take, sort_stable, ltb,
}
use aegisops_ai.Shared.{Uid}
use aegisops_ai.Domain.ToolCall.{
  ToolCallRequest, Note, bad_params, policy_changed, ruled, approval_refused, Decision, approved,
  denied_params, denied_policy, deny, Params,
}
use aegisops_ai.Domain.Timeline.{approval_granted, approval_denied}
use aegisops_ai.Gates.Registry.{validate_params}
use aegisops_ai.Gates.Policy.{Ruling}
use aegisops_ai.Gates.Approval.{
  ApprovalDecision, Approver, ApprovalCode, policy_changed as stale, rule, expire, is_awaiting,
}
use aegisops_ai.Harness.World.{World, Env, Topic, approval_error, Result}
use aegisops_ai.Harness.Steps.{now, ticked, row_of, update, publish, timeline, record_audit}
use aegisops_ai.Harness.Pipeline.{done, broken, no_reason, refuse, run_tool, ask_policy, audited}

-- The approved request is executed with parameters that are valid still.
unfoldable pub run_approved : Env → ToolCallRequest → Note → Option Params → World → World × Result
run_approved env req reason none w = refuse env req denied_params (bad_params req.tool) w
run_approved env req reason (some params) w = run_tool env req params reason reason w

unfoldable pub is_approved : Decision → Bool
is_approved approved = true
is_approved _ = false

-- The ruling is announced; a rejection ends there.
unfoldable pub announce : Env → ToolCallRequest → Approver → World → World × Result
unfolding is_approved
announce env req by w =
    let granted = is_approved req.decision in
    let reason = ruled by.email granted in
    let w' =
      publish env req (if granted then Topic.approval_granted else Topic.approval_denied)
        (timeline env req (if granted then approval_granted else approval_denied) w) in
    if not granted
    then (w', done req none reason)
    else run_approved env req reason
        (validate_params env.host env.executor.registry req.tool req.action req.params) w'

unfoldable pub after_record : Env → ToolCallRequest → Approver → World × Bool → World × Result
after_record env req by (w, false) = (w, broken req none no_reason)
after_record env req by (w, true) = announce env req by w

unfoldable pub refused_as_stale : ToolCallRequest → World × Bool → World × Result
refused_as_stale req (w, false) = (w, broken req none policy_changed)
refused_as_stale req (w, true) = (
  w,
  record {
    request = req;
    execution = none;
    reason = policy_changed;
    failure = some (approval_error stale);
  },
)

unfoldable pub is_denied_policy : Decision → Bool
is_denied_policy denied_policy = true
is_denied_policy _ = false

-- The policy as it stands now.
unfoldable pub recheck : Env → ToolCallRequest → Approver → Option Ruling → World → World × Result
recheck env req by none w = (w, broken req none no_reason)
recheck env req by (some r) w =
    if is_denied_policy r.decision
    then (let req' = deny (now env w) denied_policy r.reason req in
        refused_as_stale req' (update env req' (ticked w)))
    else after_record env req by (update env req w)

unfoldable pub after_rule :
    Env → Approver → ToolCallRequest × Option ApprovalCode → World → World × Result
after_rule env by (req, some code) w = (
  w,
  record {
    request = req;
    execution = none;
    reason = approval_refused by.email;
    failure = some (approval_error code);
  },
)
after_rule env by (req, none) w =
    if is_approved req.decision
    then (let (w', ruling) = ask_policy env req w in recheck env req by ruling w')
    else after_record env req by (update env req w)

-- ApplyApproval on the row; `none` for a row that cannot be read, which is not audited.
unfoldable pub rule_on_row :
    Env
    → ApprovalDecision
    → Approver
    → Note
    → Option ToolCallRequest
    → World
    → World × Option Result
rule_on_row env decision by note none w = (w, none)
rule_on_row env decision by note (some req) w =
    let (w', res) = audited env (
      after_rule env by
        (rule env.approval_ttl (now env w) (now env (ticked w)) decision by note req)
        (ticked (ticked w))) in
    (w', some res)

unfoldable pub apply_approval :
    Env → Uid → ApprovalDecision → Approver → Note → World → World × Option Result
apply_approval env id decision by note w =
    if env.get_fails w.step
    then (ticked w, none)
    else rule_on_row env decision by note (row_of id w.calls) (ticked w)

-- ORDER BY created_at DESC, id DESC.
newer : ToolCallRequest → ToolCallRequest → Bool
newer a b = if a.created_at == b.created_at then ltb b.id a.id else ltb b.created_at a.created_at

-- The page that List returns.
unfoldable pub pending_page : List ToolCallRequest → List ToolCallRequest
unfolding newer
pending_page rows = take 200 (sort_stable newer (keep (λ r. is_awaiting r.decision) rows))

-- A row that was marked: recorded if the update succeeds.
unfoldable pub after_expire : Env → ToolCallRequest → World × Bool → World × ℕ
after_expire env req (w, false) = (w, 0)
after_expire env req (w, true) =
    (timeline env req approval_denied (record_audit env req none req.decision_note none w), 1)

unfoldable pub expire_row : Env → ToolCallRequest × Bool → World → World × ℕ
expire_row env (req, false) w = (w, 0)
expire_row env (req, true) w = after_expire env req (update env req w)

-- The loop over the page, with the count.
unfoldable pub expire_rows : Env → List ToolCallRequest → World → World × ℕ
expire_rows env [] w = (w, 0)
expire_rows env (req ∷ rest) w =
    let (w', n) =
      expire_row env (expire env.approval_ttl (now env w) (now env (ticked w)) req)
        (ticked (ticked w)) in
    let (w'', m) = expire_rows env rest w' in (w'', n + m)

unfoldable pub expire_pending : Env → World → World × ℕ
expire_pending env w =
    if env.list_fails w.step
    then (ticked w, 0)
    else expire_rows env (pending_page w.calls) (ticked w)
