-- ===== src/Harness/Pipeline.antt =====
-- The handlers onToolRequested and Evaluate of internal/harness/harness.go. Each stage takes what the stage before it found, in the order of the source.
use aegisops_ai.Base.{ℕ, Bool, true, false, not, String, ◌∷◌, Option, none, some, if◌then◌else◌}
use aegisops_ai.Shared.{Uid}
use aegisops_ai.Domain.ToolCall.{
  ToolCallRequest, Note, written, already_decided, no_such_tool, bad_params, Decision, allowed,
  awaiting_approval, denied_unknown, denied_params, denied_permission, denied_policy, terminal,
  deny, Params,
}
use aegisops_ai.Domain.Execution.{Execution}
use aegisops_ai.Domain.Timeline.{approval_required, tool_executed, tool_rejected}
use aegisops_ai.Gates.Registry.{known, validate_params}
use aegisops_ai.Gates.Permission.{Verdict, check_permission}
use aegisops_ai.Gates.Policy.{Ruling, evaluate}
use aegisops_ai.Gates.Executor.{ToolInvocation, execute}
use aegisops_ai.Harness.World.{World, Env, AgentRow, Topic, harness_error, Result}
use aegisops_ai.Harness.Steps.{
  now, ticked, row_of, update, Saved, saved, already_there, not_saved, save_execution, publish,
  timeline, record_audit,
}

-- A Result without an error.
abbrev pub done : ToolCallRequest → Option Execution → Note → Result
done req ex reason = record { request = req; execution = ex; reason = reason; failure = none }

-- A Result with an error that is no ruling on an approval.
abbrev pub broken : ToolCallRequest → Option Execution → Note → Result
broken req ex reason = record {
  request = req;
  execution = ex;
  reason = reason;
  failure = some harness_error;
}

abbrev pub no_reason : Note
no_reason = written ""

-- deny, then the return that follows it everywhere.
unfoldable pub refuse : Env → ToolCallRequest → Decision → Note → World → World × Result
refuse env req d reason w =
    let req' = deny (now env w) d reason req in
    let (w', _) = update env req' (ticked w) in
    (
      publish env req' Topic.tool_rejected (timeline env req' tool_rejected w'),
      done req' none reason,
    )

-- What follows the tool: the record is saved, published and put on the timeline.
unfoldable pub after_save :
    Env → ToolCallRequest → Execution → Note → Note → Saved → World → World × Result
after_save env req ex reason kept saved w = (
  timeline env req tool_executed (publish env req Topic.tool_executed w),
  done req (some ex) reason,
)
after_save env req ex reason kept already_there w = (w, done req (some ex) reason)
after_save env req ex reason kept not_saved w = (w, broken req (some ex) kept)

-- From the executor's answer on; `kept` is the reason beside an error.
unfoldable pub after_execute :
    Env
    → ToolCallRequest
    → Note
    → Note
    → Option (ToolInvocation × Execution)
    → World
    → World × Result
after_execute env req reason kept none w = (w, broken req none kept)
after_execute env req reason kept (some (call, ex)) w =
    let (w', s) = save_execution env ex (record w { invoked = call ∷ w.invoked }) in
    after_save env req ex reason kept s w'

-- execute, with the normalised parameters; the executor reads the clock when it starts and when
-- the tool has returned.
unfoldable pub run_tool : Env → ToolCallRequest → Params → Note → Note → World → World × Result
run_tool env req params reason kept w =
    after_execute env req reason kept
      (execute env.executor (env.fresh_id w.step) (now env w) (now env (ticked w)) (env.tool w.step)
        (record req { params = params }))
      (ticked (ticked w))

-- Gate five, on whether the decision could be recorded.
unfoldable pub run_recorded : Env → ToolCallRequest → Params → Note → World × Bool → World × Result
run_recorded env req params reason (w, false) = (w, broken req none no_reason)
run_recorded env req params reason (w, true) = run_tool env req params reason no_reason w

-- Gate four: the request is parked, if that could be recorded.
unfoldable pub park : Env → ToolCallRequest → Note → World × Bool → World × Result
park env req reason (w, false) = (w, broken req none reason)
park env req reason (w, true) = (
  timeline env req approval_required (publish env req Topic.approval_required w),
  done req none reason,
)

-- The switch on the ruling.
unfoldable pub after_ruling :
    Env → ToolCallRequest → Params → Decision → Note → World → World × Result
after_ruling env req params denied_policy reason w = refuse env req denied_policy reason w
after_ruling env req params awaiting_approval reason w =
    let req' = record req { decision = awaiting_approval; decision_note = reason } in
    park env req' reason (update env req' w)
after_ruling env req params _ reason w =
    let req' = record req { decision = allowed; decision_note = reason } in
    run_recorded env req' params reason (update env req' w)

-- Gate three.
unfoldable pub with_ruling : Env → ToolCallRequest → Params → Option Ruling → World → World × Result
with_ruling env req params none w = (w, broken req none no_reason)
with_ruling env req params (some r) w =
    after_ruling env (record req { risk = r.risk }) params r.decision r.reason w

unfoldable pub ask_policy : Env → ToolCallRequest → World → World × Option Ruling
ask_policy env req w =
    let (cache, ruling) =
      evaluate env.rule_ttl env.autonomy (now env w) (now env (ticked w))
        (now env (ticked (ticked w))) (env.list_policies w.step) req w.policies in
    (record (ticked (ticked (ticked w))) { policies = cache }, ruling)

unfoldable pub gate_policy : Env → ToolCallRequest → Params → World → World × Result
gate_policy env req params w =
    let (w', ruling) = ask_policy env req w in with_ruling env req params ruling w'

-- Gate two.
unfoldable pub with_verdict :
    Env → ToolCallRequest → Params → Option Verdict → World → World × Result
with_verdict env req params none w = (w, broken req none no_reason)
with_verdict env req params (some v) w =
    if not v.allowed
    then refuse env req denied_permission v.reason w
    else gate_policy env req params w

unfoldable pub ask_permission : Env → ToolCallRequest → String → World → World × Option Verdict
ask_permission env req kind w =
    let (cache, verdict) =
      check_permission env.rule_ttl (now env w) (now env (ticked w)) (now env (ticked (ticked w)))
        (env.list_permissions w.step) kind req.tool req.action w.permissions in
    (record (ticked (ticked (ticked w))) { permissions = cache }, verdict)

unfoldable pub with_kind : Env → ToolCallRequest → Params → Option String → World → World × Result
with_kind env req params none w = (w, broken req none no_reason)
with_kind env req params (some kind) w =
    let (w', verdict) = ask_permission env req kind w in with_verdict env req params verdict w'

enabled_kind : Option AgentRow → Option String
enabled_kind none = none
enabled_kind (some a) = if not a.enabled then none else some a.kind

agent_kind_in : Option (ℕ → Uid → Option AgentRow) → ℕ → ToolCallRequest → Option String
unfolding enabled_kind
agent_kind_in none step req = some req.agent_name
agent_kind_in (some get) step req = enabled_kind (get step req.agent_id)

-- agentKind.
unfoldable pub agent_kind : Env → ToolCallRequest → World → Option String
unfolding agent_kind_in
agent_kind env req w = agent_kind_in env.agents w.step req

-- Gate one.
unfoldable pub with_params : Env → ToolCallRequest → Option Params → World → World × Result
with_params env req none w = refuse env req denied_params (bad_params req.tool) w
with_params env req (some params) w = with_kind env req params (agent_kind env req w) (ticked w)

-- Evaluate from the first gate to the last.
unfoldable pub gates : Env → ToolCallRequest → World → World × Result
gates env req w =
    if not (known env.executor.registry req.tool req.action)
    then refuse env req denied_unknown (no_such_tool req.tool req.action) w
    else with_params env req
        (validate_params env.host env.executor.registry req.tool req.action req.params) w

-- The deferred write to the ledger, over what a handler returns.
unfoldable pub audited : Env → World × Result → World × Result
audited env (w, res) = (record_audit env res.request res.execution res.reason res.failure w, res)

-- Evaluate.
unfoldable pub evaluate_request : Env → ToolCallRequest → World → World × Result
evaluate_request env req w =
    if terminal req.decision
    then (w, done req none (already_decided req.decision))
    else audited env (gates env req w)

-- onToolRequested, from the row on: the new world, and whether redelivery is asked for.
unfoldable pub on_row : Env → Option ToolCallRequest → World → World × Bool
on_row env none w = (w, false)
on_row env (some req) w =
    let (w', res) = evaluate_request env req w in
    (w', elim res.failure [ none ↦ false | some _ ↦ true ])

unfoldable pub on_tool_requested : Env → Uid → World → World × Bool
on_tool_requested env id w =
    if env.get_fails w.step then (ticked w, true) else on_row env (row_of id w.calls) (ticked w)
