-- ===== src/Harness/Frame.antt =====
-- What the stages of Evaluate leave as it was: an observation of the world that no port changes is
-- changed by no stage. Each stage answers for the request that it was given.
use aegisops_ai.Base.{
  ◌≡◌, refl, ◌∙◌, inl, inr, true, false, Bool, Bool-cases, Option, none, some, String, ◌∷◌,
}
use aegisops_ai.Shared.{Uid}
use aegisops_ai.Domain.ToolCall.{
  ToolCallRequest, deny, Note, Decision, denied_policy, awaiting_approval, allowed, Params,
  no_such_tool, bad_params, denied_unknown, denied_params, denied_permission,
}
use aegisops_ai.Domain.Execution.{Execution}
use aegisops_ai.Domain.Timeline.{EventType}
use aegisops_ai.Gates.Registry.{known, validate_params}
use aegisops_ai.Gates.Cache.{Cache}
use aegisops_ai.Gates.Permission.{Permissions, Verdict}
use aegisops_ai.Gates.Policy.{Policies, Ruling}
use aegisops_ai.Gates.Executor.{ToolInvocation, execute}
use aegisops_ai.Harness.World.{World, Env, Topic, Result}
use aegisops_ai.Harness.Steps.{now, ticked, update, Saved, saved, save_execution, publish, timeline}
use aegisops_ai.Harness.Pipeline.{
  refuse, ask_policy, ask_permission, after_save, after_execute, run_tool, run_recorded, park,
  after_ruling, with_ruling, gate_policy, with_verdict, with_kind, agent_kind, with_params, gates,
}

-- An observation that the calls of the ports on behalf of the request `id` do not change.
pub record Frame {A : Type 0} (env : Env) (id : Uid) (obs : World → A) : Type 0 where
  pub ticks : (w : World) → obs (ticked w) ≡ obs w
  pub updates : (req : ToolCallRequest) (w : World) → req.id ≡ id → obs (update env req w).0 ≡ obs w
  pub publishes :
      (req : ToolCallRequest) (topic : Topic) (w : World) → obs (publish env req topic w) ≡ obs w
  pub records :
      (req : ToolCallRequest) (type_of : EventType) (w : World)
      → obs (timeline env req type_of w) ≡ obs w
  pub saves : (ex : Execution) (w : World) → obs (save_execution env ex w).0 ≡ obs w
  pub invokes :
      (call : ToolInvocation) (w : World) → obs (record w { invoked = call ∷ w.invoked }) ≡ obs w
  pub caches_matrix :
      (c : Cache Permissions) (w : World) → obs (record w { permissions = c }) ≡ obs w
  pub caches_policies : (c : Cache Policies) (w : World) → obs (record w { policies = c }) ≡ obs w

-- A stage that keeps the observation and answers for the request `id`.
pub record IsQuiet {A : Type 0} (obs : World → A) (id : Uid) (w : World) (out : World × Result)
    : Type 0 where
  pub same : obs out.0 ≡ obs w
  pub same_id : out.1.request.id ≡ id

module _ {A : Type 0} (env : Env) (id : Uid) (obs : World → A) (f : Frame env id obs) where
  pub refuse-IsQuiet :
      (req : ToolCallRequest) (d : Decision) (reason : Note) (w : World)
      → req.id ≡ id
      → IsQuiet obs id w (refuse env req d reason w)
  unfolding refuse
  refuse-IsQuiet req d reason w i = record {
    same =
        f.publishes _ _ _
        ∙ f.records _ _ _
        ∙ f.updates (deny (now env w) d reason req) (ticked w) (unfold deny in i)
        ∙ f.ticks w;
    same_id = unfold deny in i;
  }

  after_save-IsQuiet :
      (req : ToolCallRequest) (ex : Execution) (reason kept : Note) (s : Saved) (w : World)
      → req.id ≡ id
      → IsQuiet obs id w (after_save env req ex reason kept s w)
  unfolding after_save
  after_save-IsQuiet req ex reason kept saved w i = record {
    same = f.records _ _ _ ∙ f.publishes _ _ w;
    same_id = i;
  }
  after_save-IsQuiet req ex reason kept _ w i = record { same = refl; same_id = i }

  after_execute-IsQuiet :
      (req : ToolCallRequest) (reason kept : Note) (made : Option (ToolInvocation × Execution))
      (w : World)
      → req.id ≡ id
      → IsQuiet obs id w (after_execute env req reason kept made w)
  unfolding after_execute
  after_execute-IsQuiet req reason kept none w i = record { same = refl; same_id = i }
  after_execute-IsQuiet req reason kept (some (call, ex)) w i =
      let w' = record w { invoked = call ∷ w.invoked } in
      let q =
        after_save-IsQuiet req ex reason kept (save_execution env ex w').1
          (save_execution env ex w').0 i in
      record { same = q.same ∙ f.saves ex w' ∙ f.invokes call w; same_id = q.same_id }

  pub run_tool-IsQuiet :
      (req : ToolCallRequest) (params : Params) (reason kept : Note) (w : World)
      → req.id ≡ id
      → IsQuiet obs id w (run_tool env req params reason kept w)
  unfolding run_tool
  run_tool-IsQuiet req params reason kept w i =
      let q =
        after_execute-IsQuiet req reason kept
          (execute env.executor (env.fresh_id w.step) (now env w) (now env (ticked w))
            (env.tool w.step) (record req { params = params }))
          (ticked (ticked w)) i in
      record { same = q.same ∙ f.ticks (ticked w) ∙ f.ticks w; same_id = q.same_id }

  pub after_ruling-IsQuiet :
      (req : ToolCallRequest) (params : Params) (d : Decision) (reason : Note) (w : World)
      → req.id ≡ id
      → IsQuiet obs id w (after_ruling env req params d reason w)
  unfolding after_ruling park run_recorded
  after_ruling-IsQuiet req params denied_policy reason w i =
      refuse-IsQuiet req denied_policy reason w i
  after_ruling-IsQuiet req params awaiting_approval reason w i =
      parked (update env req' w) (f.updates req' w i)
    where
      req' : ToolCallRequest
      req' = record req { decision = awaiting_approval; decision_note = reason }

      parked :
          (out : World × Bool) → obs out.0 ≡ obs w → IsQuiet obs id w (park env req' reason out)
      parked (w', false) e = record { same = e; same_id = i }
      parked (w', true) e = record { same = f.records _ _ _ ∙ f.publishes _ _ _ ∙ e; same_id = i }
  after_ruling-IsQuiet req params _ reason w i = runs (update env req' w) (f.updates req' w i)
    where
      req' : ToolCallRequest
      req' = record req { decision = allowed; decision_note = reason }

      runs :
          (out : World × Bool)
          → obs out.0 ≡ obs w
          → IsQuiet obs id w (run_recorded env req' params reason out)
      runs (w', false) e = record { same = e; same_id = i }
      runs (w', true) e =
          let q = run_tool-IsQuiet req' params reason _ w' i in
          record { same = q.same ∙ e; same_id = q.same_id }

  asks_policy : (req : ToolCallRequest) (w : World) → obs (ask_policy env req w).0 ≡ obs w
  unfolding ask_policy
  asks_policy req w =
      f.caches_policies _ (ticked (ticked (ticked w)))
      ∙ f.ticks (ticked (ticked w))
      ∙ f.ticks (ticked w)
      ∙ f.ticks w

  asks_permission :
      (req : ToolCallRequest) (kind : String) (w : World)
      → obs (ask_permission env req kind w).0 ≡ obs w
  unfolding ask_permission
  asks_permission req kind w =
      f.caches_matrix _ (ticked (ticked (ticked w)))
      ∙ f.ticks (ticked (ticked w))
      ∙ f.ticks (ticked w)
      ∙ f.ticks w

  with_ruling-IsQuiet :
      (req : ToolCallRequest) (params : Params) (o : Option Ruling) (w : World)
      → req.id ≡ id
      → IsQuiet obs id w (with_ruling env req params o w)
  unfolding with_ruling
  with_ruling-IsQuiet req params none w i = record { same = refl; same_id = i }
  with_ruling-IsQuiet req params (some r) w i =
      let q = after_ruling-IsQuiet (record req { risk = r.risk }) params r.decision r.reason w i in
      q

  gate_policy-IsQuiet :
      (req : ToolCallRequest) (params : Params) (w : World)
      → req.id ≡ id
      → IsQuiet obs id w (gate_policy env req params w)
  unfolding gate_policy ask_policy
  gate_policy-IsQuiet req params w i =
      let q = with_ruling-IsQuiet req params (ask_policy env req w).1 (ask_policy env req w).0 i in
      record { same = q.same ∙ asks_policy req w; same_id = q.same_id }

  with_verdict-IsQuiet :
      (req : ToolCallRequest) (params : Params) (o : Option Verdict) (w : World)
      → req.id ≡ id
      → IsQuiet obs id w (with_verdict env req params o w)
  unfolding with_verdict
  with_verdict-IsQuiet req params none w i = record { same = refl; same_id = i }
  with_verdict-IsQuiet req params (some v) w i = elim (Bool-cases v.allowed) [
    | inl yes_ ↦ rw yes_ (gate_policy-IsQuiet req params w i)
    | inr no_ ↦ rw no_ (refuse-IsQuiet req denied_permission v.reason w i)
  ]

  with_kind-IsQuiet :
      (req : ToolCallRequest) (params : Params) (o : Option String) (w : World)
      → req.id ≡ id
      → IsQuiet obs id w (with_kind env req params o w)
  unfolding with_kind ask_permission
  with_kind-IsQuiet req params none w i = record { same = refl; same_id = i }
  with_kind-IsQuiet req params (some kind) w i =
      let q =
        with_verdict-IsQuiet req params (ask_permission env req kind w).1
          (ask_permission env req kind w).0 i in
      record { same = q.same ∙ asks_permission req kind w; same_id = q.same_id }

  with_params-IsQuiet :
      (req : ToolCallRequest) (o : Option Params) (w : World)
      → req.id ≡ id
      → IsQuiet obs id w (with_params env req o w)
  unfolding with_params
  with_params-IsQuiet req none w i = refuse-IsQuiet req denied_params (bad_params req.tool) w i
  with_params-IsQuiet req (some params) w i =
      let q = with_kind-IsQuiet req params (agent_kind env req w) (ticked w) i in
      record { same = q.same ∙ f.ticks w; same_id = q.same_id }

  pub gates-IsQuiet :
      (req : ToolCallRequest) (w : World) → req.id ≡ id → IsQuiet obs id w (gates env req w)
  unfolding gates
  gates-IsQuiet req w i = elim (Bool-cases (known env.executor.registry req.tool req.action)) [
    | inl k ↦ rw k (
        with_params-IsQuiet req
          (validate_params env.host env.executor.registry req.tool req.action req.params) w i)
    | inr unknown ↦
        rw unknown (refuse-IsQuiet req denied_unknown (no_such_tool req.tool req.action) w i)
  ]
