-- ===== src/Harness/Authorised.antt =====
-- What has been checked when the harness calls a tool.
use aegisops_ai.Base.{
  ◌≡◌, refl, sym, ◌∙◌, ◌⊎◌, inl, inr, true, false, Bool, Bool-cases, Option, none, some,
  Option-cases, arith, String, List, ◌∷◌, subst, ap,
}
use aegisops_ai.Shared.{Uid}
use aegisops_ai.Domain.ToolCall.{
  ToolCallRequest, Note, Decision, allowed, denied_policy, awaiting_approval, Params, terminal,
  denied_permission, denied_params, denied_unknown,
}
use aegisops_ai.Domain.Timeline.{approval_required}
use aegisops_ai.Gates.Cache.{lookup}
use aegisops_ai.Gates.Registry.{known, validate_params}
use aegisops_ai.Gates.Permission.{
  Permissions, Verdict, check_permission, compiled_answer, allows, verdict,
}
use aegisops_ai.Gates.Policy.{
  Policies, evaluate, evaluate_policies, compiled_answer as compiled_policies, rule_on,
}
use aegisops_ai.Gates.Executor.{ToolInvocation, invocation_of}
use aegisops_ai.Gates.Executor.Effects.{execute-Executed}
use aegisops_ai.Harness.World.{World, Env, Topic, Result}
use aegisops_ai.Harness.Steps.{now, ticked, update, publish, row_of}
use aegisops_ai.Harness.Pipeline.{
  run_tool, run_recorded, park, after_ruling, with_ruling, ask_policy, gate_policy, with_verdict,
  ask_permission, with_kind, agent_kind, with_params, gates, audited, evaluate_request,
}
use aegisops_ai.Harness.Rows.{IsAllowed, update-IsAllowed, calls-run_tool, calls-record_audit}
use aegisops_ai.Harness.Calls.{
  invoked-update, invoked-publish, invoked-timeline, invoked-record_audit, invoked-refuse,
  invoked-run_tool,
}

module _ (env : Env) where
  -- The matrix that the permission gate decides on, asked in the world `w`.
  abbrev pub matrix_at : World → Option Permissions
  matrix_at w =
      (lookup env.rule_ttl (now env w) (now env (ticked w)) (now env (ticked (ticked w)))
        (compiled_answer (env.list_permissions w.step)) w.permissions).1

  -- The policies that the policy gate decides on.
  abbrev pub policies_at : World → Option Policies
  policies_at w =
      (lookup env.rule_ttl (now env w) (now env (ticked w)) (now env (ticked (ticked w)))
        (compiled_policies (env.list_policies w.step)) w.policies).1

  pub runs_as_asked :
      (req : ToolCallRequest) (params : Params) (reason kept : Note) (w : World)
      → ((run_tool env req params reason kept w).0.invoked ≡ w.invoked)
        ⊎ ((run_tool env req params reason kept w).0.invoked
            ≡ invocation_of env.executor (record req { params = params }) ∷ w.invoked)
  runs_as_asked req params reason kept w = elim (invoked-run_tool env req params reason kept w) [
    | inl same ↦ inl same
    | inr (call, ex, ran, more) ↦ inr (
        more
        ∙ ap (λ c. c ∷ w.invoked)
            (execute-Executed env.executor (env.fresh_id w.step) (now env w) (now env (ticked w))
              (env.tool w.step) (record req { params = params }) ran).as_asked)
  ]

  -- The request was recorded as allowed, and then this call was made for it.
  pub record Ran (id : Uid) (call : ToolInvocation) (before : List ToolInvocation) (w : World)
      : Type 0 where
    pub added : w.invoked ≡ call ∷ before
    pub recorded : IsAllowed id w

  recorded_run :
      (req : ToolCallRequest) (params : Params) (reason : Note) (w : World) (out : World × Bool)
      → out.0.invoked ≡ w.invoked
      → (out.1 ≡ true → IsAllowed req.id out.0)
      → ((run_recorded env req params reason out).0.invoked ≡ w.invoked)
        ⊎ Ran req.id
            (invocation_of env.executor (record req { params = params }))
            w.invoked
            (run_recorded env req params reason out).0
  unfolding run_recorded
  recorded_run req params reason w (w', false) same stored = inl same
  recorded_run req params reason w (w', true) same stored =
      elim (runs_as_asked req params reason _ w') [
        | inl quiet ↦ inl (quiet ∙ same)
        | inr more ↦
            let told = stored refl in
            inr (record {
              added =
                  more
                  ∙ ap (λ l. invocation_of env.executor (record req { params = params }) ∷ l) same;
              recorded = record {
                row = told.row;
                stored =
                    ap (row_of req.id) (calls-run_tool env req params reason _ w') ∙ told.stored;
                decided = told.decided;
              };
            })
      ]

  parked :
      (req : ToolCallRequest) (reason : Note) (w : World) (out : World × Bool)
      → out.0.invoked ≡ w.invoked
      → (park env req reason out).0.invoked ≡ w.invoked
  unfolding park
  parked req reason w (w', false) same = same
  parked req reason w (w', true) same =
      invoked-timeline env req approval_required (publish env req Topic.approval_required w')
      ∙ invoked-publish env req Topic.approval_required w'
      ∙ same

  abbrev proceeds : Decision → Bool
  proceeds denied_policy = false
  proceeds awaiting_approval = false
  proceeds _ = true

  -- What the executor is asked for.
  abbrev pub call_for : ToolCallRequest → Params → ToolInvocation
  call_for req params = invocation_of env.executor (record req { params = params })

  after_ruling_runs :
      (req : ToolCallRequest) (params : Params) (d : Decision) (reason : Note) (w : World)
      → ((after_ruling env req params d reason w).0.invoked ≡ w.invoked)
        ⊎ ((proceeds d ≡ true)
            × Ran req.id (call_for req params) w.invoked (after_ruling env req params d reason w).0)
  unfolding after_ruling invocation_of
  after_ruling_runs req params denied_policy reason w =
      inl (invoked-refuse env req denied_policy reason w)
  after_ruling_runs req params awaiting_approval reason w =
      inl (parked _ reason w _ (invoked-update env _ w))
  after_ruling_runs req params _ reason w =
      elim (recorded_run (record req { decision = allowed; decision_note = reason }) params reason w
        (update env (record req { decision = allowed; decision_note = reason }) w)
        (invoked-update env _ w)
        (update-IsAllowed env (record req { decision = allowed; decision_note = reason }) w refl)) [
          | inl same ↦ inl same
          | inr more ↦ inr (refl, more)
        ]

  -- The gate's decision is one of three.
  proceeds_allowed :
      (req : ToolCallRequest) (policies : Policies)
      → proceeds (evaluate_policies env.autonomy req policies).decision ≡ true
      → (evaluate_policies env.autonomy req policies).decision ≡ allowed
  unfolding evaluate_policies rule_on
  proceeds_allowed req policies h = ground arith

  gate_policy_runs :
      (req : ToolCallRequest) (params : Params) (w : World)
      → ((gate_policy env req params w).0.invoked ≡ w.invoked)
        ⊎ ((policies : Policies) × (policies_at w ≡ some policies)
            × ((evaluate_policies env.autonomy req policies).decision ≡ allowed)
            × Ran req.id (call_for req params) w.invoked (gate_policy env req params w).0)
  unfolding gate_policy ask_policy evaluate with_ruling invocation_of
  gate_policy_runs req params w = elim (Option-cases (policies_at w)) [
    | inl nothing ↦ inl (rw nothing refl)
    | inr found ↦
        rw found.1
          (elim (after_ruling_runs
            (record req { risk = (evaluate_policies env.autonomy req found.0).risk }) params
            (evaluate_policies env.autonomy req found.0).decision
            (evaluate_policies env.autonomy req found.0).reason (ask_policy env req w).0) [
              | inl same ↦ inl same
              | inr more ↦ inr (found.0, refl, proceeds_allowed req found.0 more.0, more.1)
            ])
  ]

  invoked-ask_permission :
      (req : ToolCallRequest) (kind : String) (w : World)
      → (ask_permission env req kind w).0.invoked ≡ w.invoked
  unfolding ask_permission
  invoked-ask_permission req kind w = refl

  -- The gates that a call has passed, on the row `req` in the world `w`.
  pub record Authorised (req : ToolCallRequest) (w : World) (call : ToolInvocation) : Type 0 where
    pub registered : known env.executor.registry req.tool req.action ≡ true
    pub params : Params
    pub checked :
        validate_params env.host env.executor.registry req.tool req.action req.params ≡ some params
    pub as_checked : call ≡ call_for req params
    pub kind : String
    pub enabled : agent_kind env req w ≡ some kind
    pub matrix : Permissions
    pub matrix_served : matrix_at (ticked w) ≡ some matrix
    pub granted : (allows matrix kind req.tool req.action).0 ≡ true
    pub policies : Policies
    pub policies_served : policies_at (ask_permission env req kind (ticked w)).0 ≡ some policies
    pub unattended : (evaluate_policies env.autonomy req policies).decision ≡ allowed

  verdict_runs :
      (req : ToolCallRequest) (params : Params) (v : Verdict) (w : World)
      → ((with_verdict env req params (some v) w).0.invoked ≡ w.invoked)
        ⊎ ((v.allowed ≡ true)
            × ((with_verdict env req params (some v) w) ≡ gate_policy env req params w))
  unfolding with_verdict
  verdict_runs req params v w = elim (Bool-cases v.allowed) [
    | inl yes_ ↦ inr (yes_, rw yes_ refl)
    | inr no_ ↦ inl (rw no_ (invoked-refuse env req denied_permission v.reason w))
  ]

  with_kind_runs :
      (req : ToolCallRequest) (params : Params) (kind : String) (w : World)
      → ((with_kind env req params (some kind) w).0.invoked ≡ w.invoked)
        ⊎ ((matrix : Permissions) × (matrix_at w ≡ some matrix)
            × ((allows matrix kind req.tool req.action).0 ≡ true)
            × ((with_kind env req params (some kind) w)
                ≡ gate_policy env req params (ask_permission env req kind w).0))
  unfolding with_kind ask_permission check_permission verdict
  with_kind_runs req params kind w = elim (Option-cases (matrix_at w)) [
    | inl nothing ↦ inl (rw nothing (unfold with_verdict in refl))
    | inr found ↦
        rw found.1
          (elim (verdict_runs req params
            (verdict req.tool req.action (allows found.0 kind req.tool req.action))
            (ask_permission env req kind w).0) [
              | inl same ↦ inl same
              | inr more ↦ inr (found.0, refl, more.0, more.1)
            ])
  ]

  -- From gate two on, with the parameters checked.
  kind_runs :
      (req : ToolCallRequest) (params : Params) (kind : Option String) (w : World)
      → known env.executor.registry req.tool req.action ≡ true
      → validate_params env.host env.executor.registry req.tool req.action req.params ≡ some params
      → agent_kind env req w ≡ kind
      → ((with_kind env req params kind (ticked w)).0.invoked ≡ w.invoked)
        ⊎ (Authorised req w (call_for req params)
            × Ran req.id
                (call_for req params)
                w.invoked
                (with_kind env req params kind (ticked w)).0)
  kind_runs req params none w k c a = inl (unfold with_kind in refl)
  kind_runs req params (some kind) w k c a = elim (with_kind_runs req params kind (ticked w)) [
    | inl same ↦ inl same
    | inr (matrix, served, granted, on) ↦
        elim (gate_policy_runs req params (ask_permission env req kind (ticked w)).0) [
          | inl same ↦
              inl (ap (λ o. o.0.invoked) on ∙ same ∙ invoked-ask_permission req kind (ticked w))
          | inr (policies, served', alone, more) ↦ inr (
            record {
              registered = k;
              params = params;
              checked = c;
              as_checked = refl;
              kind = kind;
              enabled = a;
              matrix = matrix;
              matrix_served = served;
              granted = granted;
              policies = policies;
              policies_served = served';
              unattended = alone;
            },
            subst (λ o. Ran req.id (call_for req params) w.invoked o.0) (sym on)
                (subst
                  (λ l.
                    Ran req.id (call_for req params) l
                      (gate_policy env req params (ask_permission env req kind (ticked w)).0).0)
                  (invoked-ask_permission req kind (ticked w)) more),
          )
        ]
  ]

  gates_runs :
      (req : ToolCallRequest) (w : World)
      → ((gates env req w).0.invoked ≡ w.invoked)
        ⊎ ((call : ToolInvocation) × Authorised req w call
            × Ran req.id call w.invoked (gates env req w).0)
  unfolding gates with_params
  gates_runs req w = elim (Bool-cases (known env.executor.registry req.tool req.action)) [
    | inr unknown ↦ inl (rw unknown (invoked-refuse env req denied_unknown _ w))
    | inl k ↦
        elim (Option-cases
          (validate_params env.host env.executor.registry req.tool req.action req.params)) [
            | inl bad ↦ inl (rw (k, bad) (invoked-refuse env req denied_params _ w))
            | inr good ↦
                rw (k, good.1)
                  (elim (kind_runs req good.0 (agent_kind env req w) w k good.1 refl) [
                    | inl same ↦ inl same
                    | inr more ↦ inr (call_for req good.0, more.0, more.1)
                  ])
          ]
  ]

  Ran-audited :
      (id : Uid) (call : ToolInvocation) (before : List ToolInvocation) (out : World × Result)
      → Ran id call before out.0
      → Ran id call before (audited env out).0
  unfolding audited
  Ran-audited id call before (w, res) r = record {
    added = invoked-record_audit env _ _ _ _ w ∙ r.added;
    recorded = record {
      row = r.recorded.row;
      stored = ap (row_of id) (calls-record_audit env _ _ _ _ w) ∙ r.recorded.stored;
      decided = r.recorded.decided;
    };
  }

  -- Evaluate calls no tool, or exactly one and once: then the request had no final decision, its
  -- tool and action are registered, its parameters passed the schema and the call carries them as
  -- normalised, its agent's kind was found, the matrix served to the permission gate grants that
  -- kind the action, the policies served to the policy gate let it run without a human, and the row
  -- of the request says allowed.
  pub evaluate_request_runs :
      (req : ToolCallRequest) (w : World)
      → ((evaluate_request env req w).0.invoked ≡ w.invoked)
        ⊎ ((terminal req.decision ≡ false)
            × ((call : ToolInvocation) × Authorised req w call
                × Ran req.id call w.invoked (evaluate_request env req w).0))
  unfolding evaluate_request audited
  evaluate_request_runs req w = elim (Bool-cases (terminal req.decision)) [
    | inl final ↦ inl (rw final refl)
    | inr open_ ↦ rw open_ (elim (gates_runs req w) [
      | inl same ↦ inl (invoked-record_audit env _ _ _ _ _ ∙ same)
      | inr more ↦
          inr (refl, (more.0, more.1, Ran-audited req.id more.0 w.invoked (gates env req w) more.2))
    ])
  ]
