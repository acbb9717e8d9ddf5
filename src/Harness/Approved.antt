-- ===== src/Harness/Approved.antt =====
-- What has been checked when a human's ruling leads to the call of a tool.
use aegisops_ai.Base.{
  ℕ, ◌≡◌, refl, sym, ◌∙◌, ◌⊎◌, inl, inr, true, false, Bool, Bool-cases, Option, none, some,
  Option-cases, List, ◌∷◌, ap, subst,
}
use aegisops_ai.Shared.{Uid, Time}
use aegisops_ai.Domain.ToolCall.{
  ToolCallRequest, Note, ruled, approve, denied_policy, denied_params, bad_params, Params, deny,
}
use aegisops_ai.Domain.Timeline.{EventType, approval_granted, approval_denied}
use aegisops_ai.Gates.Registry.{validate_params}
use aegisops_ai.Gates.Policy.{Ruling, Policies, evaluate, evaluate_policies}
use aegisops_ai.Gates.Approval.{
  ApprovalDecision, approves, rejects, Approver, ApprovalCode, rule, ruling_valid,
}
use aegisops_ai.Gates.Approval.Powers.{MayApprove, approve_rule, reject_rule}
use aegisops_ai.Gates.Executor.{ToolInvocation, invocation_of}
use aegisops_ai.Harness.World.{World, Env, Topic}
use aegisops_ai.Harness.Steps.{now, ticked, row_of, update, publish, timeline}
use aegisops_ai.Harness.Pipeline.{ask_policy, audited}
use aegisops_ai.Harness.Rulings.{
  run_approved, is_approved, announce, after_record, is_denied_policy, refused_as_stale, recheck,
  after_rule, rule_on_row, apply_approval,
}
use aegisops_ai.Harness.Calls.{
  invoked-update, invoked-publish, invoked-timeline, invoked-record_audit, invoked-refuse,
}
use aegisops_ai.Harness.Authorised.{runs_as_asked, policies_at, call_for}

module _ (env : Env) where
  -- One call for the request, with its parameters as they pass the schema now.
  pub record Called (req : ToolCallRequest) (before : List ToolInvocation) (w : World)
      : Type 0 where
    pub params : Params
    pub checked :
        validate_params env.host env.executor.registry req.tool req.action req.params ≡ some params
    pub added : w.invoked ≡ call_for env req params ∷ before

  run_approved_runs :
      (req : ToolCallRequest) (reason : Note) (o : Option Params) (w : World)
      → validate_params env.host env.executor.registry req.tool req.action req.params ≡ o
      → ((run_approved env req reason o w).0.invoked ≡ w.invoked)
        ⊎ Called req w.invoked (run_approved env req reason o w).0
  unfolding run_approved
  run_approved_runs req reason none w h =
      inl (invoked-refuse env req denied_params (bad_params req.tool) w)
  run_approved_runs req reason (some params) w h =
      elim (runs_as_asked env req params reason reason w) [
        | inl same ↦ inl same
        | inr more ↦ inr (record { params = params; checked = h; added = more })
      ]

  invoked-announced :
      (req : ToolCallRequest) (topic : Topic) (type_of : EventType) (w : World)
      → (publish env req topic (timeline env req type_of w)).invoked ≡ w.invoked
  invoked-announced req topic type_of w =
      invoked-publish env req topic (timeline env req type_of w)
      ∙ invoked-timeline env req type_of w

  announce_runs :
      (req : ToolCallRequest) (by : Approver) (w : World)
      → ((announce env req by w).0.invoked ≡ w.invoked)
        ⊎ ((is_approved req.decision ≡ true) × Called req w.invoked (announce env req by w).0)
  unfolding announce
  announce_runs req by w = elim (Bool-cases (is_approved req.decision)) [
    | inr no_ ↦ inl (rw no_ (invoked-announced req Topic.approval_denied approval_denied w))
    | inl yes_ ↦
        rw yes_
          (elim (run_approved_runs req (ruled by.email true)
            (validate_params env.host env.executor.registry req.tool req.action req.params)
            (publish env req Topic.approval_granted (timeline env req approval_granted w)) refl) [
              | inl same ↦
                  inl (same ∙ invoked-announced req Topic.approval_granted approval_granted w)
              | inr more ↦ inr (
                refl,
                record {
                  params = more.params;
                  checked = more.checked;
                  added =
                      more.added
                      ∙ ap (λ l. call_for env req more.params ∷ l)
                          (invoked-announced req Topic.approval_granted approval_granted w);
                },
              )
            ])
  ]

  after_record_runs :
      (req : ToolCallRequest) (by : Approver) (before : List ToolInvocation) (out : World × Bool)
      → out.0.invoked ≡ before
      → ((after_record env req by out).0.invoked ≡ before)
        ⊎ ((is_approved req.decision ≡ true) × Called req before (after_record env req by out).0)
  unfolding after_record
  after_record_runs req by before (w, false) h = inl h
  after_record_runs req by before (w, true) h = elim (announce_runs req by w) [
    | inl same ↦ inl (same ∙ h)
    | inr more ↦ inr (more.0, subst (λ l. Called req l (announce env req by w).0) h more.1)
  ]

  invoked-refused_as_stale :
      (req : ToolCallRequest) (out : World × Bool)
      → (refused_as_stale req out).0.invoked ≡ out.0.invoked
  unfolding refused_as_stale
  invoked-refused_as_stale req (w, false) = refl
  invoked-refused_as_stale req (w, true) = refl

  recheck_runs :
      (req : ToolCallRequest) (by : Approver) (before : List ToolInvocation) (o : Option Ruling)
      (w : World)
      → w.invoked ≡ before
      → ((recheck env req by o w).0.invoked ≡ before)
        ⊎ ((r : Ruling) × (o ≡ some r)
            × (is_denied_policy r.decision ≡ false)
            × Called req before (recheck env req by o w).0)
  unfolding recheck
  recheck_runs req by before none w h = inl h
  recheck_runs req by before (some r) w h = elim (Bool-cases (is_denied_policy r.decision)) [
    | inl denied ↦
        let req' = deny (now env w) denied_policy r.reason req in
        inl (
          rw denied (
            invoked-refused_as_stale req' (update env req' (ticked w))
            ∙ invoked-update env req' (ticked w)
            ∙ h))
    | inr open_ ↦
        rw open_
          (elim (after_record_runs req by before (update env req w)
            (invoked-update env req w ∙ h)) [
              | inl same ↦ inl same
              | inr more ↦ inr (r, refl, open_, more.1)
            ])
  ]

  -- A ruling that is applied and approves is an approval by someone who may give it.
  rule_approves :
      (ttl : ℕ) (first later : Time) (decision : ApprovalDecision) (by : Approver) (note : Note)
      (req : ToolCallRequest)
      → (rule ttl first later decision by note req).1 ≡ none
      → is_approved (rule ttl first later decision by note req).0.decision ≡ true
      → (decision ≡ approves)
        × MayApprove ttl first by req
        × ((rule ttl first later decision by note req).0 ≡ approve later by.user_id note req)
  unfolding is_approved
  rule_approves ttl first later approves by note req h a =
      let r = approve_rule ttl first later by note req in (refl, r.0.0 h, r.1 h)
  rule_approves ttl first later rejects by note req h a =
      let r = (reject_rule ttl first later by note req).1 h in
      let e : false ≡ true = rw r.0 at a in cc e
  rule_approves ttl first later (ApprovalDecision.other s) by note req h a =
      let e : some ApprovalCode.not_pending ≡ none = unfold rule in unfold ruling_valid in h in cc e

  -- The checks behind a call that a ruling leads to, on the row `req` in the world `w`.
  pub record Approved (decision : ApprovalDecision) (by : Approver) (req : ToolCallRequest)
      (note : Note) (w : World) : Type 0 where
    pub asked : decision ≡ approves
    pub empowered : MayApprove env.approval_ttl (now env w) by req
    pub policies : Policies
    pub served : policies_at env (ticked (ticked w)) ≡ some policies
    pub not_denied :
        is_denied_policy
          (evaluate_policies env.autonomy
            (approve (now env (ticked w)) by.user_id note req)
            policies).decision
        ≡ false

  -- An approval changes nothing that the call is made of.
  Called-approved :
      (req : ToolCallRequest) (at_ : Time) (by : Uid) (note : Note) (before : List ToolInvocation)
      (w : World)
      → Called (approve at_ by note req) before w
      → Called req before w
  unfolding approve invocation_of
  Called-approved req at_ by note before w c = record {
    params = c.params;
    checked = c.checked;
    added = c.added;
  }

  -- The policies behind a ruling of the gate.
  asked_policies :
      (req : ToolCallRequest) (w : World) (r : Ruling)
      → (ask_policy env req w).1 ≡ some r
      → (policies : Policies) × (policies_at env w ≡ some policies)
        × (evaluate_policies env.autonomy req policies ≡ r)
  unfolding ask_policy evaluate
  asked_policies req w r h = elim (Option-cases (policies_at env w)) [
    | inl nothing ↦ let e : none ≡ some r = rw nothing at h in cc e
    | inr found ↦
        let e : some (evaluate_policies env.autonomy req found.0) ≡ some r = rw found.1 at h in
        (found.0, found.1, cc e)
  ]

  after_rule_runs :
      (decision : ApprovalDecision) (by : Approver) (note : Note) (req : ToolCallRequest)
      (w : World) (ruling : ToolCallRequest × Option ApprovalCode)
      → rule env.approval_ttl (now env w) (now env (ticked w)) decision by note req ≡ ruling
      → ((after_rule env by ruling (ticked (ticked w))).0.invoked ≡ w.invoked)
        ⊎ (Approved decision by req note w
            × Called req w.invoked (after_rule env by ruling (ticked (ticked w))).0)
  after_rule_runs decision by note req w (req', some code) h = inl (unfold after_rule in refl)
  after_rule_runs decision by note req w (req', none) h =
      elim (Bool-cases (is_approved req'.decision)) [
        | inr no_ ↦
            unfold after_rule in
            rw no_
              (elim (after_record_runs req' by w.invoked (update env req' (ticked (ticked w)))
                (invoked-update env req' (ticked (ticked w)))) [
                  | inl same ↦ inl same
                  | inr more ↦ cc (no_, more.0)
                ])
        | inl yes_ ↦
            unfold after_rule ask_policy in
            rw yes_
              (elim (recheck_runs req' by w.invoked (ask_policy env req' (ticked (ticked w))).1
                (ask_policy env req' (ticked (ticked w))).0 refl) [
                  | inl same ↦ inl same
                  | inr (r, told, open_, more) ↦
                      inr (passed yes_ r told open_, of_row (approval_of yes_).2 more)
                ])
      ]
    where
      approval_of :
          is_approved req'.decision ≡ true
          → (decision ≡ approves)
            × MayApprove env.approval_ttl (now env w) by req
            × ((rule env.approval_ttl (now env w) (now env (ticked w)) decision by note req).0
                ≡ approve (now env (ticked w)) by.user_id note req)
      approval_of yes_ =
          rule_approves env.approval_ttl (now env w) (now env (ticked w)) decision by note req
            (ap (λ o. o.1) h)
            (ap (λ (o : ToolCallRequest × Option ApprovalCode). is_approved o.0.decision) h ∙ yes_)

      of_row :
          {after : World}
          → (rule env.approval_ttl (now env w) (now env (ticked w)) decision by note req).0
            ≡ approve (now env (ticked w)) by.user_id note req
          → Called req' w.invoked after
          → Called req w.invoked after
      of_row {after} e c =
          Called-approved req (now env (ticked w)) by.user_id note w.invoked after
            (subst (λ q. Called q w.invoked after) (sym (ap (λ o. o.0) h) ∙ e) c)

      passed :
          is_approved req'.decision ≡ true
          → (r : Ruling) → (ask_policy env req' (ticked (ticked w))).1 ≡ some r
          → is_denied_policy r.decision ≡ false
          → Approved decision by req note w
      passed yes_ r told open_ =
          let a = approval_of yes_ in
          let p = asked_policies req' (ticked (ticked w)) r told in
          let same : req' ≡ approve (now env (ticked w)) by.user_id note req =
            sym (ap (λ o. o.0) h) ∙ a.2 in
          record {
            asked = a.0;
            empowered = a.1;
            policies = p.0;
            served = p.1;
            not_denied =
                ap (λ q. is_denied_policy (evaluate_policies env.autonomy q p.0).decision)
                  (sym same)
                ∙ ap (λ (q : Ruling). is_denied_policy q.decision) p.2
                ∙ open_;
          }

  -- ApplyApproval calls no tool, or exactly one and once: then the ruling is an approval, the stored
  -- request awaits one within its window, the approver's role may approve its tier, the policies
  -- served at that moment do not deny it, and the call carries the stored request's parameters as
  -- they pass the schema at that moment.
  pub apply_approval_runs :
      (id : Uid) (decision : ApprovalDecision) (by : Approver) (note : Note) (w : World)
      → ((apply_approval env id decision by note w).0.invoked ≡ w.invoked)
        ⊎ ((req : ToolCallRequest) × (row_of id w.calls ≡ some req)
            × Approved decision by req note (ticked w)
            × Called req w.invoked (apply_approval env id decision by note w).0)
  unfolding apply_approval rule_on_row audited
  apply_approval_runs id decision by note w = elim (Bool-cases (env.get_fails w.step)) [
    | inl failed ↦ inl (rw failed refl)
    | inr read ↦ rw read (elim (Option-cases (row_of id w.calls)) [
      | inl missing ↦ inl (rw missing refl)
      | inr found ↦
          rw found.1
            (elim (after_rule_runs decision by note found.0 (ticked w)
              (rule env.approval_ttl (now env (ticked w)) (now env (ticked (ticked w))) decision by
                note found.0)
              refl) [
                | inl same ↦ inl (invoked-record_audit env _ _ _ _ _ ∙ same)
                | inr (a, c) ↦ inr (
                  found.0,
                  refl,
                  a,
                  record {
                    params = c.params;
                    checked = c.checked;
                    added = invoked-record_audit env _ _ _ _ _ ∙ c.added;
                  },
                )
              ])
    ])
  ]
