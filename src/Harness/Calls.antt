-- ===== src/Harness/Calls.antt =====
-- Which calls of tools a handler makes: none but the one call of gate five.
use aegisops_ai.Base.{◌≡◌, refl, ◌⊎◌, inl, inr, Option, some, Option-cases, arith, ◌∷◌}
use aegisops_ai.Domain.ToolCall.{ToolCallRequest, Note, Decision, Params}
use aegisops_ai.Domain.Execution.{Execution}
use aegisops_ai.Domain.Timeline.{EventType}
use aegisops_ai.Gates.Executor.{ToolInvocation, execute}
use aegisops_ai.Harness.World.{World, Env, Topic, Failure}
use aegisops_ai.Harness.Steps.{
  now, ticked, update, Saved, saved, save_execution, publish, timeline, record_audit,
}
use aegisops_ai.Harness.Pipeline.{refuse, after_save, after_execute, run_tool}

module _ (env : Env) where
  pub invoked-update :
      (req : ToolCallRequest) (w : World) → (update env req w).0.invoked ≡ w.invoked
  unfolding update
  invoked-update req w = ground arith

  pub invoked-publish :
      (req : ToolCallRequest) (topic : Topic) (w : World)
      → (publish env req topic w).invoked ≡ w.invoked
  unfolding publish
  invoked-publish req topic w = ground arith

  pub invoked-timeline :
      (req : ToolCallRequest) (type_of : EventType) (w : World)
      → (timeline env req type_of w).invoked ≡ w.invoked
  unfolding timeline
  invoked-timeline req type_of w = ground arith

  pub invoked-record_audit :
      (req : ToolCallRequest) (ex : Option Execution) (reason : Note) (failure : Option Failure)
      (w : World)
      → (record_audit env req ex reason failure w).invoked ≡ w.invoked
  unfolding record_audit
  invoked-record_audit req ex reason failure w = ground arith

  pub invoked-save_execution :
      (ex : Execution) (w : World) → (save_execution env ex w).0.invoked ≡ w.invoked
  unfolding save_execution
  invoked-save_execution ex w = ground arith

  pub invoked-refuse :
      (req : ToolCallRequest) (d : Decision) (reason : Note) (w : World)
      → (refuse env req d reason w).0.invoked ≡ w.invoked
  unfolding refuse
  invoked-refuse req d reason w = simp (invoked-publish, invoked-timeline, invoked-update)

  pub invoked-after_save :
      (req : ToolCallRequest) (ex : Execution) (reason kept : Note) (s : Saved) (w : World)
      → (after_save env req ex reason kept s w).0.invoked ≡ w.invoked
  unfolding after_save
  invoked-after_save req ex reason kept saved w = simp (invoked-publish, invoked-timeline)
  invoked-after_save req ex reason kept _ w = refl

  -- The one place where a tool is called.
  pub invoked-run_tool :
      (req : ToolCallRequest) (params : Params) (reason kept : Note) (w : World)
      → ((run_tool env req params reason kept w).0.invoked ≡ w.invoked)
        ⊎ ((call : ToolInvocation) × (ex : Execution) × (execute env.executor
                (env.fresh_id w.step)
                (now env w)
                (now env (ticked w))
                (env.tool w.step)
                (record req { params = params })
              ≡ some (call, ex))
            × ((run_tool env req params reason kept w).0.invoked ≡ call ∷ w.invoked))
  unfolding run_tool after_execute
  invoked-run_tool req params reason kept w =
      elim (Option-cases (
        execute env.executor (env.fresh_id w.step) (now env w) (now env (ticked w))
          (env.tool w.step) (record req { params = params }))) [
            | inl nothing ↦ inl (rw nothing)
            | inr found ↦ inr (
              found.0.0,
              found.0.1,
              found.1,
              rw found.1 (simp (invoked-after_save, invoked-save_execution)),
            )
          ]
