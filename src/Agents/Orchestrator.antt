-- ===== src/Agents/Orchestrator.antt =====
-- internal/agents/orchestrator.go: one investigation. `inc` is the orchestrator's copy of the row;
-- a function that changes it returns the new copy. Log lines, durations in a payload, and the
-- texts of payloads that nothing reads back are left out. A context that ends shows as a failing
-- port or as an error of the agent.
pub mod Announced
use aegisops_ai.Base.{
  ℕ, suc, Bool, true, false, not, str_eq, String, List, [], ◌∷◌, ◌++◌, Option, none, some,
  if◌then◌else◌, ◌⊎◌, inl, inr, length, pos, ltb,
}
use Prim.Native.String
use aegisops_ai.Shared.{Uid, Time, Err, conflict, is_zero_id}
use aegisops_ai.Domain.Agent.{
  Kind, incident_manager, monitoring, log_analysis, diagnosis, security, action, documentation,
}
use aegisops_ai.Domain.Incident.{
  Incident, Status, investigating, diagnosing, failed, status_active, transition_to, set_diagnosis,
}
use aegisops_ai.Domain.Task.{Task, new_task, start, succeed, fail as fail_task}
use aegisops_ai.Domain.ToolCall.{ToolCallRequest, Params, Value, str, float, int}
use aegisops_ai.Domain.Timeline.{
  EventType, agent_started, agent_completed, agent_failed, tool_requested, diagnosis_reached,
  note_added,
}
use aegisops_ai.Storage.Incidents.{RepoError, modified_concurrently}
use aegisops_ai.Agents.Program.{Program, done, act, ◌>>=◌, ◌>>◌, par}
use aegisops_ai.Agents.Evidence.{
  Fault, unregistered, unattributed, invalid_task, not_persisted, panicked, Output, no_output,
  Evidence, new_evidence, record_output, record_error, complete, Input,
}
use aegisops_ai.Agents.Wording.{summarise}
use aegisops_ai.Agents.Specialists.{finding_root_cause, first_wave}
use aegisops_ai.Agents.World.{
  World, Env, Impl, Executed, returned, returned_error, panics, ticked, answered, clock_now, new_id,
  get_incident, put_incident, create_task_row, update_task_row, create_call, publish, add_event,
  allocate, read_evidence, update_evidence,
}

-- What an investigation returns an error about.
pub data Failure : Type 0 where
  load_incident persist_status : RepoError → Failure
  bad_transition : Err → Failure

module _ (env : Env) where
  refused_transition : Incident → Err → Program World (Incident ⊎ Failure)
  refused_transition inc conflict = done (inl inc)
  refused_transition inc e = done (inr (bad_transition e))

  reread : Incident → Incident ⊎ RepoError → Incident
  reread inc (inl fresh) = fresh
  reread inc (inr e) = inc

  after_update :
      Incident → Status → String → Incident ⊎ RepoError → Program World (Incident ⊎ Failure)
  unfolding ◌>>=◌ publish get_incident reread
  after_update inc next name (inl stored) = do
    publish env stored.id "incident.status_changed" "orchestrator" (("status", str name) ∷ [])
    done (inl stored)
  after_update inc next name (inr modified_concurrently) = do
    answer ← get_incident env inc.id
    done (inl (reread inc answer))
  after_update inc next name (inr e) = done (inr (persist_status e))

  after_move : Status → String → Incident × Option Err → Program World (Incident ⊎ Failure)
  unfolding ◌>>=◌ put_incident refused_transition after_update
  after_move next name (inc, some e) = refused_transition inc e
  after_move next name (inc, none) = do
    answer ← put_incident env inc
    after_update inc next name answer

  -- transition; `name` is string(next).
  unfoldable pub transition : Incident → Status → String → Program World (Incident ⊎ Failure)
  unfolding ◌>>=◌ clock_now after_move transition_to
  transition inc next name = do
    now ← clock_now env
    after_move next name (transition_to now next inc)

  announced_task : Kind → Task → Bool → Program World (Task ⊎ Fault)
  unfolding ◌>>=◌ publish
  announced_task kind t false = done (inr not_persisted)
  announced_task kind t true = do
    publish env t.incident_id "task.created" (env.kind_name kind)
        (("task_id", str (env.id_text t.id)) ∷ ("type", str (env.kind_name kind)) ∷ [])
    done (inl t)

  started_task : Kind → Task × Option Err → Program World (Task ⊎ Fault)
  unfolding ◌>>=◌ create_task_row announced_task
  started_task kind (t, some e) = done (inr (invalid_task e))
  started_task kind (t, none) = do
    kept ← if env.has_tasks then create_task_row env t else done true
    announced_task kind t kept

  built_task : Kind → Task ⊎ Err → Program World (Task ⊎ Fault)
  unfolding ◌>>=◌ clock_now started_task start
  built_task kind (inr e) = done (inr (invalid_task e))
  built_task kind (inl t) = do
    now ← clock_now env
    later ← clock_now env
    started_task kind (start now later t)

  -- createTask.
  unfoldable pub create_task : Uid → Impl → Kind → Program World (Task ⊎ Fault)
  unfolding ◌>>=◌ new_id clock_now built_task new_task
  create_task incident impl kind = elim impl.id [
    | none ↦ done (inr (unattributed kind))
    | some agent_id ↦ if is_zero_id agent_id then done (inr (unattributed kind)) else (do
      id ← new_id env
      now ← clock_now env
      built_task kind (new_task id now incident agent_id (env.kind_name kind)))
  ]

  finished : Task × Option Err → Program World Unit
  unfolding update_task_row
  finished (t, some e) = done tt
  finished (t, none) = update_task_row env t

  -- finishTask.
  unfoldable pub finish_task : Task → Output ⊎ Fault → Program World Unit
  unfolding ◌>>=◌ clock_now finished succeed fail_task
  finish_task t result =
      if env.has_tasks
      then (do
        now ← clock_now env
        later ← clock_now env
        finished (elim result [
          | inl out ↦ succeed now later (env.payload_text out.findings) t
          | inr e ↦ fail_task now later (env.fault_text e) t
        ]))
      else done tt

  -- safeExecute.
  unfoldable pub safe_execute : Executed → Output ⊎ Fault
  safe_execute (returned out) = inl out
  safe_execute (returned_error e) = inr e
  safe_execute (panics message) = inr (panicked message)

  report : Uid → Kind → Task → Output ⊎ Fault → Program World Unit
  unfolding ◌>>=◌ publish add_event summarise
  report incident kind t (inr e) = do
    publish env incident "agent.failed" (env.kind_name kind)
        (("task_id", str (env.id_text t.id)) ∷ ("error", str (env.fault_text e)) ∷ [])
    add_event env incident agent_failed (env.kind_name kind)
        (String.◌++◌ (env.kind_name kind) (String.◌++◌ " failed: " (env.fault_text e)))
  report incident kind t (inl out) = do
    publish env incident "agent.completed" (env.kind_name kind) (
        ("task_id", str (env.id_text t.id))
        ∷ ("confidence", float out.confidence)
        ∷ ("tool_calls", int (pos (length out.tool_calls)))
        ∷ [])
    add_event env incident agent_completed (env.kind_name kind) (summarise out.summary)

  run_task : Incident → Kind → Impl → Evidence → Task ⊎ Fault → Program World (Output ⊎ Fault)
  unfolding ◌>>=◌ publish add_event safe_execute finish_task report
  run_task inc kind impl e (inr fault) = done (inr fault)
  run_task inc kind impl e (inl t) = do
    publish env inc.id "agent.started" (env.kind_name kind)
        (("task_id", str (env.id_text t.id)) ∷ ("agent", str (env.kind_name kind)) ∷ [])
    add_event env inc.id agent_started (env.kind_name kind)
        (String.◌++◌ (env.kind_name kind) " started")
    executed ← answered ticked λ w. safe_execute (
        impl.execute (env.draws w.step)
          (record { incident = inc; task = some t; evidence = some e }))
    finish_task t executed
    report inc.id kind t executed
    done executed

  -- runAgentWithEvidence.
  unfoldable pub run_agent : Incident → Kind → Evidence → Program World (Output ⊎ Fault)
  unfolding ◌>>=◌ create_task run_task
  run_agent inc kind e = elim (env.agents kind) [
    | none ↦ done (inr (unregistered kind))
    | some impl ↦ do created ← create_task inc.id impl kind; run_task inc kind impl e created
  ]
