-- ===== src/Agents/Orchestrator/Announced.antt =====
-- internal/agents/orchestrator.go: moving the incident and running an agent publish no tool.requested.
use aegisops_ai.Base.{
  refl, Bool, true, false, inl, inr, ◌⊎◌, String, Option, none, some, Option-cases, if◌then◌else◌,
}
use aegisops_ai.Shared.{Uid, Err, not_found, already_exists, conflict, validation, forbidden}
use aegisops_ai.Domain.Agent.{Kind}
use aegisops_ai.Domain.Incident.{Incident, Status}
use aegisops_ai.Domain.Task.{Task}
use aegisops_ai.Storage.Incidents.{
  RepoError, rejected, duplicate, missing, modified_concurrently, unavailable,
}
use aegisops_ai.Agents.Program.{Program, Safe, bind-Safe}
use aegisops_ai.Agents.Evidence.{Evidence, Fault, Output}
use aegisops_ai.Agents.World.{World, Env, Impl, ticked, answered}
use aegisops_ai.Agents.Announced.{
  announced, quiet-Safe, done-Safe, clock_now-Safe, new_id-Safe, get_incident-Safe,
  put_incident-Safe, create_task_row-Safe, update_task_row-Safe, add_event-Safe, publish_other-Safe,
}
use aegisops_ai.Agents.Orchestrator.{
  refused_transition, after_update, after_move, transition, announced_task, started_task,
  built_task, create_task, finished, finish_task, report, run_task, run_agent,
}

ruleset quiet = (
  bind-Safe, done-Safe, publish_other-Safe, clock_now-Safe, new_id-Safe, get_incident-Safe,
  put_incident-Safe, create_task_row-Safe, update_task_row-Safe, add_event-Safe,
)

module _ (env : Env) where
  after_update-Safe :
      (inc : Incident) (next : Status) (name : String) (answer : Incident ⊎ RepoError) (w : World)
      → Safe (announced env) (after_update env inc next name answer) w
  unfolding after_update
  after_update-Safe inc next name (inl stored) w = search quiet
  after_update-Safe inc next name (inr modified_concurrently) w = search quiet
  after_update-Safe inc next name (inr rejected) w = search quiet
  after_update-Safe inc next name (inr duplicate) w = search quiet
  after_update-Safe inc next name (inr missing) w = search quiet
  after_update-Safe inc next name (inr unavailable) w = search quiet

  refused_transition-Safe :
      (inc : Incident) (e : Err) (w : World) → Safe (announced env) (refused_transition env inc e) w
  unfolding refused_transition
  refused_transition-Safe inc conflict w = search quiet
  refused_transition-Safe inc not_found w = search quiet
  refused_transition-Safe inc already_exists w = search quiet
  refused_transition-Safe inc (validation entity fields) w = search quiet
  refused_transition-Safe inc forbidden w = search quiet

  after_move-Safe :
      (next : Status) (name : String) (moved : Incident × Option Err) (w : World)
      → Safe (announced env) (after_move env next name moved) w
  unfolding after_move
  after_move-Safe next name (inc, some e) w = search refused_transition-Safe
  after_move-Safe next name (inc, none) w = search (quiet, after_update-Safe)

  pub transition-Safe :
      (inc : Incident) (next : Status) (name : String) (w : World)
      → Safe (announced env) (transition env inc next name) w
  unfolding transition
  transition-Safe inc next name w = search (quiet, after_move-Safe)

  announced_task-Safe :
      (kind : Kind) (t : Task) (kept : Bool) (w : World)
      → Safe (announced env) (announced_task env kind t kept) w
  unfolding announced_task
  announced_task-Safe kind t true w = search quiet
  announced_task-Safe kind t false w = search quiet

  pub if-Safe :
      {A : Type 0} (b : Bool) (p q : Program World A) (w : World)
      → Safe (announced env) p w
      → Safe (announced env) q w
      → Safe (announced env) (if b then p else q) w
  if-Safe true p q w hp hq = hp
  if-Safe false p q w hp hq = hq

  started_task-Safe :
      (kind : Kind) (started : Task × Option Err) (w : World)
      → Safe (announced env) (started_task env kind started) w
  unfolding started_task
  started_task-Safe kind (t, some e) w = search quiet
  started_task-Safe kind (t, none) w = search (quiet, if-Safe, announced_task-Safe)

  built_task-Safe :
      (kind : Kind) (built : Task ⊎ Err) (w : World)
      → Safe (announced env) (built_task env kind built) w
  unfolding built_task
  built_task-Safe kind (inr e) w = search quiet
  built_task-Safe kind (inl t) w = search (quiet, started_task-Safe)

  create_task-Safe :
      (incident : Uid) (impl : Impl) (kind : Kind) (w : World)
      → Safe (announced env) (create_task env incident impl kind) w
  unfolding create_task
  create_task-Safe incident impl kind w = elim (Option-cases impl.id) [
    | inl nameless ↦ rw nameless (search quiet)
    | inr (id, named) ↦ rw named (search (quiet, if-Safe, built_task-Safe))
  ]

  finished-Safe :
      (moved : Task × Option Err) (w : World) → Safe (announced env) (finished env moved) w
  unfolding finished
  finished-Safe (t, some e) w = search quiet
  finished-Safe (t, none) w = search quiet

  finish_task-Safe :
      (t : Task) (result : Output ⊎ Fault) (w : World)
      → Safe (announced env) (finish_task env t result) w
  unfolding finish_task
  finish_task-Safe t result w = search (quiet, if-Safe, finished-Safe)

  report-Safe :
      (incident : Uid) (kind : Kind) (t : Task) (result : Output ⊎ Fault) (w : World)
      → Safe (announced env) (report env incident kind t result) w
  unfolding report
  report-Safe incident kind t (inl out) w = search quiet
  report-Safe incident kind t (inr e) w = search quiet

  execution-Safe :
      {A : Type 0} (answer : World → A) (w : World)
      → Safe (announced env) (answered ticked answer) w
  execution-Safe answer = quiet-Safe env ticked answer (λ w. refl) (λ w. refl)

  run_task-Safe :
      (inc : Incident) (kind : Kind) (impl : Impl) (e : Evidence) (created : Task ⊎ Fault)
      (w : World)
      → Safe (announced env) (run_task env inc kind impl e created) w
  unfolding run_task
  run_task-Safe inc kind impl e (inr fault) w = search quiet
  run_task-Safe inc kind impl e (inl t) w =
      search (quiet, execution-Safe, finish_task-Safe, report-Safe) depth 9

  pub run_agent-Safe :
      (inc : Incident) (kind : Kind) (e : Evidence) (w : World)
      → Safe (announced env) (run_agent env inc kind e) w
  unfolding run_agent
  run_agent-Safe inc kind e w = elim (Option-cases (env.agents kind)) [
    | inl absent ↦ rw (absent, run_agent) (search quiet)
    | inr (impl, there) ↦ rw (there, run_agent) (search (quiet, create_task-Safe, run_task-Safe))
  ]
