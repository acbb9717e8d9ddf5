-- ===== src/Agents/World.antt =====
-- The state behind the ports of the orchestrator and the environment it runs in. Each call of a port
-- is one step; what the outside answers at a step (a clock reading, a fresh identifier, whether the
-- database or the bus fails or refuses a foreign key) is a function of the step.
use aegisops_ai.Base.{
  ℕ, suc, Bool, not, ◌||◌, ◌&&◌, ◌==◌, str_eq, String, List, [], ◌∷◌, ◌++◌, Option, none, some,
  if◌then◌else◌, is_some, any, ◌⊎◌, inl, inr,
}
use aegisops_ai.Shared.{Uid, Time}
use aegisops_ai.Domain.Agent.{Kind}
use aegisops_ai.Domain.Incident.{Incident}
use aegisops_ai.Domain.Task.{Task, Payload, task_validate}
use aegisops_ai.Domain.ToolCall.{ToolCallRequest, Params, validate}
use aegisops_ai.Domain.Timeline.{EventType, agent, TimelineEvent, new_event, with_actor}
use aegisops_ai.Bus.Event.{Event}
use aegisops_ai.Storage.Incidents.{
  RepoError, missing, unavailable, incident_row, update_incident, append_event,
}
use aegisops_ai.Agents.Program.{Program, done, act}
use aegisops_ai.Agents.Evidence.{Fault, Output, Input, Draws, Evidence, new_evidence}

-- What an Execute does: it returns, or it panics.
pub data Executed : Type 0 where
  returned : Output → Executed
  returned_error : Fault → Executed
  panics : String → Executed

-- An Agent, with the identity of its row where it has an ID method.
pub record Impl : Type 0 where
  pub id : Option Uid
  pub execute : Draws → Input → Executed

pub record Env : Type 0 where
  pub agents : Kind → Option Impl
  pub kind_name : Kind → String
  pub fault_text : Fault → String
  pub id_text : Uid → String
  pub payload_text : Option Params → Payload
  pub draws : ℕ → Draws
  pub db_fails : ℕ → Bool
  pub publish_fails : ℕ → Bool
  -- which of two goroutines takes the next step
  pub scheduled_first : ℕ → Bool
  -- nil ports
  pub has_tasks : Bool
  pub has_calls : Bool
  pub has_bus : Bool

pub record World : Type 0 where
  pub step : ℕ
  -- the tables incidents, agent_tasks, tool_calls and incident_events, newest row last
  pub incidents : List Incident
  pub tasks : List Task
  pub calls : List ToolCallRequest
  pub timeline : List TimelineEvent
  -- the Evidence that each investigation allocated, by its reference
  pub heap : List (ℕ × Evidence)
  -- what the bus accepted
  pub published : List Event

abbrev pub ticked : World → World
ticked w = record w { step = suc w.step }

-- An action whose answer is a function of the state that it found.
abbrev pub answered : {A : Type 0} → (World → World) → (World → A) → Program World A
answered f answer = act f (λ w. done (answer w))

-- NewEvidence.
unfoldable pub allocate : Program World ℕ
unfolding new_evidence
allocate =
    answered (λ w. record (ticked w) { heap = (w.step, new_evidence) ∷ w.heap }) (λ w. w.step)

evidence_at : ℕ → List (ℕ × Evidence) → Evidence
unfolding new_evidence
evidence_at ref [] = new_evidence
evidence_at ref ((r, e) ∷ rest) = if r == ref then e else evidence_at ref rest

-- Snapshot, or the evidence as an agent that runs alone reads it.
unfoldable pub read_evidence : ℕ → Program World Evidence
unfolding evidence_at
read_evidence ref = answered ticked (λ w. evidence_at ref w.heap)

evidence_updated : ℕ → (Evidence → Evidence) → List (ℕ × Evidence) → List (ℕ × Evidence)
evidence_updated ref f [] = []
evidence_updated ref f ((r, e) ∷ rest) =
    (r, if r == ref then f e else e) ∷ evidence_updated ref f rest

-- A method that writes the evidence, under its lock.
unfoldable pub update_evidence : ℕ → (Evidence → Evidence) → Program World Unit
unfolding evidence_updated
update_evidence ref f =
    answered (λ w. record (ticked w) { heap = evidence_updated ref f w.heap }) (λ _. tt)

module _ (env : Env) where
  -- clock.Now.
  unfoldable pub clock_now : Program World Time
  clock_now = answered ticked (λ w. (env.draws w.step).now 0)

  -- shared.NewID.
  unfoldable pub new_id : Program World Uid
  new_id = answered ticked (λ w. (env.draws w.step).id 0)

  found_row : World → Uid → Incident ⊎ RepoError
  unfolding incident_row
  found_row w id = elim (incident_row id w.incidents) [ none ↦ inr missing | some inc ↦ inl inc ]

  -- IncidentRepo.Get.
  unfoldable pub get_incident : Uid → Program World (Incident ⊎ RepoError)
  unfolding found_row
  get_incident id =
      answered ticked (λ w. if env.db_fails w.step then inr unavailable else found_row w id)

  -- IncidentRepo.Update.
  unfoldable pub put_incident : Incident → Program World (Incident ⊎ RepoError)
  unfolding update_incident
  put_incident inc =
      answered
        (λ w. record (ticked w) {
          incidents = (update_incident (env.db_fails w.step) inc w.incidents).0;
        })
        (λ w. (update_incident (env.db_fails w.step) inc w.incidents).1)

  -- TaskRepo.Create, under the primary key.
  unfoldable pub task_refused : Task → World → Bool
  unfolding any
  task_refused t w =
      is_some (task_validate t) || any (λ (r : Task). r.id == t.id) w.tasks || env.db_fails w.step

  unfoldable pub create_task_row : Task → Program World Bool
  unfolding task_refused
  create_task_row t =
      answered
        (λ w.
          if task_refused t w then ticked w else record (ticked w) { tasks = w.tasks ++ t ∷ [] })
        (λ w. not (task_refused t w))

  -- TaskRepo.Update: seven columns of the row.
  unfoldable pub write_task : Task → List Task → List Task
  write_task t [] = []
  write_task t (row ∷ rest) =
      (if row.id == t.id
        then record row {
          status = t.status;
          output = t.output;
          error = t.error;
          attempts = t.attempts;
          started_at = t.started_at;
          finished_at = t.finished_at;
          updated_at = t.updated_at;
        }
        else row)
      ∷ write_task t rest

  unfoldable pub update_task_row : Task → Program World Unit
  unfolding write_task
  update_task_row t =
      answered
        (λ w.
          if is_some (task_validate t) || env.db_fails w.step
          then ticked w
          else record (ticked w) { tasks = write_task t w.tasks })
        (λ _. tt)

  -- ToolCallRepo.Create, under the primary key and the unique index on the idempotency key.
  collides : ToolCallRequest → ToolCallRequest → Bool
  collides c r =
      r.id == c.id
      || (not (str_eq c.idempotency_key "") && str_eq r.idempotency_key c.idempotency_key)

  unfoldable pub call_refused : ToolCallRequest → World → Bool
  unfolding any collides
  call_refused c w = is_some (validate c) || any (collides c) w.calls || env.db_fails w.step

  unfoldable pub create_call : ToolCallRequest → Program World Bool
  unfolding call_refused
  create_call c =
      answered
        (λ w.
          if call_refused c w then ticked w else record (ticked w) { calls = w.calls ++ c ∷ [] })
        (λ w. not (call_refused c w))

  -- publish: a failure is only logged.
  unfoldable pub event_of : Uid → String → String → Params → World → Event
  event_of incident topic actor payload w = record {
    id = "";
    topic = topic;
    incident_id = incident;
    actor_type = "agent";
    actor_id = 0;
    actor_name = actor;
    payload = payload;
    request_id = "";
    trace_id = "";
    occurred_at = (env.draws w.step).now 0;
    attempt = 0;
  }

  unfoldable pub publish : Uid → String → String → Params → Program World Unit
  unfolding event_of
  publish incident topic actor payload =
      answered
        (λ w. if not env.has_bus || env.publish_fails w.step then ticked w else record (ticked w) {
          published = w.published ++ event_of incident topic actor payload w ∷ [];
        })
        (λ _. tt)

  -- appendEvent: the entry is built and inserted, or the log tells that it is lost.
  unfoldable pub timeline_after : Uid → EventType → String → String → World → List TimelineEvent
  unfolding new_event with_actor append_event
  timeline_after incident typ actor message w =
      elim (new_event ((env.draws w.step).id 0) ((env.draws w.step).now 0) incident typ agent
        message) [
          | inr e ↦ w.timeline
          | inl entry ↦
              (append_event (env.db_fails w.step) w.incidents (with_actor 0 actor entry)
                w.timeline).0
        ]

  unfoldable pub add_event : Uid → EventType → String → String → Program World Unit
  unfolding timeline_after
  add_event incident typ actor message =
      answered (λ w. record (ticked w) { timeline = timeline_after incident typ actor message w })
        (λ _. tt)
