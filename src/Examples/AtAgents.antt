-- ===== src/Examples/AtAgents.antt =====
-- The theorems on the agents, the orchestrator and the rows of incidents.
use aegisops_ai.Base.{
  ℕ, zero, suc, ◌≡◌, ◌≢◌, ◌+◌, ◌*◌, refl, inl, inr, false, true, Bool, String, str_eq,
  if◌then◌else◌, List, [], ◌∷◌, Option, none, some, Float, pos, ◌⊎◌, All, ◌<◌, ◌≤◌, length, ◌==◌,
  keep, arith, leb, byte_len, ◌^◌,
}
use aegisops_ai.Shared.{is_zero_id}
use aegisops_ai.Domain.Agent.{monitoring, log_analysis, security, action}
use aegisops_ai.Domain.Incident.{Incident, high, detected, manual}
use aegisops_ai.Domain.ToolCall.{str}
use aegisops_ai.Domain.Timeline.{TimelineEvent, note_added, agent, new_event}
use aegisops_ai.Bus.Event.{Event}
use aegisops_ai.Storage.Incidents.{update_incident, RepoError}
use aegisops_ai.Storage.Incidents.Numbering.{
  timeline_of, IsNumbered, all_appended, all_appended-IsNumbered,
}
use aegisops_ai.Storage.Incidents.Paging.{read_on, read_on-timeline_of}
use aegisops_ai.Storage.Incidents.Locking.{all_written, updated_once}
use aegisops_ai.Agents.Evidence.{Fault, Output, new_evidence, Input, Draws}
use aegisops_ai.Agents.Wording.{Plan, summarise}
use aegisops_ai.Agents.Wording.Fits.{is_built, summarise_fits}
use aegisops_ai.Agents.Specialists.{Deps, execute, execute_action}
use aegisops_ai.Agents.Specialists.Proposals.{
  OnlyReads, execute-OnlyReads, ProposesBacked, execute_action-ProposesBacked,
}
use aegisops_ai.Agents.World.{World, Env, Executed, returned, returned_error}
use aegisops_ai.Agents.Admission.{Happening, arrives, advances, history, new_orchestrator}
use aegisops_ai.Agents.Admission.Capacity.{IsWithin, history-IsWithin}

abbrev plan : Plan
plan = record {
  summary = "restart";
  tool = "docker";
  action = "restart_container";
  params = ("container", str "api") ∷ [];
  reason = "it leaks";
}

-- A reasoner that is sure, and a reader of plans that always finds the same one.
abbrev deps : Deps
deps = record {
  reason = λ req. inl (record { content = "a memory leak"; confidence = Float.num (2 ^ 1074) });
  unmarshal = λ text. some plan;
  registry = (action, record { id = 9; name = "action" }) ∷ [];
  kind_name = λ kind. "agent";
}

abbrev registered : Deps
registered = record deps {
  registry =
      (monitoring, record { id = 3; name = "monitoring" })
      ∷ (log_analysis, record { id = 4; name = "logs" })
      ∷ (security, record { id = 5; name = "security" })
      ∷ (action, record { id = 9; name = "action" })
      ∷ [];
}

as_executed : Output ⊎ Fault → Executed
as_executed (inl out) = returned out
as_executed (inr e) = returned_error e

abbrev env : Env
env = record {
  agents = λ kind. some (record {
    id = some 8;
    execute = λ draws input. as_executed (execute registered kind draws input);
  });
  kind_name = λ kind. "agent";
  fault_text = λ e. "failed";
  id_text = λ id. "id";
  payload_text = λ findings. [];
  draws = λ step. record { id = λ n. 100 * step + n; now = λ n. suc step };
  db_fails = λ step. false;
  publish_fails = λ step. false;
  scheduled_first = λ step. true;
  has_tasks = true;
  has_calls = true;
  has_bus = true;
}

abbrev outage : Incident
outage = record {
  id = 7;
  title = "api down";
  description = "";
  severity = high;
  status = detected;
  source = manual;
  service = "api";
  environment = "production";
  labels = [];
  root_cause = "";
  confidence = Float.num 0;
  detected_at = 100;
  acknowledged_at = none;
  resolved_at = none;
  closed_at = none;
  created_by = 1;
  created_at = 100;
  updated_at = 100;
  version = 1;
}

abbrev world : World
world = record {
  step = 0;
  incidents = outage ∷ [];
  tasks = [];
  calls = [];
  timeline = [];
  heap = [];
  published = [];
}

abbrev detected_event : Event
detected_event = record {
  id = "e1";
  topic = "incident.detected";
  incident_id = 7;
  actor_type = "user";
  actor_id = 1;
  actor_name = "";
  payload = [];
  request_id = "";
  trace_id = "";
  occurred_at = 100;
  attempt = 1;
}

abbrev steps : ℕ → List Happening
steps zero = []
steps (suc n) = advances 0 ∷ steps n

history-IsWithin_example :
    IsWithin 1 (
      history env 1 (arrives detected_event ∷ arrives detected_event ∷ []) (new_orchestrator world))
unfolding new_orchestrator
history-IsWithin_example =
    history-IsWithin env 1 (arrives detected_event ∷ arrives detected_event ∷ [])
      (new_orchestrator world) (omega arith, tt, tt)

abbrev gathered : Input
gathered = record { incident = outage; task = none; evidence = some new_evidence }

abbrev draws : Draws
draws = record { id = λ n. 40 + n; now = λ n. 60 + n }

execute-OnlyReads_example : OnlyReads (execute registered monitoring draws gathered)
execute-OnlyReads_example = execute-OnlyReads registered monitoring draws gathered (λ e. cc)

execute_action-ProposesBacked_example :
    ProposesBacked registered gathered (execute_action registered draws gathered)
execute_action-ProposesBacked_example = execute_action-ProposesBacked registered draws gathered

summarise_fits_example : is_built (new_event 1 5 7 note_added agent (summarise " a leak ")) ≡ true
unfolding aegisops_ai.Agents.Wording.trim_space aegisops_ai.Domain.Timeline.event_type_valid
    aegisops_ai.Domain.Timeline.actor_type_valid
summarise_fits_example = summarise_fits 1 5 7 note_added agent " a leak " refl refl refl refl refl

updated_once_example :
    let after = (update_incident false outage (outage ∷ [])).0 in
    ((update_incident false outage after).0 ≡ after)
    × ((e : RepoError) × ((update_incident false outage after).1 ≡ inr e))
unfolding all_written update_incident aegisops_ai.Domain.Incident.validate
    aegisops_ai.Shared.validator_err aegisops_ai.Shared.check aegisops_ai.Shared.in_range
    aegisops_ai.Base.le_float aegisops_ai.Base.zero_float aegisops_ai.Base.one_float
    aegisops_ai.Domain.Incident.source_valid aegisops_ai.Domain.Incident.status_valid
    aegisops_ai.Domain.Incident.severity_valid aegisops_ai.Shared.max_len
    aegisops_ai.Shared.required aegisops_ai.Base.is_blank aegisops_ai.Shared.not_zero_id
    aegisops_ai.Shared.new_validator
updated_once_example =
    updated_once false outage (record outage { version = 2 }) (outage ∷ []) [] outage false (tt, tt)
      refl refl (omega arith)

abbrev entry : ℕ → TimelineEvent
entry n = record {
  id = 70 + n;
  incident_id = 7;
  seq = pos n;
  event_type = note_added;
  actor_type = agent;
  actor_id = 0;
  actor_name = "";
  message = "seen";
  payload = [];
  occurred_at = 200;
}

abbrev entries : List TimelineEvent
entries = entry 1 ∷ entry 2 ∷ entry 3 ∷ []

all_appended-IsNumbered_example : IsNumbered 1 (
    timeline_of 7 (
      all_appended
        (record { fails = false; incidents = outage ∷ []; entry = entry 9 }
          ∷ record { fails = true; incidents = outage ∷ []; entry = entry 8 }
          ∷ [])
        entries))
unfolding timeline_of aegisops_ai.Base.keep
all_appended-IsNumbered_example =
    all_appended-IsNumbered
      (record { fails = false; incidents = outage ∷ []; entry = entry 9 }
        ∷ record { fails = true; incidents = outage ∷ []; entry = entry 8 }
        ∷ [])
      7 entries (refl, (refl, (refl, tt)))

read_on-timeline_of_example : read_on 4 (pos 1) 7 entries none ≡ entries
unfolding timeline_of aegisops_ai.Base.keep
read_on-timeline_of_example = read_on-timeline_of (pos 1) 7 entries (refl, (refl, (refl, tt)))
