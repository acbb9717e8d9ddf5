-- ===== src/Domain/Timeline.antt =====
-- internal/domain/incident/event.go: the entries of an incident's timeline.
use aegisops_ai.Base.{
  ℕ, Bool, true, false, not, String, str_eq, [], ◌∷◌, Option, none, some, ◌⊎◌, inl, inr, ℤ, pos,
  if◌then◌else◌,
}
use aegisops_ai.Shared.{
  Uid, Time, Err, is_zero_time, says, new_validator, check, max_len, not_zero_id, validator_err,
  ◌▸◌,
}
use aegisops_ai.Domain.ToolCall.{Params, Value}

pub data EventType : Type 0 where
  detected acknowledged status_changed agent_started agent_completed agent_failed : EventType
  task_created diagnosis_reached tool_requested tool_executed tool_rejected : EventType
  approval_required approval_granted approval_denied resolved closed note_added : EventType
  other : String → EventType

unfoldable pub event_type_valid : EventType → Bool
event_type_valid (other _) = false
event_type_valid _ = true

pub data ActorType : Type 0 where
  agent user system : ActorType
  other : String → ActorType

unfoldable pub actor_type_valid : ActorType → Bool
actor_type_valid (other _) = false
actor_type_valid _ = true

abbrev pub max_event_message_len : ℕ
max_event_message_len = 2000

pub record TimelineEvent : Type 0 where
  pub id : Uid
  pub incident_id : Uid
  -- assigned by the repository
  pub seq : ℤ
  pub event_type : EventType
  pub actor_type : ActorType
  pub actor_id : Uid
  pub actor_name : String
  pub message : String
  pub payload : Params
  pub occurred_at : Time

unfoldable pub event_validate : TimelineEvent → Option Err
unfolding event_type_valid actor_type_valid
event_validate e = validator_err (
    new_validator "incident_event"
    ▸ not_zero_id e.id "id"
    ▸ not_zero_id e.incident_id "incident_id"
    ▸ check (event_type_valid e.event_type) "type" (says "is not a known event type")
    ▸ check (actor_type_valid e.actor_type) "actor_type"
        (says "must be one of: agent, user, system")
    ▸ max_len e.message "message" max_event_message_len
    ▸ check (not (is_zero_time e.occurred_at)) "occurred_at" (says "is required"))

-- NewEvent.
unfoldable pub new_event : Uid → Time → Uid → EventType → ActorType → String → TimelineEvent ⊎ Err
unfolding event_validate
new_event id now incident typ actor message =
    let e : TimelineEvent = record {
      id = id;
      incident_id = incident;
      seq = pos 0;
      event_type = typ;
      actor_type = actor;
      actor_id = 0;
      actor_name = "";
      message = message;
      payload = [];
      occurred_at = now;
    } in
    elim (event_validate e) [ none ↦ inl e | some err ↦ inr err ]

unfoldable pub with_actor : Uid → String → TimelineEvent → TimelineEvent
with_actor id name e = record e { actor_id = id; actor_name = name }

-- payload[key] = v.
set_entry : String → Value → Params → Params
set_entry key v [] = (key, v) ∷ []
set_entry key v ((k, w) ∷ rest) =
    let more = set_entry key v rest in if str_eq k key then (key, v) ∷ rest else (k, w) ∷ more

unfoldable pub with_payload : String → Value → TimelineEvent → TimelineEvent
unfolding set_entry
with_payload key v e = record e { payload = set_entry key v e.payload }
