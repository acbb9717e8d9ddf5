-- ===== src/Domain/Incident.antt =====
-- internal/domain/incident/incident.go: the aggregate root and its lifecycle.
-- A method that mutates `*Incident` returns the new record beside its error.
pub mod Lifecycle
pub mod History
use aegisops_ai.Base.{
  ℕ, suc, Bool, true, false, not, String, str_eq, List, [], ◌∷◌, Option, none, some, is_some,
  if◌then◌else◌, any, Float, zero_float, one_float, ◌⊎◌, inl, inr, ℤ, sub_ℕ,
}
use aegisops_ai.Shared.{
  Uid, Time, is_zero_time, Message, says, Err, conflict, validation, FieldError, new_validator,
  check, required, max_len, in_range, not_zero_id, validator_err, ◌▸◌,
}

-- `other` is any text that none of the constants spells.
pub data Severity : Type 0 where
  critical high medium low : Severity
  other : String → Severity

unfoldable pub severity_valid : Severity → Bool
severity_valid (other _) = false
severity_valid _ = true

unfoldable pub severity_rank : Severity → ℕ
severity_rank critical = 0
severity_rank high = 1
severity_rank medium = 2
severity_rank low = 3
severity_rank (other _) = 4

pub data Status : Type 0 where
  detected investigating diagnosing awaiting_approval remediating : Status
  verifying resolved closed failed : Status
  other : String → Status

-- `==` on two statuses.
unfoldable pub status_eq : Status → Status → Bool
status_eq detected detected = true
status_eq investigating investigating = true
status_eq diagnosing diagnosing = true
status_eq awaiting_approval awaiting_approval = true
status_eq remediating remediating = true
status_eq verifying verifying = true
status_eq resolved resolved = true
status_eq closed closed = true
status_eq failed failed = true
status_eq (other s) (other t) = str_eq s t
status_eq _ _ = false

unfoldable pub transitions : Status → List Status
transitions detected = investigating ∷ failed ∷ closed ∷ []
transitions investigating = diagnosing ∷ resolved ∷ failed ∷ closed ∷ []
transitions diagnosing = awaiting_approval ∷ remediating ∷ resolved ∷ failed ∷ closed ∷ []
transitions awaiting_approval = remediating ∷ diagnosing ∷ failed ∷ closed ∷ []
transitions remediating = verifying ∷ failed ∷ closed ∷ []
transitions verifying = resolved ∷ diagnosing ∷ failed ∷ closed ∷ []
transitions resolved = closed ∷ investigating ∷ []
transitions failed = investigating ∷ closed ∷ []
transitions closed = []
transitions (other _) = []

-- Status.Valid: the status is a key of the table.
unfoldable pub status_valid : Status → Bool
status_valid (other _) = false
status_valid _ = true

unfoldable pub status_terminal : Status → Bool
unfolding status_eq
status_terminal s = status_eq s closed

unfoldable pub status_active : Status → Bool
status_active resolved = false
status_active closed = false
status_active failed = false
status_active _ = true

unfoldable pub can_transition_to : Status → Status → Bool
unfolding transitions status_eq any
can_transition_to s next = any (λ allowed. status_eq allowed next) (transitions s)

pub data Source : Type 0 where
  alert api manual agent : Source
  other : String → Source

unfoldable pub source_valid : Source → Bool
source_valid (other _) = false
source_valid _ = true

abbrev pub max_title_len : ℕ
max_title_len = 500

abbrev pub max_description_len : ℕ
max_description_len = 20000

abbrev pub max_service_len : ℕ
max_service_len = 200

abbrev pub max_root_cause_len : ℕ
max_root_cause_len = 20000

pub record Incident : Type 0 where
  pub id : Uid
  pub title : String
  pub description : String
  pub severity : Severity
  pub status : Status
  pub source : Source
  pub service : String
  pub environment : String
  pub labels : List (String × String)
  pub root_cause : String
  pub confidence : Float
  pub detected_at : Time
  pub acknowledged_at : Option Time
  pub resolved_at : Option Time
  pub closed_at : Option Time
  pub created_by : Uid
  pub created_at : Time
  pub updated_at : Time
  pub version : ℕ

unfoldable pub validate : Incident → Option Err
validate i = validator_err (
    new_validator "incident"
    ▸ not_zero_id i.id "id"
    ▸ required i.title "title"
    ▸ max_len i.title "title" max_title_len
    ▸ max_len i.description "description" max_description_len
    ▸ max_len i.service "service" max_service_len
    ▸ max_len i.root_cause "root_cause" max_root_cause_len
    ▸ check (severity_valid i.severity) "severity"
        (says "must be one of: critical, high, medium, low")
    ▸ check (status_valid i.status) "status" (says "is not a known lifecycle state")
    ▸ check (source_valid i.source) "source" (says "must be one of: alert, api, manual, agent")
    ▸ in_range i.confidence "confidence" zero_float one_float
    ▸ check (not (is_zero_time i.detected_at)) "detected_at" (says "is required"))

-- New: `id` is what shared.NewID draws, `now` what the clock reads; a failed validation returns no
-- incident.
unfoldable pub new : Uid → Time → String → String → Severity → Source → Incident ⊎ Err
unfolding validate
new id now title description sev src =
    let i : Incident = record {
      id = id;
      title = title;
      description = description;
      severity = sev;
      status = detected;
      source = src;
      service = "";
      environment = "";
      labels = [];
      root_cause = "";
      confidence = zero_float;
      detected_at = now;
      acknowledged_at = none;
      resolved_at = none;
      closed_at = none;
      created_by = 0;
      created_at = now;
      updated_at = now;
      version = 1;
    } in
    elim (validate i) [ none ↦ inl i | some e ↦ inr e ]

-- `if t == nil { t = &now }`.
unfoldable pub stamp_once : Time → Option Time → Option Time
stamp_once now none = some now
stamp_once now (some t) = some t

-- The switch on the state entered.
unfoldable pub stamp : Time → Status → Incident → Incident
unfolding stamp_once
stamp now investigating i = record i { acknowledged_at = stamp_once now i.acknowledged_at }
stamp now resolved i = record i { resolved_at = stamp_once now i.resolved_at }
stamp now closed i = record i { closed_at = stamp_once now i.closed_at }
stamp now _ i = i

unfoldable pub transition_to : Time → Status → Incident → Incident × Option Err
transition_to now next i =
    if not (status_valid next)
    then (
      i,
      some (
          validation "incident" (record { field = "status"; message = says "unknown state" } ∷ [])),
    )
    else if status_eq i.status next
    then (i, none)
    else if not (can_transition_to i.status next)
    then (i, some conflict)
    else (stamp now next (record i { status = next; updated_at = now }), none)

unfoldable pub set_diagnosis : Time → String → Float → Incident → Incident × Option Err
set_diagnosis now root_cause confidence i =
    elim (validator_err (
      new_validator "incident"
      ▸ required root_cause "root_cause"
      ▸ max_len root_cause "root_cause" max_root_cause_len
      ▸ in_range confidence "confidence" zero_float one_float)) [
        | some e ↦ (i, some e)
        | none ↦
            (record i { root_cause = root_cause; confidence = confidence; updated_at = now }, none)
      ]

set_key : String → String → List (String × String) → List (String × String)
set_key key value [] = (key, value) ∷ []
set_key key value ((k, v) ∷ rest) =
    if str_eq k key then (k, value) ∷ rest else (k, v) ∷ set_key key value rest

unfoldable pub set_label : String → String → Incident → Incident
unfolding set_key
set_label key value i = record i { labels = set_key key value i.labels }

unfoldable pub time_to_resolve : Incident → Option ℤ
time_to_resolve i = elim i.resolved_at [ none ↦ none | some t ↦ some (sub_ℕ t i.detected_at) ]
