-- ===== src/Domain/Task.antt =====
-- internal/domain/agent/task.go: one unit of agent work. A method that mutates `*Task` returns the
-- new record beside its error; each reading of the clock is an argument, in the order of the calls.
pub mod Lifecycle
use aegisops_ai.Base.{
  ℕ, zero, suc, ◌+◌, Bool, true, false, not, String, str_eq, List, [], ◌∷◌, Option, none, some,
  if◌then◌else◌, any, ◌⊎◌, inl, inr, ℤ, sub_ℕ, ltb, pos, negsuc,
}
use aegisops_ai.Shared.{
  Uid, Time, says, Err, conflict, new_validator, check, required, max_len, not_zero_id,
  validator_err, ◌▸◌,
}

pub data TaskStatus : Type 0 where
  pending running succeeded failed cancelled timed_out : TaskStatus
  other : String → TaskStatus

unfoldable pub task_status_eq : TaskStatus → TaskStatus → Bool
task_status_eq pending pending = true
task_status_eq running running = true
task_status_eq succeeded succeeded = true
task_status_eq failed failed = true
task_status_eq cancelled cancelled = true
task_status_eq timed_out timed_out = true
task_status_eq (other s) (other t) = str_eq s t
task_status_eq _ _ = false

unfoldable pub task_transitions : TaskStatus → List TaskStatus
task_transitions pending = running ∷ cancelled ∷ []
task_transitions running = succeeded ∷ failed ∷ cancelled ∷ timed_out ∷ []
task_transitions succeeded = []
task_transitions failed = []
task_transitions cancelled = []
task_transitions timed_out = []
task_transitions (other _) = []

unfoldable pub task_status_valid : TaskStatus → Bool
task_status_valid (other _) = false
task_status_valid _ = true

-- len(taskTransitions[s]) == 0; a missing key has no transitions.
unfoldable pub task_status_terminal : TaskStatus → Bool
unfolding task_transitions
task_status_terminal s = elim (task_transitions s) [ [] ↦ true | _ ∷ _ ↦ false ]

unfoldable pub task_can_transition_to : TaskStatus → TaskStatus → Bool
unfolding task_transitions task_status_eq any
task_can_transition_to s next = any (λ allowed. task_status_eq allowed next) (task_transitions s)

-- A map of JSON values is the list of its keys and values, as text.
abbrev pub Payload : Type 0
Payload = List (String × String)

pub record Task : Type 0 where
  pub id : Uid
  pub incident_id : Uid
  pub agent_id : Uid
  pub parent_id : Option Uid
  pub type_of : String
  pub status : TaskStatus
  pub input : Payload
  pub output : Payload
  pub error : String
  pub attempts : ℤ
  pub started_at : Option Time
  pub finished_at : Option Time
  pub created_at : Time
  pub updated_at : Time

abbrev pub max_task_type_len : ℕ
max_task_type_len = 100

non_negative : ℤ → Bool
non_negative (pos n) = true
non_negative (negsuc n) = false

unfoldable pub task_validate : Task → Option Err
unfolding task_status_valid non_negative
task_validate t = validator_err (
    new_validator "agent_task"
    ▸ not_zero_id t.id "id"
    ▸ not_zero_id t.incident_id "incident_id"
    ▸ not_zero_id t.agent_id "agent_id"
    ▸ required t.type_of "type"
    ▸ max_len t.type_of "type" max_task_type_len
    ▸ check (task_status_valid t.status) "status" (says "is not a known task state")
    ▸ check (non_negative t.attempts) "attempts" (says "cannot be negative"))

-- NewTask: `id` is what shared.NewID draws.
unfoldable pub new_task : Uid → Time → Uid → Uid → String → Task ⊎ Err
new_task id now incident_id agent_id task_type =
    let t : Task = record {
      id = id;
      incident_id = incident_id;
      agent_id = agent_id;
      parent_id = none;
      type_of = task_type;
      status = pending;
      input = [];
      output = [];
      error = "";
      attempts = pos 0;
      started_at = none;
      finished_at = none;
      created_at = now;
      updated_at = now;
    } in
    elim (task_validate t) [ none ↦ inl t | some e ↦ inr e ]

unfoldable pub transition : Time → TaskStatus → Task → Task × Option Err
transition now next t =
    if task_status_eq t.status next
    then (t, none)
    else if not (task_can_transition_to t.status next)
    then (t, some conflict)
    else (record t { status = next; updated_at = now }, none)

abbrev task_stamp_once : Time → Option Time → Option Time
task_stamp_once now none = some now
task_stamp_once now (some t) = some t

unfoldable pub finish : Time → Task → Task
finish now t = record t { finished_at = task_stamp_once now t.finished_at }

succ_int : ℤ → ℤ
succ_int (pos n) = pos (n + 1)
succ_int (negsuc zero) = pos 0
succ_int (negsuc (suc n)) = negsuc n

-- `if err := …; err != nil { return err }`, then the rest on the moved task.
and_then : Task × Option Err → (Task → Task) → Task × Option Err
and_then (t, some e) rest = (t, some e)
and_then (t, none) rest = (rest t, none)

unfoldable pub start : Time → Time → Task → Task × Option Err
unfolding and_then succ_int
start now later t = and_then (transition now running t) λ u. record u {
  started_at = task_stamp_once later u.started_at;
  attempts = succ_int u.attempts;
}

unfoldable pub succeed : Time → Time → Payload → Task → Task × Option Err
unfolding and_then
succeed now later out t =
    and_then (transition now succeeded t) λ u. finish later (record u { output = out })

unfoldable pub fail : Time → Time → String → Task → Task × Option Err
unfolding and_then
fail now later reason t =
    and_then (transition now failed t) λ u. finish later (record u { error = reason })

unfoldable pub time_out : Time → Time → Task → Task × Option Err
unfolding and_then
time_out now later t =
    and_then (transition now timed_out t)
      λ u. finish later (record u { error = "task exceeded its deadline" })

unfoldable pub cancel : Time → Time → String → Task → Task × Option Err
unfolding and_then
cancel now later reason t =
    and_then (transition now cancelled t) λ u. finish later (record u { error = reason })

unfoldable pub duration : Task → Option ℤ
duration t = elim t.started_at [
  | none ↦ none
  | some s ↦ elim t.finished_at [ none ↦ none | some f ↦ some (sub_ℕ f s) ]
]
