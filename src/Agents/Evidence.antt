-- ===== src/Agents/Evidence.antt =====
-- internal/agents/agent.go: what an agent is given and what it produces, and the evidence that the
-- agents of one investigation share. Each method of Evidence holds its lock from the first
-- statement to the last, so it is one function of the evidence.
use aegisops_ai.Base.{
  ℕ, Bool, true, false, String, str_eq, List, [], ◌∷◌, Option, none, some, is_some, if◌then◌else◌,
  Float, ◌⊎◌, inl, inr, length,
}
use aegisops_ai.Shared.{Uid, Time, Err}
use aegisops_ai.Domain.Agent.{
  Kind, incident_manager, monitoring, log_analysis, diagnosis, security, action, documentation,
}
use aegisops_ai.Domain.ToolCall.{Params, ToolCallRequest, new_tool_call_request}
use aegisops_ai.Domain.Incident.{Incident}
use aegisops_ai.Domain.Task.{Task}

-- `==` on two kinds.
unfoldable pub kind_eq : Kind → Kind → Bool
kind_eq incident_manager incident_manager = true
kind_eq monitoring monitoring = true
kind_eq log_analysis log_analysis = true
kind_eq diagnosis diagnosis = true
kind_eq security security = true
kind_eq action action = true
kind_eq documentation documentation = true
kind_eq (Kind.other s) (Kind.other t) = str_eq s t
kind_eq _ _ = false

-- Why an agent's work came to nothing; the wording is left to the environment.
pub data Fault : Type 0 where
  unregistered unattributed : Kind → Fault
  invalid_task : Err → Fault
  invalid_request : Err → Fault
  not_persisted : Fault
  no_monitoring_evidence no_diagnosis : Fault
  reasoner_failed : String → Fault
  panicked : String → Fault

-- map[agent.Kind]V, one entry for a key.
abbrev pub PerKind : Type 0 → Type 0
PerKind V = List (Kind × V)

module _ {V : Type 0} where
  -- m[kind], with `ok`.
  unfoldable pub at_kind : Kind → PerKind V → Option V
  at_kind kind [] = none
  at_kind kind ((k, v) ∷ rest) = if kind_eq k kind then some v else at_kind kind rest

  -- m[kind] = v.
  unfoldable pub put : Kind → V → PerKind V → PerKind V
  put kind v [] = (kind, v) ∷ []
  put kind v ((k, u) ∷ rest) =
      let more = put kind v rest in if kind_eq k kind then (kind, v) ∷ rest else (k, u) ∷ more

-- A call may be a nil pointer, and the findings a nil map.
pub record Output : Type 0 where
  pub summary : String
  pub findings : Option Params
  pub tool_calls : List (Option ToolCallRequest)
  pub confidence : Float
  pub next_agents : List Kind

-- Output{}.
unfoldable pub no_output : Output
no_output = record {
  summary = "";
  findings = none;
  tool_calls = [];
  confidence = Float.num 0;
  next_agents = [];
}

pub record Evidence : Type 0 where
  pub findings : PerKind Params
  pub summaries : PerKind String
  pub confidences : PerKind Float
  pub errors : PerKind Fault

unfoldable pub new_evidence : Evidence
new_evidence = record { findings = []; summaries = []; confidences = []; errors = [] }

put_some : Kind → Option Params → PerKind Params → PerKind Params
unfolding put
put_some kind none m = m
put_some kind (some v) m = put kind v m

-- Record.
unfoldable pub record_output : Kind → Output → Evidence → Evidence
unfolding put_some
record_output kind out e = record e {
  findings = put_some kind out.findings e.findings;
  summaries = put kind out.summary e.summaries;
  confidences = put kind out.confidence e.confidences;
}

unfoldable pub record_error : Kind → Fault → Evidence → Evidence
record_error kind err e = record e { errors = put kind err e.errors }

unfoldable pub has : Kind → Evidence → Bool
unfolding at_kind
has kind e = is_some (at_kind kind e.findings)

-- Get: a copy, or nil.
unfoldable pub get : Kind → Evidence → Option Params
unfolding at_kind
get kind e = at_kind kind e.findings

unfoldable pub complete : Evidence → Bool
unfolding has
complete e = has monitoring e

unfoldable pub agent_count : Evidence → ℕ
agent_count e = length e.summaries

unfoldable pub failure_count : Evidence → ℕ
failure_count e = length e.errors

-- The task is there in every call of the orchestrator.
pub record Input : Type 0 where
  pub incident : Incident
  pub task : Option Task
  pub evidence : Option Evidence

-- The random identifiers and the clock readings of one call, in the order they are asked for.
pub record Draws : Type 0 where
  pub id : ℕ → Uid
  pub now : ℕ → Time

-- base: what every agent shares.
pub record Identity : Type 0 where
  pub kind : Kind
  pub id : Uid
  pub name : String

task_id_of : Option Task → Option Uid → Option Uid
task_id_of none before = before
task_id_of (some t) before = some t.id

-- intent; `n` is the number of intents built before it.
unfoldable pub intent :
    Draws → ℕ → Input → Identity → String → String → String → ToolCallRequest ⊎ Fault
unfolding new_tool_call_request task_id_of
intent draws n input who tool act reason =
    elim (new_tool_call_request (draws.id n) (draws.now n) input.incident.id who.id tool act
      reason) [
        | inl req ↦
            inl (record req { agent_name = who.name; task_id = task_id_of input.task req.task_id })
        | inr e ↦ inr (invalid_request e)
      ]
