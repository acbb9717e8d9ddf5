-- ===== src/Examples/AtDomain.antt =====
-- The theorems on the entities.
use aegisops_ai.Base.{
  ◌%◌, ◌≡◌, refl, ◌⊎◌, inl, inr, ◌≤◌, ◌<◌, ◌↔◌, ◌≢◌, true, false, none, some, List, [], ◌∷◌, length,
  zero_float, pos, String, arith,
}
use aegisops_ai.Shared.{Time, Err}
use aegisops_ai.Domain.Incident.{
  Incident, Status, detected, investigating, diagnosing, remediating, resolved, closed, Severity,
  Source, new, transition_to, can_transition_to,
}
use aegisops_ai.Domain.Incident.Lifecycle.{can_close}
use aegisops_ai.Domain.Incident.History.{run, IsStamped, new-run-IsStamped}
use aegisops_ai.Domain.Task.{Task, TaskStatus, new_task}
use aegisops_ai.Domain.Task.Lifecycle.{
  Call, starts, fails, run as run_task, IsCoherent, new_task-run-IsCoherent,
}
use aegisops_ai.Domain.Execution.{Execution, no_failure, ExecStatus}
use aegisops_ai.Domain.Chain.{Format, AuditEntry, verify_chain}
use aegisops_ai.Domain.Chain.Verified.{Linked, FirstBreak, verify_chain_sound}
use aegisops_ai.Domain.Audit.{Outcome}
use aegisops_ai.Domain.Identifier.{scan, value}
use aegisops_ai.Domain.Identifier.RoundTrip.{scan-value}

abbrev outage : Incident
outage = record {
  id = 3;
  title = "database down";
  description = "";
  severity = Severity.high;
  status = detected;
  source = Source.alert;
  service = "";
  environment = "";
  labels = [];
  root_cause = "";
  confidence = zero_float;
  detected_at = 100;
  acknowledged_at = none;
  resolved_at = none;
  closed_at = none;
  created_by = 0;
  created_at = 100;
  updated_at = 100;
  version = 1;
}

abbrev requests : List (Time × Status)
requests = (101, investigating) ∷ (102, diagnosing) ∷ (103, remediating) ∷ []

new-run-IsStamped_example : IsStamped (run outage requests)
unfolding new aegisops_ai.Shared.validator_err aegisops_ai.Shared.check aegisops_ai.Shared.in_range
    aegisops_ai.Base.le_float zero_float aegisops_ai.Base.one_float
    aegisops_ai.Domain.Incident.source_valid aegisops_ai.Domain.Incident.status_valid
    aegisops_ai.Domain.Incident.severity_valid aegisops_ai.Shared.max_len
    aegisops_ai.Shared.required aegisops_ai.Base.is_blank aegisops_ai.Shared.not_zero_id
    aegisops_ai.Shared.new_validator
new-run-IsStamped_example =
    new-run-IsStamped 3 100 "database down" "" Severity.high Source.alert {i = outage} requests refl

can_close_example : can_transition_to resolved closed ≡ true
unfolding aegisops_ai.Domain.Incident.status_valid
can_close_example = can_close resolved refl (λ e. cc e)

abbrev diagnosis : Task
diagnosis = record {
  id = 4;
  incident_id = 3;
  agent_id = 5;
  parent_id = none;
  type_of = "diagnose";
  status = TaskStatus.pending;
  input = [];
  output = [];
  error = "";
  attempts = pos 0;
  started_at = none;
  finished_at = none;
  created_at = 100;
  updated_at = 100;
}

abbrev calls : List Call
calls = starts 101 101 ∷ fails 102 103 "no data" ∷ starts 104 104 ∷ []

new_task-run-IsCoherent_example : IsCoherent (run_task diagnosis calls)
unfolding new_task aegisops_ai.Domain.Task.task_validate aegisops_ai.Shared.validator_err
    aegisops_ai.Shared.check aegisops_ai.Shared.max_len aegisops_ai.Shared.required
    aegisops_ai.Base.is_blank aegisops_ai.Shared.not_zero_id aegisops_ai.Shared.new_validator
new_task-run-IsCoherent_example =
    new_task-run-IsCoherent 4 100 3 5 "diagnose" {t = diagnosis} calls refl

abbrev finished : Task
finished = record diagnosis { status = TaskStatus.cancelled }

abbrev live : Execution
live = record {
  id = 1000;
  tool_call_id = 7;
  status = ExecStatus.succeeded;
  dry = false;
  exit_code = none;
  stdout = [];
  stderr = [];
  truncated = false;
  error = no_failure;
  started_at = 100;
  finished_at = 100;
  duration_ms = pos 0;
  created_at = 100;
}

abbrev format : Format
format = record {
  sha256 = λ b. length b % 256 ∷ [];
  id_text = λ n. n % 256 ∷ [];
  time_text = λ t. t % 256 ∷ [];
  column_time = λ t. t;
}

abbrev entry : AuditEntry
entry = record {
  id = 30;
  seq = pos 1;
  occurred_at = 100;
  actor_type = "agent";
  actor_id = 5;
  actor_name = "";
  action = "docker.restart";
  resource_type = "";
  resource_id = "";
  incident_id = some 3;
  tool_call_id = some 7;
  outcome = Outcome.executed;
  reason = "";
  error = "";
  request_id = "";
  build_version = "";
  prev_hash = [];
  hash = 136 ∷ [];
}

verify_chain_sound_example :
    (((verify_chain format (entry ∷ []) []).valid ≡ true) × Linked format [] (entry ∷ []))
    ⊎ (((verify_chain format (entry ∷ []) []).valid ≡ false)
        × FirstBreak format [] (entry ∷ []) (verify_chain format (entry ∷ []) []))
verify_chain_sound_example = verify_chain_sound format (entry ∷ []) []

scan-value_example : scan (value 7) ≡ some 7
scan-value_example = scan-value 7 (omega arith)
