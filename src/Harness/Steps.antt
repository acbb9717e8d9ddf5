-- ===== src/Harness/Steps.antt =====
-- What the harness does at its ports: the repositories (with the SQL of
-- internal/repository/postgres/toolcall.go), the clock, the bus, the timeline and the ledger.
use aegisops_ai.Base.{
  suc, Bool, true, false, not, ◌||◌, ◌==◌, str_eq, List, [], ◌∷◌, ◌++◌, Option, none, some,
  if◌then◌else◌, find_first, any, is_some,
}
use aegisops_ai.Shared.{Uid, Time}
use aegisops_ai.Domain.ToolCall.{ToolCallRequest, Note, written, permits, validate}
use aegisops_ai.Domain.Execution.{Execution, ExecStatus, succeeded}
use aegisops_ai.Domain.Timeline.{EventType}
use aegisops_ai.Domain.Audit.{Outcome}
use aegisops_ai.Gates.Approval.{is_awaiting}
use aegisops_ai.Harness.World.{
  World, Env, LedgerEntry, Topic, Failure, approval_error, harness_error,
}

-- clock.Now.
abbrev pub now : Env → World → Time
now env w = env.clock w.step

abbrev pub ticked : World → World
ticked w = record w { step = suc w.step }

-- ToolCallRepo.Get on the table.
unfoldable pub row_of : Uid → List ToolCallRequest → Option ToolCallRequest
unfolding find_first
row_of id rows = find_first (λ r. r.id == id) rows

-- The UPDATE statement: five columns of the row with the request's identifier.
unfoldable pub overwrite : ToolCallRequest → ToolCallRequest → ToolCallRequest
overwrite req row =
    if row.id == req.id
    then record row {
      risk = req.risk;
      decision = req.decision;
      decided_by = req.decided_by;
      decided_at = req.decided_at;
      decision_note = req.decision_note;
    }
    else row

unfoldable pub update_rows : ToolCallRequest → List ToolCallRequest → List ToolCallRequest
unfolding overwrite
update_rows req [] = []
update_rows req (row ∷ rows) = overwrite req row ∷ update_rows req rows

-- ToolCallRepo.Update: the new world, and whether it returned no error.
unfoldable pub update : Env → ToolCallRequest → World → World × Bool
update env req w =
    if is_some (validate req) || not (is_some (row_of req.id w.calls)) || env.update_fails w.step
    then (ticked w, false)
    else (record (ticked w) { calls = update_rows req w.calls }, true)

-- What SaveExecution returns.
pub data Saved : Type 0 where
  saved already_there not_saved : Saved

-- ToolCallRepo.SaveExecution, under the unique constraint on tool_call_id.
unfoldable pub save_execution : Env → Execution → World → World × Saved
unfolding any
save_execution env ex w =
    if env.save_fails w.step
    then (ticked w, not_saved)
    else if any (λ (e : Execution). e.tool_call_id == ex.tool_call_id) w.executions
    then (ticked w, already_there)
    else (record (ticked w) { executions = w.executions ++ ex ∷ [] }, saved)

-- publish; a failure is only logged.
unfoldable pub publish : Env → ToolCallRequest → Topic → World → World
publish env req topic w =
    if not env.has_bus
    then w
    else if env.publish_fails w.step
    then ticked w
    else record (ticked w) {
      published =
          w.published
          ++ record {
            topic = topic;
            incident_id = req.incident_id;
            tool_call_id = req.id;
            tool = req.tool;
            action = req.action;
            agent_id = req.agent_id;
          }
            ∷ [];
    }

-- timeline; a failure is only logged.
unfoldable pub timeline : Env → ToolCallRequest → EventType → World → World
timeline env req type_of w =
    if not env.has_incidents
    then w
    else if env.event_fails w.step
    then ticked w
    else record (ticked w) {
      timeline =
          w.timeline
          ++ record {
            incident_id = req.incident_id;
            type_of = type_of;
            actor_id = req.agent_id;
            actor_name = req.agent_name;
            tool_call_id = req.id;
            decision = req.decision;
            risk = req.risk;
          }
            ∷ [];
    }

is_success : ExecStatus → Bool
is_success succeeded = true
is_success _ = false

-- outcomeFor.
unfoldable pub outcome_for : ToolCallRequest → Option Execution → Option Failure → Outcome
unfolding is_success
outcome_for req ex (some (approval_error code)) = Outcome.denied
outcome_for req ex (some harness_error) = Outcome.failed
outcome_for req (some e) none =
    if e.dry
    then Outcome.dry_run
    else if is_success e.status
    then Outcome.executed
    else Outcome.failed
outcome_for req none none =
    if permits req.decision || is_awaiting req.decision then Outcome.allowed else Outcome.denied

-- A note that the harness composes is not empty.
is_empty : Note → Bool
is_empty (written s) = str_eq s ""
is_empty _ = false

-- firstNonEmpty(reason, req.DecisionNote, req.Reason).
unfoldable pub first_non_empty : Note → ToolCallRequest → Note
unfolding is_empty
first_non_empty reason req =
    if not (is_empty reason)
    then reason
    else if not (is_empty req.decision_note)
    then req.decision_note
    else written req.reason

unfoldable pub entry_of :
    Env → ToolCallRequest → Option Execution → Note → Option Failure → World → LedgerEntry
unfolding outcome_for first_non_empty
entry_of env req ex reason failure w = record {
  id = env.fresh_id w.step;
  occurred_at = now env w;
  actor_id = req.agent_id;
  actor_name = req.agent_name;
  tool = req.tool;
  action = req.action;
  tool_call_id = req.id;
  incident_id = req.incident_id;
  outcome = outcome_for req ex failure;
  reason = first_non_empty reason req;
  execution = ex;
  failed = is_some failure;
}

-- record.
unfoldable pub record_audit :
    Env → ToolCallRequest → Option Execution → Note → Option Failure → World → World
record_audit env req ex reason failure w =
    let entry = entry_of env req ex reason failure w in
    if not env.has_audit
    then w
    else if env.append_fails w.step
    then record (ticked w) { lost = w.lost ++ entry ∷ [] }
    else record (ticked w) { ledger = w.ledger ++ entry ∷ [] }
