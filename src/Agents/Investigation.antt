-- ===== src/Agents/Investigation.antt =====
-- internal/agents/orchestrator.go: the phases of an investigation, and the handing of intents to the
-- harness. The evidence is a shared object, known by its reference. The mutex under which the
-- goroutines of the first wave record their outputs is left out, so the model has more interleavings.
pub mod Announced
use aegisops_ai.Base.{
  ℕ, suc, ◌+◌, Bool, true, false, not, str_eq, String, List, [], ◌∷◌, Option, none, some,
  if◌then◌else◌, ◌⊎◌, inl, inr, Float,
}
use Prim.Native.String
use aegisops_ai.Shared.{Uid, Time, Err}
use aegisops_ai.Domain.Agent.{
  Kind, incident_manager, monitoring, log_analysis, diagnosis, security, action, documentation,
}
use aegisops_ai.Domain.Incident.{
  Incident, investigating, diagnosing, failed, status_active, set_diagnosis,
}
use aegisops_ai.Domain.ToolCall.{
  ToolCallRequest, Params, Value, str, float, object, Fields, end, field,
}
use aegisops_ai.Domain.Timeline.{agent_failed, tool_requested, diagnosis_reached, note_added}
use aegisops_ai.Storage.Incidents.{RepoError}
use aegisops_ai.Agents.Program.{Program, done, act, ◌>>=◌, ◌>>◌, par}
use aegisops_ai.Agents.Evidence.{
  Fault, Output, no_output, Evidence, record_output, record_error, complete,
}
use aegisops_ai.Agents.Wording.{summarise}
use aegisops_ai.Agents.Specialists.{finding_root_cause, first_wave}
use aegisops_ai.Agents.World.{
  World, Env, clock_now, get_incident, put_incident, create_call, publish, add_event, allocate,
  read_evidence, update_evidence,
}
use aegisops_ai.Agents.Orchestrator.{Failure, load_incident, transition, run_agent}

fields_of : Params → Fields
fields_of [] = end
fields_of ((k, v) ∷ rest) = field k v (fields_of rest)

text_finding : Value → String
text_finding (str s) = s
text_finding _ = ""

-- out.Findings[FindingRootCause].(string), or the empty text.
root_cause_in : Params → String
unfolding text_finding
root_cause_in [] = ""
root_cause_in ((k, v) ∷ rest) =
    if str_eq k finding_root_cause then text_finding v else root_cause_in rest

named_cause : Option Params → String
unfolding root_cause_in
named_cause none = ""
named_cause (some findings) = root_cause_in findings

root_cause_of : Output → String
unfolding named_cause
root_cause_of out =
    if str_eq (named_cause out.findings) "" then out.summary else named_cause out.findings

module _ (env : Env) where
  -- The payload of tool.requested.
  unfoldable pub requested_payload : ToolCallRequest → Params
  unfolding fields_of
  requested_payload call =
      ("tool_call_id", str (env.id_text call.id))
      ∷ ("tool", str call.tool)
      ∷ ("action", str call.action)
      ∷ ("params", object (fields_of call.params))
      ∷ ("reason", str call.reason)
      ∷ ("confidence", float call.confidence)
      ∷ ("agent_id", str (env.id_text call.agent_id))
      ∷ []

  announce : Uid → ToolCallRequest → Program World Unit
  unfolding ◌>>=◌ publish add_event requested_payload
  announce incident call = do
    publish env incident "tool.requested" call.agent_name (requested_payload call)
    add_event env incident tool_requested call.agent_name (
        String.◌++◌ call.agent_name
          (String.◌++◌ " requested " (String.◌++◌ call.tool (String.◌++◌ "." call.action))))

  -- The event of an intent follows its row; 1 is added to the count.
  publish_if : Uid → ToolCallRequest → Bool → Program World ℕ
  unfolding ◌>>=◌ announce
  publish_if incident call false = done 0
  publish_if incident call true = do announce incident call; done 1

  -- `if o.calls != nil { … }`: whether the row is written, or none is wanted.
  persisted : Bool → ToolCallRequest → Program World Bool
  unfolding create_call
  persisted true call = create_call env call
  persisted false call = done true

  -- publishIntents.
  unfoldable pub publish_intents : Uid → List (Option ToolCallRequest) → Program World ℕ
  unfolding ◌>>=◌ persisted publish_if
  publish_intents incident [] = done 0
  publish_intents incident (none ∷ rest) = publish_intents incident rest
  publish_intents incident (some call ∷ rest) = do
    kept ← persisted env.has_calls call
    n ← publish_if incident call kept
    more ← publish_intents incident rest
    done (n + more)

  record_wave : Incident → Kind → ℕ → Output ⊎ Fault → Program World Unit
  unfolding ◌>>=◌ update_evidence publish_intents record_output record_error
  record_wave inc kind ref (inr e) = update_evidence ref (record_error kind e)
  record_wave inc kind ref (inl out) = do
    update_evidence ref (record_output kind out)
    proposed ← publish_intents inc.id out.tool_calls
    done tt

  -- A goroutine of runConcurrently.
  unfoldable pub wave_agent : Incident → ℕ → Kind → Program World Unit
  unfolding ◌>>=◌ read_evidence run_agent record_wave
  wave_agent inc ref kind = do
    snapshot ← read_evidence ref
    result ← run_agent env inc kind snapshot
    record_wave inc kind ref result

  -- runConcurrently.
  unfoldable pub run_concurrently : Incident → ℕ → List Kind → Program World Unit
  unfolding par wave_agent
  run_concurrently inc ref [] = done tt
  run_concurrently inc ref (kind ∷ rest) =
      par (λ w. env.scheduled_first w.step) (wave_agent inc ref kind)
        (run_concurrently inc ref rest)

  -- runAgent, and the recording of what it answers.
  run_alone : Incident → ℕ → Kind → Program World (Output ⊎ Fault)
  unfolding ◌>>=◌ read_evidence run_agent
  run_alone inc ref kind = do evidence ← read_evidence ref; run_agent env inc kind evidence

  record_if : ℕ → Kind → Output ⊎ Fault → Program World Unit
  unfolding update_evidence record_output
  record_if ref kind (inr e) = done tt
  record_if ref kind (inl out) = update_evidence ref (record_output kind out)

  kept_diagnosis : String → Float → Incident → Incident ⊎ RepoError → Program World Incident
  unfolding ◌>>=◌ publish add_event summarise
  kept_diagnosis root confidence inc (inr e) = done inc
  kept_diagnosis root confidence inc (inl stored) = do
    publish env stored.id "incident.diagnosed" "diagnosis"
        (("root_cause", str root) ∷ ("confidence", float confidence) ∷ [])
    add_event env stored.id diagnosis_reached "diagnosis" (summarise root)
    done stored

  set_and_kept : String → Float → Incident × Option Err → Program World Incident
  unfolding ◌>>=◌ put_incident kept_diagnosis
  set_and_kept root confidence (inc, some e) = done inc
  set_and_kept root confidence (inc, none) = do
    answer ← put_incident env inc
    kept_diagnosis root confidence inc answer

  -- applyDiagnosis; its error is only logged.
  unfoldable pub apply_diagnosis : Incident → Output → Program World Incident
  unfolding ◌>>=◌ clock_now set_and_kept set_diagnosis root_cause_of
  apply_diagnosis inc out = do
    now ← clock_now env
    set_and_kept (root_cause_of out) out.confidence
        (set_diagnosis now (root_cause_of out) out.confidence inc)

  as_failure : Incident ⊎ Failure → Option Failure
  as_failure (inl inc) = none
  as_failure (inr e) = some e

  -- fail.
  unfoldable pub fail : Incident → String → Program World (Option Failure)
  unfolding ◌>>=◌ add_event transition as_failure
  fail inc reason = do
    add_event env inc.id agent_failed "orchestrator" reason
    moved ← transition env inc failed "failed"
    done (as_failure moved)

  calls_of : Output ⊎ Fault → List (Option ToolCallRequest)
  calls_of (inl out) = out.tool_calls
  calls_of (inr e) = []

  documented : Incident → ℕ → Output ⊎ Fault → Program World Unit
  unfolding ◌>>=◌ record_if add_event summarise
  documented inc ref (inr e) = done tt
  documented inc ref (inl doc) = do
    record_if ref documentation (inl doc)
    add_event env inc.id note_added "documentation" (summarise doc.summary)

  -- Investigate from the remediation proposal on.
  unfoldable pub remediate : Incident → ℕ → Program World (Option Failure)
  unfolding ◌>>=◌ run_alone record_if publish_intents calls_of documented
  remediate inc ref = do
    remediation ← run_alone inc ref action
    record_if ref action remediation
    proposed ← publish_intents inc.id (calls_of remediation)
    doc ← run_alone inc ref documentation
    documented inc ref doc
    done none

  concluded : Incident → ℕ → Output ⊎ Fault → Program World (Option Failure)
  unfolding ◌>>=◌ record_if apply_diagnosis remediate fail
  concluded inc ref (inr e) = fail inc "the diagnosis agent could not reach a conclusion"
  concluded inc ref (inl out) = do
    record_if ref diagnosis (inl out)
    diagnosed ← apply_diagnosis inc out
    remediate diagnosed ref

  diagnose : ℕ → Incident ⊎ Failure → Program World (Option Failure)
  unfolding ◌>>=◌ run_alone concluded
  diagnose ref (inr e) = done (some e)
  diagnose ref (inl inc) = do result ← run_alone inc ref diagnosis; concluded inc ref result

  with_evidence : Incident → ℕ → Evidence → Program World (Option Failure)
  unfolding ◌>>=◌ complete fail transition diagnose
  with_evidence inc ref e =
      if complete e
      then transition env inc diagnosing "diagnosing" >>= diagnose ref
      else fail inc "evidence gathering produced no telemetry to reason over"

  gather : ℕ → Incident ⊎ Failure → Program World (Option Failure)
  unfolding ◌>>=◌ run_alone record_if run_concurrently read_evidence with_evidence first_wave
  gather ref (inr e) = done (some e)
  gather ref (inl inc) = do
    plan ← run_alone inc ref incident_manager
    record_if ref incident_manager plan
    run_concurrently inc ref first_wave
    evidence ← read_evidence ref
    with_evidence inc ref evidence

  loaded : Incident ⊎ RepoError → Program World (Option Failure)
  unfolding ◌>>=◌ allocate transition gather status_active
  loaded (inr e) = done (some (load_incident e))
  loaded (inl inc) =
      if status_active inc.status
      then (do
        ref ← allocate
        moved ← transition env inc investigating "investigating"
        gather ref moved)
      else done none

  -- Investigate.
  unfoldable pub investigate : Uid → Program World (Option Failure)
  unfolding ◌>>=◌ get_incident loaded
  investigate id = get_incident env id >>= loaded
