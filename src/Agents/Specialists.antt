-- ===== src/Agents/Specialists.antt =====
-- internal/agents/specialists.go: the seven agents. A request to the reasoner is its task with the
-- incident and the evidence that its question and its context are rendered from; the texts of the
-- prompts are left out. The reasoner and json.Unmarshal are parameters.
pub mod Proposals
use aegisops_ai.Base.{
  ℕ, suc, Bool, true, false, String, str_eq, List, [], ◌∷◌, ◌++◌, Option, none, some, if◌then◌else◌,
  Float, lt_float, le_float, ◌⊎◌, inl, inr, pos, ◌^◌, ◌/◌,
}
use Prim.Native.String
use aegisops_ai.Shared.{Uid}
use aegisops_ai.Domain.Agent.{
  Kind, incident_manager, monitoring, log_analysis, diagnosis, security, action, documentation,
}
use aegisops_ai.Domain.ToolCall.{Params, Value, str, bool, int, float, ToolCallRequest}
use aegisops_ai.Domain.Incident.{Incident}
use aegisops_ai.Agents.Evidence.{
  Fault, no_monitoring_evidence, no_diagnosis, reasoner_failed, PerKind, at_kind, Output, Evidence,
  complete, has, get, Input, Draws, Identity, intent,
}
use aegisops_ai.Agents.Wording.{Plan, parse_remediation, prom_ql_for, namespace_for}

pub data Question : Type 0 where
  collect_metrics analyse_logs security_review diagnose : Question
  plan_remediation write_postmortem plan_investigation : Question

pub record ReasoningRequest : Type 0 where
  pub task : Question
  pub about : Incident
  pub evidence : Option Evidence

pub record ReasoningResponse : Type 0 where
  pub content : String
  pub confidence : Float

pub record Registration : Type 0 where
  pub id : Uid
  pub name : String

-- `kind_name` is string(kind).
pub record Deps : Type 0 where
  pub reason : ReasoningRequest → ReasoningResponse ⊎ String
  pub unmarshal : String → Option Plan
  pub registry : PerKind Registration
  pub kind_name : Kind → String

registration : Deps → Kind → Registration
unfolding at_kind
registration d kind = elim (at_kind kind d.registry) [
  | some r ↦ r
  | none ↦ record { id = 0; name = d.kind_name kind }
]

-- newBase.
unfoldable pub new_base : Kind → Deps → Identity
unfolding registration
new_base kind d =
    let reg = registration d kind in record { kind = kind; id = reg.id; name = reg.name }

pub record Spec : Type 0 where
  pub tool : String
  pub action : String
  pub reason : String
  pub params : Params

-- 1.0: reading is not a judgement.
abbrev certain : Float
certain = Float.num (2 ^ 1074)

abbrev pub min_remediation_confidence : Float
min_remediation_confidence = Float.num (2 ^ 1073)

read_request : Spec → ToolCallRequest → ToolCallRequest
read_request spec req = record req { params = spec.params; confidence = certain }

added_to :
    ToolCallRequest → List (Option ToolCallRequest) ⊎ Fault → List (Option ToolCallRequest) ⊎ Fault
added_to req (inl more) = inl (some req ∷ more)
added_to req (inr e) = inr e

-- The loops over the specs; the first intent that cannot be built ends them.
unfoldable pub intents :
    Draws → ℕ → Input → Identity → List Spec → List (Option ToolCallRequest) ⊎ Fault
unfolding intent read_request added_to
intents draws n input who [] = inl []
intents draws n input who (spec ∷ rest) =
    let more = intents draws (suc n) input who rest in
    elim (intent draws n input who spec.tool spec.action spec.reason) [
      | inl req ↦ added_to (read_request spec req) more
      | inr e ↦ inr e
    ]

-- The specs of gather.
unfoldable pub monitoring_specs : Incident → List Spec
unfolding prom_ql_for namespace_for
monitoring_specs inc =
    record {
      tool = "monitoring";
      action = "query";
      reason = "read the service's error rate and latency around the incident window";
      params = ("query", str (prom_ql_for inc.service)) ∷ [];
    }
    ∷ record {
      tool = "docker";
      action = "list_containers";
      reason = "identify which containers are running for the affected service";
      params = ("all", bool true) ∷ [];
    }
    ∷ record {
      tool = "kubernetes";
      action = "get_pods";
      reason = "check pod status and restart counts for the affected workload";
      params =
          ("namespace", str (namespace_for inc.environment))
          ∷ ("selector", str (String.◌++◌ "app=" inc.service))
          ∷ [];
    }
    ∷ []

unfoldable pub log_specs : Incident → List Spec
unfolding namespace_for
log_specs inc =
    record {
      tool = "docker";
      action = "logs";
      reason = "read container logs from the incident window";
      params = ("container", str inc.service) ∷ ("tail", int (pos 1000)) ∷ [];
    }
    ∷ record {
      tool = "kubernetes";
      action = "logs";
      reason = "read pod logs, including the previous container if it restarted";
      params =
          ("pod", str inc.service)
          ∷ ("namespace", str (namespace_for inc.environment))
          ∷ ("tail", int (pos 1000))
          ∷ ("previous", bool true)
          ∷ [];
    }
    ∷ []

unfoldable pub security_specs : Incident → List Spec
unfolding namespace_for
security_specs inc =
    record {
      tool = "security";
      action = "check_config";
      reason = "check the affected workload for known vulnerabilities and configuration drift";
      params =
          ("target", str inc.service) ∷ ("namespace", str (namespace_for inc.environment)) ∷ [];
    }
    ∷ []

-- The reasoner's answer, or the fault.
ask :
    Deps
    → Question
    → Input
    → Option Evidence
    → (ReasoningResponse → Output ⊎ Fault)
    → Output ⊎ Fault
ask d question input evidence conclude =
    elim (d.reason (record { task = question; about = input.incident; evidence = evidence })) [
      | inl resp ↦ conclude resp
      | inr message ↦ inr (reasoner_failed message)
    ]

-- An Execute that builds its intents, asks the reasoner, and reports the answer.
gathered : Deps → Draws → Input → Identity → List Spec → Question → Params → Output ⊎ Fault
unfolding intents ask
gathered d draws input who specs question findings = elim (intents draws 0 input who specs) [
  | inr e ↦ inr e
  | inl calls ↦ ask d question input none λ resp. inl (record {
    summary = resp.content;
    findings = some findings;
    tool_calls = calls;
    confidence = resp.confidence;
    next_agents = [];
  })
]

unfoldable pub execute_monitoring : Deps → Draws → Input → Output ⊎ Fault
unfolding gathered new_base monitoring_specs
execute_monitoring d draws input =
    let who = new_base monitoring d in
    gathered d draws input who (monitoring_specs input.incident) collect_metrics (
      ("service", str input.incident.service)
      ∷ ("environment", str input.incident.environment)
      ∷ ("observed_by", str who.name)
      ∷ [])

unfoldable pub execute_log_analysis : Deps → Draws → Input → Output ⊎ Fault
unfolding gathered new_base log_specs
execute_log_analysis d draws input =
    let who = new_base log_analysis d in
    gathered d draws input who (log_specs input.incident) analyse_logs
      (("analysed_by", str who.name) ∷ [])

unfoldable pub execute_security : Deps → Draws → Input → Output ⊎ Fault
unfolding gathered new_base security_specs
execute_security d draws input =
    let who = new_base security d in
    gathered d draws input who (security_specs input.incident) security_review
      (("reviewed_by", str who.name) ∷ [])

abbrev pub finding_root_cause : String
finding_root_cause = "root_cause"

abbrev pub finding_confidence : String
finding_confidence = "confidence"

abbrev pub finding_remediable : String
finding_remediable = "remediable"

is_complete : Option Evidence → Bool
unfolding complete
is_complete none = false
is_complete (some e) = complete e

unfoldable pub execute_diagnosis : Deps → Draws → Input → Output ⊎ Fault
unfolding is_complete ask
execute_diagnosis d draws input =
    if is_complete input.evidence
    then ask d diagnose input input.evidence (λ resp. inl (record {
      summary = resp.content;
      findings = some (
          (finding_root_cause, str resp.content)
          ∷ (finding_confidence, float resp.confidence)
          ∷ (finding_remediable, bool (le_float min_remediation_confidence resp.confidence))
          ∷ []);
      tool_calls = [];
      confidence = resp.confidence;
      next_agents = action ∷ [];
    }))
    else inr no_monitoring_evidence

-- findings[FindingConfidence].(float64): 0 where it is missing or no float.
unfoldable pub confidence_in : Params → Float
confidence_in [] = Float.num 0
confidence_in ((k, v) ∷ rest) =
    if str_eq k finding_confidence then of_value v else confidence_in rest
  where
    of_value : Value → Float
    of_value (float f) = f
    of_value _ = Float.num 0

unfoldable pub diagnosis_in : Option Evidence → Option Params
unfolding get
diagnosis_in none = none
diagnosis_in (some e) = get diagnosis e

unfoldable pub declined : String → Float → String → Output
declined summary confidence reason = record {
  summary = summary;
  findings = some (("remediation_proposed", bool false) ∷ ("reason", str reason) ∷ []);
  tool_calls = [];
  confidence = confidence;
  next_agents = [];
}

-- The request for the plan that the answer spells, if it spells one.
unfoldable pub propose : Deps → Draws → Input → ReasoningResponse → Output ⊎ Fault
unfolding new_base declined parse_remediation intent
propose d draws input resp = elim (parse_remediation d.unmarshal resp.content) [
  | none ↦ inl (
      declined "The remediation plan could not be parsed; escalating to a human." (Float.num 0)
        "unparseable_plan")
  | some plan ↦ elim (intent draws 0 input (new_base action d) plan.tool plan.action plan.reason) [
    | inr e ↦ inr e
    | inl req ↦ inl (record {
      summary = plan.summary;
      findings = some (
          ("remediation_proposed", bool true)
          ∷ ("proposed_tool", str plan.tool)
          ∷ ("proposed_action", str plan.action)
          ∷ []);
      tool_calls = some (record req { params = plan.params; confidence = resp.confidence }) ∷ [];
      confidence = resp.confidence;
      next_agents = [];
    })
  ]
]

-- The summary of a low confidence, which names both numbers, is its first words.
unfoldable pub execute_action : Deps → Draws → Input → Output ⊎ Fault
unfolding confidence_in diagnosis_in declined propose ask
execute_action d draws input = elim (diagnosis_in input.evidence) [
  | none ↦ inr no_diagnosis
  | some findings ↦
      if lt_float (confidence_in findings) min_remediation_confidence
      then inl (
          declined "No remediation proposed: diagnosis confidence is below the floor."
            (confidence_in findings) "low_confidence")
      else ask d plan_remediation input input.evidence (propose d draws input)
]

unfoldable pub execute_documentation : Deps → Input → Output ⊎ Fault
unfolding new_base ask
execute_documentation d input = ask d write_postmortem input input.evidence λ resp. inl (record {
  summary = resp.content;
  findings =
      some (
        ("postmortem", str resp.content)
        ∷ ("written_by", str (new_base documentation d).name)
        ∷ []);
  tool_calls = [];
  confidence = resp.confidence;
  next_agents = [];
})

unfoldable pub first_wave : List Kind
first_wave = monitoring ∷ log_analysis ∷ security ∷ []

unfoldable pub execute_incident_manager : Deps → Input → Output ⊎ Fault
unfolding new_base first_wave ask
execute_incident_manager d input = ask d plan_investigation input none λ resp. inl (record {
  summary = resp.content;
  findings = some (("planned_by", str (new_base incident_manager d).name) ∷ []);
  tool_calls = [];
  confidence = resp.confidence;
  next_agents = first_wave;
})

-- Execute of the agent that BuildAll puts under the kind; it builds the seven.
unfoldable pub execute : Deps → Kind → Draws → Input → Output ⊎ Fault
unfolding execute_incident_manager execute_monitoring execute_log_analysis execute_security
    execute_diagnosis execute_action execute_documentation
execute d incident_manager draws input = execute_incident_manager d input
execute d monitoring draws input = execute_monitoring d draws input
execute d log_analysis draws input = execute_log_analysis d draws input
execute d security draws input = execute_security d draws input
execute d diagnosis draws input = execute_diagnosis d draws input
execute d action draws input = execute_action d draws input
execute d documentation draws input = execute_documentation d input
execute d (Kind.other s) draws input = inr (Fault.unregistered (Kind.other s))
