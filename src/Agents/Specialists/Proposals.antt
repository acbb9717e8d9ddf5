-- ===== src/Agents/Specialists/Proposals.antt =====
-- internal/agents/specialists.go against internal/tools/catalog.go: what the agents ask for.
use aegisops_ai.Base.{
  ℕ, suc, ◌≡◌, ◌≢◌, refl, subst, false, Bool-cases, String, List, [], ◌∷◌, Option, none, some,
  Option-cases, All, ◌⊎◌, inl, inr, lt_float, map, arith,
}
use aegisops_ai.Domain.Agent.{
  Kind, incident_manager, monitoring, log_analysis, diagnosis, security, action, documentation,
}
use aegisops_ai.Domain.ToolCall.{ToolCallRequest, Params, pending, new_tool_call_request}
use aegisops_ai.Domain.Incident.{Incident}
use aegisops_ai.Gates.Registry.{
  Registry, ActionDescriptor, ToolDescriptor, describe, lookup_tool, get, any_undeclared,
}
use aegisops_ai.Tools.Catalog.{catalog}
use aegisops_ai.Agents.Evidence.{Fault, Output, Evidence, Input, Draws, Identity, intent}
use aegisops_ai.Agents.Wording.{Plan, parse_remediation}
use aegisops_ai.Agents.Specialists.{
  Deps, Question, plan_remediation, ReasoningResponse, Spec, intents, read_request, added_to, ask,
  gathered, monitoring_specs, log_specs, security_specs, execute_monitoring, execute_log_analysis,
  execute_security, execute_diagnosis, execute_action, execute_documentation,
  execute_incident_manager, execute, propose, diagnosis_in, confidence_in, declined, new_base,
  min_remediation_confidence, is_complete,
}

-- The registry in which the tools of the catalogue are registered.
abbrev pub catalog_registry : Registry
catalog_registry = record {
  tools = map (λ (d : ToolDescriptor). (d.name, d)) catalog;
  compiled = [];
}

-- The catalogue declares the action, as one that changes nothing, and all the parameters.
abbrev pub IsRead : String → String → Params → Type 0
IsRead tool act params =
    (d : ActionDescriptor) × (describe catalog_registry tool act ≡ some d)
    × (d.mutating ≡ false)
    × (any_undeclared d.params params ≡ false)

IsReadSpec : Spec → Type 0
IsReadSpec spec = IsRead spec.tool spec.action spec.params

abbrev pub IsReadCall : Option ToolCallRequest → Type 0
IsReadCall none = ⊥
IsReadCall (some req) = IsRead req.tool req.action req.params × (req.decision ≡ pending)

intent-inl :
    (draws : Draws) (n : ℕ) (input : Input) (who : Identity) (tool act reason : String)
    (req : ToolCallRequest)
    → intent draws n input who tool act reason ≡ inl req
    → (req.tool ≡ tool) × (req.action ≡ act) × (req.decision ≡ pending)
unfolding intent new_tool_call_request
intent-inl draws n input who tool act reason req h = ground arith

monitoring_specs-IsRead : (inc : Incident) → All IsReadSpec (monitoring_specs inc)
unfolding monitoring_specs catalog describe lookup_tool get any_undeclared IsReadSpec
monitoring_specs-IsRead inc =
    ((_, refl, refl, refl), ((_, refl, refl, refl), ((_, refl, refl, refl), tt)))

log_specs-IsRead : (inc : Incident) → All IsReadSpec (log_specs inc)
unfolding log_specs catalog describe lookup_tool get any_undeclared IsReadSpec
log_specs-IsRead inc = ((_, refl, refl, refl), ((_, refl, refl, refl), tt))

security_specs-IsRead : (inc : Incident) → All IsReadSpec (security_specs inc)
unfolding security_specs catalog describe lookup_tool get any_undeclared IsReadSpec
security_specs-IsRead inc = ((_, refl, refl, refl), tt)

Sum-cases : {A B : Type 0} (x : A ⊎ B) → ((a : A) × (x ≡ inl a)) ⊎ ((b : B) × (x ≡ inr b))
Sum-cases (inl a) = inl (a, refl)
Sum-cases (inr b) = inr (b, refl)

AreReads : List (Option ToolCallRequest) ⊎ Fault → Type 0
AreReads (inl calls) = All IsReadCall calls
AreReads (inr e) = Unit

-- An output asks for reads only, or there is none.
abbrev pub OnlyReads : Output ⊎ Fault → Type 0
OnlyReads (inl out) = All IsReadCall out.tool_calls
OnlyReads (inr e) = Unit

read_request-IsRead :
    (spec : Spec) (req : ToolCallRequest)
    → IsReadSpec spec
    → req.tool ≡ spec.tool
    → req.action ≡ spec.action
    → IsRead
        (read_request spec req).tool
        (read_request spec req).action
        (read_request spec req).params
unfolding read_request IsReadSpec
read_request-IsRead spec req read tool act = rw (tool, act) read

added_to-AreReads :
    (req : ToolCallRequest) (more : List (Option ToolCallRequest) ⊎ Fault)
    → IsReadCall (some req)
    → AreReads more
    → AreReads (added_to req more)
unfolding added_to AreReads
added_to-AreReads req (inl calls) read reads = (read, reads)
added_to-AreReads req (inr e) read reads = tt

intents-AreReads :
    (draws : Draws) (n : ℕ) (input : Input) (who : Identity) (specs : List Spec)
    → All IsReadSpec specs
    → AreReads (intents draws n input who specs)
unfolding intents AreReads
intents-AreReads draws n input who [] reads = tt
intents-AreReads draws n input who (spec ∷ rest) (read, reads) =
    elim (Sum-cases (intent draws n input who spec.tool spec.action spec.reason)) [
      | inr (e, failed) ↦ rw (failed, intents) tt
      | inl (req, built) ↦
          let (tool, act, state) =
            intent-inl draws n input who spec.tool spec.action spec.reason req built in
          rw (built, intents)
            (added_to-AreReads (read_request spec req) (intents draws (suc n) input who rest)
              (read_request-IsRead spec req read tool act, state)
              (intents-AreReads draws (suc n) input who rest reads))
    ]

ask-OnlyReads :
    (d : Deps) (question : Question) (input : Input) (evidence : Option Evidence)
    (conclude : ReasoningResponse → Output ⊎ Fault)
    → ((resp : ReasoningResponse) → OnlyReads (conclude resp))
    → OnlyReads (ask d question input evidence conclude)
unfolding ask
ask-OnlyReads d question input evidence conclude h =
    elim (Sum-cases
      (d.reason (record { task = question; about = input.incident; evidence = evidence }))) [
        | inl (resp, answered) ↦ rw (answered, ask) (h resp)
        | inr (message, failed) ↦ rw (failed, ask) tt
      ]

gathered-OnlyReads :
    (d : Deps) (draws : Draws) (input : Input) (who : Identity) (specs : List Spec)
    (question : Question) (findings : Params)
    → All IsReadSpec specs
    → OnlyReads (gathered d draws input who specs question findings)
unfolding gathered AreReads
gathered-OnlyReads d draws input who specs question findings reads =
    elim (Sum-cases (intents draws 0 input who specs)) [
      | inr (e, failed) ↦ rw (failed, gathered) tt
      | inl (calls, built) ↦
          let all_read : All IsReadCall calls =
            subst AreReads built (intents-AreReads draws 0 input who specs reads) in
          rw (built, gathered) (ask-OnlyReads d question input none _ (λ resp. all_read))
    ]

-- Six of the seven agents ask for nothing but declared actions that change nothing, with declared
-- parameters, in requests that are not decided.
pub execute-OnlyReads :
    (d : Deps) (kind : Kind) (draws : Draws) (input : Input)
    → kind ≢ action
    → OnlyReads (execute d kind draws input)
unfolding execute execute_monitoring execute_log_analysis execute_security execute_diagnosis
    execute_documentation execute_incident_manager
execute-OnlyReads d monitoring draws input other =
    search (gathered-OnlyReads, monitoring_specs-IsRead)
execute-OnlyReads d log_analysis draws input other = search (gathered-OnlyReads, log_specs-IsRead)
execute-OnlyReads d security draws input other = search (gathered-OnlyReads, security_specs-IsRead)
execute-OnlyReads d diagnosis draws input other = elim (Bool-cases (is_complete input.evidence)) [
  | inl complete ↦ rw (complete, execute_diagnosis) (search ask-OnlyReads)
  | inr lacking ↦ rw (lacking, execute_diagnosis) tt
]
execute-OnlyReads d documentation draws input other = search ask-OnlyReads
execute-OnlyReads d incident_manager draws input other = search ask-OnlyReads
execute-OnlyReads d action draws input other = absurd (other refl)
execute-OnlyReads d (Kind.other s) draws input other = tt

-- The request that an answer of the reasoner earns, for a diagnosis that is sure enough.
abbrev pub IsBacked : Deps → Input → List (Option ToolCallRequest) → Type 0
IsBacked d input calls =
    (findings : Params) × (resp : ReasoningResponse) × (plan : Plan) × (req : ToolCallRequest)
    × (diagnosis_in input.evidence ≡ some findings)
    × (lt_float (confidence_in findings) min_remediation_confidence ≡ false)
    × (d.reason
          (record { task = plan_remediation; about = input.incident; evidence = input.evidence })
        ≡ inl resp)
    × (parse_remediation d.unmarshal resp.content ≡ some plan)
    × (calls ≡ some req ∷ [])
    × ((req.tool ≡ plan.tool) × (req.action ≡ plan.action) × (req.params ≡ plan.params))
    × (req.confidence ≡ resp.confidence)
    × (req.decision ≡ pending)

abbrev pub ProposesBacked : Deps → Input → Output ⊎ Fault → Type 0
ProposesBacked d input (inl out) = (out.tool_calls ≡ []) ⊎ IsBacked d input out.tool_calls
ProposesBacked d input (inr e) = Unit

propose-ProposesBacked :
    (d : Deps) (draws : Draws) (input : Input) (findings : Params) (resp : ReasoningResponse)
    → diagnosis_in input.evidence ≡ some findings
    → lt_float (confidence_in findings) min_remediation_confidence ≡ false
    → d.reason
        (record { task = plan_remediation; about = input.incident; evidence = input.evidence })
      ≡ inl resp
    → ProposesBacked d input (propose d draws input resp)
unfolding propose declined
propose-ProposesBacked d draws input findings resp diagnosed sure answered =
    elim (Option-cases (parse_remediation d.unmarshal resp.content)) [
      | inl unreadable ↦ rw (unreadable, propose) (inl refl)
      | inr (plan, parsed) ↦
          elim (Sum-cases
            (intent draws 0 input (new_base action d) plan.tool plan.action plan.reason)) [
              | inr (e, failed) ↦ rw (parsed, failed, propose) tt
              | inl (req, built) ↦
                  let (tool, act, state) =
                    intent-inl draws 0 input (new_base action d) plan.tool plan.action plan.reason
                      req built in
                  rw (parsed, built, propose)
                    (inr (
                      findings,
                      resp,
                      plan,
                      record req { params = plan.params; confidence = resp.confidence },
                      diagnosed,
                      sure,
                      answered,
                      parsed,
                      refl,
                      (tool, act, refl),
                      refl,
                      state,
                    ))
            ]
    ]

-- The action agent asks for at most one call: the one that the reasoner's plan spells, after a
-- diagnosis whose confidence is not below the floor.
pub execute_action-ProposesBacked :
    (d : Deps) (draws : Draws) (input : Input)
    → ProposesBacked d input (execute_action d draws input)
unfolding execute_action declined ask
execute_action-ProposesBacked d draws input = elim (Option-cases (diagnosis_in input.evidence)) [
  | inl missing ↦ rw (missing, execute_action) tt
  | inr (findings, diagnosed) ↦
      elim (Bool-cases (lt_float (confidence_in findings) min_remediation_confidence)) [
        | inl unsure ↦ rw (diagnosed, unsure, execute_action) (inl refl)
        | inr sure ↦
            elim (Sum-cases (
              d.reason (record {
                task = plan_remediation;
                about = input.incident;
                evidence = input.evidence;
              }))) [
                | inr (message, failed) ↦ rw (diagnosed, sure, execute_action) (rw (failed, ask) tt)
                | inl (resp, answered) ↦
                    rw (diagnosed, sure, execute_action)
                      (rw (answered, ask)
                        (propose-ProposesBacked d draws input findings resp diagnosed sure
                          answered))
              ]
      ]
]
