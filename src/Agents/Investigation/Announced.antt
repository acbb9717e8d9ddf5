-- ===== src/Agents/Investigation/Announced.antt =====
-- internal/agents/orchestrator.go: an investigation announces only tool calls that are stored, and
-- leaves the stored ones as they are.
use aegisops_ai.Base.{
  ℕ, ◌≡◌, refl, Bool, true, false, inl, inr, ◌⊎◌, String, List, [], ◌∷◌, Option, none, some, In,
  Float,
}
use aegisops_ai.Shared.{Uid, Err}
use aegisops_ai.Domain.Agent.{Kind}
use aegisops_ai.Domain.Incident.{Incident}
use aegisops_ai.Domain.ToolCall.{ToolCallRequest}
use aegisops_ai.Storage.Incidents.{RepoError}
use aegisops_ai.Agents.Program.{done, Safe, Keeps, bind-Safe, bind-Keeps, par-Safe}
use aegisops_ai.Agents.Evidence.{Evidence, Fault, Output}
use aegisops_ai.Agents.World.{World, Env, publish, event_of}
use aegisops_ai.Agents.Announced.{
  announced, done-Safe, clock_now-Safe, get_incident-Safe, put_incident-Safe, add_event-Safe,
  publish_other-Safe, publish-Safe, create_call-Keeps, allocate-Safe, read_evidence-Safe,
  update_evidence-Safe,
}
use aegisops_ai.Agents.Orchestrator.{Failure}
use aegisops_ai.Agents.Orchestrator.Announced.{if-Safe, transition-Safe, run_agent-Safe}
use aegisops_ai.Agents.Investigation.{
  announce, persisted, publish_if, publish_intents, requested_payload, record_wave, wave_agent,
  run_concurrently, run_alone, record_if, kept_diagnosis, set_and_kept, apply_diagnosis, fail,
  documented, remediate, concluded, diagnose, with_evidence, gather, loaded, investigate,
}

ruleset quiet = (
  bind-Safe, done-Safe, publish_other-Safe, clock_now-Safe, get_incident-Safe, put_incident-Safe,
  add_event-Safe, allocate-Safe, read_evidence-Safe, update_evidence-Safe, transition-Safe,
  run_agent-Safe,
)

module _ (env : Env) where
  -- The row stands when its event is published.
  publish_call-Safe :
      (incident : Uid) (call : ToolCallRequest) (w : World)
      → In call w.calls
      → Safe
          (announced env)
          (publish env incident "tool.requested" call.agent_name (requested_payload env call))
          w
  unfolding requested_payload event_of
  publish_call-Safe incident call w stored =
      publish-Safe env incident "tool.requested" call.agent_name (requested_payload env call) w
        (λ v l topic. (call, l call stored, refl))

  announce-Safe :
      (incident : Uid) (call : ToolCallRequest) (w : World)
      → In call w.calls
      → Safe (announced env) (announce env incident call) w
  unfolding announce
  announce-Safe incident call w stored = search (bind-Safe, publish_call-Safe, add_event-Safe)

  publish_if-Safe :
      (incident : Uid) (call : ToolCallRequest) (kept : Bool) (w : World)
      → (kept ≡ true → In call w.calls)
      → Safe (announced env) (publish_if env incident call kept) w
  unfolding publish_if
  publish_if-Safe incident call false w stored = done-Safe env 0 w
  publish_if-Safe incident call true w stored =
      bind-Safe (announced env) (announce env incident call) (λ _. done 1) w
        (announce-Safe incident call w (stored refl)) (λ _ v. done-Safe env 1 v)

  persisted-Keeps :
      (has : Bool) (call : ToolCallRequest) (w : World)
      → has ≡ true
      → Keeps (announced env) (λ kept v. kept ≡ true → In call v.calls) (persisted env has call) w
  unfolding persisted
  persisted-Keeps true call w h = create_call-Keeps env call w
  persisted-Keeps false call w h = cc

  module _ (persistent : env.has_calls ≡ true) where
    publish_intents-Safe :
        (incident : Uid) (calls : List (Option ToolCallRequest)) (w : World)
        → Safe (announced env) (publish_intents env incident calls) w
    unfolding publish_intents
    publish_intents-Safe incident [] w = done-Safe env 0 w
    publish_intents-Safe incident (none ∷ rest) w = publish_intents-Safe incident rest w
    publish_intents-Safe incident (some call ∷ rest) w =
        bind-Keeps (announced env) (λ kept v. kept ≡ true → In call v.calls) (λ _ _. Unit)
          (persisted env env.has_calls call) _ w (persisted-Keeps env.has_calls call w persistent)
          (λ kept v l stored.
            search (bind-Safe, publish_if-Safe, done-Safe, publish_intents-Safe incident rest))

    record_wave-Safe :
        (inc : Incident) (kind : Kind) (ref : ℕ) (result : Output ⊎ Fault) (w : World)
        → Safe (announced env) (record_wave env inc kind ref result) w
    unfolding record_wave
    record_wave-Safe inc kind ref (inl out) w = search (quiet, publish_intents-Safe)
    record_wave-Safe inc kind ref (inr e) w = search quiet

    wave_agent-Safe :
        (inc : Incident) (ref : ℕ) (kind : Kind) (w : World)
        → Safe (announced env) (wave_agent env inc ref kind) w
    unfolding wave_agent
    wave_agent-Safe inc ref kind w = search (quiet, record_wave-Safe)

    run_concurrently-Safe :
        (inc : Incident) (ref : ℕ) (kinds : List Kind) (w : World)
        → Safe (announced env) (run_concurrently env inc ref kinds) w
    unfolding run_concurrently
    run_concurrently-Safe inc ref [] w = search quiet
    run_concurrently-Safe inc ref (kind ∷ rest) w =
        par-Safe (announced env) _ (wave_agent env inc ref kind) (run_concurrently env inc ref rest)
          w (wave_agent-Safe inc ref kind w) (run_concurrently-Safe inc ref rest w)

    run_alone-Safe :
        (inc : Incident) (ref : ℕ) (kind : Kind) (w : World)
        → Safe (announced env) (run_alone env inc ref kind) w
    unfolding run_alone
    run_alone-Safe inc ref kind w = search quiet

    record_if-Safe :
        (ref : ℕ) (kind : Kind) (result : Output ⊎ Fault) (w : World)
        → Safe (announced env) (record_if env ref kind result) w
    unfolding record_if
    record_if-Safe ref kind (inl out) w = search quiet
    record_if-Safe ref kind (inr e) w = search quiet

    kept_diagnosis-Safe :
        (root : String) (confidence : Float) (inc : Incident) (answer : Incident ⊎ RepoError)
        (w : World)
        → Safe (announced env) (kept_diagnosis env root confidence inc answer) w
    unfolding kept_diagnosis
    kept_diagnosis-Safe root confidence inc (inl stored) w = search quiet
    kept_diagnosis-Safe root confidence inc (inr e) w = search quiet

    set_and_kept-Safe :
        (root : String) (confidence : Float) (moved : Incident × Option Err) (w : World)
        → Safe (announced env) (set_and_kept env root confidence moved) w
    unfolding set_and_kept
    set_and_kept-Safe root confidence (inc, some e) w = search quiet
    set_and_kept-Safe root confidence (inc, none) w = search (quiet, kept_diagnosis-Safe)

    apply_diagnosis-Safe :
        (inc : Incident) (out : Output) (w : World)
        → Safe (announced env) (apply_diagnosis env inc out) w
    unfolding apply_diagnosis
    apply_diagnosis-Safe inc out w = search (quiet, set_and_kept-Safe)

    fail-Safe :
        (inc : Incident) (reason : String) (w : World)
        → Safe (announced env) (fail env inc reason) w
    unfolding fail
    fail-Safe inc reason w = search quiet

    documented-Safe :
        (inc : Incident) (ref : ℕ) (doc : Output ⊎ Fault) (w : World)
        → Safe (announced env) (documented env inc ref doc) w
    unfolding documented
    documented-Safe inc ref (inl doc) w = search quiet
    documented-Safe inc ref (inr e) w = search quiet

    remediate-Safe :
        (inc : Incident) (ref : ℕ) (w : World) → Safe (announced env) (remediate env inc ref) w
    unfolding remediate
    remediate-Safe inc ref w =
        search (quiet, run_alone-Safe, record_if-Safe, publish_intents-Safe, documented-Safe) depth
          9

    concluded-Safe :
        (inc : Incident) (ref : ℕ) (result : Output ⊎ Fault) (w : World)
        → Safe (announced env) (concluded env inc ref result) w
    unfolding concluded
    concluded-Safe inc ref (inl out) w = search (quiet, apply_diagnosis-Safe, remediate-Safe)
    concluded-Safe inc ref (inr e) w = search fail-Safe

    diagnose-Safe :
        (ref : ℕ) (moved : Incident ⊎ Failure) (w : World)
        → Safe (announced env) (diagnose env ref moved) w
    unfolding diagnose
    diagnose-Safe ref (inl inc) w = search (quiet, run_alone-Safe, concluded-Safe)
    diagnose-Safe ref (inr e) w = search quiet

    with_evidence-Safe :
        (inc : Incident) (ref : ℕ) (e : Evidence) (w : World)
        → Safe (announced env) (with_evidence env inc ref e) w
    unfolding with_evidence
    with_evidence-Safe inc ref e w = search (quiet, if-Safe, fail-Safe, diagnose-Safe)

    gather-Safe :
        (ref : ℕ) (moved : Incident ⊎ Failure) (w : World)
        → Safe (announced env) (gather env ref moved) w
    unfolding gather
    gather-Safe ref (inl inc) w =
        search (quiet, run_alone-Safe, record_if-Safe, run_concurrently-Safe, with_evidence-Safe)
          depth 9
    gather-Safe ref (inr e) w = search quiet

    loaded-Safe :
        (found : Incident ⊎ RepoError) (w : World) → Safe (announced env) (loaded env found) w
    unfolding loaded
    loaded-Safe (inl inc) w = search (quiet, if-Safe, gather-Safe)
    loaded-Safe (inr e) w = search quiet

    pub investigate-Safe : (id : Uid) (w : World) → Safe (announced env) (investigate env id) w
    unfolding investigate
    investigate-Safe id w = search (quiet, loaded-Safe)
