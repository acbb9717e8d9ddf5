-- ===== src/Agents/Admission.antt =====
-- internal/agents/orchestrator.go: which investigations run. The map `running` has an entry exactly
-- while its goroutine lives, so an entry here is the incident with what is left of its goroutine.
-- Shutdown, which cancels the contexts and waits, is left out.
pub mod Capacity
pub mod Announced
use aegisops_ai.Base.{
  ℕ, zero, suc, Bool, true, false, not, ◌||◌, ◌==◌, leb, List, [], ◌∷◌, ◌++◌, Option, none, some,
  if◌then◌else◌, any, length, ℤ, pos, negsuc, ltb_ℤ, pos_part,
}
use aegisops_ai.Shared.{Uid, is_zero_id}
use aegisops_ai.Bus.Event.{Event}
use aegisops_ai.Bus.Delivery.{Handled, returned_nil, returned_error}
use aegisops_ai.Agents.Program.{Program, done, act}
use aegisops_ai.Agents.World.{World, Env}
use aegisops_ai.Agents.Orchestrator.{Failure}
use aegisops_ai.Agents.Investigation.{investigate}

-- The durations are in nanoseconds.
pub record OrchestratorConfig : Type 0 where
  pub agent_timeout : ℤ
  pub investigation_timeout : ℤ
  pub max_concurrent : ℤ

abbrev pub default_agent_timeout : ℤ
default_agent_timeout = pos 120000000000

abbrev pub default_investigation_timeout : ℤ
default_investigation_timeout = pos 900000000000

abbrev pub default_max_concurrent : ℤ
default_max_concurrent = pos 4

positive_or : ℤ → ℤ → ℤ
positive_or value default = if ltb_ℤ (pos 0) value then value else default

-- The settings that NewOrchestrator keeps.
unfoldable pub effective : OrchestratorConfig → OrchestratorConfig
unfolding positive_or
effective cfg = record {
  agent_timeout = positive_or cfg.agent_timeout default_agent_timeout;
  investigation_timeout = positive_or cfg.investigation_timeout default_investigation_timeout;
  max_concurrent = positive_or cfg.max_concurrent default_max_concurrent;
}

unfoldable pub limit_of : OrchestratorConfig → ℕ
unfolding effective
limit_of cfg = pos_part (effective cfg).max_concurrent

abbrev pub Job : Type 0
Job = Uid × Program World (Option Failure)

pub record Engine : Type 0 where
  pub running : List Job
  pub world : World

-- NewOrchestrator.
unfoldable pub new_orchestrator : World → Engine
new_orchestrator w = record { running = []; world = w }

-- `_, already := o.running[id]`.
unfoldable pub is_running : Uid → List Job → Bool
unfolding any
is_running id jobs = any (λ (job : Job). job.0 == id) jobs

-- A step of the goroutine at a position; one that has returned is taken out of the map.
unfoldable pub advance_at : ℕ → List Job → World → List Job × World
advance_at n [] w = ([], w)
advance_at zero ((id, done outcome) ∷ rest) w = (rest, w)
advance_at zero ((id, act f p) ∷ rest) w = ((id, p w) ∷ rest, f w)
advance_at (suc n) (job ∷ rest) w =
    let (others, after) = advance_at n rest w in (job ∷ others, after)

-- What happens to the engine: an event arrives, or the goroutine at a position takes a step.
pub data Happening : Type 0 where
  arrives : Event → Happening
  advances : ℕ → Happening

module _ (env : Env) (limit : ℕ) where
  -- onIncidentDetected; its error asks the bus for redelivery.
  unfoldable pub on_incident_detected : Event → Engine → Engine × Handled Unit
  unfolding is_running investigate
  on_incident_detected e m =
      if is_zero_id e.incident_id
      then (m, returned_nil)
      else if is_running e.incident_id m.running
      then (m, returned_nil)
      else if leb limit (length m.running)
      then (m, returned_error tt)
      else (
        record m { running = m.running ++ (e.incident_id, investigate env e.incident_id) ∷ [] },
        returned_nil,
      )

  unfoldable pub advance : ℕ → Engine → Engine
  unfolding advance_at
  advance n m = record {
    running = (advance_at n m.running m.world).0;
    world = (advance_at n m.running m.world).1;
  }

  unfoldable pub happens : Happening → Engine → Engine
  unfolding on_incident_detected advance
  happens (arrives e) m = (on_incident_detected e m).0
  happens (advances n) m = advance n m

  unfoldable pub history : List Happening → Engine → Engine
  unfolding happens
  history [] m = m
  history (h ∷ hs) m = history hs (happens h m)
