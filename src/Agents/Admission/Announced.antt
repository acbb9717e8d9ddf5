-- ===== src/Agents/Admission/Announced.antt =====
-- internal/agents/orchestrator.go: the announcing of tool calls by investigations that run at once.
use aegisops_ai.Base.{List, All}
use aegisops_ai.Bus.Event.{Event}
use aegisops_ai.Agents.Program.{Safe}
use aegisops_ai.Agents.World.{World, Env}
use aegisops_ai.Agents.Announced.{announced}
use aegisops_ai.Agents.Admission.{Job}

module _ (env : Env) where
  AllSafe : List Job → World → Type 0
  AllSafe jobs w = All (λ (job : Job). Safe (announced env) job.1 w) jobs
