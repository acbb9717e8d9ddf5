-- ===== src/Domain/Agent.antt =====
-- internal/domain/agent/agent.go: the registration of an agent.
use aegisops_ai.Base.{
  ℕ, Bool, true, false, String, List, [], ◌∷◌, Option, none, some, ◌⊎◌, inl, inr,
}
use aegisops_ai.Shared.{
  Uid, Time, Err, says, new_validator, check, required, max_len, not_zero_id, validator_err, ◌▸◌,
}
use aegisops_ai.Domain.ToolCall.{Params}

pub data Kind : Type 0 where
  incident_manager monitoring log_analysis diagnosis security action documentation : Kind
  other : String → Kind

abbrev pub all_kinds : List Kind
all_kinds =
    incident_manager ∷ monitoring ∷ log_analysis ∷ diagnosis ∷ security ∷ action ∷ documentation
    ∷ []

unfoldable pub kind_valid : Kind → Bool
kind_valid (other _) = false
kind_valid _ = true

unfoldable pub can_mutate : Kind → Bool
can_mutate action = true
can_mutate _ = false

pub record Agent : Type 0 where
  pub id : Uid
  pub name : String
  pub kind : Kind
  pub description : String
  pub enabled : Bool
  pub config : Params
  pub created_at : Time
  pub updated_at : Time

abbrev pub max_agent_name_len : ℕ
max_agent_name_len = 100

unfoldable pub agent_validate : Agent → Option Err
unfolding kind_valid
agent_validate a = validator_err (
    new_validator "agent"
    ▸ not_zero_id a.id "id"
    ▸ required a.name "name"
    ▸ max_len a.name "name" max_agent_name_len
    ▸ check (kind_valid a.kind) "kind" (says "is not one of the seven agent kinds"))

unfoldable pub new_agent : Uid → Time → String → Kind → String → Agent ⊎ Err
unfolding agent_validate
new_agent id now name kind description =
    let a : Agent = record {
      id = id;
      name = name;
      kind = kind;
      description = description;
      enabled = true;
      config = [];
      created_at = now;
      updated_at = now;
    } in
    elim (agent_validate a) [ none ↦ inl a | some err ↦ inr err ]
