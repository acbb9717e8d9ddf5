-- ===== src/Domain/ToolCall.antt =====
-- internal/domain/harness/toolcall.go: risk tiers, decisions, and the request by which an agent
-- states an intent. The parameters are JSON values; a note is the text of a decision, either
-- what a human wrote or one of the sentences that the harness composes.
use aegisops_ai.Base.{
  ℕ, leb, Bool, true, false, String, str_eq, List, [], Option, none, some, ◌||◌, if◌then◌else◌,
  Float, zero_float, one_float, ◌⊎◌, inl, inr, ℤ,
}
use aegisops_ai.Shared.{
  Uid, Time, says, Err, new_validator, check, required, max_len, in_range, not_zero_id,
  validator_err, ◌▸◌,
}

-- `other` is any text that none of the constants spells, the empty text among them.
pub data Risk : Type 0 where
  low medium high forbidden : Risk
  other : String → Risk

unfoldable pub risk_valid : Risk → Bool
risk_valid (other _) = false
risk_valid _ = true

unfoldable pub risk_rank : Risk → ℕ
risk_rank low = 0
risk_rank medium = 1
risk_rank high = 2
risk_rank forbidden = 3
risk_rank (other _) = 3

unfoldable pub is_forbidden : Risk → Bool
is_forbidden forbidden = true
is_forbidden _ = false

unfoldable pub at_or_below : Risk → Risk → Bool
unfolding is_forbidden risk_rank
at_or_below r ceiling = if is_forbidden r then false else leb (risk_rank r) (risk_rank ceiling)

pub data Decision : Type 0 where
  pending allowed denied_unknown denied_params denied_permission denied_policy : Decision
  awaiting_approval approved rejected expired : Decision
  other : String → Decision

unfoldable pub decision_valid : Decision → Bool
decision_valid (other _) = false
decision_valid _ = true

-- Decision.Permits.
unfoldable pub permits : Decision → Bool
permits allowed = true
permits approved = true
permits _ = false

-- Decision.Terminal.
unfoldable pub terminal : Decision → Bool
terminal pending = false
terminal awaiting_approval = false
terminal _ = true

mutual
  pub data Value : Type 0 where
    null : Value
    bool : Bool → Value
    str : String → Value
    float : Float → Value
    int : ℤ → Value
    -- a json.Number, by its text
    number : String → Value
    array : Values → Value
    object : Fields → Value

  pub data Values : Type 0 where
    nil : Values
    cons : Value → Values → Values

  pub data Fields : Type 0 where
    end : Fields
    field : String → Value → Fields → Fields

-- map[string]any, as the list of its entries.
abbrev pub Params : Type 0
Params = List (String × Value)

-- The sentences of the harness, without their wording.
pub data Note : Type 0 where
  written : String → Note
  already_decided : Decision → Note
  no_such_tool : String → String → Note
  bad_params : String → Note
  permission_denied : String → String → Note
  no_policy : String → String → Note
  forbidden_by_policy : String → Note
  no_autonomy : String → Note
  above_ceiling : Risk → Risk → Note
  policy_requires_human : String → Note
  low_confidence : Float → Float → Note
  permitted_by_policy : String → Note
  policy_changed : Note
  ruled : String → Bool → Note
  approval_refused : String → Note
  nobody_ruled : Note

pub record ToolCallRequest : Type 0 where
  pub id : Uid
  pub incident_id : Uid
  pub task_id : Option Uid
  pub agent_id : Uid
  pub agent_name : String
  pub tool : String
  pub action : String
  pub params : Params
  pub reason : String
  pub confidence : Float
  pub risk : Risk
  pub decision : Decision
  pub decided_by : Option Uid
  pub decided_at : Option Time
  pub decision_note : Note
  pub idempotency_key : String
  pub created_at : Time

abbrev pub max_tool_len : ℕ
max_tool_len = 100

abbrev pub max_action_len : ℕ
max_action_len = 100

abbrev pub max_reason_len : ℕ
max_reason_len = 10000

unfoldable pub unset : Risk → Bool
unset (other s) = str_eq s ""
unset _ = false

unfoldable pub validate : ToolCallRequest → Option Err
unfolding unset
validate r = validator_err (
    new_validator "tool_call"
    ▸ not_zero_id r.id "id"
    ▸ not_zero_id r.incident_id "incident_id"
    ▸ not_zero_id r.agent_id "agent_id"
    ▸ required r.tool "tool"
    ▸ max_len r.tool "tool" max_tool_len
    ▸ required r.action "action"
    ▸ max_len r.action "action" max_action_len
    ▸ required r.reason "reason"
    ▸ max_len r.reason "reason" max_reason_len
    ▸ in_range r.confidence "confidence" zero_float one_float
    ▸ check (decision_valid r.decision) "decision" (says "is not a known decision")
    ▸ check (unset r.risk || risk_valid r.risk) "risk" (says "is not a known risk tier"))

-- NewToolCallRequest: `id` is what shared.NewID draws.
unfoldable pub new_tool_call_request :
    Uid → Time → Uid → Uid → String → String → String → ToolCallRequest ⊎ Err
new_tool_call_request id now incident_id agent_id tool action reason =
    let r : ToolCallRequest = record {
      id = id;
      incident_id = incident_id;
      task_id = none;
      agent_id = agent_id;
      agent_name = "";
      tool = tool;
      action = action;
      params = [];
      reason = reason;
      confidence = zero_float;
      risk = other "";
      decision = pending;
      decided_by = none;
      decided_at = none;
      decision_note = written "";
      idempotency_key = "";
      created_at = now;
    } in
    elim (validate r) [ none ↦ inl r | some e ↦ inr e ]

unfoldable pub deny : Time → Decision → Note → ToolCallRequest → ToolCallRequest
deny now d note r = record r { decision = d; decision_note = note; decided_at = some now }

unfoldable pub approve : Time → Uid → Note → ToolCallRequest → ToolCallRequest
approve now by note r = record r {
  decision = approved;
  decided_by = some by;
  decision_note = note;
  decided_at = some now;
}
