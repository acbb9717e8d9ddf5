-- ===== src/Examples/Fixture.antt =====
-- A small installation of the harness (cmd/api wires a real one), and what its handlers do with it.
use aegisops_ai.Base.{◌+◌, true, false, [], ◌∷◌, none, some, num, one_float, zero_float, pos}
use aegisops_ai.Domain.ToolCall.{
  ToolCallRequest, Risk, low, pending, awaiting_approval, written, str, medium,
}
use aegisops_ai.Domain.Rules.{Permission, allow, deny, Policy}
use aegisops_ai.Domain.User.{operator}
use aegisops_ai.Gates.Cache.{cold}
use aegisops_ai.Gates.Registry.{
  Host, ParamSpec, string_kind, ActionDescriptor, ToolDescriptor, Registry,
}
use aegisops_ai.Gates.Policy.{new_policy_engine}
use aegisops_ai.Gates.Approval.{Approver}
use aegisops_ai.Gates.Executor.{Executor, ToolCode, returned}
use aegisops_ai.Harness.World.{Env, World}

abbrev pub name_spec : ParamSpec
name_spec = record {
  kind = string_kind;
  required = true;
  default = none;
  enum = [];
  pattern_text = "";
  min = num 0;
  max = num 0;
  max_len = pos 20;
}

abbrev pub restart_action : ActionDescriptor
restart_action = record { params = ("name", name_spec) ∷ []; mutating = true; timeout = 10 }

abbrev pub docker : ToolDescriptor
docker = record { name = "docker"; actions = ("restart", restart_action) ∷ [] }

abbrev pub registry : Registry
registry = record { tools = ("docker", docker) ∷ []; compiled = [] }

abbrev pub host : Host
host = record {
  compile = λ s. none;
  float_of_int = λ n. num 0;
  float_of_text = λ s. none;
  int64_of_float = λ f. pos 0;
}

abbrev pub executor : Executor
executor = record { registry = registry; timeout = 30; dry = false }

abbrev pub restarts : ToolCode
restarts call limit =
    returned (record { stdout = []; stderr = []; exit_code = some (pos 0) }) none false

abbrev pub allow_restart : Permission
allow_restart = record {
  id = 11;
  agent_kind = "devops";
  tool = "docker";
  action = "restart";
  effect = allow;
  created_at = 1;
  updated_at = 1;
}

abbrev pub deny_docker : Permission
deny_docker = record {
  id = 12;
  agent_kind = "devops";
  tool = "docker";
  action = "*";
  effect = deny;
  created_at = 1;
  updated_at = 1;
}

abbrev pub restart_policy : Policy
restart_policy = record {
  id = 21;
  name = "restart";
  description = "";
  tool = "docker";
  action = "restart";
  risk = low;
  requires_approval = false;
  min_confidence = zero_float;
  priority = pos 0;
  enabled = true;
  created_at = 1;
  updated_at = 1;
}

abbrev pub request : ToolCallRequest
request = record {
  id = 7;
  incident_id = 3;
  task_id = none;
  agent_id = 5;
  agent_name = "devops";
  tool = "docker";
  action = "restart";
  params = ("name", str "api") ∷ [];
  reason = "unhealthy";
  confidence = one_float;
  risk = Risk.other "";
  decision = pending;
  decided_by = none;
  decided_at = none;
  decision_note = written "";
  idempotency_key = "";
  created_at = 1;
}

abbrev pub parked_request : ToolCallRequest
parked_request = record request { risk = medium; decision = awaiting_approval }

abbrev pub approver : Approver
approver = record { user_id = 9; email = "ops@example.com"; role = operator }

abbrev pub env : Env
env = record {
  host = host;
  executor = executor;
  autonomy = new_policy_engine "low";
  rule_ttl = 60;
  approval_ttl = 3600;
  clock = λ n. 100 + n;
  fresh_id = λ n. 1000 + n;
  tool = λ n. restarts;
  list_permissions = λ n. some (allow_restart ∷ deny_docker ∷ []);
  list_policies = λ n. some (restart_policy ∷ []);
  agents = some (λ n id. some (record { kind = "devops"; enabled = true }));
  get_fails = λ n. false;
  update_fails = λ n. false;
  save_fails = λ n. false;
  append_fails = λ n. false;
  list_fails = λ n. false;
  event_fails = λ n. false;
  publish_fails = λ n. false;
  has_audit = true;
  has_incidents = true;
  has_bus = true;
}

abbrev pub world_of : ToolCallRequest → World
world_of req = record {
  step = 0;
  permissions = cold;
  policies = cold;
  calls = req ∷ [];
  executions = [];
  ledger = [];
  lost = [];
  timeline = [];
  published = [];
  invoked = [];
}

abbrev pub world : World
world = world_of request
