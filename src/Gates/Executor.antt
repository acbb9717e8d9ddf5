-- ===== src/Gates/Executor.antt =====
-- internal/harness/executor.go: gate five, the only code that causes an effect. What a tool does is
-- the argument `tool`, given the invocation and the time it may take; a panic of the tool is one of
-- its outcomes.
pub mod Effects
use aegisops_ai.Base.{
  ℕ, Bool, true, false, not, ◌&&◌, String, Option, none, some, if◌then◌else◌, ltb, ℤ, List, [], ◌⊎◌,
  inl, inr,
}
use aegisops_ai.Shared.{Uid, Time, Err}
use aegisops_ai.Domain.ToolCall.{permits, Params, ToolCallRequest}
use aegisops_ai.Domain.Execution.{
  Bytes, Execution, ExecStatus, succeeded, failed, timed_out, dry_run, new_execution, complete,
  capture_output, deadline, tool_error,
}
use aegisops_ai.Gates.Registry.{Registry, ActionDescriptor, ToolDescriptor, lookup_tool, describe}

-- `tool` is the name under which the called tool is registered.
pub record ToolInvocation : Type 0 where
  pub tool_call_id : Uid
  pub tool : String
  pub action : String
  pub params : Params
  pub dry : Bool
  pub incident_id : Uid

pub record ToolResult : Type 0 where
  pub stdout : Bytes
  pub stderr : Bytes
  pub exit_code : Option ℤ

-- What a call of a tool comes to, and whether its deadline had passed by then.
pub data ToolOutcome : Type 0 where
  returned : ToolResult → Option String → Bool → ToolOutcome
  panicked : String → Bool → ToolOutcome

abbrev pub ToolCode : Type 0
ToolCode = ToolInvocation → ℕ → ToolOutcome

pub record Executor : Type 0 where
  pub registry : Registry
  pub timeout : ℕ
  pub dry : Bool

abbrev empty_result : ToolResult
empty_result = record { stdout = []; stderr = []; exit_code = none }

-- invoke: a panic becomes an error.
unfoldable pub invoke : ToolCode → ToolInvocation → ℕ → ToolResult × Option String × Bool
invoke tool call timeout = elim (tool call timeout) [
  | returned result err late ↦ (result, err, late)
  | panicked p late ↦ (empty_result, some p, late)
]

-- The shorter of the executor's bound and the action's own.
unfoldable pub bound_of : ℕ → ActionDescriptor → ℕ
bound_of timeout desc =
    if ltb 0 desc.timeout && ltb desc.timeout timeout then desc.timeout else timeout

-- The switch on the error.
unfoldable pub finish_with : Bool → Time → Option String → Bool → Execution → Execution
finish_with dry now (some msg) true e = record (complete now timed_out e) { error = deadline }
finish_with dry now (some msg) false e = record (complete now failed e) { error = tool_error msg }
finish_with true now none late e = complete now dry_run e
finish_with false now none late e = complete now succeeded e

unfoldable pub invocation_of : Executor → ToolCallRequest → ToolInvocation
invocation_of e req = record {
  tool_call_id = req.id;
  tool = req.tool;
  action = req.action;
  params = req.params;
  dry = e.dry;
  incident_id = req.incident_id;
}

-- The record of a call that has come back.
unfoldable pub conclude : Bool → Time → ToolResult × Option String × Bool → Execution → Execution
unfolding finish_with capture_output
conclude dry now (result, err, late) e =
    record (capture_output result.stdout result.stderr (finish_with dry now err late e)) {
      exit_code = result.exit_code;
    }

-- From the record of the start on.
run_tool :
    Executor
    → Time
    → ToolCode
    → ToolCallRequest
    → ActionDescriptor
    → Execution ⊎ Err
    → Option (ToolInvocation × Execution)
run_tool e later tool req desc (inr err) = none
run_tool e later tool req desc (inl started) = some (
  invocation_of e req,
  conclude e.dry later (invoke tool (invocation_of e req) (bound_of e.timeout desc)) started,
)

-- From the two lookups on.
find_tool :
    Executor
    → Uid
    → Time
    → Time
    → ToolCode
    → ToolCallRequest
    → Option ToolDescriptor
    → Option ActionDescriptor
    → Option (ToolInvocation × Execution)
unfolding run_tool
find_tool e id now later tool req none desc = none
find_tool e id now later tool req (some t) none = none
find_tool e id now later tool req (some t) (some desc) =
    run_tool e later tool req desc (new_execution id now req.id succeeded e.dry)

-- Execute: the invocation made and the record of it; `none` is an error, and no tool was called.
unfoldable pub execute :
    Executor → Uid → Time → Time → ToolCode → ToolCallRequest → Option (ToolInvocation × Execution)
unfolding find_tool
execute e id now later tool req =
    if not (permits req.decision)
    then none
    else find_tool e id now later tool req (lookup_tool e.registry req.tool)
        (describe e.registry req.tool req.action)

-- NoopTool.Invoke.
unfoldable pub noop_tool : ToolCode
noop_tool call timeout =
    if not call.dry
    then returned empty_result (some "no implementation in this build") false
    else returned empty_result none false
