-- ===== src/Gates/Executor/Effects.antt =====
-- What a call of the executor amounts to.
use aegisops_ai.Base.{
  ℕ, ◌≡◌, refl, ◌⊎◌, inl, inr, true, false, Bool, Bool-cases, Option, none, some, arith, String, ap,
  sym, subst, ◌∙◌, ◌≤◌,
}
use aegisops_ai.Shared.{Uid, Time, Err}
use aegisops_ai.Domain.ToolCall.{permits, ToolCallRequest}
use aegisops_ai.Domain.Execution.{
  Execution, succeeded, failed, timed_out, dry_run, new_execution, complete, capture_output,
  execution_succeeded,
}
use aegisops_ai.Gates.Registry.{ToolDescriptor, ActionDescriptor, lookup_tool, describe, known}
use aegisops_ai.Gates.Executor.{
  Executor, ToolCode, ToolInvocation, ToolResult, invoke, invocation_of, bound_of, conclude,
  execute, finish_with, run_tool, find_tool, noop_tool,
}

-- Why an execution has the status that it has.
pub data Concludes (dry : Bool) (err : Option String) (late : Bool) (e : Execution) : Type 0 where
  ran : dry ≡ false → err ≡ none → e.status ≡ succeeded → Concludes dry err late e
  described : dry ≡ true → err ≡ none → e.status ≡ dry_run → Concludes dry err late e
  overran :
      (m : String) → err ≡ some m → late ≡ true → e.status ≡ timed_out → Concludes dry err late e
  broke : (m : String) → err ≡ some m → late ≡ false → e.status ≡ failed → Concludes dry err late e

finish_with-Concludes :
    (dry : Bool) (now : Time) (err : Option String) (late : Bool) (e : Execution)
    → Concludes dry err late (finish_with dry now err late e)
unfolding finish_with complete
finish_with-Concludes dry now (some m) true e = overran m refl refl refl
finish_with-Concludes dry now (some m) false e = broke m refl refl refl
finish_with-Concludes true now none late e = described refl refl refl
finish_with-Concludes false now none late e = ran refl refl refl

-- What Execute says when it returns no error.
pub record Executed (e : Executor) (tool : ToolCode) (req : ToolCallRequest) (call : ToolInvocation)
    (ex : Execution) : Type 0 where
  pub permitted : permits req.decision ≡ true
  pub exists : known e.registry req.tool req.action ≡ true
  pub as_asked : call ≡ invocation_of e req
  pub of_request : ex.tool_call_id ≡ req.id
  pub dry_as_configured : ex.dry ≡ e.dry
  pub limit : ℕ
  pub bounded : limit ≤ e.timeout
  pub concluded : Concludes e.dry (invoke tool call limit).1 (invoke tool call limit).2 ex

-- The kind of conclusion reads only the status.
Concludes-same :
    (dry : Bool) (err : Option String) (late : Bool) (a b : Execution)
    → a.status ≡ b.status
    → Concludes dry err late a
    → Concludes dry err late b
Concludes-same dry err late a b s (ran d n e) = ran d n (sym s ∙ e)
Concludes-same dry err late a b s (described d n e) = described d n (sym s ∙ e)
Concludes-same dry err late a b s (overran m n l e) = overran m n l (sym s ∙ e)
Concludes-same dry err late a b s (broke m n l e) = broke m n l (sym s ∙ e)

conclude-Concludes :
    (dry : Bool) (now : Time) (answer : ToolResult × Option String × Bool) (ex : Execution)
    → Concludes dry answer.1 answer.2 (conclude dry now answer ex)
unfolding conclude capture_output
conclude-Concludes dry now (result, err, late) ex =
    Concludes-same dry err late (finish_with dry now err late ex)
      (conclude dry now (result, err, late) ex) refl (finish_with-Concludes dry now err late ex)

finish_with_keeps :
    (dry : Bool) (now : Time) (err : Option String) (late : Bool) (ex : Execution)
    → ((finish_with dry now err late ex).tool_call_id ≡ ex.tool_call_id)
      × ((finish_with dry now err late ex).dry ≡ ex.dry)
unfolding finish_with complete
finish_with_keeps dry now err late ex = ground arith

conclude_keeps :
    (dry : Bool) (now : Time) (answer : ToolResult × Option String × Bool) (ex : Execution)
    → ((conclude dry now answer ex).tool_call_id ≡ ex.tool_call_id)
      × ((conclude dry now answer ex).dry ≡ ex.dry)
unfolding conclude capture_output
conclude_keeps dry now (result, err, late) ex = finish_with_keeps dry now err late ex

bound_of-le : (timeout : ℕ) (desc : ActionDescriptor) → bound_of timeout desc ≤ timeout
unfolding bound_of
bound_of-le timeout desc = ground arith

new_execution_fields :
    (id : Uid) (now : Time) (call_id : Uid) (dry : Bool) {ex : Execution}
    → new_execution id now call_id succeeded dry ≡ inl ex
    → (ex.tool_call_id ≡ call_id) × (ex.dry ≡ dry)
unfolding new_execution
new_execution_fields id now call_id dry h = ground arith

module _ (e : Executor) (id : Uid) (now later : Time) (tool : ToolCode)
    (req : ToolCallRequest) where
  run_tool-Executed :
      (desc : ActionDescriptor) (started : Execution ⊎ Err) {call : ToolInvocation} {ex : Execution}
      → permits req.decision ≡ true
      → known e.registry req.tool req.action ≡ true
      → new_execution id now req.id succeeded e.dry ≡ started
      → run_tool e later tool req desc started ≡ some (call, ex)
      → Executed e tool req call ex
  unfolding run_tool
  run_tool-Executed desc (inr err) p k s h = cc
  run_tool-Executed desc (inl first) {call} {ex} p k s h =
      let answer = invoke tool (invocation_of e req) (bound_of e.timeout desc) in
      let made = conclude e.dry later answer first in
      let fields = new_execution_fields id now req.id e.dry s in
      let kept = conclude_keeps e.dry later answer first in
      let same_call : invocation_of e req ≡ call = ground arith in
      let same_ex : made ≡ ex = ground arith in
      subst (λ c. Executed e tool req c ex) same_call
        (subst (λ x. Executed e tool req (invocation_of e req) x) same_ex
          (record {
            permitted = p;
            exists = k;
            as_asked = refl;
            of_request = kept.0 ∙ fields.0;
            dry_as_configured = kept.1 ∙ fields.1;
            limit = bound_of e.timeout desc;
            bounded = bound_of-le e.timeout desc;
            concluded = conclude-Concludes e.dry later answer first;
          }))

  find_tool-Executed :
      (t : Option ToolDescriptor) (d : Option ActionDescriptor) {call : ToolInvocation}
      {ex : Execution}
      → permits req.decision ≡ true
      → describe e.registry req.tool req.action ≡ d
      → find_tool e id now later tool req t d ≡ some (call, ex)
      → Executed e tool req call ex
  unfolding find_tool known
  find_tool-Executed none d p k h = cc
  find_tool-Executed (some t) none p k h = cc
  find_tool-Executed (some t) (some desc) p k h =
      run_tool-Executed desc (new_execution id now req.id succeeded e.dry) p (rw (k, known)) refl h

  -- Execute calls a tool only for a request whose decision permits it and whose tool and action are
  -- registered, with that request's own parameters and the executor's dry-run flag, within the
  -- executor's bound; its record names the request and has the status that the tool's answer earns:
  -- succeeded only for a live call without error.
  pub execute-Executed :
      {call : ToolInvocation} {ex : Execution}
      → execute e id now later tool req ≡ some (call, ex)
      → Executed e tool req call ex
  unfolding execute
  execute-Executed h = elim (Bool-cases (permits req.decision)) [
    | inl p ↦
        find_tool-Executed (lookup_tool e.registry req.tool)
          (describe e.registry req.tool req.action) p refl (rw p at h)
    | inr n ↦ cc (rw n at h)
  ]

invoke-noop :
    (call : ToolInvocation) (limit : ℕ)
    → call.dry ≡ false
    → (invoke noop_tool call limit).1 ≡ some "no implementation in this build"
unfolding invoke noop_tool
invoke-noop call limit h = rw (h, invoke, noop_tool)

noop-Concludes :
    (call : ToolInvocation) (limit : ℕ) (ex : Execution)
    → Concludes call.dry (invoke noop_tool call limit).1 (invoke noop_tool call limit).2 ex
    → execution_succeeded ex ≡ false
unfolding execution_succeeded
noop-Concludes call limit ex (ran d n e) = cc (n, invoke-noop call limit d)
noop-Concludes call limit ex (described d n e) = rw e
noop-Concludes call limit ex (overran m n l e) = rw e
noop-Concludes call limit ex (broke m n l e) = rw e

-- No executor, live or dry, reports that infrastructure was changed through a tool that has no
-- implementation.
pub noop_never_succeeds :
    (e : Executor) (id : Uid) (now later : Time) (req : ToolCallRequest) {call : ToolInvocation}
    {ex : Execution}
    → execute e id now later noop_tool req ≡ some (call, ex)
    → execution_succeeded ex ≡ false
unfolding invocation_of
noop_never_succeeds e id now later req {call} {ex} h =
    let x = execute-Executed e id now later noop_tool req h in
    let dry_same : call.dry ≡ e.dry = ap (λ (c : ToolInvocation). c.dry) x.as_asked in
    noop-Concludes call x.limit ex (
      subst
        (λ d. Concludes d (invoke noop_tool call x.limit).1 (invoke noop_tool call x.limit).2 ex)
        (sym dry_same) x.concluded)
