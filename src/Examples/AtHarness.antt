-- ===== src/Examples/AtHarness.antt =====
-- The theorems on the handlers, on the small installation.
use aegisops_ai.Base.{◌≡◌, refl, ◌⊎◌, ◌≤◌, suc, false, some, length, [], ◌∷◌, pos}
use aegisops_ai.Domain.ToolCall.{terminal, written, str}
use aegisops_ai.Gates.Approval.{approves}
use aegisops_ai.Gates.Executor.{ToolInvocation}
use aegisops_ai.Domain.ToolCall.{ToolCallRequest}
use aegisops_ai.Harness.World.{LedgerEntry}
use aegisops_ai.Harness.Steps.{row_of}
use aegisops_ai.Harness.Pipeline.{evaluate_request}
use aegisops_ai.Harness.Rulings.{apply_approval}
use aegisops_ai.Harness.Authorised.{Authorised, Ran, evaluate_request_runs}
use aegisops_ai.Harness.Redelivery.{deliver_all, calls_for, deliver_all_once}
use aegisops_ai.Harness.Subscribed.{on_event, work_once}
use aegisops_ai.Bus.Event.{Event, Config}
use aegisops_ai.Bus.Delivery.{work}
use aegisops_ai.Harness.Approved.{Approved, Called, apply_approval_runs}
use aegisops_ai.Harness.Account.{Accounts, OneMore, evaluate_request-Accounts}
use aegisops_ai.Harness.Steps.{ticked}
use aegisops_ai.Examples.Fixture.{env, world, world_of, request, parked_request, approver}

evaluate_request_runs_example :
    ((evaluate_request env request world).0.invoked ≡ [])
    ⊎ ((terminal request.decision ≡ false)
        × ((call : ToolInvocation) × Authorised env request world call
            × Ran env 7 call [] (evaluate_request env request world).0))
evaluate_request_runs_example = evaluate_request_runs env request world

deliver_all_once_example :
    length (calls_for 7 (deliver_all env (7 ∷ 8 ∷ 7 ∷ []) world).invoked)
    ≤ suc (length (calls_for 7 []))
deliver_all_once_example = deliver_all_once env 7 (7 ∷ 8 ∷ 7 ∷ []) world

apply_approval_runs_example :
    ((apply_approval env 7 approves approver (written "ok") (world_of parked_request)).0.invoked
      ≡ [])
    ⊎ ((req : ToolCallRequest) × (row_of 7 (world_of parked_request).calls ≡ some req)
        × Approved env approves approver req (written "ok") (ticked (world_of parked_request))
        × Called env req []
            (apply_approval env 7 approves approver (written "ok") (world_of parked_request)).0)
apply_approval_runs_example =
    apply_approval_runs env 7 approves approver (written "ok") (world_of parked_request)

evaluate_request-Accounts_example :
    (e : LedgerEntry) × Accounts env (evaluate_request env request world).1 e
    × (e.tool_call_id ≡ 7)
    × OneMore env world (evaluate_request env request world).0 e
unfolding terminal
evaluate_request-Accounts_example = evaluate_request-Accounts env request world refl refl

abbrev requested : Event
requested = record {
  id = "1";
  topic = "tool.requested";
  incident_id = 3;
  actor_type = "agent";
  actor_id = 5;
  actor_name = "";
  payload = ("tool_call_id", str "00000000-0000-0000-0000-000000000007") ∷ [];
  request_id = "";
  trace_id = "";
  occurred_at = 100;
  attempt = 1;
}

abbrev bus_config : Config
bus_config = record {
  queue_size = pos 256;
  workers = pos 1;
  max_attempts = pos 3;
  retry_backoff = pos 100000000;
  block_on_full = false;
}

work_once_example :
    length (
      calls_for 7
        (work (on_event env) (λ e n. false) bus_config (requested ∷ requested ∷ []) world).invoked)
    ≤ suc (length (calls_for 7 []))
work_once_example = work_once env (λ e n. false) 7 bus_config (requested ∷ requested ∷ []) world
