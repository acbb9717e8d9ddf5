-- ===== src/Examples/AtBus.antt =====
-- The theorems on the event bus.
use aegisops_ai.Base.{
  ℕ, suc, ◌≡◌, ◌≢◌, ◌↔◌, true, false, ltb, List, [], ◌∷◌, pos, pos_part, if◌then◌else◌,
}
use aegisops_ai.Bus.Event.{Event, Config, settled}
use aegisops_ai.Bus.Topic.{matches, split_dots}
use aegisops_ai.Bus.Topic.Meaning.{Matches, matches_iff}
use aegisops_ai.Bus.Delivery.{Handled, returned_nil, returned_error, deliver}
use aegisops_ai.Bus.Delivery.Retries.{Ends, deliver-Ends}
use aegisops_ai.Bus.Queues.{Context, Bus, new_bus, publish, publisher_panics, subscribe}
use aegisops_ai.Bus.Queues.Sends.{IsSound}
use aegisops_ai.Bus.Queues.Bounded.{
  Call, publishes, subscribes, unsubscribes, closes, takes, run, run_bounded,
}

matches_iff_example :
    (matches "incident.#" "incident.step.done" ≡ true)
    ↔ Matches (split_dots "incident.#") (split_dots "incident.step.done")
matches_iff_example = matches_iff "incident.#" "incident.step.done"

abbrev detected : Event
detected = record {
  id = "1";
  topic = "incident.detected";
  incident_id = 3;
  actor_type = "system";
  actor_id = 0;
  actor_name = "";
  payload = [];
  request_id = "";
  trace_id = "";
  occurred_at = 100;
  attempt = 0;
}

abbrev zero_config : Config
zero_config = record {
  queue_size = pos 1;
  workers = pos 0;
  max_attempts = pos 0;
  retry_backoff = pos 0;
  block_on_full = false;
}

-- It fails once.
abbrev flaky : Event → ℕ → ℕ × Handled Unit
flaky e calls = (suc calls, if ltb calls 1 then returned_error tt else returned_nil)

deliver-Ends_example :
    Ends flaky
      (λ e n. false)
      (pos_part (settled zero_config).max_attempts)
      1
      detected
      0
      (deliver flaky (λ e n. false) (settled zero_config) detected 0)
deliver-Ends_example = deliver-Ends flaky (λ e n. false) zero_config detected 0

abbrev context : Context
context = record { fresh_id = "2"; now = 200; request_id = "r"; trace_id = "t" }

abbrev calls : List Call
calls =
    subscribes "incident.*" true
    ∷ publishes context detected
    ∷ publishes context detected
    ∷ takes 0
    ∷ unsubscribes 0
    ∷ publishes context detected
    ∷ closes
    ∷ []

run_bounded_example :
    IsSound (run calls (new_bus zero_config))
    × (publish context detected (run calls (new_bus zero_config)) ≢ publisher_panics)
run_bounded_example = run_bounded zero_config calls context detected

abbrev listening : Bus
listening = (subscribe "incident.*" true (new_bus zero_config)).0

abbrev after_one : Bus
after_one = run (publishes context detected ∷ []) listening
