-- ===== src/Bus/Event.antt =====
-- internal/ports/events.go and internal/events/inproc/bus.go: an event, and the settings of the bus.
use aegisops_ai.Base.{ℕ, Bool, String, ℤ, pos, ltb_ℤ, if◌then◌else◌}
use aegisops_ai.Shared.{Uid, Time}
use aegisops_ai.Domain.ToolCall.{Params}

pub record Event : Type 0 where
  pub id : String
  pub topic : String
  pub incident_id : Uid
  pub actor_type : String
  pub actor_id : Uid
  pub actor_name : String
  pub payload : Params
  pub request_id : String
  pub trace_id : String
  pub occurred_at : Time
  pub attempt : ℕ

-- The durations are in nanoseconds.
pub record Config : Type 0 where
  pub queue_size : ℤ
  pub workers : ℤ
  pub max_attempts : ℤ
  pub retry_backoff : ℤ
  pub block_on_full : Bool

abbrev pub default_queue_size : ℤ
default_queue_size = pos 256

abbrev pub default_workers : ℤ
default_workers = pos 4

abbrev pub default_max_attempts : ℤ
default_max_attempts = pos 3

abbrev pub default_retry_backoff : ℤ
default_retry_backoff = pos 100000000

or_default : ℤ → ℤ → ℤ
or_default value default = if ltb_ℤ (pos 0) value then value else default

-- The settings that New keeps.
unfoldable pub settled : Config → Config
unfolding or_default
settled cfg = record {
  queue_size = or_default cfg.queue_size default_queue_size;
  workers = or_default cfg.workers default_workers;
  max_attempts = or_default cfg.max_attempts default_max_attempts;
  retry_backoff = or_default cfg.retry_backoff default_retry_backoff;
  block_on_full = cfg.block_on_full;
}
