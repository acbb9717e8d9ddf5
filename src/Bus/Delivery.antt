-- ===== src/Bus/Delivery.antt =====
-- internal/events/inproc/bus.go: deliver, safeHandle and work. A handler passes the state `W` that it
-- changes; whether the context ends in the wait after an attempt is the argument `cancelled`.
pub mod Retries
use aegisops_ai.Base.{
  ℕ, zero, suc, Bool, String, List, [], ◌∷◌, Option, none, some, if◌then◌else◌, ◌==◌, pos_part,
}
use aegisops_ai.Bus.Event.{Event, Config}

-- How a call of a handler ends.
pub data Handled (E : Type 0) : Type 0 where
  returned_nil : Handled E
  returned_error : E → Handled E
  panicked : String → Handled E

pub data Cause (E : Type 0) : Type 0 where
  reported : E → Cause E
  handler_panicked : String → Cause E

-- How the delivery of an event ends.
pub data Ended (E : Type 0) : Type 0 where
  accepted : ℕ → Ended E
  dead_lettered : Event → Cause E → Ended E
  abandoned : ℕ → Ended E
  -- the loop made no attempt
  untried : Ended E

module _ {W E : Type 0} (handler : Event → W → W × Handled E) (cancelled : Event → ℕ → Bool) where
  cause_of : Handled E → Option (Cause E)
  cause_of returned_nil = none
  cause_of (returned_error err) = some (reported err)
  cause_of (panicked p) = some (handler_panicked p)

  unfoldable pub safe_handle : Event → W → W × Option (Cause E)
  unfolding cause_of
  safe_handle e w = let (w', handled) = handler e w in (w', cause_of handled)

  -- The loop, from this attempt on; `left` attempts are left, this one included.
  unfoldable pub deliver_from : (left limit attempt : ℕ) → Event → W → W × Ended E
  unfolding safe_handle
  deliver_from zero limit attempt e w = (w, untried)
  deliver_from (suc left) limit attempt e w =
      let numbered = record e { attempt = attempt } in
      let (w', failure) = safe_handle numbered w in
      elim failure [
        | none ↦ (w', accepted attempt)
        | some cause ↦
            let rest = deliver_from left limit (suc attempt) e w' in
            if attempt == limit
            then (w', dead_lettered numbered cause)
            else if cancelled e attempt
            then (w', abandoned attempt)
            else rest
      ]

  unfoldable pub deliver : Config → Event → W → W × Ended E
  unfolding deliver_from
  deliver cfg e w = let limit = pos_part cfg.max_attempts in deliver_from limit limit 1 e w

  -- One worker, over the events that it takes from the queue.
  unfoldable pub work : Config → List Event → W → W
  unfolding deliver
  work cfg [] w = w
  work cfg (e ∷ queue) w = work cfg queue (deliver cfg e w).0
