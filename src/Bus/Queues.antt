-- ===== src/Bus/Queues.antt =====
-- internal/events/inproc/bus.go: Publish, Subscribe, Unsubscribe and Close, under the bus's lock, and
-- a worker that takes the next event. A subscription is named by a number; its handler stands in
-- `Delivery`. The wait for workers to finish is not modelled.
pub mod Sends
pub mod Bounded
pub mod Conserved
use aegisops_ai.Base.{
  ℕ, suc, ◌+◌, Bool, true, false, not, ◌&&◌, ◌||◌, String, List, [], ◌∷◌, ◌++◌, Option, none, some,
  if◌then◌else◌, length, leb, ltb, ◌==◌, str_eq, pos_part, map, keep,
}
use aegisops_ai.Shared.{Time, is_zero_time}
use aegisops_ai.Bus.Event.{Event, Config, settled}
use aegisops_ai.Bus.Topic.{matches}

pub record Subscription : Type 0 where
  pub number : ℕ
  pub pattern' : String
  pub queue : List Event
  pub open_ : Bool

pub record Bus : Type 0 where
  pub cfg : Config
  pub subs : List Subscription
  -- unsubscribed, or closed, and perhaps not yet drained
  pub leaving : List Subscription
  pub closed : Bool
  -- the number of the next subscription
  pub next : ℕ

unfoldable pub new_bus : Config → Bus
new_bus cfg = record { cfg = settled cfg; subs = []; leaving = []; closed = false; next = 0 }

pub data BusError : Type 0 where
  bus_closed no_type no_pattern no_handler : BusError

-- What the publisher's context and the process supply.
pub record Context : Type 0 where
  pub fresh_id : String
  pub now : Time
  pub request_id : String
  pub trace_id : String

-- The value, or what replaces the empty one.
or_else : String → String → String
or_else s default = if str_eq s "" then default else s

unfoldable pub completed : Context → Event → Event
unfolding or_else
completed ctx e = record e {
  id = or_else e.id ctx.fresh_id;
  occurred_at = if is_zero_time e.occurred_at then ctx.now else e.occurred_at;
  request_id = or_else e.request_id ctx.request_id;
  trace_id = or_else e.trace_id ctx.trace_id;
  attempt = 1;
}

-- A send on the queue.
pub data Sent : Type 0 where
  queued : Subscription → Sent
  full : Sent
  -- the publisher waits until a worker makes room
  waits : Sent
  -- a send on a closed channel
  panics : Sent

has_room : Config → Subscription → Bool
has_room cfg s = ltb (length s.queue) (pos_part cfg.queue_size)

unfoldable pub enqueue : Config → Event → Subscription → Sent
unfolding has_room
enqueue cfg e s =
    if not s.open_
    then panics
    else if has_room cfg s
    then queued (record s { queue = s.queue ++ e ∷ [] })
    else if cfg.block_on_full
    then waits
    else full

-- How far the loop over the subscriptions comes: to its end, with the number of events dropped, or to
-- a send that waits, with the earlier sends made, or one that panics.
pub data Fan : Type 0 where
  fanned : List Subscription → ℕ → Fan
  stalled : List Subscription → Fan
  crashed : Fan

unfoldable pub kept_with : Subscription → ℕ → Fan → Fan
kept_with s drops (fanned subs n) = fanned (s ∷ subs) (drops + n)
kept_with s drops (stalled subs) = stalled (s ∷ subs)
kept_with s drops crashed = crashed

-- After a send to `s`, with the sends to the rest.
unfoldable pub after_send : Subscription → List Subscription → Fan → Sent → Fan
unfolding kept_with
after_send s subs rest (queued s') = kept_with s' 0 rest
after_send s subs rest full = kept_with s 1 rest
after_send s subs rest waits = stalled (s ∷ subs)
after_send s subs rest panics = crashed

unfoldable pub fan_out : Config → Event → List Subscription → Fan
unfolding enqueue kept_with after_send
fan_out cfg e [] = fanned [] 0
fan_out cfg e (s ∷ subs) =
    let rest = fan_out cfg e subs in
    if matches s.pattern' e.topic
    then after_send s subs rest (enqueue cfg e s)
    else kept_with s 0 rest

pub data Published : Type 0 where
  refused : BusError → Published
  published : Bus → ℕ → Published
  publisher_waits : Bus → Published
  publisher_panics : Published

unfoldable pub after_fan : Bus → Fan → Published
after_fan b (fanned subs drops) = published (record b { subs = subs }) drops
after_fan b (stalled subs) = publisher_waits (record b { subs = subs })
after_fan b crashed = publisher_panics

unfoldable pub publish : Context → Event → Bus → Published
unfolding completed fan_out after_fan
publish ctx e b =
    if b.closed
    then refused bus_closed
    else if str_eq e.topic ""
    then refused no_type
    else after_fan b (fan_out b.cfg (completed ctx e) b.subs)

unfoldable pub with_subscription : String → Bus → Bus
with_subscription topic b = record b {
  subs = b.subs ++ record { number = b.next; pattern' = topic; queue = []; open_ = true } ∷ [];
  next = suc b.next;
}

-- Subscribe; `has_handler` is that the handler is not nil.
unfoldable pub subscribe : String → Bool → Bus → Bus × Option BusError
subscribe topic has_handler b =
    if str_eq topic ""
    then (b, some no_pattern)
    else if not has_handler
    then (b, some no_handler)
    else if b.closed
    then (b, some bus_closed)
    else (with_subscription topic b, none)

-- closeQueue.
abbrev pub close_queue : Subscription → Subscription
close_queue s = record s { open_ = false }

same_number : ℕ → Subscription → Bool
same_number n s = s.number == n

unfoldable pub unsubscribe : ℕ → Bus → Bus
unfolding same_number
unsubscribe n b = record b {
  subs = keep (λ s. not (same_number n s)) b.subs;
  leaving = b.leaving ++ map close_queue (keep (same_number n) b.subs);
}

unfoldable pub close : Bus → Bus
close b =
    if b.closed
    then b
    else record b { closed = true; subs = []; leaving = b.leaving ++ map close_queue b.subs }

behind : List Event → List Event
behind [] = []
behind (_ ∷ rest) = rest

-- One worker of the subscription takes the first event of its queue.
take_first : ℕ → Subscription → Subscription
unfolding same_number behind
take_first n s = if same_number n s then record s { queue = behind s.queue } else s

unfoldable pub take : ℕ → Bus → Bus
unfolding take_first
take n b = record b { subs = map (take_first n) b.subs; leaving = map (take_first n) b.leaving }

-- SubscriberCount.
unfoldable pub subscriber_count : Bus → ℕ
subscriber_count b = length b.subs
