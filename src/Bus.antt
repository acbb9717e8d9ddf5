-- ===== src/Bus.antt =====
-- internal/events/inproc: the event bus. `Topic` holds the matching of topic patterns, `Queues` the
-- subscriptions with their bounded queues, `Delivery` the retries of one event.
pub mod Event
pub mod Topic
pub mod Queues
pub mod Delivery
