-- ===== src/Bus/Queues/Bounded.antt =====
-- The queues stay within their size, and nothing is sent to a closed one.
use aegisops_ai.Base.{
  ℕ, ◌≤◌, ◌≡◌, ◌≢◌, refl, Bool, false, not, inl, inr, Bool-cases, String, List, [], ◌∷◌, length,
  arith, All-append, All-map, All-keep, keep, str_eq,
}
use aegisops_ai.Bus.Event.{Event, Config}
use aegisops_ai.Bus.Queues.{
  Subscription, Bus, Context, Published, refused, published, publisher_waits, publisher_panics,
  publish, subscribe, with_subscription, unsubscribe, close, close_queue, take, take_first, behind,
  new_bus, same_number,
}
use aegisops_ai.Bus.Queues.Sends.{Within, Live, IsSound, PublishedIsSound, publish-IsSound}

with_subscription-IsSound :
    (topic : String) (b : Bus) → b.closed ≡ false → IsSound b → IsSound (with_subscription topic b)
unfolding with_subscription
with_subscription-IsSound topic b up h = record {
  live = All-append (Live b.cfg) b.subs _ h.live ((refl, omega arith), tt);
  drained = h.drained;
  deserted = λ o. cc (o, up);
}

subscribe-IsSound :
    (topic : String) (has : Bool) (b : Bus) → IsSound b → IsSound (subscribe topic has b).0
unfolding subscribe
subscribe-IsSound topic has b h = elim (Bool-cases (str_eq topic "")) [
  | inl blank ↦ rw blank h
  | inr given ↦ elim (Bool-cases has) [
    | inr missing ↦ rw (given, missing) h
    | inl present ↦ elim (Bool-cases b.closed) [
      | inl shut ↦ simp (given, present, shut) h
      | inr up ↦ simp (given, present, up) (with_subscription-IsSound topic b up h)
    ]
  ]
]

closed-Within : (cfg : Config) (s : Subscription) → Live cfg s → Within cfg (close_queue s)
closed-Within cfg s h = h.1

unsubscribe-IsSound : (n : ℕ) (b : Bus) → IsSound b → IsSound (unsubscribe n b)
unfolding unsubscribe keep
unsubscribe-IsSound n b h = record {
  live = All-keep (Live b.cfg) (λ s. not (same_number n s)) b.subs h.live;
  drained = All-append (Within b.cfg) b.leaving _ h.drained (
      All-map (Live b.cfg) (Within b.cfg) close_queue (closed-Within b.cfg) _
        (All-keep (Live b.cfg) (same_number n) b.subs h.live));
  deserted = λ o. rw (h.deserted o) refl;
}

close-IsSound : (b : Bus) → IsSound b → IsSound (close b)
unfolding close
close-IsSound b h = elim (Bool-cases b.closed) [
  | inl shut ↦ simp (shut, close) h
  | inr up ↦
      simp (up, close)
        (record {
          live = tt;
          drained =
              All-append (Within b.cfg) b.leaving _ h.drained (
                All-map (Live b.cfg) (Within b.cfg) close_queue (closed-Within b.cfg) b.subs
                  h.live);
          deserted = λ o. refl;
        })
]

behind-length : (q : List Event) → length (behind q) ≤ length q
unfolding behind
behind-length [] = omega arith
behind-length (_ ∷ q) = omega arith

take_first-Within :
    (cfg : Config) (n : ℕ) (s : Subscription) → Within cfg s → Within cfg (take_first n s)
unfolding take_first
take_first-Within cfg n s h = elim (Bool-cases (same_number n s)) [
  | inl mine ↦ let l = behind-length s.queue in rw mine (omega arith)
  | inr other ↦ rw other h
]

take_first-Live : (cfg : Config) (n : ℕ) (s : Subscription) → Live cfg s → Live cfg (take_first n s)
unfolding take_first
take_first-Live cfg n s h = elim (Bool-cases (same_number n s)) [
  | inl mine ↦ let l = behind-length s.queue in rw mine (h.0, omega arith)
  | inr other ↦ rw other h
]

take-IsSound : (n : ℕ) (b : Bus) → IsSound b → IsSound (take n b)
unfolding take
take-IsSound n b h = record {
  live = All-map (Live b.cfg) (Live b.cfg) (take_first n) (take_first-Live b.cfg n) b.subs h.live;
  drained =
      All-map (Within b.cfg) (Within b.cfg) (take_first n) (take_first-Within b.cfg n) b.leaving
        h.drained;
  deserted = λ o. rw (h.deserted o) refl;
}

-- What may happen to a bus.
pub data Call : Type 0 where
  publishes : Context → Event → Call
  subscribes : String → Bool → Call
  unsubscribes : ℕ → Call
  closes : Call
  takes : ℕ → Call

bus_after : Bus → Published → Bus
bus_after b (refused _) = b
bus_after b (published b' n) = b'
bus_after b (publisher_waits b') = b'
bus_after b publisher_panics = b

unfoldable pub call : Call → Bus → Bus
unfolding bus_after
call (publishes ctx e) b = bus_after b (publish ctx e b)
call (subscribes topic has) b = (subscribe topic has b).0
call (unsubscribes n) b = unsubscribe n b
call closes b = close b
call (takes n) b = take n b

unfoldable pub run : List Call → Bus → Bus
unfolding call
run [] b = b
run (c ∷ calls) b = run calls (call c b)

bus_after-IsSound :
    (b : Bus) (p : Published) → IsSound b → PublishedIsSound b p → IsSound (bus_after b p)
unfolding bus_after
bus_after-IsSound b (refused _) h s = h
bus_after-IsSound b (published b' n) h s = s
bus_after-IsSound b (publisher_waits b') h s = s
bus_after-IsSound b publisher_panics h s = h

call-IsSound : (c : Call) (b : Bus) → IsSound b → IsSound (call c b)
unfolding call
call-IsSound (publishes ctx e) b h =
    bus_after-IsSound b (publish ctx e b) h (publish-IsSound ctx e b h)
call-IsSound (subscribes topic has) b h = subscribe-IsSound topic has b h
call-IsSound (unsubscribes n) b h = unsubscribe-IsSound n b h
call-IsSound closes b h = close-IsSound b h
call-IsSound (takes n) b h = take-IsSound n b h

run-IsSound : (calls : List Call) (b : Bus) → IsSound b → IsSound (run calls b)
unfolding run
run-IsSound [] b h = h
run-IsSound (c ∷ calls) b h = run-IsSound calls (call c b) (call-IsSound c b h)

not_panics : (b : Bus) (p : Published) → PublishedIsSound b p → p ≢ publisher_panics
not_panics b (refused _) s e = cc e
not_panics b (published b' n) s e = cc e
not_panics b (publisher_waits b') s e = cc e
not_panics b publisher_panics s e = s

-- After any calls on a new bus, no queue holds more events than its size, a closed bus has no
-- subscriptions, and Publish never sends on a closed queue.
pub run_bounded :
    (cfg : Config) (calls : List Call) (ctx : Context) (e : Event)
    → IsSound (run calls (new_bus cfg))
      × (publish ctx e (run calls (new_bus cfg)) ≢ publisher_panics)
unfolding new_bus
run_bounded cfg calls ctx e =
    let s =
      run-IsSound calls (new_bus cfg) (record { live = tt; drained = tt; deserted = λ o. refl }) in
    (
      s,
      not_panics (run calls (new_bus cfg)) (publish ctx e (run calls (new_bus cfg)))
          (publish-IsSound ctx e (run calls (new_bus cfg)) s),
    )
