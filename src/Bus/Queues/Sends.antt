-- ===== src/Bus/Queues/Sends.antt =====
-- What holds of a bus at every moment, and that Publish keeps it.
use aegisops_ai.Base.{
  ℕ, ◌≤◌, ◌≡◌, refl, true, false, inl, inr, Bool-cases, List, [], ◌∷◌, ◌++◌, length, length-append,
  arith, All, pos_part, str_eq,
}
use aegisops_ai.Bus.Event.{Event, Config}
use aegisops_ai.Bus.Topic.{matches}
use aegisops_ai.Bus.Queues.{
  Subscription, Bus, Context, Sent, queued, full, waits, panics, enqueue, Fan, fanned, stalled,
  crashed, kept_with, after_send, fan_out, completed, Published, refused, published,
  publisher_waits, publisher_panics, publish, after_fan, has_room,
}

abbrev pub Within : Config → Subscription → Type 0
Within cfg s = length s.queue ≤ pos_part cfg.queue_size

abbrev pub Live : Config → Subscription → Type 0
Live cfg s = (s.open_ ≡ true) × Within cfg s

-- What holds of a bus at every moment.
pub record IsSound (b : Bus) : Type 0 where
  pub live : All (Live b.cfg) b.subs
  pub drained : All (Within b.cfg) b.leaving
  pub deserted : b.closed ≡ true → b.subs ≡ []

abbrev FanIsSound : Config → Fan → Type 0
FanIsSound cfg (fanned subs n) = All (Live cfg) subs
FanIsSound cfg (stalled subs) = All (Live cfg) subs
FanIsSound cfg crashed = ⊥

abbrev SentIsSound : Config → Sent → Type 0
SentIsSound cfg (queued s) = Live cfg s
SentIsSound cfg panics = ⊥
SentIsSound cfg _ = Unit

enqueue-IsSound :
    (cfg : Config) (e : Event) (s : Subscription) → Live cfg s → SentIsSound cfg (enqueue cfg e s)
unfolding enqueue has_room
enqueue-IsSound cfg e s h = elim (Bool-cases (has_room cfg s)) [
  | inl room ↦
      let wider : length (s.queue ++ e ∷ []) ≤ pos_part cfg.queue_size =
        rw (length-append s.queue (e ∷ [])) (ground (arith, room)) in
      rw (h.0, room) (refl, wider)
  | inr none_left ↦
      rw (h.0, none_left)
        (elim (Bool-cases cfg.block_on_full) [ inl block ↦ rw block tt | inr drop ↦ rw drop tt ])
]

kept_with-IsSound :
    (cfg : Config) (s : Subscription) (n : ℕ) (fan : Fan)
    → Live cfg s
    → FanIsSound cfg fan
    → FanIsSound cfg (kept_with s n fan)
unfolding kept_with
kept_with-IsSound cfg s n (fanned subs k) h f = (h, f)
kept_with-IsSound cfg s n (stalled subs) h f = (h, f)
kept_with-IsSound cfg s n crashed h f = f

after_send-IsSound :
    (cfg : Config) (s : Subscription) (subs : List Subscription) (rest : Fan) (r : Sent)
    → All (Live cfg) (s ∷ subs)
    → FanIsSound cfg rest
    → SentIsSound cfg r
    → FanIsSound cfg (after_send s subs rest r)
unfolding after_send
after_send-IsSound cfg s subs rest (queued s') h f l = kept_with-IsSound cfg s' 0 rest l f
after_send-IsSound cfg s subs rest full h f l = kept_with-IsSound cfg s 1 rest h.0 f
after_send-IsSound cfg s subs rest waits h f l = h
after_send-IsSound cfg s subs rest panics h f l = l

fan_out-IsSound :
    (cfg : Config) (e : Event) (subs : List Subscription)
    → All (Live cfg) subs
    → FanIsSound cfg (fan_out cfg e subs)
unfolding fan_out
fan_out-IsSound cfg e [] h = tt
fan_out-IsSound cfg e (s ∷ subs) h =
    let rest = fan_out-IsSound cfg e subs h.1 in
    elim (Bool-cases (matches s.pattern' e.topic)) [
      | inl wanted ↦
          rw (wanted, fan_out)
            (after_send-IsSound cfg s subs (fan_out cfg e subs) (enqueue cfg e s) h rest
              (enqueue-IsSound cfg e s h.0))
      | inr other ↦ rw (other, fan_out) (kept_with-IsSound cfg s 0 (fan_out cfg e subs) h.0 rest)
    ]

-- What a call of Publish leaves.
abbrev pub PublishedIsSound : Bus → Published → Type 0
PublishedIsSound b (refused _) = Unit
PublishedIsSound b (published b' n) = IsSound b'
PublishedIsSound b (publisher_waits b') = IsSound b'
PublishedIsSound b publisher_panics = ⊥

after_fan-IsSound :
    (b : Bus) (fan : Fan)
    → IsSound b
    → b.closed ≡ false
    → FanIsSound b.cfg fan
    → PublishedIsSound b (after_fan b fan)
unfolding after_fan
after_fan-IsSound b (fanned subs n) h c f = record {
  live = f;
  drained = h.drained;
  deserted = λ o. cc (o, c);
}
after_fan-IsSound b (stalled subs) h c f = record {
  live = f;
  drained = h.drained;
  deserted = λ o. cc (o, c);
}
after_fan-IsSound b crashed h c f = f

pub publish-IsSound :
    (ctx : Context) (e : Event) (b : Bus) → IsSound b → PublishedIsSound b (publish ctx e b)
unfolding publish
publish-IsSound ctx e b h = elim (Bool-cases b.closed) [
  | inl shut ↦ simp (shut, publish) tt
  | inr up ↦ elim (Bool-cases (str_eq e.topic "")) [
    | inl untyped ↦ simp (up, untyped, publish) tt
    | inr typed ↦
        simp (up, typed, publish)
          (after_fan-IsSound b (fan_out b.cfg (completed ctx e) b.subs) h up
            (fan_out-IsSound b.cfg (completed ctx e) b.subs h.live))
  ]
]
