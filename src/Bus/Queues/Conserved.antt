-- ===== src/Bus/Queues/Conserved.antt =====
-- No event is lost without being counted.
use aegisops_ai.Base.{
  ℕ, suc, ◌+◌, ◌≡◌, refl, sym, ◌∙◌, ap, inl, inr, Bool-cases, String, List, [], ◌∷◌, ◌++◌,
  if◌then◌else◌, length, length-append, arith, str_eq, subst,
}
use aegisops_ai.Bus.Event.{Event, Config}
use aegisops_ai.Bus.Topic.{matches}
use aegisops_ai.Bus.Queues.{
  Subscription, Bus, Context, Sent, queued, full, waits, panics, enqueue, Fan, fanned, stalled,
  crashed, kept_with, after_send, fan_out, completed, Published, published, publish, after_fan,
  has_room,
}

-- The events in the queues.
unfoldable pub waiting : List Subscription → ℕ
waiting [] = 0
waiting (s ∷ subs) = length s.queue + waiting subs

-- The subscriptions whose pattern matches.
unfoldable pub audience : String → List Subscription → ℕ
audience topic [] = 0
audience topic (s ∷ subs) =
    let rest = audience topic subs in if matches s.pattern' topic then suc rest else rest

-- The events in the queues and the dropped ones, after a finished loop over subscriptions, are `m`.
abbrev Balanced : ℕ → Fan → Type 0
Balanced m (fanned subs drops) = waiting subs + drops ≡ m
Balanced m _ = Unit

kept_with-Balanced :
    (s : Subscription) (d m m' : ℕ) (fan : Fan)
    → Balanced m fan
    → length s.queue + d + m ≡ m'
    → Balanced m' (kept_with s d fan)
unfolding kept_with waiting
kept_with-Balanced s d m m' (fanned subs drops) h e = omega arith
kept_with-Balanced s d m m' (stalled subs) h e = tt
kept_with-Balanced s d m m' crashed h e = tt

-- What a send has to keep.
abbrev OneMore : Subscription → Sent → Type 0
OneMore s (queued s') = length s'.queue ≡ suc (length s.queue)
OneMore s _ = Unit

enqueue-OneMore : (cfg : Config) (e : Event) (s : Subscription) → OneMore s (enqueue cfg e s)
unfolding enqueue
enqueue-OneMore cfg e s = elim (Bool-cases s.open_) [
  | inr shut ↦ simp (shut, enqueue) tt
  | inl up ↦ elim (Bool-cases (has_room cfg s)) [
    | inl room ↦
        let longer : length (s.queue ++ e ∷ []) ≡ suc (length s.queue) =
          rw (length-append s.queue (e ∷ [])) (omega arith) in
        simp (up, room, enqueue) longer
    | inr taken ↦ elim (Bool-cases cfg.block_on_full) [
      | inl block ↦ simp (up, taken, block, enqueue) tt
      | inr drop ↦ simp (up, taken, drop, enqueue) tt
    ]
  ]
]

after_send-Balanced :
    (s : Subscription) (subs : List Subscription) (m : ℕ) (rest : Fan) (r : Sent)
    → Balanced m rest
    → OneMore s r
    → Balanced (suc (length s.queue + m)) (after_send s subs rest r)
unfolding after_send
after_send-Balanced s subs m rest (queued s') h o = kept_with-Balanced s' 0 m _ rest h (omega arith)
after_send-Balanced s subs m rest full h o = kept_with-Balanced s 1 m _ rest h (omega arith)
after_send-Balanced s subs m rest waits h o = tt
after_send-Balanced s subs m rest panics h o = tt

fan_out-Balanced :
    (cfg : Config) (e : Event) (subs : List Subscription)
    → Balanced (waiting subs + audience e.topic subs) (fan_out cfg e subs)
unfolding fan_out waiting audience
fan_out-Balanced cfg e [] = refl
fan_out-Balanced cfg e (s ∷ subs) =
    let m = waiting subs + audience e.topic subs in
    let rest = fan_out-Balanced cfg e subs in
    elim (Bool-cases (matches s.pattern' e.topic)) [
      | inl wanted ↦
          let sum : suc (length s.queue + (waiting subs + audience e.topic subs))
              ≡ length s.queue + waiting subs + suc (audience e.topic subs) =
            omega arith in
          rw (wanted, fan_out, audience)
            (subst (λ t. Balanced t (after_send s subs (fan_out cfg e subs) (enqueue cfg e s))) sum
              (after_send-Balanced s subs m (fan_out cfg e subs) (enqueue cfg e s) rest
                (enqueue-OneMore cfg e s)))
      | inr other ↦
          rw (other, fan_out, audience)
            (kept_with-Balanced s 0 m _ (fan_out cfg e subs) rest (omega arith))
    ]

counted : Published → ℕ
counted (published b drops) = waiting b.subs + drops
counted _ = 0

after_fan-published :
    (b b' : Bus) (drops m : ℕ) (fan : Fan)
    → after_fan b fan ≡ published b' drops
    → Balanced m fan
    → waiting b'.subs + drops ≡ m
unfolding after_fan counted
after_fan-published b b' drops m (fanned subs n) h k = sym (ap counted h) ∙ k
after_fan-published b b' drops m (stalled subs) h k = cc h
after_fan-published b b' drops m crashed h k = cc h

-- An event that is published goes to the queue of every subscription whose pattern matches its
-- topic, or is counted as dropped there: the queues grow by that number less the drops.
pub publish_conserves :
    (ctx : Context) (e : Event) (b b' : Bus) (drops : ℕ)
    → publish ctx e b ≡ published b' drops
    → waiting b'.subs + drops ≡ waiting b.subs + audience e.topic b.subs
unfolding publish completed
publish_conserves ctx e b b' drops h = elim (Bool-cases b.closed) [
  | inl shut ↦ cc (simp (shut, publish) at h)
  | inr up ↦ elim (Bool-cases (str_eq e.topic "")) [
    | inl untyped ↦ cc (simp (up, untyped, publish) at h)
    | inr typed ↦
        after_fan-published b b' drops _ (fan_out b.cfg (completed ctx e) b.subs)
          (simp (up, typed, publish) at h) (fan_out-Balanced b.cfg (completed ctx e) b.subs)
  ]
]
