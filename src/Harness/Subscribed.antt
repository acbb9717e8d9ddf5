-- ===== src/Harness/Subscribed.antt =====
-- internal/harness/harness.go behind internal/events/inproc/bus.go: the handler of tool.requested,
-- run by one worker of the bus over its queue, with the retries of the bus.
use aegisops_ai.Base.{
  ℕ, zero, suc, ◌≤◌, ◌≡◌, refl, sym, ◌∙◌, Bool, inl, inr, Bool-cases, String, List, [], ◌∷◌, ◌++◌,
  Option, none, some, Option-cases, if◌then◌else◌, length, str_eq, utf8, subst, ap, ◌==◌,
}
use aegisops_ai.Shared.{Uid}
use aegisops_ai.Domain.Identifier.{parse_id}
use aegisops_ai.Domain.ToolCall.{Value, str, Params}
use aegisops_ai.Bus.Event.{Event, Config}
use aegisops_ai.Bus.Delivery.{
  Handled, returned_nil, returned_error, deliver_from, deliver, work, safe_handle,
}
use aegisops_ai.Harness.World.{World, Env}
use aegisops_ai.Harness.Pipeline.{on_tool_requested}
use aegisops_ai.Harness.Redelivery.{calls_for, deliver_all, deliver_all_once}

-- v.(string), or the empty text.
text_of : Value → String
text_of (str s) = s
text_of _ = ""

string_at : String → Params → String
unfolding text_of
string_at key [] = ""
string_at key ((k, v) ∷ rest) = if str_eq k key then text_of v else string_at key rest

-- The request that the event names.
unfoldable pub requested_id : Event → Option Uid
unfolding string_at
requested_id e = parse_id (utf8 (string_at "tool_call_id" e.payload))

-- onToolRequested, as the handler that Start subscribes; its error asks the bus for redelivery.
unfoldable pub on_event : Env → Event → World → World × Handled Unit
unfolding requested_id
on_event env e w = elim (requested_id e) [
  | none ↦ (w, returned_nil)
  | some id ↦
      let (w', again) = on_tool_requested env id w in
      (w', if again then returned_error tt else returned_nil)
]

module _ (env : Env) (cancelled : Event → ℕ → Bool) where
  -- A run of handled requests.
  abbrev Handles : World → World → Type 0
  Handles w w' = (ids : List Uid) × (w' ≡ deliver_all env ids w)

  deliver_all-append :
      (ids more : List Uid) (w : World)
      → deliver_all env (ids ++ more) w ≡ deliver_all env more (deliver_all env ids w)
  unfolding deliver_all
  deliver_all-append [] more w = refl
  deliver_all-append (id ∷ ids) more w = deliver_all-append ids more (on_tool_requested env id w).0

  both : (w w' w'' : World) → Handles w w' → Handles w' w'' → Handles w w''
  both w w' w'' (ids, e) (more, e') =
      (ids ++ more, e' ∙ ap (deliver_all env more) e ∙ sym (deliver_all-append ids more w))

  attempt-Handles : (e : Event) (w : World) → Handles w (safe_handle (on_event env) cancelled e w).0
  unfolding safe_handle on_event deliver_all
  attempt-Handles e w = elim (Option-cases (requested_id e)) [
    | inl unreadable ↦ ([], rw (unreadable, on_event) refl)
    | inr (id, found) ↦ (id ∷ [], rw (found, on_event) refl)
  ]

  deliver_from-Handles :
      (left limit n : ℕ) (e : Event) (w : World)
      → Handles w (deliver_from (on_event env) cancelled left limit n e w).0
  unfolding deliver_from deliver_all
  deliver_from-Handles zero limit n e w = ([], refl)
  deliver_from-Handles (suc left) limit n e w =
      let tried = attempt-Handles (record e { attempt = n }) w in
      let after = (safe_handle (on_event env) cancelled (record e { attempt = n }) w).0 in
      let failure = (safe_handle (on_event env) cancelled (record e { attempt = n }) w).1 in
      elim (Option-cases failure) [
        | inl fine ↦ (tried.0, rw (fine, deliver_from) tried.1)
        | inr (cause, failed) ↦ elim (Bool-cases (n == limit)) [
          | inl end ↦ (tried.0, rw (failed, end, deliver_from) tried.1)
          | inr more ↦ elim (Bool-cases (cancelled e n)) [
            | inl stop ↦ (tried.0, rw (failed, more, stop, deliver_from) tried.1)
            | inr go ↦
                rw (failed, more, go, deliver_from)
                  (both _ _ _ tried (deliver_from-Handles left limit (suc n) e after))
          ]
        ]
      ]

  work-Handles :
      (cfg : Config) (queue : List Event) (w : World)
      → Handles w (work (on_event env) cancelled cfg queue w)
  unfolding work deliver deliver_all
  work-Handles cfg [] w = ([], refl)
  work-Handles cfg (e ∷ queue) w =
      both _ _ _ (deliver_from-Handles _ _ 1 e w)
        (work-Handles cfg queue (deliver (on_event env) cancelled cfg e w).0)

  -- When one worker of the bus serves the harness's subscription, then whatever is in its queue, for
  -- any limit of attempts, and wherever a delivery fails and is repeated or given up, the tool is
  -- called at most once more for any request.
  pub work_once :
      (id : Uid) (cfg : Config) (queue : List Event) (w : World)
      → length (calls_for id (work (on_event env) cancelled cfg queue w).invoked)
        ≤ suc (length (calls_for id w.invoked))
  work_once id cfg queue w =
      let run = work-Handles cfg queue w in
      subst (λ w'. length (calls_for id w'.invoked) ≤ suc (length (calls_for id w.invoked)))
        (sym run.1) (deliver_all_once env id run.0 w)
