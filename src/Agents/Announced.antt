-- ===== src/Agents/Announced.antt =====
-- internal/agents/orchestrator.go: every tool.requested on the bus names a row of tool_calls, and an
-- investigation neither changes nor removes such a row.
use aegisops_ai.Base.{
  ℕ, arith, str_eq, str_eq_iff, not, ◌||◌, ◌≡◌, refl, sym, true, false, Bool-cases, inl, inr,
  String, List, [], ◌∷◌, ◌++◌, All, All-imp, All-append, In, In-append_left, subst,
}
use aegisops_ai.Shared.{Uid}
use aegisops_ai.Domain.Incident.{Incident}
use aegisops_ai.Domain.Task.{Task}
use aegisops_ai.Domain.Timeline.{EventType}
use aegisops_ai.Domain.ToolCall.{ToolCallRequest, Params}
use aegisops_ai.Bus.Event.{Event}
use aegisops_ai.Agents.Program.{done, Rely, Keeps, Safe}
use aegisops_ai.Agents.Evidence.{Evidence}
use aegisops_ai.Agents.World.{
  World, Env, answered, clock_now, new_id, get_incident, put_incident, create_task_row,
  update_task_row, create_call, call_refused, publish, event_of, add_event, allocate, read_evidence,
  update_evidence,
}
use aegisops_ai.Agents.Investigation.{requested_payload}

module _ (env : Env) where
  -- The event is no tool.requested, or it carries what the row of a tool call says.
  abbrev pub IsAnnouncement : List ToolCallRequest → Event → Type 0
  IsAnnouncement calls e =
      e.topic ≡ "tool.requested"
      → (call : ToolCallRequest) × In call calls × (e.payload ≡ requested_payload env call)

  abbrev pub AllAnnounced : World → Type 0
  AllAnnounced w = All (IsAnnouncement w.calls) w.published

  -- The rows of tool_calls stay.
  abbrev pub KeepsCalls : World → World → Type 0
  KeepsCalls v w = (call : ToolCallRequest) → In call v.calls → In call w.calls

  unfoldable pub announced : Rely World
  announced = record {
    Inv = AllAnnounced;
    Later = KeepsCalls;
    same = λ w call m. m;
    further = λ u v w l m call i. m call (l call i);
  }

  more_calls :
      (w : World) (call : ToolCallRequest)
      → AllAnnounced w
      → All (IsAnnouncement (w.calls ++ call ∷ [])) w.published
  more_calls w call =
      All-imp (IsAnnouncement w.calls) (IsAnnouncement (w.calls ++ call ∷ [])) w.published
        λ e h topic.
          let (row, m, same) = h topic in (row, In-append_left row w.calls (call ∷ []) m, same)

  -- A step that leaves the bus and the tool calls alone.
  pub quiet-Safe :
      {A : Type 0} (f : World → World) (answer : World → A)
      → ((w : World) → (f w).calls ≡ w.calls)
      → ((w : World) → (f w).published ≡ w.published)
      → (w : World) → Safe announced (answered f answer) w
  unfolding Keeps announced
  quiet-Safe f answer calls published w = λ v l inv. (
    subst (λ (rows : List ToolCallRequest). All (IsAnnouncement rows) (f v).published)
        (sym (calls v))
        (subst (λ (es : List Event). All (IsAnnouncement v.calls) es) (sym (published v)) inv),
    λ call m. subst (In call) (sym (calls v)) m,
    λ x n. tt,
  )

  pub done-Safe : {A : Type 0} (a : A) (w : World) → Safe announced (done a) w
  unfolding Keeps announced
  done-Safe a w = λ x n. tt

  pub clock_now-Safe : (w : World) → Safe announced (clock_now env) w
  unfolding clock_now
  clock_now-Safe = quiet-Safe _ _ (λ w. refl) (λ w. refl)

  pub new_id-Safe : (w : World) → Safe announced (new_id env) w
  unfolding new_id
  new_id-Safe = quiet-Safe _ _ (λ w. refl) (λ w. refl)

  pub get_incident-Safe : (id : Uid) (w : World) → Safe announced (get_incident env id) w
  unfolding get_incident
  get_incident-Safe id = quiet-Safe _ _ (λ w. refl) (λ w. refl)

  pub put_incident-Safe : (inc : Incident) (w : World) → Safe announced (put_incident env inc) w
  unfolding put_incident
  put_incident-Safe inc = quiet-Safe _ _ (λ w. refl) (λ w. refl)

  pub create_task_row-Safe : (t : Task) (w : World) → Safe announced (create_task_row env t) w
  unfolding create_task_row
  create_task_row-Safe t = quiet-Safe _ _ (λ w. ground arith) (λ w. ground arith)

  pub update_task_row-Safe : (t : Task) (w : World) → Safe announced (update_task_row env t) w
  unfolding update_task_row
  update_task_row-Safe t = quiet-Safe _ _ (λ w. ground arith) (λ w. ground arith)

  pub add_event-Safe :
      (incident : Uid) (typ : EventType) (actor message : String) (w : World)
      → Safe announced (add_event env incident typ actor message) w
  unfolding add_event
  add_event-Safe incident typ actor message = quiet-Safe _ _ (λ w. refl) (λ w. refl)

  pub allocate-Safe : (w : World) → Safe announced allocate w
  unfolding allocate
  allocate-Safe = quiet-Safe _ _ (λ w. refl) (λ w. refl)

  pub read_evidence-Safe : (ref : ℕ) (w : World) → Safe announced (read_evidence ref) w
  unfolding read_evidence
  read_evidence-Safe ref = quiet-Safe _ _ (λ w. refl) (λ w. refl)

  pub update_evidence-Safe :
      (ref : ℕ) (f : Evidence → Evidence) (w : World) → Safe announced (update_evidence ref f) w
  unfolding update_evidence
  update_evidence-Safe ref f = quiet-Safe _ _ (λ w. refl) (λ w. refl)

  published_one :
      (w : World) (e : Event)
      → IsAnnouncement w.calls e
      → AllAnnounced w
      → All (IsAnnouncement w.calls) (w.published ++ e ∷ [])
  published_one w e h inv = All-append (IsAnnouncement w.calls) w.published (e ∷ []) inv (h, tt)

  -- An event may be published whenever it is one of those that the invariant allows from now on.
  pub publish-Safe :
      (incident : Uid) (topic actor : String) (payload : Params) (w : World)
      → ((v : World)
          → KeepsCalls w v
          → IsAnnouncement v.calls (event_of env incident topic actor payload v))
      → Safe announced (publish env incident topic actor payload) w
  unfolding Keeps announced publish
  publish-Safe incident topic actor payload w h = λ v l inv.
      elim (Bool-cases (not env.has_bus || env.publish_fails v.step)) [
        | inl lost ↦ rw lost (inv, λ call m. m, λ x n. tt)
        | inr sent ↦ rw sent (
          published_one v (event_of env incident topic actor payload v) (h v l) inv,
          λ call m. m,
          λ x n. tt,
        )
      ]

  not_requested :
      {B : Type 0} (topic : String)
      → str_eq topic "tool.requested" ≡ false
      → topic ≡ "tool.requested"
      → B
  not_requested topic other same = absurd (cc ((str_eq_iff topic "tool.requested").1 same))

  pub publish_other-Safe :
      (incident : Uid) (topic actor : String) (payload : Params) (w : World)
      → str_eq topic "tool.requested" ≡ false
      → Safe announced (publish env incident topic actor payload) w
  unfolding event_of
  publish_other-Safe incident topic actor payload w other =
      publish-Safe incident topic actor payload w (λ v l same. not_requested topic other same)

  In-last : (call : ToolCallRequest) (rows : List ToolCallRequest) → In call (rows ++ call ∷ [])
  In-last call [] = inl refl
  In-last call (r ∷ rows) = inr (In-last call rows)

  -- A call that the database accepted is a row from then on.
  pub create_call-Keeps :
      (call : ToolCallRequest) (w : World)
      → Keeps announced (λ kept v. kept ≡ true → In call v.calls) (create_call env call) w
  unfolding Keeps announced create_call
  create_call-Keeps call w = λ v l inv. elim (Bool-cases (call_refused env call v)) [
    | inl refused ↦ rw refused (inv, λ c m. m, λ x n e. cc)
    | inr kept ↦ rw kept (
      more_calls v call inv,
      λ c m. In-append_left c v.calls (call ∷ []) m,
      λ x n e. n call (In-last call v.calls),
    )
  ]
