-- ===== src/Domain/Task/Lifecycle.antt =====
-- What holds of a task after any sequence of calls of its methods, accepted or refused.
use aegisops_ai.Base.{
  ◌∙◌, ◌≤◌, pos_part, neg_part, ◌≡◌, refl, ◌⊎◌, inl, inr, true, false, Bool, Option, none, some,
  is_some, arith, List, [], ◌∷◌, String, str_eq_iff, Bool-cases,
}
use aegisops_ai.Shared.{Time, Err, Uid}
use aegisops_ai.Domain.Task.{
  TaskStatus, pending, running, succeeded, failed, cancelled, timed_out, Task, Payload,
  task_status_eq, task_can_transition_to, task_status_valid, transition, start, succeed, fail,
  time_out, cancel, finish, and_then, new_task,
}

-- A call of one method, with the clock readings that it makes.
pub data Call : Type 0 where
  starts times_out : Time → Time → Call
  succeeds : Time → Time → Payload → Call
  fails cancels : Time → Time → String → Call

unfoldable pub apply : Call → Task → Task × Option Err
apply (starts now later) t = start now later t
apply (times_out now later) t = time_out now later t
apply (succeeds now later out) t = succeed now later out t
apply (fails now later reason) t = fail now later reason t
apply (cancels now later reason) t = cancel now later reason t

unfoldable pub run : Task → List Call → Task
run t [] = t
run t (c ∷ rest) = run (apply c t).0 rest

pub task_status_eq-eq : (s t : TaskStatus) → task_status_eq s t ≡ true → s ≡ t
unfolding task_status_eq
task_status_eq-eq (TaskStatus.other s) (TaskStatus.other t) h = cc ((str_eq_iff s t).0 h)
task_status_eq-eq _ _ h = ground arith

abbrev pub is_final : TaskStatus → Bool
is_final pending = false
is_final running = false
is_final _ = true

-- What the stamps and the counter say of the state.
pub record IsCoherent (t : Task) : Type 0 where
  pub known : task_status_valid t.status ≡ true
  pub finished_final : is_some t.finished_at ≡ is_final t.status
  pub pending_untouched : t.status ≡ pending → (pos_part t.attempts ≡ 0) × (t.started_at ≡ none)
  pub ran : (t.status ≡ pending) ⊎ (t.status ≡ cancelled) ⊎ (is_some t.started_at ≡ true)
  pub non_negative : neg_part t.attempts ≡ 0
  pub counted : is_some t.started_at ≡ true → 1 ≤ pos_part t.attempts

abbrev entered : Time → TaskStatus → Task → Task
entered now next t = record t { status = next; updated_at = now }

transition-cases :
    (now : Time) (next : TaskStatus) (t : Task)
    → ((e : Err) × (transition now next t ≡ (t, some e)))
      ⊎ ((t.status ≡ next) × (transition now next t ≡ (t, none)))
      ⊎ ((task_can_transition_to t.status next ≡ true)
          × (transition now next t ≡ (entered now next t, none)))
unfolding transition
transition-cases now next t = elim (Bool-cases (task_status_eq t.status next)) [
  | inl same ↦ rw same (inr (inl (task_status_eq-eq t.status next same, refl)))
  | inr differs ↦ elim (Bool-cases (task_can_transition_to t.status next)) [
    | inl edge ↦ rw (differs, edge) (inr (inr (refl, refl)))
    | inr stuck ↦ rw (differs, stuck) (inl (_, refl))
  ]
]

-- The two halves of a method: the move, then the rest on the moved task.
module _ (now later : Time) (t : Task) (h : IsCoherent t) where
  start-IsCoherent : IsCoherent (start now later t).0
  unfolding start task_status_valid task_can_transition_to
  start-IsCoherent = elim (transition-cases now running t) [
    | inl refused ↦ rw refused.1 h
    | inr (inl there) ↦ rw there.1 (ground arith)
    | inr (inr went) ↦ rw went.1 (ground arith)
  ]

  -- The four methods that finish a task differ in the state and in what they write beside it.
  finishes-IsCoherent :
      (next : TaskStatus) (out : Task → Payload) (error : Task → String)
      → is_final next ≡ true
      → task_status_valid next ≡ true
      → IsCoherent
          (and_then
            (transition now next t)
            λ u. finish later (record u { output = out u; error = error u })).0
  unfolding and_then finish task_status_valid task_can_transition_to
  finishes-IsCoherent next out error fin v = elim (transition-cases now next t) [
    | inl refused ↦ rw refused.1 h
    | inr (inl there) ↦ rw there.1 (ground arith)
    | inr (inr went) ↦ rw went.1 (ground arith)
  ]

pub apply-IsCoherent : (c : Call) (t : Task) → IsCoherent t → IsCoherent (apply c t).0
unfolding apply succeed fail time_out cancel task_status_valid
apply-IsCoherent (starts now later) t h = start-IsCoherent now later t h
apply-IsCoherent (succeeds now later out) t h =
    finishes-IsCoherent now later t h succeeded (λ u. out) (λ u. u.error) refl refl
apply-IsCoherent (fails now later reason) t h =
    finishes-IsCoherent now later t h failed (λ u. u.output) (λ u. reason) refl refl
apply-IsCoherent (cancels now later reason) t h =
    finishes-IsCoherent now later t h cancelled (λ u. u.output) (λ u. reason) refl refl
apply-IsCoherent (times_out now later) t h =
    finishes-IsCoherent now later t h timed_out (λ u. u.output) (λ u. "task exceeded its deadline")
      refl refl

pub run-IsCoherent : (t : Task) (calls : List Call) → IsCoherent t → IsCoherent (run t calls)
unfolding run
run-IsCoherent t [] h = h
run-IsCoherent t (c ∷ rest) h = run-IsCoherent (apply c t).0 rest (apply-IsCoherent c t h)

new_task-IsCoherent :
    (id : Uid) (now : Time) (incident_id agent_id : Uid) (task_type : String) {t : Task}
    → new_task id now incident_id agent_id task_type ≡ inl t
    → IsCoherent t
unfolding new_task task_status_valid
new_task-IsCoherent id now incident_id agent_id task_type h = ground arith

-- A task that NewTask builds has, after any calls of its methods, stamps and a counter that agree
-- with its state: finished_at is set exactly in the four final states, a pending task has neither
-- run nor been counted, a task in any state but pending and cancelled has started_at set, and one
-- with started_at has counted at least one attempt.
pub new_task-run-IsCoherent :
    (id : Uid) (now : Time) (incident_id agent_id : Uid) (task_type : String) {t : Task}
    (calls : List Call)
    → new_task id now incident_id agent_id task_type ≡ inl t
    → IsCoherent (run t calls)
new_task-run-IsCoherent id now incident_id agent_id task_type {t} calls h =
    run-IsCoherent t calls (new_task-IsCoherent id now incident_id agent_id task_type h)

status-apply :
    (c : Call) (t : Task)
    → is_final t.status ≡ true
    → task_status_valid t.status ≡ true
    → (apply c t).0.status ≡ t.status
unfolding apply start succeed fail time_out cancel and_then finish transition task_can_transition_to
    task_status_valid task_status_eq
status-apply (starts now later) t f v = ground arith
status-apply _ t f v = ground arith

-- A final state is never left: no calls resurrect a task that has finished.
pub final_absorbs :
    (t : Task) (calls : List Call)
    → is_final t.status ≡ true
    → task_status_valid t.status ≡ true
    → (run t calls).status ≡ t.status
unfolding run
final_absorbs t [] f v = refl
final_absorbs t (c ∷ rest) f v =
    let e = status-apply c t f v in final_absorbs (apply c t).0 rest (rw e f) (rw e v) ∙ e
