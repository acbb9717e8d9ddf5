-- ===== src/Domain/Incident/History.antt =====
-- What holds of an incident after any sequence of requested transitions, accepted or refused.
use aegisops_ai.Base.{
  ◌≡◌, ◌⊎◌, inl, inr, true, false, Bool, Option, none, some, is_some, arith, List, [], ◌∷◌, String,
}
use aegisops_ai.Shared.{Time, Uid}
use aegisops_ai.Domain.Incident.{
  Status, detected, investigating, diagnosing, awaiting_approval, remediating, verifying, resolved,
  closed, failed, Incident, Severity, Source, status_valid, can_transition_to, transition_to, stamp,
  stamp_once, new,
}
use aegisops_ai.Domain.Incident.Lifecycle.{moved, transition_to-cases}

-- Requests in order, each with the clock reading at which it is handled.
unfoldable pub run : Incident → List (Time × Status) → Incident
run i [] = i
run i ((now, next) ∷ rest) = run (transition_to now next i).0 rest

-- A property that an accepted move keeps holds after any requests.
module _ (P : Incident → Type 0)
    (keeps : (now : Time) (next : Status) (i : Incident)
      → status_valid next ≡ true
      → can_transition_to i.status next ≡ true
      → P i
      → P (moved now next i)) where
  transition_to_keeps :
      (now : Time) (next : Status) (i : Incident) → P i → P (transition_to now next i).0
  transition_to_keeps now next i h = elim (transition_to-cases now next i) [
    | inl refused ↦ rw refused.1 h
    | inr (inl there) ↦ rw there.1 h
    | inr (inr went) ↦ rw went.2 (keeps now next i went.0 went.1 h)
  ]

  pub run_induction : (i : Incident) (requests : List (Time × Status)) → P i → P (run i requests)
  unfolding run
  run_induction i [] h = h
  run_induction i ((now, next) ∷ rest) h =
      run_induction (transition_to now next i).0 rest (transition_to_keeps now next i h)

-- States that are reached only after someone has acknowledged the incident: detected leads to failed
-- and to closed directly.
abbrev pub past_acknowledgement : Status → Bool
past_acknowledgement detected = false
past_acknowledgement failed = false
past_acknowledgement closed = false
past_acknowledgement (Status.other _) = false
past_acknowledgement _ = true

-- What the stamps say of the state.
pub record IsStamped (i : Incident) : Type 0 where
  pub known : status_valid i.status ≡ true
  pub closed_stamped : i.status ≡ closed → is_some i.closed_at ≡ true
  pub stamped_closed : is_some i.closed_at ≡ true → i.status ≡ closed
  pub resolved_stamped : i.status ≡ resolved → is_some i.resolved_at ≡ true
  pub acknowledged : past_acknowledgement i.status ≡ true → is_some i.acknowledged_at ≡ true
  pub resolved_acknowledged : is_some i.resolved_at ≡ true → is_some i.acknowledged_at ≡ true

moved-IsStamped :
    (now : Time) (next : Status) (i : Incident)
    → status_valid next ≡ true
    → can_transition_to i.status next ≡ true
    → IsStamped i
    → IsStamped (moved now next i)
unfolding stamp stamp_once can_transition_to
moved-IsStamped now next i v edge h = ground arith

-- From an incident whose stamps agree with its state, any requests lead to such an incident.
pub run-IsStamped :
    (i : Incident) (requests : List (Time × Status)) → IsStamped i → IsStamped (run i requests)
run-IsStamped = run_induction IsStamped moved-IsStamped

pub new-IsStamped :
    (id : Uid) (now : Time) (title description : String) (sev : Severity) (src : Source)
    {i : Incident}
    → new id now title description sev src ≡ inl i
    → IsStamped i
unfolding new status_valid
new-IsStamped id now title description sev src h = ground arith

-- An incident that New builds has, after any requests, stamps that agree with its state: closed
-- exactly when closed_at is set, resolved only with resolved_at, with acknowledged_at in every state
-- but detected, failed and closed, which may be reached without it, and with resolved_at only where
-- acknowledged_at is set too.
pub new-run-IsStamped :
    (id : Uid) (now : Time) (title description : String) (sev : Severity) (src : Source)
    {i : Incident} (requests : List (Time × Status))
    → new id now title description sev src ≡ inl i
    → IsStamped (run i requests)
new-run-IsStamped id now title description sev src {i} requests h =
    run-IsStamped i requests (new-IsStamped id now title description sev src h)

-- The three stamps of an incident that are set are the same in another.
pub record KeepsStamps (i j : Incident) : Type 0 where
  pub acknowledged_kept : (t : Time) → i.acknowledged_at ≡ some t → j.acknowledged_at ≡ some t
  pub resolved_kept : (t : Time) → i.resolved_at ≡ some t → j.resolved_at ≡ some t
  pub closed_kept : (t : Time) → i.closed_at ≡ some t → j.closed_at ≡ some t

stamp_once_kept : (now : Time) (o : Option Time) (t : Time) → o ≡ some t → stamp_once now o ≡ some t
unfolding stamp_once
stamp_once_kept now none t h = cc
stamp_once_kept now (some u) t h = h

moved-KeepsStamps : (now : Time) (next : Status) (i : Incident) → KeepsStamps i (moved now next i)
unfolding stamp
moved-KeepsStamps now investigating i = record {
  acknowledged_kept = stamp_once_kept now i.acknowledged_at;
  resolved_kept = λ t h. h;
  closed_kept = λ t h. h;
}
moved-KeepsStamps now resolved i = record {
  acknowledged_kept = λ t h. h;
  resolved_kept = stamp_once_kept now i.resolved_at;
  closed_kept = λ t h. h;
}
moved-KeepsStamps now closed i = record {
  acknowledged_kept = λ t h. h;
  resolved_kept = λ t h. h;
  closed_kept = stamp_once_kept now i.closed_at;
}
moved-KeepsStamps now _ i = record {
  acknowledged_kept = λ t h. h;
  resolved_kept = λ t h. h;
  closed_kept = λ t h. h;
}

-- A stamp, once set, is never overwritten, also when an incident is reopened and resolved again.
pub run-KeepsStamps :
    (i : Incident) (requests : List (Time × Status)) → KeepsStamps i (run i requests)
run-KeepsStamps i requests =
    run_induction (KeepsStamps i)
      (λ now next j v edge h.
        let k = moved-KeepsStamps now next j in
        record {
          acknowledged_kept = λ t e. k.acknowledged_kept t (h.acknowledged_kept t e);
          resolved_kept = λ t e. k.resolved_kept t (h.resolved_kept t e);
          closed_kept = λ t e. k.closed_kept t (h.closed_kept t e);
        })
      i requests
      (record { acknowledged_kept = λ t h. h; resolved_kept = λ t h. h; closed_kept = λ t h. h })

-- The states of an incident that has not been diagnosed.
abbrev pub undiagnosed : Status → Bool
undiagnosed diagnosing = false
undiagnosed awaiting_approval = false
undiagnosed remediating = false
undiagnosed verifying = false
undiagnosed _ = true

abbrev pub Requested : Status → List (Time × Status) → Type 0
Requested s [] = ⊥
Requested s ((now, next) ∷ rest) = (next ≡ s) ⊎ Requested s rest

undiagnosed_step :
    (now : Time) (next : Status) (i : Incident)
    → undiagnosed i.status ≡ true
    → (next ≡ diagnosing) ⊎ (undiagnosed (transition_to now next i).0.status ≡ true)
undiagnosed_step now next i h = elim (transition_to-cases now next i) [
  | inl refused ↦ inr (rw refused.1 h)
  | inr (inl there) ↦ inr (rw there.1 h)
  | inr (inr went) ↦ rw went.2 (unfold stamp can_transition_to in ground arith)
]

undiagnosed-run :
    (i : Incident) (requests : List (Time × Status))
    → undiagnosed i.status ≡ true
    → undiagnosed (run i requests).status ≡ false
    → Requested diagnosing requests
unfolding run
undiagnosed-run i [] h e = cc
undiagnosed-run i ((now, next) ∷ rest) h e = elim (undiagnosed_step now next i h) [
  | inl asked ↦ inl asked
  | inr still ↦ inr (undiagnosed-run (transition_to now next i).0 rest still e)
]

-- An incident that New builds is diagnosing, awaiting approval, remediating or verifying only if,
-- among the requests, it was asked to move to diagnosing.
pub remediation_needs_diagnosis :
    (id : Uid) (now : Time) (title description : String) (sev : Severity) (src : Source)
    {i : Incident} (requests : List (Time × Status))
    → new id now title description sev src ≡ inl i
    → undiagnosed (run i requests).status ≡ false
    → Requested diagnosing requests
unfolding new
remediation_needs_diagnosis id now title description sev src {i} requests h e =
    undiagnosed-run i requests (ground arith) e
