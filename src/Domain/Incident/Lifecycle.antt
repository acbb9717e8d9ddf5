-- ===== src/Domain/Incident/Lifecycle.antt =====
-- What one transition of an incident does.
use aegisops_ai.Base.{
  ◌≡◌, refl, ◌≢◌, ◌⊎◌, inl, inr, true, false, none, some, arith, str_eq_iff, Bool-cases,
}
use aegisops_ai.Shared.{Time, Err}
use aegisops_ai.Domain.Incident.{
  Status, detected, resolved, closed, Incident, status_eq, status_valid, can_transition_to,
  transition_to, stamp,
}

pub status_eq-eq : (s t : Status) → status_eq s t ≡ true → s ≡ t
unfolding status_eq
status_eq-eq (Status.other s) (Status.other t) h = cc ((str_eq_iff s t).0 h)
status_eq-eq _ _ h = ground arith

pub status_eq_refl : (s : Status) → status_eq s s ≡ true
unfolding status_eq
status_eq_refl (Status.other s) = (str_eq_iff s s).1 refl
status_eq_refl detected = refl
status_eq_refl _ = refl

-- What an accepted move makes of the incident.
abbrev pub moved : Time → Status → Incident → Incident
moved now next i = stamp now next (record i { status = next; updated_at = now })

pub status-stamp :
    (now : Time) (next : Status) (i : Incident) → (stamp now next i).status ≡ i.status
unfolding stamp
status-stamp now resolved i = refl
status-stamp now _ i = refl

module _ (now : Time) (next : Status) (i : Incident) where
  -- A transition is refused and changes nothing, or the incident is there already, or it follows an
  -- edge of the table.
  pub transition_to-cases :
      ((e : Err) × (transition_to now next i ≡ (i, some e)))
      ⊎ ((i.status ≡ next) × (transition_to now next i ≡ (i, none)))
      ⊎ ((status_valid next ≡ true)
          × (can_transition_to i.status next ≡ true)
          × (transition_to now next i ≡ (moved now next i, none)))
  unfolding transition_to
  transition_to-cases = elim (Bool-cases (status_valid next)) [
    | inr bad ↦ rw bad (inl (_, refl))
    | inl good ↦ elim (Bool-cases (status_eq i.status next)) [
      | inl same ↦ rw (good, same) (inr (inl (status_eq-eq i.status next same, refl)))
      | inr differs ↦ elim (Bool-cases (can_transition_to i.status next)) [
        | inl edge ↦ rw (good, differs, edge) (inr (inr (refl, refl, refl)))
        | inr stuck ↦ rw (good, differs, stuck) (inl (_, refl))
      ]
    ]
  ]

  -- A transition with an error leaves the incident as it was; one without ends in the state asked for.
  pub transition_to_sound :
      ((e : Err) → (transition_to now next i).1 ≡ some e → (transition_to now next i).0 ≡ i)
      × ((transition_to now next i).1 ≡ none → (transition_to now next i).0.status ≡ next)
  transition_to_sound = elim transition_to-cases [
    | inl refused ↦ rw refused.1 (λ e h. refl, λ h. cc)
    | inr (inl there) ↦ rw there.1 (λ e h. refl, λ h. there.0)
    | inr (inr went) ↦ rw went.2 (λ e h. cc, λ h. status-stamp now next _)
  ]

-- No transition leaves a closed incident.
pub closed_absorbs : (next : Status) → can_transition_to closed next ≡ false
unfolding can_transition_to
closed_absorbs next = refl

-- Every live state can be closed in one transition.
pub can_close :
    (s : Status) → status_valid s ≡ true → s ≢ closed → can_transition_to s closed ≡ true
unfolding can_transition_to status_valid
can_close closed v h = absurd (h refl)
can_close (Status.other s) v h = cc
can_close _ v h = refl
