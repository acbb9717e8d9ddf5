-- ===== src/Storage/Incidents/Locking.antt =====
-- internal/repository/postgres/incident.go: what the version check of Update promises.
use aegisops_ai.Base.{
  ℕ, ◌≤◌, ◌<◌, ◌≡◌, refl, sym, ap, ◌∙◌, Bool, true, false, ◌==◌, Bool-cases, inl, inr, List, [],
  ◌∷◌, ◌++◌, is_some, any, find_first, subst, All, All-append, arith, subst,
}
use aegisops_ai.Shared.{Uid}
use aegisops_ai.Domain.Incident.{Incident, validate}
use aegisops_ai.Storage.Incidents.{
  RepoError, incident_row, create_incident, update_incident, same_version, set_columns, write_rows,
}

-- No two rows share an identifier.
abbrev pub IsKeyed : List Incident → Type 0
IsKeyed [] = Unit
IsKeyed (r ∷ rest) = All (λ (o : Incident). o.id == r.id ≡ false) rest × IsKeyed rest

IsPast : Uid → ℕ → Incident → Type 0
IsPast id v r = r.id == id ≡ true → v < r.version

-- The incident is stored, in a later version than `v`.
IsSuperseded : Uid → ℕ → List Incident → Type 0
IsSuperseded id v rows = (is_some (incident_row id rows) ≡ true) × All (IsPast id v) rows

other-IsPast :
    (id : Uid) (v : ℕ) (rows : List Incident)
    → All (λ (o : Incident). o.id == id ≡ false) rows
    → All (IsPast id v) rows
unfolding IsPast
other-IsPast id v [] h = tt
other-IsPast id v (r ∷ rest) h = (λ same. cc, other-IsPast id v rest h.1)

other_version :
    (inc : Incident) (rows : List Incident)
    → All (λ (o : Incident). o.id == inc.id ≡ false) rows
    → any (same_version inc) rows ≡ false
unfolding any same_version
other_version inc [] h = refl
other_version inc (r ∷ rest) h = rw (h.0, other_version inc rest h.1) refl

past_version :
    (inc : Incident) (v : ℕ) (rows : List Incident)
    → inc.version ≤ v
    → All (IsPast inc.id v) rows
    → any (same_version inc) rows ≡ false
unfolding any same_version IsPast
past_version inc v [] old h = refl
past_version inc v (r ∷ rest) old h = ground (arith, h.0, past_version inc v rest old h.1)

write_rows-IsPast :
    (inc : Incident) (id : Uid) (v : ℕ) (rows : List Incident)
    → All (IsPast id v) rows
    → All (IsPast id v) (write_rows inc rows)
unfolding write_rows IsPast set_columns same_version
write_rows-IsPast inc id v [] h = tt
write_rows-IsPast inc id v (r ∷ rest) h = elim (Bool-cases (same_version inc r)) [
  | inl hit ↦
      rw (hit, write_rows) (λ same. ground (arith, h.0 same), write_rows-IsPast inc id v rest h.1)
  | inr miss ↦ rw (miss, write_rows) (h.0, write_rows-IsPast inc id v rest h.1)
]

incident_row-write_rows :
    (inc : Incident) (id : Uid) (rows : List Incident)
    → is_some (incident_row id (write_rows inc rows)) ≡ is_some (incident_row id rows)
unfolding write_rows incident_row find_first set_columns
incident_row-write_rows inc id [] = refl
incident_row-write_rows inc id (r ∷ rest) = ground (arith, incident_row-write_rows inc id rest)

incident_row-append :
    (id : Uid) (rows : List Incident) (inc : Incident)
    → is_some (incident_row id rows) ≡ true
    → is_some (incident_row id (rows ++ inc ∷ [])) ≡ true
unfolding incident_row find_first
incident_row-append id [] inc h = cc
incident_row-append id (r ∷ rest) inc h = ground (arith, incident_row-append id rest inc)

stored_version :
    (inc : Incident) (rows : List Incident)
    → any (same_version inc) rows ≡ true
    → is_some (incident_row inc.id rows) ≡ true
unfolding incident_row find_first any same_version
stored_version inc [] h = cc
stored_version inc (r ∷ rest) h = ground (arith, stored_version inc rest)

AreOthers : List Incident → Uid → Type 0
AreOthers rest id = All (λ (o : Incident). o.id == id ≡ false) rest

eq_of : (m n : ℕ) → m == n ≡ true → m ≡ n
eq_of m n h = ground arith

same_version-parts :
    (inc r : Incident) → same_version inc r ≡ true → (r.id ≡ inc.id) × (r.version ≡ inc.version)
unfolding same_version
same_version-parts inc r h = ground arith

-- The row that an update hits is past the version that was read.
hit-IsPast :
    (inc : Incident) (rows : List Incident)
    → IsKeyed rows
    → any (same_version inc) rows ≡ true
    → All (IsPast inc.id inc.version) (write_rows inc rows)
unfolding write_rows any IsPast set_columns AreOthers
hit-IsPast inc [] keyed h = tt
hit-IsPast inc (r ∷ rest) (apart, keyed) h = elim (Bool-cases (same_version inc r)) [
  | inl hit ↦
      let (id, version) = same_version-parts inc r hit in
      rw (hit, write_rows)
        (
          λ same. omega (arith, version),
          write_rows-IsPast inc inc.id inc.version rest
              (other-IsPast inc.id inc.version rest (subst (AreOthers rest) id apart)),
        )
  | inr miss ↦
      let later : any (same_version inc) rest ≡ true = rw miss at h in
      rw (miss, write_rows)
        (
          λ same. cc (
            later,
            other_version inc rest (subst (AreOthers rest) (eq_of (r.id) (inc.id) same) apart),
          ),
          hit-IsPast inc rest keyed later,
        )
]

-- A successful update makes the version that it was given a thing of the past.
written_row-IsSuperseded :
    (fails : Bool) (inc stored : Incident) (rows : List Incident)
    → IsKeyed rows
    → (update_incident fails inc rows).1 ≡ inl stored
    → IsSuperseded inc.id inc.version (update_incident fails inc rows).0
unfolding update_incident IsSuperseded
written_row-IsSuperseded fails inc stored rows keyed h =
    elim (Bool-cases (is_some (validate inc))) [
      | inl invalid ↦ cc (rw (invalid, update_incident) at h)
      | inr valid ↦ elim (Bool-cases fails) [
        | inl down ↦ cc (rw (valid, down, update_incident) at h)
        | inr up ↦ elim (Bool-cases (any (same_version inc) rows)) [
          | inl hit ↦
              rw (valid, up, hit, update_incident)
                (
                  incident_row-write_rows inc inc.id rows ∙ stored_version inc rows hit,
                  hit-IsPast inc rows keyed hit,
                )
          | inr miss ↦ elim (Bool-cases (is_some (incident_row inc.id rows))) [
            | inl there ↦ cc (rw (valid, up, miss, there, update_incident) at h)
            | inr gone ↦ cc (rw (valid, up, miss, gone, update_incident) at h)
          ]
        ]
      ]
    ]

-- The calls that write the table, each with whether the database fails.
pub data Write : Type 0 where
  creates updates : Bool → Incident → Write

unfoldable pub written : Write → List Incident → List Incident
unfolding create_incident update_incident
written (creates fails inc) rows = (create_incident fails inc rows).0
written (updates fails inc) rows = (update_incident fails inc rows).0

unfoldable pub all_written : List Write → List Incident → List Incident
unfolding written
all_written [] rows = rows
all_written (c ∷ cs) rows = all_written cs (written c rows)

update_incident-IsSuperseded :
    (fails : Bool) (inc : Incident) (id : Uid) (v : ℕ) (rows : List Incident)
    → IsSuperseded id v rows
    → IsSuperseded id v (update_incident fails inc rows).0
unfolding update_incident IsSuperseded
update_incident-IsSuperseded fails inc id v rows (stored, past) =
    elim (Bool-cases (is_some (validate inc))) [
      | inl invalid ↦ rw (invalid, update_incident) (stored, past)
      | inr valid ↦ elim (Bool-cases fails) [
        | inl down ↦ rw (valid, down, update_incident) (stored, past)
        | inr up ↦ elim (Bool-cases (any (same_version inc) rows)) [
          | inl hit ↦
              rw (valid, up, hit, update_incident)
                (incident_row-write_rows inc id rows ∙ stored, write_rows-IsPast inc id v rows past)
          | inr miss ↦ elim (Bool-cases (is_some (incident_row inc.id rows))) [
            | inl there ↦ rw (valid, up, miss, there, update_incident) (stored, past)
            | inr gone ↦ rw (valid, up, miss, gone, update_incident) (stored, past)
          ]
        ]
      ]
    ]

create_incident-IsSuperseded :
    (fails : Bool) (inc : Incident) (id : Uid) (v : ℕ) (rows : List Incident)
    → IsSuperseded id v rows
    → IsSuperseded id v (create_incident fails inc rows).0
unfolding create_incident IsSuperseded IsPast
create_incident-IsSuperseded fails inc id v rows (stored, past) =
    elim (Bool-cases (is_some (validate inc))) [
      | inl invalid ↦ rw (invalid, create_incident) (stored, past)
      | inr valid ↦ elim (Bool-cases (is_some (incident_row inc.id rows))) [
        | inl taken ↦ rw (valid, taken, create_incident) (stored, past)
        | inr fresh ↦ elim (Bool-cases fails) [
          | inl down ↦ rw (valid, fresh, down, create_incident) (stored, past)
          | inr up ↦
              rw (valid, fresh, up, create_incident)
                (
                  incident_row-append id rows inc stored,
                  All-append (IsPast id v) rows (inc ∷ []) past (
                    λ same. cc (
                      fresh,
                      stored,
                      ap (λ i. is_some (incident_row i rows)) (eq_of inc.id id same),
                    ),
                    tt,
                  ),
                )
        ]
      ]
    ]

all_written-IsSuperseded :
    (cs : List Write) (id : Uid) (v : ℕ) (rows : List Incident)
    → IsSuperseded id v rows
    → IsSuperseded id v (all_written cs rows)
unfolding all_written written
all_written-IsSuperseded [] id v rows h = h
all_written-IsSuperseded (creates fails inc ∷ cs) id v rows h =
    all_written-IsSuperseded cs id v (create_incident fails inc rows).0
      (create_incident-IsSuperseded fails inc id v rows h)
all_written-IsSuperseded (updates fails inc ∷ cs) id v rows h =
    all_written-IsSuperseded cs id v (update_incident fails inc rows).0
      (update_incident-IsSuperseded fails inc id v rows h)

stale_refused :
    (fails : Bool) (late : Incident) (v : ℕ) (rows : List Incident)
    → late.version ≤ v
    → IsSuperseded late.id v rows
    → ((update_incident fails late rows).0 ≡ rows)
      × ((e : RepoError) × ((update_incident fails late rows).1 ≡ inr e))
unfolding update_incident IsSuperseded
stale_refused fails late v rows old (stored, past) =
    let miss = past_version late v rows old past in
    elim (Bool-cases (is_some (validate late))) [
      | inl invalid ↦ rw (invalid, update_incident) (refl, (_, refl))
      | inr valid ↦ elim (Bool-cases fails) [
        | inl down ↦ rw (valid, down, update_incident) (refl, (_, refl))
        | inr up ↦ rw (valid, up, miss, stored, update_incident) (refl, (_, refl))
      ]
    ]

-- Of all updates that go by one read of an incident, or an older one, at most one takes effect,
-- whatever calls fall between them: the others change nothing and return an error.
pub updated_once :
    (fails : Bool) (inc stored : Incident) (rows : List Incident) (cs : List Write)
    (late : Incident) (fails_late : Bool)
    → IsKeyed rows
    → (update_incident fails inc rows).1 ≡ inl stored
    → late.id ≡ inc.id
    → late.version ≤ inc.version
    → let after = all_written cs (update_incident fails inc rows).0 in
      ((update_incident fails_late late after).0 ≡ after)
      × ((e : RepoError) × ((update_incident fails_late late after).1 ≡ inr e))
updated_once fails inc stored rows cs late fails_late keyed won same old =
    stale_refused fails_late late inc.version (all_written cs (update_incident fails inc rows).0)
      old
      (subst (λ id. IsSuperseded id inc.version (all_written cs (update_incident fails inc rows).0))
        (sym same)
        (all_written-IsSuperseded cs inc.id inc.version (update_incident fails inc rows).0
          (written_row-IsSuperseded fails inc stored rows keyed won)))
