-- ===== src/Storage/Incidents/Numbering.antt =====
-- internal/repository/postgres/incident.go: the numbers that AppendEvent gives.
use aegisops_ai.Base.{
  ℕ, suc, ◌+◌, ◌≡◌, refl, sym, ◌∙◌, ap, subst, Bool, true, ◌==◌, Bool-cases, inl, inr, List, [],
  ◌∷◌, ◌++◌, is_some, if◌then◌else◌, any, keep, length, ℤ, pos, arith,
}
use aegisops_ai.Shared.{Uid}
use aegisops_ai.Domain.Incident.{Incident}
use aegisops_ai.Domain.Timeline.{TimelineEvent, event_validate}
use aegisops_ai.Storage.Incidents.{incident_row, max_int, next_int, last_seq, append_event}

abbrev of_incident : Uid → TimelineEvent → Bool
of_incident id e = e.incident_id == id

-- The timeline of an incident, in the order of insertion.
unfoldable pub timeline_of : Uid → List TimelineEvent → List TimelineEvent
unfolding keep
timeline_of id rows = keep (of_incident id) rows

-- Consecutive numbers from `k` on.
abbrev pub IsNumbered : ℕ → List TimelineEvent → Type 0
IsNumbered k [] = Unit
IsNumbered k (e ∷ rest) = (e.seq ≡ pos k) × IsNumbered (suc k) rest

top : List TimelineEvent → ℤ
unfolding max_int
top [] = pos 0
top (e ∷ rest) = max_int e.seq (top rest)

last_seq-top : (id : Uid) (rows : List TimelineEvent) → last_seq id rows ≡ top (timeline_of id rows)
unfolding last_seq timeline_of keep top
last_seq-top id [] = refl
last_seq-top id (e ∷ rest) = elim (Bool-cases (of_incident id e)) [
  | inl own ↦ rw (own, last_seq-top id rest) refl
  | inr other ↦ rw (other, last_seq-top id rest) refl
]

top-cons :
    (k : ℕ) (e : TimelineEvent) (rest : List TimelineEvent)
    → IsNumbered (suc k) (e ∷ rest)
    → top (e ∷ rest) ≡ pos (suc k + length rest)
unfolding top max_int
top-cons k e [] h = rw h.0 (ground arith)
top-cons k e (f ∷ rest) h = rw (h.0, top-cons (suc k) f rest h.1) (ground arith)

top-numbered : (l : List TimelineEvent) → IsNumbered 1 l → next_int (top l) ≡ pos (suc (length l))
unfolding top next_int
top-numbered [] h = refl
top-numbered (e ∷ rest) h = rw (top-cons 0 e rest h) (ground arith)

timeline_of-append :
    (id : Uid) (rows : List TimelineEvent) (e : TimelineEvent)
    → timeline_of id (rows ++ e ∷ [])
      ≡ timeline_of id rows ++ (if of_incident id e then e ∷ [] else [])
unfolding timeline_of keep
timeline_of-append id [] e = elim (Bool-cases (of_incident id e)) [
  | inl own ↦ rw own refl
  | inr other ↦ rw other refl
]
timeline_of-append id (r ∷ rows) e = elim (Bool-cases (of_incident id r)) [
  | inl own ↦ rw own (ap (λ l. r ∷ l) (timeline_of-append id rows e))
  | inr other ↦ rw other (timeline_of-append id rows e)
]

append-IsNumbered :
    (k : ℕ) (l : List TimelineEvent) (e : TimelineEvent)
    → IsNumbered k l
    → e.seq ≡ pos (k + length l)
    → IsNumbered k (l ++ e ∷ [])
append-IsNumbered k [] e h next = (next ∙ ap pos (omega arith), tt)
append-IsNumbered k (f ∷ rest) e h next =
    (h.0, append-IsNumbered (suc k) rest e h.1 (next ∙ ap pos (omega arith)))

append_none : (l : List TimelineEvent) → l ++ [] ≡ l
append_none [] = refl
append_none (e ∷ l) = ap (λ m. e ∷ m) (append_none l)

same_id : (id : Uid) (e : TimelineEvent) → of_incident id e ≡ true → e.incident_id ≡ id
same_id id e h = ground arith

-- The entry as it is inserted.
numbered_entry : TimelineEvent → List TimelineEvent → TimelineEvent
unfolding next_int last_seq
numbered_entry e rows = record e { seq = next_int (last_seq e.incident_id rows) }

inserted-IsNumbered :
    (id : Uid) (e : TimelineEvent) (rows : List TimelineEvent)
    → IsNumbered 1 (timeline_of id rows)
    → IsNumbered 1 (timeline_of id (rows ++ numbered_entry e rows ∷ []))
unfolding numbered_entry
inserted-IsNumbered id e rows h =
    subst (IsNumbered 1) (sym (timeline_of-append id rows (numbered_entry e rows)))
      (elim (Bool-cases (of_incident id e)) [
        | inl own ↦ rw own (
            append-IsNumbered 1 (timeline_of id rows) (numbered_entry e rows) h (
              ap (λ i. next_int (last_seq i rows)) (same_id id e own)
              ∙ ap next_int (last_seq-top id rows)
              ∙ top-numbered (timeline_of id rows) h
              ∙ ap pos (omega arith)))
        | inr other ↦ rw other (subst (IsNumbered 1) (sym (append_none (timeline_of id rows))) h)
      ])

-- A call of AppendEvent: whether the database fails, the incidents there are, and the entry.
pub record Append : Type 0 where
  pub fails : Bool
  pub incidents : List Incident
  pub entry : TimelineEvent

unfoldable pub all_appended : List Append → List TimelineEvent → List TimelineEvent
unfolding append_event
all_appended [] rows = rows
all_appended (c ∷ cs) rows = all_appended cs (append_event c.fails c.incidents c.entry rows).0

append_event-IsNumbered :
    (c : Append) (id : Uid) (rows : List TimelineEvent)
    → IsNumbered 1 (timeline_of id rows)
    → IsNumbered 1 (timeline_of id (append_event c.fails c.incidents c.entry rows).0)
unfolding append_event numbered_entry
append_event-IsNumbered c id rows h = elim (Bool-cases (is_some (event_validate c.entry))) [
  | inl invalid ↦ rw (invalid, append_event) h
  | inr valid ↦ elim (Bool-cases (is_some (incident_row c.entry.incident_id c.incidents))) [
    | inr gone ↦ rw (valid, gone, append_event) h
    | inl there ↦ elim (Bool-cases (any (λ (r : TimelineEvent). r.id == c.entry.id) rows)) [
      | inl taken ↦ rw (valid, there, taken, append_event) h
      | inr fresh ↦ elim (Bool-cases c.fails) [
        | inl down ↦ rw (valid, there, fresh, down, append_event) h
        | inr up ↦
            rw (valid, there, fresh, up, append_event) (inserted-IsNumbered id c.entry rows h)
      ]
    ]
  ]
]

-- The entries of every incident are numbered 1, 2, 3 and so on in the order of insertion, whichever
-- calls of AppendEvent, for whatever incidents, fail.
pub all_appended-IsNumbered :
    (cs : List Append) (id : Uid) (rows : List TimelineEvent)
    → IsNumbered 1 (timeline_of id rows)
    → IsNumbered 1 (timeline_of id (all_appended cs rows))
unfolding all_appended
all_appended-IsNumbered [] id rows h = h
all_appended-IsNumbered (c ∷ cs) id rows h =
    all_appended-IsNumbered cs id (append_event c.fails c.incidents c.entry rows).0
      (append_event-IsNumbered c id rows h)
