-- ===== src/Storage/Incidents.antt =====
-- internal/repository/postgres/incident.go: the tables incidents and incident_events, rows in the
-- order of insertion. A call is one statement, or one transaction under the incident's advisory
-- lock, so it is one function of the tables; whether the database fails is an argument.
pub mod Locking
pub mod Numbering
pub mod Paging
use aegisops_ai.Base.{
  ℕ, zero, suc, negsuc, ◌+◌, Bool, true, false, not, ◌&&◌, ◌||◌, ◌==◌, List, [], ◌∷◌, ◌++◌, Option,
  none, some, if◌then◌else◌, is_some, any, keep, find_first, ◌⊎◌, inl, inr, ℤ, pos, ltb_ℤ, sub_ℕ,
  pos_part, neg_part, map, sort_stable, take, length, ltb,
}
use aegisops_ai.Shared.{Uid}
use aegisops_ai.Domain.Incident.{Incident, validate}
use aegisops_ai.Domain.Timeline.{TimelineEvent, event_validate}

-- The errors of the repository, by what errors.Is tells of them.
pub data RepoError : Type 0 where
  rejected duplicate missing modified_concurrently unavailable : RepoError

-- Get.
unfoldable pub incident_row : Uid → List Incident → Option Incident
unfolding find_first
incident_row id rows = find_first (λ (r : Incident). r.id == id) rows

-- Create.
unfoldable pub create_incident : Bool → Incident → List Incident → List Incident × Option RepoError
unfolding incident_row
create_incident fails inc rows =
    if is_some (validate inc)
    then (rows, some rejected)
    else if is_some (incident_row inc.id rows)
    then (rows, some duplicate)
    else if fails
    then (rows, some unavailable)
    else (rows ++ inc ∷ [], none)

-- WHERE id = $16 AND version = $17.
unfoldable pub same_version : Incident → Incident → Bool
same_version inc row = row.id == inc.id && row.version == inc.version

-- SET: all columns but the identifier and who created the row when.
unfoldable pub set_columns : Incident → Incident → Incident
set_columns inc row = record inc {
  id = row.id;
  created_by = row.created_by;
  created_at = row.created_at;
  version = suc row.version;
}

unfoldable pub write_rows : Incident → List Incident → List Incident
unfolding same_version set_columns
write_rows inc [] = []
write_rows inc (row ∷ rest) =
    (if same_version inc row then set_columns inc row else row) ∷ write_rows inc rest

-- Update: the rows, and the incident with its version advanced or the error.
unfoldable pub update_incident :
    Bool → Incident → List Incident → List Incident × (Incident ⊎ RepoError)
unfolding same_version write_rows incident_row any
update_incident fails inc rows =
    if is_some (validate inc)
    then (rows, inr rejected)
    else if fails
    then (rows, inr unavailable)
    else if any (same_version inc) rows
    then (write_rows inc rows, inl (record inc { version = suc inc.version }))
    else if is_some (incident_row inc.id rows)
    then (rows, inr modified_concurrently)
    else (rows, inr missing)

-- The greater of two numbers.
max_int : ℤ → ℤ → ℤ
max_int a b = if ltb_ℤ a b then b else a

-- COALESCE((SELECT max(seq) … WHERE incident_id = $2), 0); no number is negative.
unfoldable pub last_seq : Uid → List TimelineEvent → ℤ
unfolding max_int
last_seq incident [] = pos 0
last_seq incident (e ∷ rest) =
    let more = last_seq incident rest in
    if e.incident_id == incident then max_int e.seq more else more

next_int : ℤ → ℤ
next_int a = sub_ℕ (suc (pos_part a)) (neg_part a)

-- AppendEvent, under the foreign key to the incidents and the primary key.
unfoldable pub append_event :
    Bool
    → List Incident
    → TimelineEvent
    → List TimelineEvent
    → List TimelineEvent × Option RepoError
unfolding last_seq next_int incident_row any
append_event fails incidents e rows =
    if is_some (event_validate e)
    then (rows, some rejected)
    else if not (is_some (incident_row e.incident_id incidents))
    then (rows, some missing)
    else if any (λ (r : TimelineEvent). r.id == e.id) rows
    then (rows, some modified_concurrently)
    else if fails
    then (rows, some unavailable)
    else (rows ++ record e { seq = next_int (last_seq e.incident_id rows) } ∷ [], none)

abbrev pub default_page_limit : ℕ
default_page_limit = 50

abbrev pub max_page_limit : ℕ
max_page_limit = 500

-- Page.Normalise.
unfoldable pub normalise : ℤ → ℕ
normalise (pos zero) = default_page_limit
normalise (pos (suc n)) = if ltb max_page_limit (suc n) then max_page_limit else suc n
normalise (negsuc n) = default_page_limit

-- The cursor is the number whose text the code writes and reads.
pub record EventPage : Type 0 where
  pub items : List TimelineEvent
  pub next_cursor : Option ℤ
  pub has_more : Bool

-- seq > $2, where there is a cursor.
unfoldable pub is_after : Option ℤ → TimelineEvent → Bool
is_after none e = true
is_after (some cursor) e = ltb_ℤ cursor e.seq

seq_before : TimelineEvent → TimelineEvent → Bool
seq_before a b = ltb_ℤ a.seq b.seq

-- The rows that the query of Events returns.
unfoldable pub event_rows : ℕ → Option ℤ → Uid → List TimelineEvent → List TimelineEvent
unfolding is_after seq_before
event_rows limit cursor id rows = take limit (
    sort_stable seq_before
      (keep (is_after cursor) (keep (λ (e : TimelineEvent). e.incident_id == id) rows)))

-- The number of the last item.
unfoldable pub final_seq : List TimelineEvent → Option ℤ
final_seq [] = none
final_seq (e ∷ []) = some e.seq
final_seq (e ∷ f ∷ rest) = final_seq (f ∷ rest)

page_of : ℕ → List TimelineEvent → EventPage
unfolding final_seq
page_of limit items =
    if ltb limit (length items)
    then record {
      items = take limit items;
      next_cursor = final_seq (take limit items);
      has_more = true;
    }
    else record { items = items; next_cursor = none; has_more = false }

-- Events; one row more than the page holds is asked for.
unfoldable pub events : ℤ → Option ℤ → Uid → List TimelineEvent → EventPage
unfolding normalise event_rows page_of
events limit cursor id rows =
    page_of (normalise limit) (event_rows (suc (normalise limit)) cursor id rows)
