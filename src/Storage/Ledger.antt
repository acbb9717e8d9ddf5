-- ===== src/Storage/Ledger.antt =====
-- internal/repository/postgres/audit.go: the table audit_logs, its rows in the order of insertion.
-- A row is the entry that scanAuditEntry reads from it. Append runs in one transaction under the ledger's lock, so a run of calls is a list of them; an
-- error rolls the transaction back. What the database refuses is an argument.
pub mod Appended
pub mod ZeroId
use aegisops_ai.Base.{
  ℕ, suc, ◌+◌, Bool, true, false, not, ◌&&◌, ◌||◌, List, [], ◌∷◌, ◌++◌, Option, none, some,
  if◌then◌else◌, is_some, any, keep, sort_stable, length, ℤ, pos, negsuc, ltb_ℤ, pos_part, neg_part,
  sub_ℕ,
}
use aegisops_ai.Shared.{Uid, is_zero_id}
use aegisops_ai.Domain.Execution.{Bytes}
use aegisops_ai.Domain.Chain.{
  Format, AuditEntry, audit_validate, compute_hash, ChainVerification, Break, row_missing,
  verify_chain,
}

-- a + b, of two int64 that are far from their bounds.
abbrev pub add_int : ℤ → ℕ → ℤ
add_int a n = sub_ℕ (pos_part a + n) (neg_part a)

-- The greater of two rows by seq.
later_row : AuditEntry → Option AuditEntry → Option AuditEntry
later_row r none = some r
later_row r (some s) = if ltb_ℤ s.seq r.seq then some r else some s

-- ORDER BY seq DESC LIMIT 1.
unfoldable pub latest : List AuditEntry → Option AuditEntry
unfolding later_row
latest [] = none
latest (r ∷ rest) = later_row r (latest rest)

seq_of : Option AuditEntry → ℤ
seq_of none = pos 0
seq_of (some r) = r.seq

hash_of : Option AuditEntry → Bytes
hash_of none = []
hash_of (some r) = r.hash

-- The entry as it is inserted behind `head`.
unfoldable pub linked_to : Format → Option AuditEntry → AuditEntry → AuditEntry
unfolding seq_of hash_of
linked_to f head e =
    let numbered = record e { seq = add_int (seq_of head) 1; prev_hash = hash_of head } in
    record numbered { hash = compute_hash f (hash_of head) numbered }

-- What the database does to one call: it fails at the lock or the read, or at the insert.
pub record Fault : Type 0 where
  pub head_unread : Bool
  pub not_inserted : Bool

same_seq : AuditEntry → AuditEntry → Bool
same_seq a b = not (ltb_ℤ a.seq b.seq) && not (ltb_ℤ b.seq a.seq)

-- nullIDPtr, and the NULL read back as nil.
unfoldable pub null_id_ptr : Option Uid → Option Uid
null_id_ptr none = none
null_id_ptr (some id) = if is_zero_id id then none else some id

-- What a row gives back for an entry. nullID makes a zero actor NULL, which is read as zero again.
unfoldable pub stored : Format → AuditEntry → AuditEntry
unfolding null_id_ptr
stored f e = record e {
  occurred_at = f.column_time e.occurred_at;
  incident_id = null_id_ptr e.incident_id;
  tool_call_id = null_id_ptr e.tool_call_id;
}

-- The insert, under the unique index on seq.
unfoldable pub insert_row : Format → Bool → AuditEntry → List AuditEntry → List AuditEntry × Bool
unfolding same_seq any stored
insert_row f fails row rows =
    if any (same_seq row) rows || fails then (rows, false) else (rows ++ stored f row ∷ [], true)

-- Append: the rows, and whether it returned no error.
unfoldable pub append : Format → Fault → AuditEntry → List AuditEntry → List AuditEntry × Bool
unfolding linked_to latest insert_row
append f fault e rows =
    if is_some (audit_validate e) || fault.head_unread
    then (rows, false)
    else insert_row f fault.not_inserted (linked_to f (latest rows) e) rows

-- LatestSeq.
unfoldable pub latest_seq : List AuditEntry → ℤ
unfolding seq_of latest
latest_seq rows = seq_of (latest rows)

seq_before : AuditEntry → AuditEntry → Bool
seq_before a b = ltb_ℤ a.seq b.seq

in_span : ℤ → ℤ → AuditEntry → Bool
in_span from to r = not (ltb_ℤ r.seq from) && (not (ltb_ℤ (pos 0) to) || not (ltb_ℤ to r.seq))

-- The rows that the query returns.
unfoldable pub span_of : ℤ → ℤ → List AuditEntry → List AuditEntry
unfolding seq_before in_span
span_of from to rows = sort_stable seq_before (keep (in_span from to) rows)

-- The first number of the range that is missing.
unfoldable pub first_gap : ℤ → List AuditEntry → Option ℤ
first_gap want [] = none
first_gap want (e ∷ rest) =
    if ltb_ℤ e.seq want || ltb_ℤ want e.seq then some want else first_gap (add_int want 1) rest

-- The check for gaps, then VerifyChain of the entity.
unfoldable pub verify_rows : Format → ℤ → Bytes → List AuditEntry → ChainVerification
unfolding first_gap
verify_rows f from start entries = elim (first_gap from entries) [
  | none ↦ verify_chain f entries start
  | some want ↦ record {
    checked = length entries;
    valid = false;
    broken_at_seq = want;
    reason = row_missing;
  }
]

-- VerifyChain of the repository; `none` is the error of a range that ends before it starts.
unfoldable pub verify_range : Format → ℤ → ℤ → List AuditEntry → Option ChainVerification
unfolding verify_rows span_of latest hash_of
verify_range f from to rows =
    let first = if ltb_ℤ from (pos 1) then pos 1 else from in
    let anchor = hash_of (latest (keep (λ (r : AuditEntry). ltb_ℤ r.seq first) rows)) in
    if ltb_ℤ (pos 0) to && ltb_ℤ to first
    then none
    else some (verify_rows f first anchor (span_of first to rows))
