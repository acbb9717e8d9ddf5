-- ===== src/Storage/Ledger/Appended.antt =====
-- A ledger that was only ever appended to verifies, where no entry has a zero identifier in a column
-- that keeps it as NULL.
use aegisops_ai.Base.{
  ℕ, suc, ◌+◌, ◌≤◌, ◌≡◌, ◌≢◌, ◌∙◌, Option, refl, sym, ap, inl, inr, Bool, true, false, Bool-cases,
  ◌||◌, List, [], ◌∷◌, ◌++◌, none, some, length, arith, All, All-imp, keep, keep_all, keep_none,
  IsSorted, sort_stable-IsSorted_self, pos, ltb_ℤ, is_some, any,
}
use aegisops_ai.Shared.{Uid, Time, is_zero_id}
use aegisops_ai.Domain.Execution.{Bytes}
use aegisops_ai.Domain.Chain.{
  Format, AuditEntry, compute_hash, preimage, fields, big_endian, uint64_of, write_fields,
  verify_chain, verify_from, audit_validate, intact,
}
use aegisops_ai.Domain.Chain.Verified.{Links, Linked, last_hash, equal_bytes_refl}
use aegisops_ai.Storage.Ledger.{
  Fault, append, insert_row, same_seq, latest, later_row, linked_to, verify_range, verify_rows,
  span_of, seq_before, in_span, first_gap, stored, null_id_ptr,
}

-- The rows are numbered in order, from `k` on.
abbrev pub Numbered : ℕ → List AuditEntry → Type 0
Numbered k [] = Unit
Numbered k (r ∷ rest) = (r.seq ≡ pos k) × Numbered (suc k) rest

pub Numbered-append :
    (k : ℕ) (rows : List AuditEntry) (r : AuditEntry)
    → Numbered k rows
    → r.seq ≡ pos (k + length rows)
    → Numbered k (rows ++ r ∷ [])
Numbered-append k [] r h e = ground arith
Numbered-append k (s ∷ rows) r h e = (h.0, Numbered-append (suc k) rows r h.1 (ground arith))

-- Every number is at least `j`.
abbrev From : ℕ → AuditEntry → Type 0
From j r = (n : ℕ) × (r.seq ≡ pos n) × (j ≤ n)

Numbered-From : (j k : ℕ) (rows : List AuditEntry) → j ≤ k → Numbered k rows → All (From j) rows
Numbered-From j k [] h n = tt
Numbered-From j k (r ∷ rest) h n = ((k, n.0, h), Numbered-From j (suc k) rest (omega arith) n.1)

Numbered-IsSorted : (k : ℕ) (rows : List AuditEntry) → Numbered k rows → IsSorted seq_before rows
unfolding seq_before
Numbered-IsSorted k [] n = tt
Numbered-IsSorted k (r ∷ rest) n = (
  All-imp (From (suc k)) (λ s. seq_before s r ≡ false) rest
      (λ s l. rw (n.0, l.1) (ground (arith, l.2)))
      (Numbered-From (suc k) (suc k) rest (omega arith) n.1),
  Numbered-IsSorted (suc k) rest n.1,
)

-- The identifiers that are set are not zero.
pub record HasIds (e : AuditEntry) : Type 0 where
  pub incident_set : e.incident_id ≢ some 0
  pub call_set : e.tool_call_id ≢ some 0

null_id_ptr_kept : (o : Option Uid) → o ≢ some 0 → null_id_ptr o ≡ o
unfolding null_id_ptr
null_id_ptr_kept none h = refl
null_id_ptr_kept (some id) h = elim (Bool-cases (is_zero_id id)) [
  | inl zero_id ↦ absurd (h (let e : id ≡ 0 = ground arith in ap some e))
  | inr set ↦ rw set refl
]

module _ (f : Format) where
  latest-Numbered :
      (start : Bytes) (k : ℕ) (r : AuditEntry) (rest : List AuditEntry)
      → Numbered k (r ∷ rest)
      → (s : AuditEntry) × (latest (r ∷ rest) ≡ some s)
        × (s.seq ≡ pos (k + length rest))
        × (s.hash ≡ last_hash f start (r ∷ rest))
  unfolding latest later_row
  latest-Numbered start k r [] n = (r, refl, ground arith, refl)
  latest-Numbered start k r (r' ∷ rest) n =
      let tail = latest-Numbered r.hash (suc k) r' rest n.1 in
      (tail.0, ground (arith, tail.1, tail.2, n.0), ground (arith, tail.2), tail.3)

  Linked-append :
      (start : Bytes) (rows : List AuditEntry) (r : AuditEntry)
      → Linked f start rows
      → Links f (last_hash f start rows) r
      → Linked f start (rows ++ r ∷ [])
  Linked-append start [] r h l = (l, tt)
  Linked-append start (s ∷ rows) r h l = (h.0, Linked-append s.hash rows r h.1 l)

  -- A ledger as Append makes it: linked from the empty hash and numbered from 1.
  pub record IsLedger (rows : List AuditEntry) : Type 0 where
    pub linked : Linked f [] rows
    pub numbered : Numbered 1 rows

  -- The row that is inserted continues the ledger.
  pub linked_to_row :
      (rows : List AuditEntry) (e : AuditEntry)
      → IsLedger rows
      → Links f (last_hash f [] rows) (linked_to f (latest rows) e)
        × ((linked_to f (latest rows) e).seq ≡ pos (1 + length rows))
  unfolding linked_to latest compute_hash preimage fields
  linked_to_row [] e h = ((refl, refl), ground arith)
  linked_to_row (r ∷ rest) e h =
      let last = latest-Numbered [] 1 r rest h.numbered in
      rw last.1 (
        (ap (λ p. compute_hash f p (linked_to f (some last.0) e)) (sym last.3), sym last.3),
        rw last.2 (ground arith),
      )

  -- A TIMESTAMPTZ column keeps of an instant what its text, cut to microseconds, shows.
  abbrev pub KeepsMicros : Type 0
  KeepsMicros = (t : Time) → f.time_text (f.column_time t) ≡ f.time_text t

  -- What a row gives back has the same fields, so the same hash.
  fields-stored : (e : AuditEntry) → KeepsMicros → HasIds e → fields f (stored f e) ≡ fields f e
  unfolding fields stored
  fields-stored e micros h =
      rw
        (
          micros e.occurred_at,
          null_id_ptr_kept e.incident_id h.incident_set,
          null_id_ptr_kept e.tool_call_id h.call_set,
          fields,
          stored,
        )
        refl

  stored_hash :
      (prev : Bytes) (e : AuditEntry)
      → KeepsMicros
      → HasIds e
      → compute_hash f prev (stored f e) ≡ compute_hash f prev e
  unfolding compute_hash preimage stored
  stored_hash prev e micros h =
      ap (λ fs. f.sha256 (prev ++ (big_endian (uint64_of e.seq) ++ write_fields fs)))
        (fields-stored e micros h)

  insert_row-IsLedger :
      (fails : Bool) (row : AuditEntry) (rows : List AuditEntry)
      → KeepsMicros
      → HasIds row
      → IsLedger rows
      → Links f (last_hash f [] rows) row
      → row.seq ≡ pos (1 + length rows)
      → IsLedger (insert_row f fails row rows).0
  unfolding insert_row stored
  insert_row-IsLedger fails row rows micros ids h l n =
      elim (Bool-cases (any (same_seq row) rows || fails)) [
        | inl refused ↦ rw refused h
        | inr fine ↦ rw fine (record {
          linked =
              Linked-append [] rows (stored f row) h.linked
                (stored_hash (last_hash f [] rows) row micros ids ∙ l.0, l.1);
          numbered = Numbered-append 1 rows (stored f row) h.numbered n;
        })
      ]

  append-IsLedger :
      (fault : Fault) (e : AuditEntry) (rows : List AuditEntry)
      → KeepsMicros
      → HasIds e
      → IsLedger rows
      → IsLedger (append f fault e rows).0
  unfolding append linked_to
  append-IsLedger fault e rows micros ids h =
      elim (Bool-cases (is_some (audit_validate e) || fault.head_unread)) [
        | inl refused ↦ rw refused h
        | inr fine ↦
            let l = linked_to_row rows e h in
            rw fine (
              insert_row-IsLedger fault.not_inserted (linked_to f (latest rows) e) rows micros
                (record { incident_set = ids.incident_set; call_set = ids.call_set }) h l.0 l.1)
      ]

  -- The table after these calls of Append.
  unfoldable pub append_all : List AuditEntry → List (Fault × AuditEntry) → List AuditEntry
  append_all rows [] = rows
  append_all rows ((fault, e) ∷ rest) = append_all (append f fault e rows).0 rest

  pub append_all-IsLedger :
      (rows : List AuditEntry) (calls : List (Fault × AuditEntry))
      → KeepsMicros
      → All (λ c. HasIds c.1) calls
      → IsLedger rows
      → IsLedger (append_all rows calls)
  unfolding append_all
  append_all-IsLedger rows [] micros ids h = h
  append_all-IsLedger rows ((fault, e) ∷ rest) micros ids h =
      append_all-IsLedger (append f fault e rows).0 rest micros ids.1
        (append-IsLedger fault e rows micros ids.0 h)

  verify_from-Linked :
      (total : ℕ) (start : Bytes) (rows : List AuditEntry)
      → Linked f start rows
      → verify_from f total start rows
        ≡ record { checked = total; valid = true; broken_at_seq = pos 0; reason = intact }
  unfolding verify_from
  verify_from-Linked total start [] h = refl
  verify_from-Linked total start (e ∷ rest) h =
      rw (h.0.0, equal_bytes_refl e.hash, sym h.0.1, equal_bytes_refl start)
        (verify_from-Linked total e.hash rest h.1)

  first_gap-Numbered :
      (k : ℕ) (rows : List AuditEntry) → Numbered k rows → first_gap (pos k) rows ≡ none
  unfolding first_gap
  first_gap-Numbered k [] n = refl
  first_gap-Numbered k (r ∷ rest) n =
      let more = first_gap-Numbered (suc k) rest n.1 in ground (arith, n.0, more)

  whole_span : (rows : List AuditEntry) → Numbered 1 rows → span_of (pos 1) (pos 0) rows ≡ rows
  unfolding span_of in_span
  whole_span rows n =
      rw
        (keep_all (in_span (pos 1) (pos 0)) rows (
          All-imp (From 1) (λ r. in_span (pos 1) (pos 0) r ≡ true) rows
            (λ r l. ground (arith, l.1, l.2)) (Numbered-From 1 1 rows (omega arith) n)))
        (sort_stable-IsSorted_self seq_before rows (Numbered-IsSorted 1 rows n))

  no_anchor :
      (rows : List AuditEntry)
      → Numbered 1 rows
      → keep (λ (r : AuditEntry). ltb_ℤ r.seq (pos 1)) rows ≡ []
  no_anchor rows n =
      keep_none (λ r. ltb_ℤ r.seq (pos 1)) rows
        (All-imp (From 1) (λ r. ltb_ℤ r.seq (pos 1) ≡ false) rows (λ r l. ground (arith, l.1, l.2))
          (Numbered-From 1 1 rows (omega arith) n))

  verify_rows-Numbered :
      (rows : List AuditEntry)
      → Numbered 1 rows
      → verify_rows f (pos 1) [] rows ≡ verify_from f (length rows) [] rows
  unfolding verify_rows verify_chain
  verify_rows-Numbered rows n = rw (first_gap-Numbered 1 rows n, verify_rows) refl

  -- The whole of a numbered ledger is verified by the loop over all its rows.
  pub verify_range-Numbered :
      (rows : List AuditEntry)
      → Numbered 1 rows
      → verify_range f (pos 1) (pos 0) rows ≡ some (verify_from f (length rows) [] rows)
  unfolding verify_range latest
  verify_range-Numbered rows n =
      rw (whole_span rows n, no_anchor rows n) (ap some (verify_rows-Numbered rows n))

  -- Where a column keeps the microseconds of an instant, and no entry has a zero incident or tool
  -- call: whatever is appended to an empty ledger, in whatever order and whichever of the calls fail,
  -- the verification of the rows that the database gives back finds the ledger intact, row after row.
  pub verify_range-append_all :
      (calls : List (Fault × AuditEntry))
      → KeepsMicros
      → All (λ c. HasIds c.1) calls
      → verify_range f (pos 1) (pos 0) (append_all [] calls)
        ≡ some (record {
          checked = length (append_all [] calls);
          valid = true;
          broken_at_seq = pos 0;
          reason = intact;
        })
  verify_range-append_all calls micros ids =
      let ledger =
        append_all-IsLedger [] calls micros ids (record { linked = tt; numbered = tt }) in
      verify_range-Numbered (append_all [] calls) ledger.numbered
      ∙ ap some
          (verify_from-Linked (length (append_all [] calls)) [] (append_all [] calls) ledger.linked)
