-- ===== src/Storage/Ledger/ZeroId.antt =====
-- What the ledger says of an entry whose incident is the zero identifier: Append hashes its text, and
-- the row gives back none.
use aegisops_ai.Base.{
  ℕ, ◌+◌, ◌≡◌, ◌≢◌, refl, sym, ap, ◌∙◌, ◌⊎◌, inl, inr, true, false, Bool-cases, List, [], ◌∷◌, ◌++◌,
  some, length, arith, All, pos,
}
use aegisops_ai.Domain.Execution.{Bytes}
use aegisops_ai.Domain.Chain.{
  Format, AuditEntry, compute_hash, preimage, fields, optional_text, equal_bytes, verify_from,
  altered,
}
use aegisops_ai.Domain.Chain.Verified.{Linked, last_hash, equal_bytes-eq, equal_bytes_refl}
use aegisops_ai.Domain.Chain.Preimage.{Storable, preimage_inj}
use aegisops_ai.Domain.Chain.Tamper.{Collision}
use aegisops_ai.Storage.Ledger.{
  Fault, append, insert_row, latest, linked_to, stored, null_id_ptr, verify_range,
}
use aegisops_ai.Storage.Ledger.Appended.{
  HasIds, KeepsMicros, append_all, append_all-IsLedger, linked_to_row, Numbered-append,
  verify_range-Numbered,
}

module _ (f : Format) where
  -- The last entry alone does not have the hash that it carries.
  verify_from_altered :
      (total : ℕ) (start : Bytes) (rows : List AuditEntry) (r : AuditEntry)
      → Linked f start rows
      → equal_bytes (compute_hash f (last_hash f start rows) r) r.hash ≡ false
      → verify_from f total start (rows ++ r ∷ [])
        ≡ record { checked = total; valid = false; broken_at_seq = r.seq; reason = altered }
  unfolding verify_from
  verify_from_altered total start [] r h e = rw e refl
  verify_from_altered total start (s ∷ rows) r h e =
      rw (h.0.0, equal_bytes_refl s.hash, sym h.0.1, equal_bytes_refl start)
        (verify_from_altered total s.hash rows r h.1 e)

  -- The incident is among the fields of an entry, and gone from those of its row.
  fields_differ :
      (e : AuditEntry)
      → e.incident_id ≡ some 0
      → f.id_text 0 ≢ []
      → fields f (stored f e) ≢ fields f e
  unfolding fields stored optional_text null_id_ptr
  fields_differ e zero_id shown same =
      shown (let t : [] ≡ f.id_text 0 = cc (rw zero_id at same) in sym t)

  -- One hash of both is a collision.
  stored_hash_differs :
      (prev : Bytes) (e : AuditEntry)
      → e.incident_id ≡ some 0
      → f.id_text 0 ≢ []
      → Storable f e
      → Storable f (stored f e)
      → (equal_bytes (compute_hash f prev (stored f e)) (compute_hash f prev e) ≡ false)
        ⊎ Collision f
  unfolding compute_hash
  stored_hash_differs prev e zero_id shown s s' =
      elim (Bool-cases (equal_bytes (compute_hash f prev (stored f e)) (compute_hash f prev e))) [
        | inr differs ↦ inl differs
        | inl same ↦ inr (record {
          one = preimage f prev (stored f e);
          other = preimage f prev e;
          differ = λ p.
              fields_differ e zero_id shown
                (preimage_inj f prev prev (stored f e) e refl s' s p).1.same_fields;
          collide = equal_bytes-eq _ _ same;
        })
      ]

  appended :
      (fault : Fault) (e : AuditEntry) (rows : List AuditEntry)
      → (append f fault e rows).1 ≡ true
      → (append f fault e rows).0 ≡ rows ++ stored f (linked_to f (latest rows) e) ∷ []
  unfolding append insert_row
  appended fault e rows done = ground arith

  -- Behind entries that have no zero identifier, an entry whose incident is the zero identifier, once
  -- it is appended, is what the verification of the whole ledger calls altered, at its own number; or
  -- a collision of the hash function can be written down. A column keeps the microseconds of an
  -- instant, the text of the zero identifier is not empty, and the fields are shorter than 2^64 bytes.
  pub zero_incident_altered :
      (calls : List (Fault × AuditEntry)) (fault : Fault) (e : AuditEntry)
      → KeepsMicros f
      → All (λ c. HasIds c.1) calls
      → e.incident_id ≡ some 0
      → f.id_text 0 ≢ []
      → let row = linked_to f (latest (append_all f [] calls)) e in
        Storable f row × Storable f (stored f row)
        → (append f fault e (append_all f [] calls)).1 ≡ true
        → (verify_range f (pos 1) (pos 0) (append f fault e (append_all f [] calls)).0
            ≡ some (record {
              checked = length (append f fault e (append_all f [] calls)).0;
              valid = false;
              broken_at_seq = pos (1 + length (append_all f [] calls));
              reason = altered;
            }))
          ⊎ Collision f
  unfolding linked_to stored
  zero_incident_altered calls fault e micros ids zero_id shown s done =
      let rows = append_all f [] calls in
      let row = linked_to f (latest rows) e in
      let ledger =
        append_all-IsLedger f [] calls micros ids (record { linked = tt; numbered = tt }) in
      let link = linked_to_row f rows e ledger in
      let numbered = Numbered-append 1 rows (stored f row) ledger.numbered link.1 in
      elim (stored_hash_differs (last_hash f [] rows) row zero_id shown s.0 s.1) [
        | inr collision ↦ inr collision
        | inl differs ↦ inl (
            rw (appended fault e rows done) (
              verify_range-Numbered f (rows ++ stored f row ∷ []) numbered
              ∙ ap some (
                  verify_from_altered (length (rows ++ stored f row ∷ [])) [] rows (stored f row)
                    ledger.linked
                    (ap (equal_bytes (compute_hash f (last_hash f [] rows) (stored f row)))
                        (sym link.0.0)
                      ∙ differs)
                  ∙ ap
                      (λ n. record {
                        checked = length (rows ++ stored f row ∷ []);
                        valid = false;
                        broken_at_seq = n;
                        reason = altered;
                      })
                      link.1)))
      ]
