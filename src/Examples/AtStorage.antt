-- ===== src/Examples/AtStorage.antt =====
-- The theorems on what is stored.
use aegisops_ai.Base.{
  ◌≡◌, ℕ, ap, ◌/◌, ◌*◌, refl, ◌⊎◌, true, false, some, List, [], ◌∷◌, ◌+◌, length, pos, arith, utf8,
}
use aegisops_ai.Domain.Execution.{Bytes}
use aegisops_ai.Domain.Audit.{Outcome, outcome_text}
use aegisops_ai.Domain.Chain.{
  Format, AuditEntry, altered, new_audit_entry, verify_chain, intact, fields, compute_hash,
  optional_text,
}
use aegisops_ai.Domain.Chain.Preimage.{Storable}
use aegisops_ai.Domain.Chain.Tamper.{Collision, SameRows, tamper_evident}
use aegisops_ai.Storage.Ledger.{
  Fault, verify_range, append, insert_row, linked_to, latest, stored, null_id_ptr,
}
use aegisops_ai.Storage.Ledger.Appended.{HasIds, append_all, verify_range-append_all}
use aegisops_ai.Storage.Ledger.ZeroId.{zero_incident_altered}

abbrev digest : Bytes
digest =
    1 ∷ 2 ∷ 3 ∷ 4 ∷ 5 ∷ 6 ∷ 7 ∷ 8 ∷ 1 ∷ 2 ∷ 3 ∷ 4 ∷ 5 ∷ 6 ∷ 7 ∷ 8 ∷ 1 ∷ 2 ∷ 3 ∷ 4 ∷ 5 ∷ 6 ∷ 7 ∷ 8
    ∷ 1 ∷ 2 ∷ 3 ∷ 4 ∷ 5 ∷ 6 ∷ 7 ∷ 8 ∷ []

-- A hash function of 32 bytes, with as many collisions as there can be.
abbrev pub format : Format
format = record {
  sha256 = λ b. digest;
  id_text = λ n. n ∷ [];
  time_text = λ t. t / 1000 ∷ [];
  column_time = λ t. t / 1000 * 1000;
}

abbrev first_row : AuditEntry
first_row = record (new_audit_entry 30 100 "agent" "diagnoser" "docker.restart" Outcome.executed) {
  seq = pos 1;
  hash = digest;
}

abbrev forged_row : AuditEntry
forged_row = record (new_audit_entry 30 100 "user" "mallory" "docker.restart" Outcome.executed) {
  seq = pos 1;
  hash = digest;
}

first_row-Storable : Storable format first_row
unfolding fields new_audit_entry utf8 optional_text outcome_text
first_row-Storable = ground arith

forged_row-Storable : Storable format forged_row
unfolding fields new_audit_entry utf8 optional_text outcome_text
forged_row-Storable = ground arith

first_row_verifies : (verify_chain format (first_row ∷ []) []).valid ≡ true
unfolding verify_chain compute_hash new_audit_entry aegisops_ai.Domain.Chain.verify_from
first_row_verifies = refl

forged_row_verifies : (verify_chain format (forged_row ∷ []) []).valid ≡ true
unfolding verify_chain compute_hash new_audit_entry aegisops_ai.Domain.Chain.verify_from
forged_row_verifies = refl

tamper_evident_example :
    (◌≡◌ {A = Bytes} [] [] × SameRows format (first_row ∷ []) (forged_row ∷ [])) ⊎ Collision format
tamper_evident_example =
    tamper_evident format (first_row ∷ []) (forged_row ∷ []) [] [] (λ b. refl) refl refl
      (first_row-Storable, tt) (forged_row-Storable, tt) first_row_verifies forged_row_verifies refl

abbrev sound_write : Fault
sound_write = record { head_unread = false; not_inserted = false }

abbrev lost_write : Fault
lost_write = record { head_unread = false; not_inserted = true }

first_row-HasIds : HasIds first_row
unfolding new_audit_entry
first_row-HasIds = record { incident_set = λ e. cc e; call_set = λ e. cc e }

forged_row-HasIds : HasIds forged_row
unfolding new_audit_entry
forged_row-HasIds = record { incident_set = λ e. cc e; call_set = λ e. cc e }

verify_range-append_all_example :
    verify_range format (pos 1) (pos 0) (
      append_all format []
        ((sound_write, first_row) ∷ (lost_write, forged_row) ∷ (sound_write, forged_row) ∷ []))
    ≡ some (record {
      checked = length (
          append_all format []
            ((sound_write, first_row) ∷ (lost_write, forged_row) ∷ (sound_write, forged_row) ∷ []));
      valid = true;
      broken_at_seq = pos 0;
      reason = intact;
    })
verify_range-append_all_example =
    verify_range-append_all format
      ((sound_write, first_row) ∷ (lost_write, forged_row) ∷ (sound_write, forged_row) ∷ [])
      (λ t. ap (λ (n : ℕ). n ∷ []) (omega arith))
      (first_row-HasIds, (forged_row-HasIds, (forged_row-HasIds, tt)))

abbrev orphan_row : AuditEntry
orphan_row = record first_row { incident_id = some 0 }

abbrev earlier : List (Fault × AuditEntry)
earlier = (sound_write, first_row) ∷ []

orphan_row-Storable :
    Storable format (linked_to format (latest (append_all format [] earlier)) orphan_row)
    × Storable format
        (stored format (linked_to format (latest (append_all format [] earlier)) orphan_row))
unfolding fields new_audit_entry utf8 optional_text outcome_text linked_to stored null_id_ptr
orphan_row-Storable = (ground arith, ground arith)

zero_incident_altered_example :
    (verify_range format
        (pos 1)
        (pos 0)
        (append format sound_write orphan_row (append_all format [] earlier)).0
      ≡ some (record {
        checked = length (append format sound_write orphan_row (append_all format [] earlier)).0;
        valid = false;
        broken_at_seq = pos (1 + length (append_all format [] earlier));
        reason = altered;
      }))
    ⊎ Collision format
unfolding append_all append insert_row new_audit_entry aegisops_ai.Domain.Chain.audit_validate
    aegisops_ai.Shared.validator_err aegisops_ai.Shared.check aegisops_ai.Shared.max_len
    aegisops_ai.Domain.Audit.outcome_valid aegisops_ai.Shared.required aegisops_ai.Base.is_blank
    aegisops_ai.Shared.not_zero_id aegisops_ai.Shared.new_validator
zero_incident_altered_example =
    zero_incident_altered format earlier sound_write orphan_row
      (λ t. ap (λ (n : ℕ). n ∷ []) (omega arith)) (first_row-HasIds, tt) refl (λ e. cc e)
      orphan_row-Storable refl
