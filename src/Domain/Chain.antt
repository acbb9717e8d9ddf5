-- ===== src/Domain/Chain.antt =====
-- internal/domain/harness/audit.go: the hash chain of the ledger, on bytes. What the code takes from
-- elsewhere is the record `Format`: SHA-256, the texts of an identifier and of an instant, and what a
-- TIMESTAMPTZ column keeps of an instant.
pub mod Verified
pub mod Preimage
pub mod Tamper
use aegisops_ai.Base.{
  ℕ, ◌-◌, ◌+◌, ◌/◌, ◌%◌, ◌^◌, Bool, true, false, not, ◌==◌, String, List, [], ◌∷◌, ◌++◌, Option,
  none, some, if◌then◌else◌, length, ℤ, utf8, pos, negsuc, ◌&&◌,
}
use aegisops_ai.Shared.{
  Uid, Time, Err, is_zero_time, says, new_validator, check, required, max_len, not_zero_id,
  validator_err, ◌▸◌,
}
use aegisops_ai.Domain.Audit.{Outcome, outcome_valid, outcome_text}
use aegisops_ai.Domain.Execution.{Bytes}

pub record Format : Type 0 where
  pub sha256 : Bytes → Bytes
  pub id_text : Uid → Bytes
  -- in UTC and cut to microseconds
  pub time_text : Time → Bytes
  pub column_time : Time → Time

-- The fields that the hash commits to, and the two that hold the chain.
pub record AuditEntry : Type 0 where
  pub id : Uid
  pub seq : ℤ
  pub occurred_at : Time
  pub actor_type : String
  pub actor_id : Uid
  pub actor_name : String
  pub action : String
  pub resource_type : String
  pub resource_id : String
  pub incident_id : Option Uid
  pub tool_call_id : Option Uid
  pub outcome : Outcome
  pub reason : String
  pub error : String
  pub request_id : String
  pub build_version : String
  pub prev_hash : Bytes
  pub hash : Bytes

abbrev pub max_audit_reason_len : ℕ
max_audit_reason_len = 10000

unfoldable pub audit_validate : AuditEntry → Option Err
audit_validate a = validator_err (
    new_validator "audit_log"
    ▸ not_zero_id a.id "id"
    ▸ required a.actor_type "actor_type"
    ▸ required a.action "action"
    ▸ check (outcome_valid a.outcome) "outcome"
        (says "must be one of: allowed, denied, executed, failed, dry_run")
    ▸ max_len a.reason "reason" max_audit_reason_len
    ▸ check (not (is_zero_time a.occurred_at)) "occurred_at" (says "is required"))

-- NewAuditEntry: `id` is what shared.NewID draws.
unfoldable pub new_audit_entry : Uid → Time → String → String → String → Outcome → AuditEntry
new_audit_entry id now actor_type actor_name action outcome = record {
  id = id;
  seq = pos 0;
  occurred_at = now;
  actor_type = actor_type;
  actor_id = 0;
  actor_name = actor_name;
  action = action;
  resource_type = "";
  resource_id = "";
  incident_id = none;
  tool_call_id = none;
  outcome = outcome;
  reason = "";
  error = "";
  request_id = "";
  build_version = "";
  prev_hash = [];
  hash = [];
}

-- PutUint64, of a number below 2^64.
unfoldable pub big_endian : ℕ → Bytes
big_endian n =
    n / 2 ^ 56 % 256
    ∷ n / 2 ^ 48 % 256
    ∷ n / 2 ^ 40 % 256
    ∷ n / 2 ^ 32 % 256
    ∷ n / 2 ^ 24 % 256
    ∷ n / 2 ^ 16 % 256
    ∷ n / 2 ^ 8 % 256
    ∷ n % 256
    ∷ []

-- uint64(a.Seq): the bits of an int64.
unfoldable pub uint64_of : ℤ → ℕ
uint64_of (pos n) = n % 2 ^ 64
uint64_of (negsuc n) = 2 ^ 64 - 1 - n % 2 ^ 64

-- writeField.
unfoldable pub write_field : Bytes → Bytes
unfolding big_endian
write_field s = big_endian (length s) ++ s

unfoldable pub optional_text : Format → Option Uid → Bytes
optional_text f none = []
optional_text f (some id) = f.id_text id

-- The fields that are written with their lengths, in order.
unfoldable pub fields : Format → AuditEntry → List Bytes
unfolding optional_text
fields f a =
    f.id_text a.id
    ∷ f.time_text a.occurred_at
    ∷ utf8 a.actor_type
    ∷ f.id_text a.actor_id
    ∷ utf8 a.actor_name
    ∷ utf8 a.action
    ∷ utf8 a.resource_type
    ∷ utf8 a.resource_id
    ∷ utf8 (outcome_text a.outcome)
    ∷ utf8 a.reason
    ∷ utf8 a.error
    ∷ utf8 a.request_id
    ∷ utf8 a.build_version
    ∷ optional_text f a.incident_id
    ∷ optional_text f a.tool_call_id
    ∷ []

unfoldable pub write_fields : List Bytes → Bytes
unfolding write_field
write_fields [] = []
write_fields (s ∷ rest) = write_field s ++ write_fields rest

-- What ComputeHash writes.
unfoldable pub preimage : Format → Bytes → AuditEntry → Bytes
unfolding write_fields big_endian uint64_of fields
preimage f prev a = prev ++ (big_endian (uint64_of a.seq) ++ write_fields (fields f a))

unfoldable pub compute_hash : Format → Bytes → AuditEntry → Bytes
compute_hash f prev a = f.sha256 (preimage f prev a)

unfoldable pub equal_bytes : Bytes → Bytes → Bool
equal_bytes [] [] = true
equal_bytes [] (_ ∷ _) = false
equal_bytes (_ ∷ _) [] = false
equal_bytes (a ∷ xs) (b ∷ bs) = a == b && equal_bytes xs bs

-- Why a chain is broken.
pub data Break : Type 0 where
  intact altered row_missing : Break

pub record ChainVerification : Type 0 where
  pub checked : ℕ
  pub valid : Bool
  pub broken_at_seq : ℤ
  pub reason : Break

-- The loop; `total` is the number of entries.
unfoldable pub verify_from : Format → ℕ → Bytes → List AuditEntry → ChainVerification
unfolding compute_hash equal_bytes
verify_from f total prev [] = record {
  checked = total;
  valid = true;
  broken_at_seq = pos 0;
  reason = intact;
}
verify_from f total prev (e ∷ rest) =
    if not (equal_bytes (compute_hash f prev e) e.hash)
    then record { checked = total; valid = false; broken_at_seq = e.seq; reason = altered }
    else if not (equal_bytes prev e.prev_hash)
    then record { checked = total; valid = false; broken_at_seq = e.seq; reason = row_missing }
    else verify_from f total e.hash rest

unfoldable pub verify_chain : Format → List AuditEntry → Bytes → ChainVerification
verify_chain f entries start = verify_from f (length entries) start entries
