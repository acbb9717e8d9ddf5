-- ===== src/Domain/Audit.antt =====
-- internal/domain/harness/audit.go: the outcomes that the ledger records.
use aegisops_ai.Base.{Bool, true, false, String}

pub data Outcome : Type 0 where
  allowed denied executed failed dry_run : Outcome
  other : String → Outcome

unfoldable pub outcome_valid : Outcome → Bool
outcome_valid (other _) = false
outcome_valid _ = true

-- string(a.Outcome).
unfoldable pub outcome_text : Outcome → String
outcome_text allowed = "allowed"
outcome_text denied = "denied"
outcome_text executed = "executed"
outcome_text failed = "failed"
outcome_text dry_run = "dry_run"
outcome_text (other s) = s
