-- ===== src/Domain/Execution.antt =====
-- internal/domain/harness/execution.go: the record of what the harness did. Captured output is a
-- list of bytes.
pub mod Output
use aegisops_ai.Base.{
  ℕ, ◌-◌, ◌/◌, ◌+◌, Bool, true, false, not, ◌||◌, ◌&&◌, List, [], ◌∷◌, ◌++◌, Option, none, some,
  if◌then◌else◌, leb, length, take, ℤ, pos, negsuc, sub_ℕ, String, ◌⊎◌, inl, inr,
}
use aegisops_ai.Shared.{
  Uid, Time, says, Err, new_validator, check, not_zero_id, validator_err, ◌▸◌, too_long,
}

pub data ExecStatus : Type 0 where
  succeeded failed timed_out dry_run : ExecStatus
  other : String → ExecStatus

unfoldable pub exec_status_valid : ExecStatus → Bool
exec_status_valid (other _) = false
exec_status_valid _ = true

abbrev pub max_output_len : ℕ
max_output_len = 65536

abbrev pub Bytes : Type 0
Bytes = List ℕ

-- Why an execution failed, without its wording.
pub data Failure : Type 0 where
  no_failure : Failure
  deadline : Failure
  tool_error : String → Failure

pub record Execution : Type 0 where
  pub id : Uid
  pub tool_call_id : Uid
  pub status : ExecStatus
  pub dry : Bool
  pub exit_code : Option ℤ
  pub stdout : Bytes
  pub stderr : Bytes
  pub truncated : Bool
  pub error : Failure
  pub started_at : Time
  pub finished_at : Time
  pub duration_ms : ℤ
  pub created_at : Time

non_negative : ℤ → Bool
non_negative (pos n) = true
non_negative (negsuc n) = false

unfoldable pub validate : Execution → Option Err
unfolding exec_status_valid non_negative
validate e = validator_err (
    new_validator "execution"
    ▸ not_zero_id e.id "id"
    ▸ not_zero_id e.tool_call_id "tool_call_id"
    ▸ check (exec_status_valid e.status) "status"
        (says "must be one of: succeeded, failed, timed_out, dry_run")
    ▸ check (leb (length e.stdout) max_output_len) "stdout"
        (too_long max_output_len (length e.stdout))
    ▸ check (leb (length e.stderr) max_output_len) "stderr"
        (too_long max_output_len (length e.stderr))
    ▸ check (non_negative e.duration_ms) "duration_ms" (says "cannot be negative"))

-- NewExecution: `id` is what shared.NewID draws.
unfoldable pub new_execution : Uid → Time → Uid → ExecStatus → Bool → Execution ⊎ Err
new_execution id now tool_call_id status dry =
    let e : Execution = record {
      id = id;
      tool_call_id = tool_call_id;
      status = status;
      dry = dry;
      exit_code = none;
      stdout = [];
      stderr = [];
      truncated = false;
      error = no_failure;
      started_at = now;
      finished_at = now;
      duration_ms = pos 0;
      created_at = now;
    } in
    elim (validate e) [ none ↦ inl e | some err ↦ inr err ]

-- Duration.Milliseconds: division that drops the fraction, towards zero.
milliseconds : ℤ → ℤ
milliseconds (pos n) = pos (n / 1000000)
milliseconds (negsuc n) = sub_ℕ 0 ((n + 1) / 1000000)

unfoldable pub complete : Time → ExecStatus → Execution → Execution
unfolding milliseconds
complete now status e = record e {
  finished_at = now;
  status = status;
  duration_ms = milliseconds (sub_ℕ now e.started_at);
}

-- The bytes of "\n… [output truncated by AegisOps]"; the ellipsis takes three.
abbrev pub truncation_notice : Bytes
truncation_notice =
    10 ∷ 0xe2 ∷ 0x80 ∷ 0xa6 ∷ b' ' ∷ b'[' ∷ b'o' ∷ b'u' ∷ b't' ∷ b'p' ∷ b'u' ∷ b't' ∷ b' ' ∷ b't'
    ∷ b'r' ∷ b'u' ∷ b'n' ∷ b'c' ∷ b'a' ∷ b't' ∷ b'e' ∷ b'd' ∷ b' ' ∷ b'b' ∷ b'y' ∷ b' ' ∷ b'A'
    ∷ b'e' ∷ b'g' ∷ b'i' ∷ b's' ∷ b'O' ∷ b'p' ∷ b's' ∷ b']' ∷ []

-- `keep := limit - len(notice); if keep < 0 { keep = 0 }` is subtraction that stops at 0.
unfoldable pub truncate : Bytes → ℕ → Bytes × Bool
truncate s limit =
    if leb (length s) limit
    then (s, false)
    else (take (limit - length truncation_notice) s ++ truncation_notice, true)

unfoldable pub capture_output : Bytes → Bytes → Execution → Execution
capture_output stdout stderr e =
    let out = truncate stdout max_output_len in
    let err = truncate stderr max_output_len in
    record e { stdout = out.0; stderr = err.0; truncated = out.1 || err.1 }

is_succeeded : ExecStatus → Bool
is_succeeded succeeded = true
is_succeeded _ = false

unfoldable pub execution_succeeded : Execution → Bool
unfolding is_succeeded
execution_succeeded e = is_succeeded e.status && not e.dry
