-- ===== src/Domain/Execution/Output.antt =====
-- Captured output fits its column, and is marked exactly when something was cut.
use aegisops_ai.Base.{
  ℕ, ◌≤◌, ◌<◌, ◌-◌, ◌≡◌, ◌⊎◌, inl, inr, true, Bool-cases, arith, length, length-append,
  length-take-le, leb, leb→le, take, ◌↔◌,
}
use aegisops_ai.Domain.Execution.{
  Bytes, truncate, truncation_notice, max_output_len, Execution, capture_output,
}

length-truncate-le :
    (s : Bytes) (limit : ℕ) → length truncation_notice ≤ limit → length (truncate s limit).0 ≤ limit
unfolding truncate
length-truncate-le s limit h = elim (Bool-cases (leb (length s) limit)) [
  | inl fits ↦ rw fits (leb→le _ _ fits)
  | inr over ↦ rw over (
      omega (
        arith,
        length-append (take (limit - length truncation_notice) s) truncation_notice,
        length-take-le (limit - length truncation_notice) s,
      ))
]

truncate_flag : (s : Bytes) (limit : ℕ) → ((truncate s limit).1 ≡ true) ↔ (limit < length s)
unfolding truncate
truncate_flag s limit = ground arith

-- After CaptureOutput both streams fit max_output_len, and the record says truncated exactly when
-- one of the two was longer than that.
pub capture_output_bounds :
    (stdout stderr : Bytes) (e : Execution)
    → (length (capture_output stdout stderr e).stdout ≤ max_output_len)
      × (length (capture_output stdout stderr e).stderr ≤ max_output_len)
      × (((capture_output stdout stderr e).truncated ≡ true)
          ↔ ((max_output_len < length stdout) ⊎ (max_output_len < length stderr)))
unfolding capture_output
capture_output_bounds stdout stderr e = (
  length-truncate-le stdout max_output_len (omega arith),
  length-truncate-le stderr max_output_len (omega arith),
  ground (arith, truncate_flag stdout max_output_len, truncate_flag stderr max_output_len),
)
