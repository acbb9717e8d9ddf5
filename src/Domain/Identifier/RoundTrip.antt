-- ===== src/Domain/Identifier/RoundTrip.antt =====
-- An identifier survives its text form, and the database.
use aegisops_ai.Base.{
  ℕ, zero, suc, ◌+◌, ◌*◌, ◌/◌, ◌%◌, ◌^◌, ◌<◌, ◌≡◌, refl, ap, ◌∙◌, inl, inr, Bool-cases, [], ◌∷◌,
  some, arith,
}
use native.Mathlib.Numerals.{unary_clauses}
use aegisops_ai.Shared.{Uid, is_zero_id}
use aegisops_ai.Domain.Execution.{Bytes}
use aegisops_ai.Domain.Identifier.{
  hex_char, hex_digits, hex_value, to_lower, id_string, decode_hex, parse_id, value, scan,
}

hex_value-hex_char : (d : ℕ) → d < 16 → hex_value (to_lower (hex_char d)) ≡ some d
unfolding hex_value to_lower hex_char
hex_value-hex_char d h = ground (arith, h)

decode_hex-hex_char :
    (a d : ℕ) (rest : Bytes)
    → d < 16
    → decode_hex a (hex_char d ∷ rest) ≡ decode_hex (a * 16 + d) rest
unfolding decode_hex
decode_hex-hex_char a d rest h = rw (hex_value-hex_char d h, decode_hex) refl

power : (k : ℕ) → 16 ^ suc k ≡ 16 ^ k * 16
power k = simp unary_clauses (omega arith)

shifted : (a p i : ℕ) → (a * p + i / 16) * 16 + i % 16 ≡ a * (p * 16) + i
shifted a p i = grind arith

decode_hex-hex_digits :
    (k a i : ℕ) (rest : Bytes)
    → i < 16 ^ k
    → decode_hex a (hex_digits k i rest) ≡ decode_hex (a * 16 ^ k + i) rest
unfolding hex_digits
decode_hex-hex_digits zero a i rest h = ap (λ n. decode_hex n rest) (omega arith)
decode_hex-hex_digits (suc k) a i rest h =
    let e = power k in
    decode_hex-hex_digits k a (i / 16) (hex_char (i % 16) ∷ rest) (omega arith)
    ∙ decode_hex-hex_char (a * 16 ^ k + i / 16) (i % 16) rest (omega arith)
    ∙ ap (λ n. decode_hex n rest) (rw e (shifted a (16 ^ k) i))

parse_id-id_string : (i : Uid) → i < 2 ^ 128 → parse_id (id_string i) ≡ some i
unfolding parse_id id_string
parse_id-id_string i h =
    let e : 0 * 16 ^ 32 + i ≡ i = omega arith in
    decode_hex-hex_digits 32 0 i [] (omega arith) ∙ ap some e

-- Every identifier that the database is given, the unset one included, is read back as it was.
pub scan-value : (i : Uid) → i < 2 ^ 128 → scan (value i) ≡ some i
unfolding scan value
scan-value i h = elim (Bool-cases (is_zero_id i)) [
  | inl unset ↦ ground (arith, unset)
  | inr set ↦ rw set (parse_id-id_string i h)
]
