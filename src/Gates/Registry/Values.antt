-- ===== src/Gates/Registry/Values.antt =====
-- What coerce demands of a value and makes of it, by the kind that is declared, said of the value
-- itself and not by the checks of the code.
use aegisops_ai.Base.{
  ℕ, suc, ◌+◌, ◌*◌, ◌^◌, ◌/◌, ◌≤◌, ◌≡◌, ◌≢◌, refl, ◌⊎◌, inl, inr, Bool, true, false, Bool-cases,
  Option, none, some, arith, String, List, [], ◌∷◌, In, byte_len, code, Float, nan, minus_inf,
  plus_inf, below, num, lt_float, pos, pos_part, any, str_eq, str_eq_iff,
}
use aegisops_ai.Domain.ToolCall.{Value, bool, str, float, int}
use aegisops_ai.Gates.Registry.{
  Host, ParamSpec, ParamKind, string_kind, int_kind, bool_kind, float_kind, Regexp, coerce,
  coerce_as, has_control, is_control, len_limit, matches, string_ok, no_enum, is_whole, is_finite,
  in_spec_range, is_zero_float, to_float, int_value, float_value,
}

-- No control character: below the space, or DEL.
abbrev pub Printable : String → Type 0
Printable String.[] = Unit
Printable (String.◌∷◌ c s) = (0x20 ≤ code c) × (code c ≢ 0x7f) × Printable s

has_control-Printable : (s : String) → has_control s ≡ false → Printable s
unfolding has_control is_control
has_control-Printable String.[] h = tt
has_control-Printable (String.◌∷◌ c s) h =
    (ground arith, ground arith, has_control-Printable s (ground arith))

-- What a text must satisfy: its length in bytes, 4096 where none is declared, its characters, the
-- pattern where there is one, and the enumeration unless it is empty.
pub record SafeText (spec : ParamSpec) (pat : Option Regexp) (s : String) : Type 0 where
  pub short : (n : ℕ) → spec.max_len ≡ pos (suc n) → byte_len s ≤ suc n
  pub short_by_default : pos_part spec.max_len ≡ 0 → byte_len s ≤ 4096
  pub printable : Printable s
  pub formatted : (re : Regexp) → pat ≡ some re → re s ≡ true
  pub listed : (spec.enum ≡ []) ⊎ In s spec.enum

any-In : (s : String) (vs : List String) → any (λ v. str_eq v s) vs ≡ true → In s vs
unfolding any
any-In s [] h = cc
any-In s (v ∷ vs) h = elim (Bool-cases (str_eq v s)) [
  | inl same ↦ inl (ground (arith, str_eq_iff v s))
  | inr other ↦ inr (any-In s vs (rw other at h))
]

listed-In :
    (s : String) (enum : List String)
    → (no_enum enum ≡ true) ⊎ (any (λ v. str_eq v s) enum ≡ true)
    → (enum ≡ []) ⊎ In s enum
unfolding no_enum
listed-In s [] h = inl refl
listed-In s (v ∷ vs) (inl e) = cc
listed-In s (v ∷ vs) (inr e) = inr (any-In s (v ∷ vs) e)

short_enough :
    (spec : ParamSpec) (s : String)
    → byte_len s ≤ len_limit spec.max_len
    → ((n : ℕ) → spec.max_len ≡ pos (suc n) → byte_len s ≤ suc n)
      × (pos_part spec.max_len ≡ 0 → byte_len s ≤ 4096)
unfolding len_limit
short_enough spec s h = ((λ n e. ground (arith, e)), (λ e. ground (arith, e)))

string_ok-SafeText :
    (spec : ParamSpec) (pat : Option Regexp) (s : String)
    → string_ok spec pat s ≡ true
    → SafeText spec pat s
unfolding string_ok matches
string_ok-SafeText spec pat s h =
    let few = short_enough spec s (ground arith) in
    record {
      short = few.0;
      short_by_default = few.1;
      printable = has_control-Printable s (ground arith);
      formatted = λ re e. ground (arith, e);
      listed = listed-In s spec.enum (ground arith);
    }

-- Within the declared bounds, unless both are zero.
pub record Bounded (spec : ParamSpec) (x : Float) : Type 0 where
  pub within :
      ((spec.min ≡ num 0) × (spec.max ≡ num 0))
      ⊎ ((lt_float x spec.min ≡ false) × (lt_float spec.max x ≡ false))

zero_bound : (x : Float) → is_zero_float x ≡ true → x ≡ num 0
unfolding is_zero_float
zero_bound x h = ground arith

in_spec_range-Bounded :
    (spec : ParamSpec) (x : Float) → in_spec_range spec x ≡ true → Bounded spec x
unfolding in_spec_range
in_spec_range-Bounded spec x h = elim (Bool-cases (is_zero_float spec.min)) [
  | inl lo ↦ elim (Bool-cases (is_zero_float spec.max)) [
    | inl hi ↦ record { within = inl (zero_bound spec.min lo, zero_bound spec.max hi) }
    | inr hi ↦ record { within = inr (ground arith) }
  ]
  | inr lo ↦ record { within = inr (ground arith) }
]

-- A whole number, or an infinity, which math.Trunc leaves as it is.
abbrev pub Whole : Float → Type 0
Whole nan = ⊥
Whole (num n) = (k : ℕ) × (n ≡ k * 2 ^ 1074)
Whole (below n) = (k : ℕ) × (n + 1 ≡ k * 2 ^ 1074)
Whole _ = Unit

is_whole-Whole : (x : Float) → is_whole x ≡ true → Whole x
unfolding is_whole
is_whole-Whole nan h = cc
is_whole-Whole minus_inf h = tt
is_whole-Whole plus_inf h = tt
is_whole-Whole (num n) h = (n / 2 ^ 1074, ground arith)
is_whole-Whole (below n) h = ((n + 1) / 2 ^ 1074, ground arith)

-- What must hold of the value given, and of the one that the tool gets, for each kind. JSON makes a
-- number a float, so an integer is given as a number of any form.
pub Meets : Host → ParamSpec → Option Regexp → ParamKind → Value → Value → Type 0
Meets host spec pat string_kind raw v =
    (s : String) × (raw ≡ str s) × (v ≡ str s) × SafeText spec pat s
Meets host spec pat int_kind raw v =
    (x : Float) × (to_float host raw ≡ some x)
    × (v ≡ int (host.int64_of_float x))
    × Whole x
    × Bounded spec x
Meets host spec pat float_kind raw v =
    (x : Float) × (to_float host raw ≡ some x)
    × (v ≡ float x)
    × (x ≢ nan)
    × (x ≢ minus_inf)
    × (x ≢ plus_inf)
    × Bounded spec x
Meets host spec pat bool_kind raw v = (b : Bool) × (raw ≡ bool b) × (v ≡ bool b)
Meets host spec pat (ParamKind.other _) raw v = ⊥

int_value-Meets :
    (host : Host) (spec : ParamSpec) (pat : Option Regexp) (raw v : Value) (o : Option Float)
    → to_float host raw ≡ o
    → int_value host spec o ≡ some v
    → Meets host spec pat int_kind raw v
unfolding int_value Meets
int_value-Meets host spec pat raw v none e h = cc
int_value-Meets host spec pat raw v (some x) e h = elim (Bool-cases (is_whole x)) [
  | inl whole ↦ elim (Bool-cases (in_spec_range spec x)) [
    | inl range ↦ (x, e, ground arith, is_whole-Whole x whole, in_spec_range-Bounded spec x range)
    | inr out ↦ cc (rw (whole, out, int_value) at h)
  ]
  | inr part ↦ cc (rw (part, int_value) at h)
]

float_value-Meets :
    (host : Host) (spec : ParamSpec) (pat : Option Regexp) (raw v : Value) (o : Option Float)
    → to_float host raw ≡ o
    → float_value spec o ≡ some v
    → Meets host spec pat float_kind raw v
unfolding float_value is_finite Meets
float_value-Meets host spec pat raw v none e h = cc
float_value-Meets host spec pat raw v (some nan) e h = cc
float_value-Meets host spec pat raw v (some minus_inf) e h = cc
float_value-Meets host spec pat raw v (some plus_inf) e h = cc
float_value-Meets host spec pat raw v (some x) e h = elim (Bool-cases (in_spec_range spec x)) [
  | inl range ↦ (
    x,
    e,
    ground arith,
    (λ q. ground (arith, q)),
    (λ q. ground (arith, q)),
    (λ q. ground (arith, q)),
    in_spec_range-Bounded spec x range,
  )
  | inr out ↦ ground arith
]

coerce_as-Meets :
    (host : Host) (spec : ParamSpec) (pat : Option Regexp) (kind : ParamKind) (raw v : Value)
    → coerce_as host spec pat kind raw ≡ some v
    → Meets host spec pat kind raw v
unfolding coerce_as Meets
coerce_as-Meets host spec pat string_kind (str s) v h = elim (Bool-cases (string_ok spec pat s)) [
  | inl good ↦ (s, refl, ground arith, string_ok-SafeText spec pat s good)
  | inr bad ↦ cc (rw bad at h)
]
coerce_as-Meets host spec pat string_kind _ v h = cc
coerce_as-Meets host spec pat int_kind raw v h =
    int_value-Meets host spec pat raw v (to_float host raw) refl h
coerce_as-Meets host spec pat float_kind raw v h =
    float_value-Meets host spec pat raw v (to_float host raw) refl h
coerce_as-Meets host spec pat bool_kind (bool b) v h = (b, refl, ground arith)
coerce_as-Meets host spec pat bool_kind _ v h = cc
coerce_as-Meets host spec pat (ParamKind.other _) raw v h = cc

pub coerce-Meets :
    (host : Host) (spec : ParamSpec) (raw v : Value) (pat : Option Regexp)
    → coerce host spec raw pat ≡ some v
    → Meets host spec pat spec.kind raw v
unfolding coerce
coerce-Meets host spec raw v pat h = coerce_as-Meets host spec pat spec.kind raw v h

-- A float is accepted as an unbounded integer whether or not it is finite.
coerce_infinite :
    (host : Host) (spec : ParamSpec) (pat : Option Regexp)
    → spec.kind ≡ int_kind
    → spec.min ≡ num 0
    → spec.max ≡ num 0
    → coerce host spec (float plus_inf) pat ≡ some (int (host.int64_of_float plus_inf))
unfolding coerce to_float is_whole in_spec_range is_zero_float
coerce_infinite host spec pat k lo hi = ground arith
