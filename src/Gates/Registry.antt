-- ===== src/Gates/Registry.antt =====
-- internal/harness/registry.go, with the descriptors of internal/ports/tools.go: gate one. A Go map
-- is the list of its entries, so where the code ranges over a map the order is the list's.
-- What the code takes from elsewhere is the record `Host`: regexp.Compile, the conversion of
-- numbers to and from float64. The wording of an error is not modelled.
pub mod Values
pub mod Schema
pub mod Startup
use aegisops_ai.Base.{
  ℕ, zero, suc, ◌+◌, ◌%◌, ◌^◌, Bool, true, false, not, ◌&&◌, ◌||◌, String, str_eq, List, [], ◌∷◌,
  ◌++◌, Option, none, some, ltb, leb, ◌==◌, if◌then◌else◌, Float, nan, minus_inf, plus_inf, below,
  num, lt_float, zero_float, ℤ, pos, negsuc, pos_part, length, any, is_blank, is_space, byte_len,
  ◌⊎◌, inl, inr,
}
use Prim.Native.Char.{code}
use Prim.Native.String.{◌++◌ as append}
use text.Mathlib.Text.{starts_with}
use aegisops_ai.Domain.ToolCall.{Value, null, bool, str, float, int, number, Params}

pub data ParamKind : Type 0 where
  string_kind int_kind bool_kind float_kind : ParamKind
  other : String → ParamKind

pub record ParamSpec : Type 0 where
  pub kind : ParamKind
  pub required : Bool
  pub default : Option Value
  pub enum : List String
  pub pattern_text : String
  pub min : Float
  pub max : Float
  pub max_len : ℤ

pub record ActionDescriptor : Type 0 where
  pub params : List (String × ParamSpec)
  pub mutating : Bool
  pub timeout : ℕ

pub record ToolDescriptor : Type 0 where
  pub name : String
  pub actions : List (String × ActionDescriptor)

-- A compiled pattern is its MatchString.
abbrev pub Regexp : Type 0
Regexp = String → Bool

pub record Host : Type 0 where
  pub compile : String → Option Regexp
  pub float_of_int : ℤ → Float
  pub float_of_text : String → Option Float
  pub int64_of_float : Float → ℤ

-- A lookup in a Go map.
unfoldable pub get {ℓ} : {A : Type ℓ} → String → List (String × A) → Option A
get key [] = none
get key ((k, a) ∷ rest) = if str_eq k key then some a else get key rest

-- paramKey.
unfoldable pub param_key : String → String → String → String
param_key tool action param = append tool (append "." (append action (append "." param)))

pub record Registry : Type 0 where
  pub tools : List (String × ToolDescriptor)
  pub compiled : List (String × Regexp)

unfoldable pub new_registry : Registry
new_registry = record { tools = []; compiled = [] }

unfoldable pub lookup_tool : Registry → String → Option ToolDescriptor
unfolding get
lookup_tool r tool = get tool r.tools

action_of : Option ToolDescriptor → String → Option ActionDescriptor
unfolding get
action_of none action = none
action_of (some d) action = get action d.actions

-- Describe.
unfoldable pub describe : Registry → String → String → Option ActionDescriptor
unfolding lookup_tool action_of
describe r tool action = action_of (lookup_tool r tool) action

-- Known.
unfoldable pub known : Registry → String → String → Bool
known r tool action = elim (describe r tool action) [ none ↦ false | some _ ↦ true ]

-- isControl, on a rune.
unfoldable pub is_control : ℕ → Bool
is_control c = ltb c 0x20 || c == 0x7f

-- strings.IndexFunc(s, isControl) >= 0.
unfoldable pub has_control : String → Bool
unfolding is_control
has_control String.[] = false
has_control (String.◌∷◌ c s) = is_control (code c) || has_control s

default_max_param_len : ℕ
default_max_param_len = 4096

abbrev pub max_params : ℕ
max_params = 64

-- `if maxLen <= 0 { maxLen = DefaultMaxParamLen }`.
unfoldable pub len_limit : ℤ → ℕ
unfolding default_max_param_len
len_limit (pos zero) = default_max_param_len
len_limit (pos (suc n)) = suc n
len_limit (negsuc n) = default_max_param_len

is_zero_float : Float → Bool
is_zero_float (num n) = n == 0
is_zero_float _ = false

-- checkRange: true if the value passes.
unfoldable pub in_spec_range : ParamSpec → Float → Bool
unfolding is_zero_float
in_spec_range spec f =
    (is_zero_float spec.min && is_zero_float spec.max)
    || not (lt_float f spec.min || lt_float spec.max f)

-- `f != math.Trunc(f)` is false: a multiple of 2^1074 units, or an infinity.
unfoldable pub is_whole : Float → Bool
is_whole nan = false
is_whole minus_inf = true
is_whole plus_inf = true
is_whole (below n) = (n + 1) % 2 ^ 1074 == 0
is_whole (num n) = n % 2 ^ 1074 == 0

unfoldable pub is_finite : Float → Bool
is_finite nan = false
is_finite minus_inf = false
is_finite plus_inf = false
is_finite _ = true

unfoldable pub to_float : Host → Value → Option Float
to_float host (float f) = some f
to_float host (int n) = some (host.float_of_int n)
to_float host (number s) = host.float_of_text s
to_float host _ = none

unfoldable pub matches : Option Regexp → String → Bool
matches none s = true
matches (some re) s = re s

unfoldable pub no_enum : List String → Bool
no_enum [] = true
no_enum (_ ∷ _) = false

-- The checks on a string, in order.
unfoldable pub string_ok : ParamSpec → Option Regexp → String → Bool
unfolding len_limit has_control matches no_enum any
string_ok spec pat s =
    leb (byte_len s) (len_limit spec.max_len)
    && not (has_control s)
    && (no_enum spec.enum || any (λ v. str_eq v s) spec.enum)
    && matches pat s

int_value : Host → ParamSpec → Option Float → Option Value
unfolding in_spec_range is_whole
int_value host spec none = none
int_value host spec (some f) =
    if is_whole f && in_spec_range spec f then some (int (host.int64_of_float f)) else none

float_value : ParamSpec → Option Float → Option Value
unfolding in_spec_range is_finite
float_value spec none = none
float_value spec (some f) = if is_finite f && in_spec_range spec f then some (float f) else none

-- coerce, by the kind declared and the value given; `none` is a ParamError.
coerce_as : Host → ParamSpec → Option Regexp → ParamKind → Value → Option Value
unfolding string_ok int_value float_value to_float
coerce_as host spec pat string_kind (str s) = if string_ok spec pat s then some (str s) else none
coerce_as host spec pat int_kind v = int_value host spec (to_float host v)
coerce_as host spec pat float_kind v = float_value spec (to_float host v)
coerce_as host spec pat bool_kind (bool b) = some (bool b)
coerce_as host spec pat _ _ = none

unfoldable pub coerce : Host → ParamSpec → Value → Option Regexp → Option Value
unfolding coerce_as
coerce host spec raw pat = coerce_as host spec pat spec.kind raw

-- `raw, present := params[name]; !present || raw == nil`.
unfoldable pub given : Option Value → Option Value
given none = none
given (some null) = none
given (some v) = some v

default_of : Option Value → String → Params
default_of none name = []
default_of (some v) name = (name, v) ∷ []

-- What one declared parameter adds to the result; `none` is a ParamError.
unfoldable pub fill : Host → Option Regexp → String → ParamSpec → Option Value → Option Params
unfolding coerce default_of
fill host pat name spec none = if spec.required then none else some (default_of spec.default name)
fill host pat name spec (some raw) = elim (coerce host spec raw pat) [
  | none ↦ none
  | some v ↦ some ((name, v) ∷ [])
]

abbrev both : Option Params → Option Params → Option Params
both (some xs) (some ys) = some (xs ++ ys)
both none _ = none
both (some _) none = none

-- The loop over the declared parameters.
unfoldable pub fill_all :
    Host → Registry → String → String → List (String × ParamSpec) → Params → Option Params
unfolding fill given get param_key
fill_all host r tool action [] params = some []
fill_all host r tool action ((name, spec) ∷ rest) params =
    both
      (fill host (get (param_key tool action name) r.compiled) name spec (given (get name params)))
      (fill_all host r tool action rest params)

unfoldable pub declared : List (String × ParamSpec) → String → Bool
unfolding get
declared specs name = elim (get name specs) [ none ↦ false | some _ ↦ true ]

unfoldable pub any_undeclared : List (String × ParamSpec) → Params → Bool
unfolding declared
any_undeclared specs [] = false
any_undeclared specs ((name, _) ∷ rest) = not (declared specs name) || any_undeclared specs rest

-- ValidateParams against the declaration that was found.
unfoldable pub validate_against :
    Host → Registry → String → String → Params → Option ActionDescriptor → Option Params
validate_against host r tool action params none = none
validate_against host r tool action params (some ad) =
    if ltb max_params (length params)
    then none
    else if any_undeclared ad.params params
    then none
    else fill_all host r tool action ad.params params

-- ValidateParams; `none` is a ParamError.
unfoldable pub validate_params : Host → Registry → String → String → Params → Option Params
validate_params host r tool action params =
    validate_against host r tool action params (describe r tool action)

known_kind : ParamKind → Bool
known_kind (ParamKind.other _) = false
known_kind _ = true

is_string_kind : ParamKind → Bool
is_string_kind string_kind = true
is_string_kind _ = false

has_default : Option Value → Bool
has_default none = false
has_default (some _) = true

-- validateSpec: true if it returns no error.
unfoldable pub validate_spec : String → ParamSpec → Bool
unfolding known_kind is_string_kind has_default no_enum
validate_spec name spec =
    not (is_blank name)
    && known_kind spec.kind
    && not (spec.required && has_default spec.default)
    && (no_enum spec.enum || is_string_kind spec.kind)
    && (str_eq spec.pattern_text "" || is_string_kind spec.kind)
    && not (lt_float spec.max spec.min)

-- strings.HasSuffix(s, "$").
ends_in_dollar : String → Bool
ends_in_dollar String.[] = false
ends_in_dollar (String.◌∷◌ c String.[]) = code c == b'$'
ends_in_dollar (String.◌∷◌ c (String.◌∷◌ d s)) = ends_in_dollar (String.◌∷◌ d s)

unfoldable pub anchor : String → String
unfolding ends_in_dollar
anchor p =
    let front = if starts_with p "^" then p else append "^" p in
    if ends_in_dollar front then front else append front "$"

-- The patterns of one action; `none` is an error of Register.
compile_params :
    Host → String → String → List (String × ParamSpec) → Option (List (String × Regexp))
unfolding validate_spec anchor param_key
compile_params host tool action [] = some []
compile_params host tool action ((name, spec) ∷ rest) =
    let more = compile_params host tool action rest in
    if not (validate_spec name spec)
    then none
    else if str_eq spec.pattern_text ""
    then more
    else elim (host.compile (anchor spec.pattern_text)) [
      | none ↦ none
      | some re ↦ elim more [
        | none ↦ none
        | some res ↦ some ((param_key tool action name, re) ∷ res)
      ]
    ]

unfoldable pub compile_actions :
    Host → String → List (String × ActionDescriptor) → Option (List (String × Regexp))
unfolding compile_params
compile_actions host tool [] = some []
compile_actions host tool ((action, ad) ∷ rest) =
    let more = compile_actions host tool rest in
    if is_blank action then none else elim (compile_params host tool action ad.params) [
      | none ↦ none
      | some here ↦ elim more [ none ↦ none | some res ↦ some (here ++ res) ]
    ]

unfoldable pub no_actions : List (String × ActionDescriptor) → Bool
no_actions [] = true
no_actions (_ ∷ _) = false

-- Register: the new registry, and whether it returned no error.
unfoldable pub register : Host → ToolDescriptor → Registry → Registry × Bool
unfolding no_actions
register host d r =
    if is_blank d.name || no_actions d.actions
    then (r, false)
    else elim (compile_actions host d.name d.actions) [
      | none ↦ (r, false)
      | some patterns ↦ elim (lookup_tool r d.name) [
        | some _ ↦ (r, false)
        | none ↦ (record { tools = (d.name, d) ∷ r.tools; compiled = patterns ++ r.compiled }, true)
      ]
    ]
