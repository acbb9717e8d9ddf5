-- ===== src/Shared.antt =====
-- internal/domain/shared: identifiers, the error sentinels, and the validator that collects every
-- field error of an entity. An identifier is its 128-bit value, an instant its nanoseconds since
-- the zero time, so 0 is the unset identifier and the zero time. Clock readings are arguments.
-- The wording of an error is not modelled beyond its kind, its fields and their bounds.
use aegisops_ai.Base.{
  ℕ, leb, ◌==◌, ◌≡◌, refl, ◌≢◌, ◌↔◌, Bool, true, false, not, String, List, [], ◌∷◌, ◌++◌, Option,
  none, some, if◌then◌else◌, Float, le_float, ◌&&◌, is_blank, byte_len,
}

abbrev pub Uid : Type 0
Uid = ℕ

-- ID.IsZero.
abbrev pub is_zero_id : Uid → Bool
is_zero_id i = i == 0

abbrev pub Time : Type 0
Time = ℕ

-- time.Time.IsZero.
abbrev pub is_zero_time : Time → Bool
is_zero_time t = t == 0

pub data Message : Type 0 where
  is_required : Message
  too_long : ℕ → ℕ → Message
  not_between : Float → Float → Float → Message
  says : String → Message

pub record FieldError : Type 0 where
  pub field : String
  pub message : Message

-- The sentinels; a validation error wraps its own and names the fields.
pub data Err : Type 0 where
  not_found : Err
  already_exists : Err
  conflict : Err
  validation : String → List FieldError → Err
  forbidden : Err

pub record Validator : Type 0 where
  pub entity : String
  pub fields : List FieldError

unfoldable pub new_validator : String → Validator
new_validator entity = record { entity = entity; fields = [] }

unfoldable pub check : Bool → String → Message → Validator → Validator
check cond field message v =
    if cond
    then v
    else record v { fields = v.fields ++ record { field = field; message = message } ∷ [] }

unfoldable pub required : String → String → Validator → Validator
unfolding check
required value field = check (not (is_blank value)) field is_required

unfoldable pub max_len : String → String → ℕ → Validator → Validator
unfolding check
max_len value field limit =
    check (leb (byte_len value) limit) field (too_long limit (byte_len value))

unfoldable pub in_range : Float → String → Float → Float → Validator → Validator
unfolding check
in_range value field low high =
    check (le_float low value && le_float value high) field (not_between low high value)

unfoldable pub not_zero_id : Uid → String → Validator → Validator
unfolding check
not_zero_id id field = check (not (is_zero_id id)) field is_required

err_of : String → List FieldError → Option Err
err_of entity [] = none
err_of entity (f ∷ fs) = some (validation entity (f ∷ fs))

unfoldable pub validator_err : Validator → Option Err
unfolding err_of
validator_err v = err_of v.entity v.fields

-- The calls `v.Required(…); v.MaxLen(…)` in order.
infixl 20 ◌▸◌
abbrev pub ◌▸◌ : Validator → (Validator → Validator) → Validator
v ▸ f = f v

err_of-append :
    (entity : String) (fs : List FieldError) (f : FieldError) → err_of entity (fs ++ f ∷ []) ≢ none
unfolding err_of
err_of-append entity [] f h = cc
err_of-append entity (g ∷ fs) f h = cc

-- An entity passes exactly when every check of it passed.
pub validator_err-check :
    (cond : Bool) (field : String) (message : Message) (v : Validator)
    → (validator_err (check cond field message v) ≡ none)
      ↔ ((cond ≡ true) × (validator_err v ≡ none))
unfolding check validator_err err_of
validator_err-check true field message v = (λ h. (refl, h), λ h. h.1)
validator_err-check false field message v =
    (λ h. absurd (err_of-append v.entity v.fields _ h), λ h. cc)

pub validator_err-new : (entity : String) → validator_err (new_validator entity) ≡ none
unfolding validator_err new_validator err_of
validator_err-new entity = refl
