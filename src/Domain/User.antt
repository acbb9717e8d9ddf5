-- ===== src/Domain/User.antt =====
-- internal/domain/user/user.go: users, their roles, and what a role may approve. NormaliseEmail, on all
-- of Unicode, is not modelled.
use aegisops_ai.Base.{
  ℕ, Bool, true, false, not, ◌&&◌, ◌||◌, leb, ◌==◌, String, Option, none, some, if◌then◌else◌, code,
  str_eq, List, ◌⊎◌, inl, inr,
}
use aegisops_ai.Shared.{
  Uid, Time, Err, says, new_validator, check, required, max_len, not_zero_id, validator_err, ◌▸◌,
}
use aegisops_ai.Domain.Execution.{Bytes}
use aegisops_ai.Domain.ToolCall.{Risk, low, medium, high, forbidden}

pub data Role : Type 0 where
  viewer operator admin : Role
  other : String → Role

unfoldable pub role_valid : Role → Bool
role_valid (other _) = false
role_valid _ = true

unfoldable pub role_rank : Role → ℕ
role_rank viewer = 1
role_rank operator = 2
role_rank admin = 3
role_rank (other _) = 0

unfoldable pub at_least : Role → Role → Bool
unfolding role_rank role_valid
at_least r needed = leb (role_rank needed) (role_rank r) && role_valid r

is_admin : Role → Bool
is_admin admin = true
is_admin _ = false

-- Role.CanApprove, on the tier that the text spells.
unfoldable pub can_approve : Role → Risk → Bool
unfolding at_least is_admin
can_approve r forbidden = false
can_approve r high = is_admin r
can_approve r medium = at_least r operator
can_approve r low = at_least r operator
can_approve r (Risk.other _) = false

abbrev pub max_email_len : ℕ
max_email_len = 320

abbrev pub max_name_len : ℕ
max_name_len = 200

pub record User : Type 0 where
  pub id : Uid
  pub email : String
  pub name : String
  pub role : Role
  pub password_hash : Bytes
  pub active : Bool
  pub last_login_at : Option Time
  pub created_at : Time
  pub updated_at : Time

-- strings.Cut at an @; `none` where there is none.
cut_at : String → Option (String × String)
cut_at String.[] = none
cut_at (String.◌∷◌ c s) =
    let rest = cut_at s in
    if code c == 64
    then some ("", s)
    else elim rest [ none ↦ none | some (before, after) ↦ some (String.◌∷◌ c before, after) ]

has_char : (ℕ → Bool) → String → Bool
has_char p String.[] = false
has_char p (String.◌∷◌ c s) = p (code c) || has_char p s

is_gap : ℕ → Bool
is_gap c = c == 32 || c == 9 || c == 10 || c == 13

-- The text ends in a dot and something: the last dot is not the last character.
dot_inside : String → Bool
dot_inside String.[] = false
dot_inside (String.◌∷◌ c s) =
    if has_char (λ d. d == 46) s then dot_inside s else code c == 46 && not (str_eq s "")

-- The last dot is neither the first nor the last character.
dotted : String → Bool
unfolding dot_inside has_char
dotted String.[] = false
dotted (String.◌∷◌ c s) = has_char (λ d. d == 46) s && dot_inside s

unfoldable pub plausible_email : String → Bool
unfolding cut_at has_char is_gap dotted
plausible_email s = elim (cut_at s) [
  | none ↦ false
  | some (local, domain) ↦
      not (str_eq local "")
      && not (str_eq domain "")
      && not (has_char (λ d. d == 64) domain)
      && not (has_char is_gap s)
      && dotted domain
]

unfoldable pub user_validate : User → Option Err
unfolding plausible_email
user_validate u = validator_err (
    new_validator "user"
    ▸ not_zero_id u.id "id"
    ▸ required u.email "email"
    ▸ max_len u.email "email" max_email_len
    ▸ check (plausible_email u.email) "email" (says "is not a plausible address")
    ▸ max_len u.name "name" max_name_len
    ▸ check (role_valid u.role) "role" (says "must be one of: viewer, operator, admin"))

-- New, of an address that NormaliseEmail gave.
unfoldable pub new_user : Uid → Time → String → String → Role → User ⊎ Err
unfolding user_validate
new_user id now email name role =
    let u : User = record {
      id = id;
      email = email;
      name = name;
      role = role;
      password_hash = List.[];
      active = true;
      last_login_at = none;
      created_at = now;
      updated_at = now;
    } in
    elim (user_validate u) [ none ↦ inl u | some e ↦ inr e ]
