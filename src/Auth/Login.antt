-- ===== src/Auth/Login.antt =====
-- internal/services/auth.go: Login, with the lookup and the two updates of internal/repository/postgres/
-- user_agent.go that it makes. The hasher of passwords and NormaliseEmail are parameters. burn, which
-- only spends time, is left out.
pub mod Refused
use aegisops_ai.Base.{
  ℕ, Bool, true, false, not, ◌&&◌, ◌||◌, ◌==◌, String, List, [], ◌∷◌, Option, none, some,
  if◌then◌else◌, find_first, map, any, str_eq, is_some,
}
use aegisops_ai.Shared.{Uid, Time}
use aegisops_ai.Domain.Execution.{Bytes}
use aegisops_ai.Domain.Audit.{Outcome, executed, denied}
use aegisops_ai.Domain.User.{User, user_validate}
use aegisops_ai.Auth.Token.{RefreshToken}
use aegisops_ai.Auth.Service.{
  AuthWorld, AuthEnv, Request, Reply, Credentials, granted, internal, invalid_credentials,
  record_auth, issue,
}

pub record Hasher : Type 0 where
  -- `none` is a stored digest that cannot be read
  pub verify : String → Bytes → Option Bool
  pub needs_rehash : Bytes → Bool
  pub rehash : String → Option Bytes

has_email : String → User → Bool
has_email email u = str_eq u.email email

-- users.GetByEmail, where the database answers.
pub get_by_email : (String → String) → String → List User → Option User
unfolding has_email find_first
get_by_email normalise email users = find_first (has_email (normalise email)) users

write_user : User → User → User
write_user u row =
    if row.id == u.id
    then record row {
      email = u.email;
      name = u.name;
      role = u.role;
      password_hash = u.password_hash;
      active = u.active;
      updated_at = u.updated_at;
    }
    else row

email_taken : User → User → Bool
email_taken u row = str_eq row.email u.email && not (row.id == u.id)

-- users.Update.
update_user : Bool → User → List User → List User
unfolding write_user email_taken user_validate any
update_user fails u rows =
    if fails || is_some (user_validate u) || any (email_taken u) rows
    then rows
    else map (write_user u) rows

stamp_login : Uid → Time → User → User
stamp_login id at row =
    if row.id == id then record row { last_login_at = some at; updated_at = at } else row

-- users.RecordLogin.
record_login : Bool → Uid → Time → List User → List User
unfolding stamp_login
record_login fails id at rows = if fails then rows else map (stamp_login id at) rows

-- rehashIfNeeded: the world, and the user as it changed it.
rehash_if_needed : Hasher → Request → String → User → AuthWorld → AuthWorld × User
unfolding update_user
rehash_if_needed hasher req password u w =
    if not (hasher.needs_rehash u.password_hash) then (w, u) else elim (hasher.rehash password) [
      | none ↦ (w, u)
      | some digest ↦
          let u' = record u { password_hash = digest; updated_at = req.now } in
          (record w { users = update_user req.write_fails u' w.users }, u')
    ]

-- recordFailure, and the answer.
refused_login : AuthEnv → Request → String → String → AuthWorld → AuthWorld × Reply
unfolding record_auth
refused_login env req email reason w =
    (record_auth env req 0 email "auth.login" denied reason w, invalid_credentials)

after_issue :
    AuthEnv → Request → User → AuthWorld × Option (Credentials × RefreshToken) → AuthWorld × Reply
unfolding record_login record_auth
after_issue env req u (w, none) = (w, internal)
after_issue env req u (w, some (pair, session)) = (
  record_auth env req u.id u.email "auth.login" executed ""
      (record w { users = record_login req.write_fails u.id req.now w.users }),
  granted pair,
)

-- Behind the checks.
enter : Hasher → AuthEnv → Request → String → User → AuthWorld → AuthWorld × Reply
unfolding rehash_if_needed issue after_issue
enter hasher env req password u w =
    let (w', u') = rehash_if_needed hasher req password u w in
    after_issue env req u' (issue env req u' 0 w')

checked :
    Hasher
    → AuthEnv
    → Request
    → String
    → String
    → User
    → Option Bool
    → AuthWorld
    → AuthWorld × Reply
unfolding refused_login enter
checked hasher env req email password u none w =
    refused_login env req email "unverifiable stored hash" w
checked hasher env req email password u (some false) w =
    refused_login env req email "wrong password" w
checked hasher env req email password u (some true) w =
    if not u.active
    then refused_login env req email "account is disabled" w
    else enter hasher env req password u w

on_user : Hasher → AuthEnv → Request → String → String → Option User → AuthWorld → AuthWorld × Reply
unfolding refused_login checked
on_user hasher env req email password none w = refused_login env req email "no such user" w
on_user hasher env req email password (some u) w =
    checked hasher env req email password u (hasher.verify password u.password_hash) w

unfoldable pub login :
    (String → String) → Hasher → AuthEnv → Request → String → String → AuthWorld → AuthWorld × Reply
unfolding get_by_email on_user
login normalise hasher env req email password w =
    let address = normalise email in
    if req.user_unread
    then (w, internal)
    else on_user hasher env req address password (get_by_email normalise address w.users) w
