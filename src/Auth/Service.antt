-- ===== src/Auth/Service.antt =====
-- internal/services/auth.go: Refresh, Logout and LogoutAll, issue and recordAudit. The signer of access
-- tokens and the digest are parameters; what the database refuses, the clock and the random values are
-- arguments, and so is the user agent as truncate leaves it.
pub mod Sound
use aegisops_ai.Base.{
  ℕ, Bool, true, false, not, ◌==◌, String, List, Option, none, some, if◌then◌else◌, find_first,
}
use aegisops_ai.Shared.{Uid, Time, is_zero_id}
use aegisops_ai.Domain.Execution.{Bytes}
use aegisops_ai.Domain.Audit.{Outcome, executed, denied}
use aegisops_ai.Domain.Chain.{Format, AuditEntry, new_audit_entry}
use aegisops_ai.Domain.User.{User}
use aegisops_ai.Storage.Ledger.{Fault, append}
use aegisops_ai.Auth.Token.{
  RefreshToken, Draw, new_refresh_token, usable, TokenError, token_replayed,
}
use aegisops_ai.Auth.Sessions.{
  Table, SessionError, conflict, create, get_by_hash, rotate, revoke_family, revoke_all_for_user,
  revoke,
}

pub record AuthWorld : Type 0 where
  pub users : List User
  pub sessions : Table
  pub ledger : List AuditEntry

pub record AuthEnv : Type 0 where
  pub format : Format
  pub hash : String → Bytes
  -- the access token and its expiry
  pub sign : User → Time → Option (String × Time)
  pub refresh_ttl : ℕ
  pub has_audit : Bool

-- One request, and what goes wrong during it.
pub record Request : Type 0 where
  pub ip : String
  pub user_agent : String
  pub request_id : String
  pub now : Time
  pub draw : Draw
  pub entry_id : Uid
  pub session_unread : Bool
  pub user_unread : Bool
  pub mint_fails : Bool
  pub write_fails : Bool
  pub revoke_fails : Bool
  pub ledger_fault : Fault

pub record Credentials : Type 0 where
  pub access_token : String
  pub refresh_token : String
  pub expires_at : Time
  pub token_type : String
  pub user : User

pub data Reply : Type 0 where
  granted : Credentials → Reply
  -- the one answer to every token that is not valid
  unauthorized : Reply
  -- the one answer to every failed login
  invalid_credentials : Reply
  internal : Reply

-- recordAudit.
unfoldable pub record_auth :
    AuthEnv → Request → Uid → String → String → Outcome → String → AuthWorld → AuthWorld
unfolding new_audit_entry append
record_auth env req actor name action outcome reason w = if not env.has_audit then w else record w {
  ledger =
      (append env.format req.ledger_fault
        (record (new_audit_entry req.entry_id req.now "user" name action outcome) {
          actor_id = actor;
          reason = reason;
          request_id = req.request_id;
          resource_type = "session";
        })
        w.ledger).0;
}

with_id : Uid → User → Bool
with_id id u = u.id == id

-- users.Get; `none` is any error of it.
unfoldable pub get_user : Request → Uid → AuthWorld → Option User
unfolding with_id find_first
get_user req id w = if req.user_unread then none else find_first (with_id id) w.users

session_for : AuthEnv → Request → User → Uid → RefreshToken
unfolding new_refresh_token
session_for env req u family =
    record (new_refresh_token env.hash req.draw u.id family env.refresh_ttl) {
      issued_ip = req.ip;
      user_agent = req.user_agent;
    }

credentials : Request → User → String → Time → Credentials
credentials req u access expiry = record {
  access_token = access;
  refresh_token = req.draw.plaintext;
  expires_at = expiry;
  token_type = "Bearer";
  user = u;
}

-- issue, on a refresh: the pair and the record that Rotate stores. On a login, whose family is
-- unset, the record is stored at once.
unfoldable pub issue :
    AuthEnv → Request → User → Uid → AuthWorld → AuthWorld × Option (Credentials × RefreshToken)
unfolding session_for credentials create
issue env req u family w = elim (env.sign u req.draw.at) [
  | none ↦ (w, none)
  | some (access, expiry) ↦
      let session = session_for env req u family in
      let pair = credentials req u access expiry in
      if req.mint_fails
      then (w, none)
      else if is_zero_id family
      then (let (rows, failure) = create req.write_fails session w.sessions in
          (
            record w { sessions = rows },
            elim failure [ none ↦ some (pair, session) | some _ ↦ none ],
          ))
      else (w, some (pair, session))
]

-- The answer to what Rotate says.
rotated : Credentials → Option SessionError → Reply
rotated pair none = granted pair
rotated pair (some conflict) = unauthorized
rotated pair (some _) = internal

exchange :
    Request → RefreshToken → AuthWorld × Option (Credentials × RefreshToken) → AuthWorld × Reply
unfolding rotate rotated
exchange req rec (w, none) = (w, internal)
exchange req rec (w, some (pair, session)) =
    let (rows, failure) = rotate req.write_fails rec.id session w.sessions in
    (record w { sessions = rows }, rotated pair failure)

-- Behind the check of the token.
for_user : AuthEnv → Request → RefreshToken → Option User → AuthWorld → AuthWorld × Reply
unfolding issue exchange revoke_all_for_user
for_user env req rec none w = (w, unauthorized)
for_user env req rec (some u) w =
    if not u.active
    then (
      record w {
        sessions =
            (revoke_all_for_user req.revoke_fails u.id "account deactivated" req.now w.sessions).0;
      },
      unauthorized,
    )
    else exchange req rec (issue env req u rec.family_id w)

-- A token that was already rotated: its whole family is revoked.
replayed : AuthEnv → Request → RefreshToken → AuthWorld → AuthWorld
unfolding record_auth revoke_family
replayed env req rec w =
    record_auth env req rec.user_id "" "auth.token_replay_detected" denied
      "a rotated refresh token was presented again; the token family was revoked"
      (record w {
        sessions =
            (revoke_family req.revoke_fails rec.family_id "a rotated refresh token was replayed"
              req.now w.sessions).0;
      })

by_state : AuthEnv → Request → RefreshToken → Option TokenError → AuthWorld → AuthWorld × Reply
unfolding get_user for_user replayed
by_state env req rec none w = for_user env req rec (get_user req rec.user_id w) w
by_state env req rec (some token_replayed) w = (replayed env req rec w, unauthorized)
by_state env req rec (some _) w = (w, unauthorized)

on_session : AuthEnv → Request → Option RefreshToken → AuthWorld → AuthWorld × Reply
unfolding usable by_state
on_session env req none w = (w, unauthorized)
on_session env req (some rec) w = by_state env req rec (usable req.now rec) w

unfoldable pub refresh : AuthEnv → Request → String → AuthWorld → AuthWorld × Reply
unfolding get_by_hash on_session
refresh env req plaintext w =
    if req.session_unread
    then (w, internal)
    else on_session env req (get_by_hash (env.hash plaintext) w.sessions) w

-- Logout; the answer is that it returned no error.
unfoldable pub logout : AuthEnv → Request → String → AuthWorld → AuthWorld × Bool
unfolding get_by_hash revoke record_auth
logout env req plaintext w =
    if req.session_unread then (w, false) else elim (get_by_hash (env.hash plaintext) w.sessions) [
      | none ↦ (w, true)
      | some rec ↦
          let (rows, count) = revoke req.revoke_fails rec.id "logout" req.now w.sessions in
          elim count [
            | none ↦ (record w { sessions = rows }, false)
            | some _ ↦ (
              record_auth env req rec.user_id "" "auth.logout" executed ""
                  (record w { sessions = rows }),
              true,
            )
          ]
    ]

-- LogoutAll.
unfoldable pub logout_all : AuthEnv → Request → Uid → String → AuthWorld → AuthWorld × Option ℕ
unfolding revoke_all_for_user record_auth
logout_all env req user reason w =
    let (rows, count) = revoke_all_for_user req.revoke_fails user reason req.now w.sessions in
    elim count [
      | none ↦ (record w { sessions = rows }, none)
      | some n ↦ (
        record_auth env req user "" "auth.logout_all" executed "" (record w { sessions = rows }),
        some n,
      )
    ]
