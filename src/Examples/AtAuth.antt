-- ===== src/Examples/AtAuth.antt =====
-- The theorems on refresh tokens.
use aegisops_ai.Base.{
  ℕ, ◌≡◌, refl, ◌≤◌, Bool, true, false, String, List, [], ◌∷◌, Option, none, some, All, In,
  byte_len, str_eq, arith, subst, sym, ◌∙◌,
}
use aegisops_ai.Shared.{Time, is_zero_id}
use aegisops_ai.Domain.Execution.{Bytes}
use aegisops_ai.Domain.User.{User, operator}
use aegisops_ai.Auth.Token.{RefreshToken, Draw, usable, new_refresh_token}
use aegisops_ai.Auth.Sessions.{get_by_hash, inserted, rotate, revoke_all_for_user, in_family}
use aegisops_ai.Auth.Sessions.Redeemed.{rotates, revokes_family, redemptions, redeemed_once}
use aegisops_ai.Auth.Sessions.Revoked.{Dead, revocation_lost}
use aegisops_ai.Auth.Service.{AuthWorld, AuthEnv, Request, Credentials, unauthorized, refresh}
use aegisops_ai.Auth.Service.Sound.{Redeemed, refresh_granted, replay_revokes}
use aegisops_ai.Auth.Login.{Hasher, login}
use aegisops_ai.Auth.Login.Refused.{Entitled, Refusal, login_refused}
use aegisops_ai.Examples.AtStorage.{format}

-- 32 bytes that tell short texts of different lengths apart.
abbrev hash : String → Bytes
hash s =
    byte_len s
    ∷ 2
    ∷ 3
    ∷ 4
    ∷ 5
    ∷ 6
    ∷ 7
    ∷ 8
    ∷ 1
    ∷ 2
    ∷ 3
    ∷ 4
    ∷ 5
    ∷ 6
    ∷ 7
    ∷ 8
    ∷ 1
    ∷ 2
    ∷ 3
    ∷ 4
    ∷ 5
    ∷ 6
    ∷ 7
    ∷ 8
    ∷ 1
    ∷ 2
    ∷ 3
    ∷ 4
    ∷ 5
    ∷ 6
    ∷ 7
    ∷ 8
    ∷ []

abbrev first : RefreshToken
first = record {
  id = 1;
  user_id = 9;
  token_hash = hash "a";
  family_id = 40;
  rotated_to = none;
  rotated_at = none;
  revoked_at = none;
  revoked_reason = "";
  issued_ip = "";
  user_agent = "";
  expires_at = 150;
  created_at = 100;
}

abbrev second : RefreshToken
second = record first { id = 2; token_hash = hash "bb"; expires_at = 160; created_at = 110 }

abbrev third : RefreshToken
third = record first { id = 3; token_hash = hash "ccc"; expires_at = 170; created_at = 120 }

redeemed_once_example :
    redemptions 1
      (rotates false 1 second ∷ rotates false 1 third ∷ revokes_family false 40 "replay" 121 ∷ [])
      (first ∷ [])
    ≤ 1
redeemed_once_example =
    redeemed_once 1
      (rotates false 1 second ∷ rotates false 1 third ∷ revokes_family false 40 "replay" 121 ∷ [])
      (first ∷ []) (refl, (refl, (tt, tt)))

revocation_lost_example :
    ((rotate false 1 second (revoke_all_for_user false 9 "logout" 105 (first ∷ [])).0).1 ≡ none)
    × In
        (inserted second)
        (rotate false 1 second (revoke_all_for_user false 9 "logout" 105 (first ∷ [])).0).0
    × ((now : Time) → now ≤ second.expires_at → usable now (inserted second) ≡ none)
unfolding aegisops_ai.Auth.Token.token_validate aegisops_ai.Shared.validator_err
    aegisops_ai.Shared.check aegisops_ai.Shared.not_zero_id aegisops_ai.Shared.new_validator
    aegisops_ai.Base.any aegisops_ai.Auth.Sessions.clashes aegisops_ai.Domain.Chain.equal_bytes
    aegisops_ai.Auth.Sessions.rotatable
revocation_lost_example = revocation_lost 9 1 "logout" 105 second (first ∷ []) refl refl refl refl

abbrev owner : User
owner = record {
  id = 9;
  email = "ops@example.com";
  name = "Ops";
  role = operator;
  password_hash = [];
  active = true;
  last_login_at = none;
  created_at = 1;
  updated_at = 1;
}

abbrev env : AuthEnv
env = record {
  format = format;
  hash = hash;
  sign = λ u at. some ("jwt", 115);
  refresh_ttl = 50;
  has_audit = true;
}

abbrev request : Request
request = record {
  ip = "10.0.0.1";
  user_agent = "curl";
  request_id = "r";
  now = 110;
  draw = record { plaintext = "bb"; id = 2; family = 41; at = 110 };
  entry_id = 77;
  session_unread = false;
  user_unread = false;
  mint_fails = false;
  write_fails = false;
  revoke_fails = false;
  ledger_fault = record { head_unread = false; not_inserted = false };
}

abbrev logged_in : AuthWorld
logged_in = record { users = owner ∷ []; sessions = first ∷ []; ledger = [] }

abbrev pair : Credentials
pair = record {
  access_token = "jwt";
  refresh_token = "bb";
  expires_at = 115;
  token_type = "Bearer";
  user = owner;
}

abbrev refreshed : AuthWorld
refreshed = (refresh env request "a" logged_in).0

first_has_family :
    (rec : RefreshToken)
    → get_by_hash (hash "a") (first ∷ []) ≡ some rec
    → is_zero_id rec.family_id ≡ false
unfolding get_by_hash aegisops_ai.Domain.Chain.equal_bytes
first_has_family rec stored =
    let read : get_by_hash (hash "a") (first ∷ []) ≡ some first = refl in
    let same : first ≡ rec = cc (sym read ∙ stored) in
    subst (λ (t : RefreshToken). is_zero_id t.family_id ≡ false) same refl

refresh_granted_example : Redeemed env request "a" logged_in refreshed pair
unfolding refresh aegisops_ai.Domain.Chain.equal_bytes aegisops_ai.Auth.Token.token_validate
    aegisops_ai.Shared.validator_err aegisops_ai.Shared.check aegisops_ai.Shared.not_zero_id
    aegisops_ai.Shared.new_validator
refresh_granted_example =
    refresh_granted env request "a" logged_in refreshed pair first_has_family refl

abbrev used : RefreshToken
used = record first { rotated_to = some 2; rotated_at = some 110 }

replay_revokes_example :
    ((refresh env request "a" refreshed).1 ≡ unauthorized)
    × All (λ t. in_family 40 t ≡ true → Dead t) (refresh env request "a" refreshed).0.sessions
unfolding refresh aegisops_ai.Domain.Chain.equal_bytes aegisops_ai.Auth.Token.token_validate
    aegisops_ai.Shared.validator_err aegisops_ai.Shared.check aegisops_ai.Shared.not_zero_id
    aegisops_ai.Shared.new_validator
replay_revokes_example = replay_revokes env request "a" used refreshed refl refl refl refl

abbrev hasher : Hasher
hasher = record {
  verify = λ password digest. some (str_eq password "secret");
  needs_rehash = λ digest. false;
  rehash = λ password. none;
}

wrong_password : ¬ Entitled (λ s. s) hasher env request "ops@example.com" "guess" logged_in
wrong_password e = cc e.verified

login_refused_example :
    Refusal
      (λ s. s)
      hasher
      env
      request
      logged_in
      (login (λ s. s) hasher env request "ops@example.com" "guess" logged_in)
login_refused_example =
    login_refused (λ s. s) hasher env request "ops@example.com" "guess" logged_in wrong_password
      refl
