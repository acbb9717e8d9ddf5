-- ===== src/Auth/Token.antt =====
-- internal/domain/user/session.go: the stored record of a refresh token. The digest of a plaintext,
-- SHA-256, is an argument of what uses it.
use aegisops_ai.Base.{
  ℕ, ◌+◌, Bool, true, false, not, ◌==◌, String, Option, none, some, is_some, if◌then◌else◌, length,
  ltb,
}
use aegisops_ai.Shared.{
  Uid, Time, Err, is_zero_id, says, new_validator, check, not_zero_id, validator_err, ◌▸◌,
}
use aegisops_ai.Domain.Execution.{Bytes}

pub record RefreshToken : Type 0 where
  pub id : Uid
  pub user_id : Uid
  pub token_hash : Bytes
  pub family_id : Uid
  pub rotated_to : Option Uid
  pub rotated_at : Option Time
  pub revoked_at : Option Time
  pub revoked_reason : String
  pub issued_ip : String
  pub user_agent : String
  pub expires_at : Time
  pub created_at : Time

-- What shared.NewID, rand.Read and the clock give.
pub record Draw : Type 0 where
  pub plaintext : String
  pub id : Uid
  pub family : Uid
  pub at : Time

unfoldable pub new_refresh_token : (String → Bytes) → Draw → Uid → Uid → ℕ → RefreshToken
new_refresh_token hash draw user family ttl = record {
  id = draw.id;
  user_id = user;
  token_hash = hash draw.plaintext;
  family_id = if is_zero_id family then draw.family else family;
  rotated_to = none;
  rotated_at = none;
  revoked_at = none;
  revoked_reason = "";
  issued_ip = "";
  user_agent = "";
  expires_at = draw.at + ttl;
  created_at = draw.at;
}

pub data TokenError : Type 0 where
  token_expired : TokenError
  token_revoked : String → TokenError
  token_replayed : TokenError

unfoldable pub usable : Time → RefreshToken → Option TokenError
usable now t =
    if is_some t.rotated_at
    then some token_replayed
    else if is_some t.revoked_at
    then some (token_revoked t.revoked_reason)
    else if ltb t.expires_at now
    then some token_expired
    else none

same_truth : Bool → Bool → Bool
same_truth true b = b
same_truth false b = not b

unfoldable pub token_validate : RefreshToken → Option Err
unfolding same_truth
token_validate t = validator_err (
    new_validator "refresh_token"
    ▸ not_zero_id t.id "id"
    ▸ not_zero_id t.user_id "user_id"
    ▸ not_zero_id t.family_id "family_id"
    ▸ check (length t.token_hash == 32) "token_hash" (says "must be 32 bytes")
    ▸ check (ltb t.created_at t.expires_at) "expires_at" (says "must be after created_at")
    ▸ check (same_truth (not (is_some t.rotated_to)) (not (is_some t.rotated_at))) "rotated_to"
        (says "rotated_to and rotated_at must be set together"))
