-- ===== src/Auth/Sessions.antt =====
-- internal/repository/postgres/session.go: the table refresh_tokens. Every call is one transaction, so
-- what requests do at the same time is a sequence of these calls. `down` is that the database fails.
pub mod Redeemed
pub mod Revoked
use aegisops_ai.Base.{
  ℕ, zero, suc, Bool, true, false, not, ◌&&◌, ◌||◌, ◌==◌, String, List, [], ◌∷◌, ◌++◌, Option, none,
  some, is_some, if◌then◌else◌, any, keep, find_first, map, length, ltb, sort_stable,
}
use aegisops_ai.Shared.{Uid, Time, Err}
use aegisops_ai.Domain.Execution.{Bytes}
use aegisops_ai.Domain.Chain.{equal_bytes}
use aegisops_ai.Auth.Token.{RefreshToken, token_validate}

abbrev pub Table : Type 0
Table = List RefreshToken

pub data SessionError : Type 0 where
  invalid : Err → SessionError
  already_exists conflict database not_recognised : SessionError

-- The primary key and the unique index on the digest.
unfoldable pub clashes : RefreshToken → RefreshToken → Bool
clashes t s = s.id == t.id || equal_bytes s.token_hash t.token_hash

-- The columns that an insert names; the others get their defaults.
unfoldable pub inserted : RefreshToken → RefreshToken
inserted t = record t {
  rotated_to = none;
  rotated_at = none;
  revoked_at = none;
  revoked_reason = "";
}

unfoldable pub create : Bool → RefreshToken → Table → Table × Option SessionError
unfolding clashes inserted
create down t rows = elim (token_validate t) [
  | some e ↦ (rows, some (invalid e))
  | none ↦
      if down
      then (rows, some database)
      else if any (clashes t) rows
      then (rows, some already_exists)
      else (rows ++ inserted t ∷ [], none)
]

has_hash : Bytes → RefreshToken → Bool
has_hash h t = equal_bytes t.token_hash h

-- GetByPlaintext, of the digest of the presented value.
unfoldable pub get_by_hash : Bytes → Table → Option RefreshToken
unfolding has_hash find_first
get_by_hash h rows = find_first (has_hash h) rows

-- WHERE id = $3 AND rotated_at IS NULL.
unfoldable pub rotatable : Uid → RefreshToken → Bool
rotatable old t = t.id == old && not (is_some t.rotated_at)

mark_rotated : Uid → RefreshToken → RefreshToken → RefreshToken
unfolding rotatable
mark_rotated old next t =
    if rotatable old t
    then record t { rotated_to = some next.id; rotated_at = some next.created_at }
    else t

-- Rotate: the insert and the update, or nothing.
unfoldable pub rotate : Bool → Uid → RefreshToken → Table → Table × Option SessionError
unfolding clashes inserted rotatable mark_rotated any
rotate down old next rows = elim (token_validate next) [
  | some e ↦ (rows, some (invalid e))
  | none ↦
      if down || any (clashes next) rows
      then (rows, some database)
      else if any (rotatable old) (rows ++ inserted next ∷ [])
      then (map (mark_rotated old next) (rows ++ inserted next ∷ []), none)
      else (rows, some conflict)
]

-- SET revoked_at = …, revoked_reason = … WHERE … AND revoked_at IS NULL.
pub revoke_where : (RefreshToken → Bool) → String → Time → RefreshToken → RefreshToken
revoke_where these reason at t =
    if these t && not (is_some t.revoked_at)
    then record t { revoked_at = some at; revoked_reason = reason }
    else t

unfoldable pub in_family : Uid → RefreshToken → Bool
in_family family t = t.family_id == family

unfoldable pub of_user : Uid → RefreshToken → Bool
of_user user t = t.user_id == user

with_id : Uid → RefreshToken → Bool
with_id id t = t.id == id

-- The number of rows that the update touches.
affected : (RefreshToken → Bool) → Table → ℕ
affected these rows =
    length (keep (λ (t : RefreshToken). these t && not (is_some t.revoked_at)) rows)

-- One UPDATE; `none` is its error.
unfoldable pub revoke_rows : Bool → (RefreshToken → Bool) → String → Time → Table → Table × Option ℕ
unfolding revoke_where affected
revoke_rows down these reason at rows =
    if down
    then (rows, none)
    else (map (revoke_where these reason at) rows, some (affected these rows))

unfoldable pub revoke_family : Bool → Uid → String → Time → Table → Table × Option ℕ
unfolding in_family revoke_rows
revoke_family down family = revoke_rows down (in_family family)

unfoldable pub revoke_all_for_user : Bool → Uid → String → Time → Table → Table × Option ℕ
unfolding of_user revoke_rows
revoke_all_for_user down user = revoke_rows down (of_user user)

unfoldable pub revoke : Bool → Uid → String → Time → Table → Table × Option ℕ
unfolding with_id revoke_rows
revoke down id = revoke_rows down (with_id id)

expired : Time → RefreshToken → Bool
expired before t = ltb t.expires_at before

-- A row that is kept and whose rotated_to is deleted: ON DELETE SET NULL clears it, and the CHECK
-- that rotated_at and rotated_to are set together then refuses the statement.
loses_successor : Time → Table → RefreshToken → Bool
unfolding expired any
loses_successor before rows t = not (expired before t) && elim t.rotated_to [
  | none ↦ false
  | some next ↦ any (λ (s : RefreshToken). s.id == next && expired before s) rows
]

-- DeleteExpired.
unfoldable pub delete_expired : Bool → Time → Table → Table × Option ℕ
unfolding keep any loses_successor expired
delete_expired down before rows =
    if down || any (loses_successor before rows) rows then (rows, none) else (
      keep (λ (t : RefreshToken). not (expired before t)) rows,
      some (length (keep (expired before) rows)),
    )

live_of : Uid → Time → RefreshToken → Bool
live_of user now t =
    t.user_id == user
    && not (is_some t.revoked_at)
    && not (is_some t.rotated_at)
    && ltb now t.expires_at

newer : RefreshToken → RefreshToken → Bool
newer s t = ltb t.created_at s.created_at

-- ListForUser.
unfoldable pub list_for_user : Uid → Time → Table → Table
unfolding live_of newer
list_for_user user now rows = sort_stable newer (keep (live_of user now) rows)
