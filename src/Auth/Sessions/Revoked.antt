-- ===== src/Auth/Sessions/Revoked.antt =====
-- What a revocation does to the table, and what it cannot do.
use aegisops_ai.Base.{
  ◌≡◌, ◌≢◌, refl, sym, inl, inr, Bool, true, false, not, ◌&&◌, Bool-cases, ◌==◌, String, [], ◌∷◌,
  ◌++◌, Option, none, some, is_some, any, map, ap, ◌∙◌, ◌≤◌, arith, subst, All, In,
}
use aegisops_ai.Shared.{Uid, Time}
use aegisops_ai.Auth.Token.{RefreshToken, token_validate, usable}
use aegisops_ai.Auth.Sessions.{
  Table, SessionError, inserted, clashes, rotatable, mark_rotated, rotate, revoke_where,
  revoke_rows, revoke_all_for_user, of_user,
}

-- A token that no request can redeem, at whatever time.
abbrev pub Dead : RefreshToken → Type 0
Dead t = (now : Time) → usable now t ≢ none

-- A revoked token is dead, whatever else is so of it.
revoked_at-Dead : (t : RefreshToken) → is_some t.revoked_at ≡ true → Dead t
unfolding usable
revoked_at-Dead t h now e = elim (Bool-cases (is_some t.rotated_at)) [
  | inl used ↦ cc (simp (used, usable) at e)
  | inr unused ↦ cc (simp (unused, h, usable) at e)
]

revoke_where-revoked_at :
    (these : RefreshToken → Bool) (reason : String) (at : Time) (t : RefreshToken)
    → these t ≡ true
    → is_some (revoke_where these reason at t).revoked_at ≡ true
unfolding revoke_where
revoke_where-revoked_at these reason at t h = elim (Bool-cases (is_some t.revoked_at)) [
  | inl done_ ↦ simp (h, done_, revoke_where) refl
  | inr fresh ↦ simp (h, fresh, revoke_where) refl
]

-- Behind a revocation that succeeded, all the tokens that it is about are dead. What `these` says
-- does not change with it.
pub revoke_rows-Dead :
    (these : RefreshToken → Bool) (reason : String) (at : Time) (rows : Table)
    → ((t : RefreshToken) → these (revoke_where these reason at t) ≡ these t)
    → All (λ t. these t ≡ true → Dead t) (revoke_rows false these reason at rows).0
unfolding revoke_rows
revoke_rows-Dead these reason at [] k = tt
revoke_rows-Dead these reason at (t ∷ rows) k = (
  λ h.
      revoked_at-Dead (revoke_where these reason at t)
        (revoke_where-revoked_at these reason at t (sym (k t) ∙ h)),
  revoke_rows-Dead these reason at rows k,
)

-- A revocation changes neither the owner, nor the family, nor the identifier.
pub revoke_where_keeps :
    {A : Type 0} (column : RefreshToken → A)
    → ((t : RefreshToken) (at : Time) (reason : String)
        → column (record t { revoked_at = some at; revoked_reason = reason }) ≡ column t)
    → (these : RefreshToken → Bool) (reason : String) (at : Time) (t : RefreshToken)
    → column (revoke_where these reason at t) ≡ column t
unfolding revoke_where
revoke_where_keeps column k these reason at t =
    elim (Bool-cases (these t && not (is_some t.revoked_at))) [
      | inl hit ↦ rw (hit, revoke_where) (k t at reason)
      | inr miss ↦ rw (miss, revoke_where) refl
    ]

any-revoked :
    (these : RefreshToken → Bool) (reason : String) (at : Time) (p : RefreshToken → Bool)
    (rows : Table)
    → ((t : RefreshToken) → p (revoke_where these reason at t) ≡ p t)
    → any p (revoke_rows false these reason at rows).0 ≡ any p rows
unfolding any revoke_rows
any-revoked these reason at p [] k = refl
any-revoked these reason at p (t ∷ rows) k = rw (k t, any-revoked these reason at p rows k) refl

any-append :
    (p : RefreshToken → Bool) (rows more : Table) → any p rows ≡ true → any p (rows ++ more) ≡ true
unfolding any
any-append p [] more h = cc h
any-append p (t ∷ rows) more h = elim (Bool-cases (p t)) [
  | inl here ↦ rw here refl
  | inr later ↦ rw later (any-append p rows more (rw later at h))
]

In-map :
    (f : RefreshToken → RefreshToken) (t : RefreshToken) (rows : Table)
    → In t rows
    → In (f t) (map f rows)
In-map f t [] m = m
In-map f t (s ∷ rows) (inl e) = inl (ap f e)
In-map f t (s ∷ rows) (inr m) = inr (In-map f t rows m)

In-last : (t : RefreshToken) (rows : Table) → In t (rows ++ t ∷ [])
In-last t [] = inl refl
In-last t (s ∷ rows) = inr (In-last t rows)

unmarked :
    (old : Uid) (next : RefreshToken)
    → (next.id == old) ≡ false
    → mark_rotated old next (inserted next) ≡ inserted next
unfolding mark_rotated rotatable inserted
unmarked old next h = rw h refl

rotate_succeeds :
    (old : Uid) (next : RefreshToken) (rows : Table)
    → token_validate next ≡ none
    → any (clashes next) rows ≡ false
    → any (rotatable old) rows ≡ true
    → rotate false old next rows ≡ (map (mark_rotated old next) (rows ++ inserted next ∷ []), none)
unfolding rotate
rotate_succeeds old next rows v c r =
    rw (v, c, any-append (rotatable old) rows (inserted next ∷ []) r, rotate) refl

inserted-usable :
    (next : RefreshToken) (now : Time) → now ≤ next.expires_at → usable now (inserted next) ≡ none
unfolding usable inserted
inserted-usable next now h = ground (arith, h)

-- Rotate does not look at revocations. When a user logs out everywhere between the read and the
-- Rotate of a refresh with an unrotated token of the table, the Rotate succeeds all the same: the
-- new token is in the table, unrevoked, and can be redeemed until it expires.
pub revocation_lost :
    (user old : Uid) (reason : String) (at : Time) (next : RefreshToken) (rows : Table)
    → token_validate next ≡ none
    → any (clashes next) rows ≡ false
    → any (rotatable old) rows ≡ true
    → (next.id == old) ≡ false
    → ((rotate false old next (revoke_all_for_user false user reason at rows).0).1 ≡ none)
      × In
          (inserted next)
          (rotate false old next (revoke_all_for_user false user reason at rows).0).0
      × ((now : Time) → now ≤ next.expires_at → usable now (inserted next) ≡ none)
unfolding revoke_all_for_user clashes rotatable
revocation_lost user old reason at next rows v c r d =
    let these = of_user user in
    let done_ =
      rotate_succeeds old next (revoke_rows false these reason at rows).0 v
        (any-revoked these reason at (clashes next) rows
            (revoke_where_keeps (clashes next) (λ t at' reason'. refl) these reason at)
          ∙ c)
        (any-revoked these reason at (rotatable old) rows
            (revoke_where_keeps (rotatable old) (λ t at' reason'. refl) these reason at)
          ∙ r) in
    (
      ap (λ (p : Table × Option SessionError). p.1) done_,
      subst (λ (p : Table × Option SessionError). In (inserted next) p.0) (sym done_)
          (subst
            (λ t. In t (
              map (mark_rotated old next)
                ((revoke_rows false these reason at rows).0 ++ inserted next ∷ [])))
            (unmarked old next d)
            (In-map (mark_rotated old next) (inserted next) _
              (In-last (inserted next) (revoke_rows false these reason at rows).0))),
      inserted-usable next,
    )
