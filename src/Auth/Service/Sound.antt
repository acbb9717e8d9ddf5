-- ===== src/Auth/Service/Sound.antt =====
-- What a refresh, a replay and a logout do.
use aegisops_ai.Base.{
  ℕ, ◌≡◌, refl, sym, ap, ◌∙◌, inl, inr, true, false, Bool-cases, String, Option, none, some,
  is_some, Option-cases, subst, All, ◌⊎◌,
}
use aegisops_ai.Shared.{Uid, Time, is_zero_id}
use aegisops_ai.Domain.User.{User}
use aegisops_ai.Domain.Audit.{executed, Outcome}
use aegisops_ai.Auth.Token.{
  RefreshToken, usable, TokenError, token_expired, token_revoked, token_replayed, new_refresh_token,
}
use aegisops_ai.Auth.Sessions.{
  Table, SessionError, invalid, already_exists, conflict, database, not_recognised, get_by_hash,
  rotate, revoke_family, revoke_all_for_user, revoke_rows, in_family, of_user,
}
use aegisops_ai.Auth.Sessions.Redeemed.{Spent, rotate-Spent_own}
use aegisops_ai.Auth.Sessions.Revoked.{Dead, revoke_rows-Dead, revoke_where_keeps}
use aegisops_ai.Auth.Service.{
  AuthWorld, AuthEnv, Request, Reply, Credentials, granted, unauthorized, internal, refresh,
  on_session, by_state, for_user, exchange, session_for, credentials, rotated, issue, replayed,
  record_auth, get_user, logout_all,
}

module _ (env : AuthEnv) (req : Request) where
  -- The ledger entry leaves the tokens as they are.
  pub record_auth-sessions :
      (actor : Uid) (name action : String) (outcome : Outcome) (reason : String) (w : AuthWorld)
      → (record_auth env req actor name action outcome reason w).sessions ≡ w.sessions
  unfolding record_auth
  record_auth-sessions actor name action outcome reason w = elim (Bool-cases env.has_audit) [
    | inl kept ↦ simp (kept, record_auth) refl
    | inr unkept ↦ simp (unkept, record_auth) refl
  ]

  family_revoked :
      (family : Uid) (reason : String) (rows : Table)
      → All
          (λ t. in_family family t ≡ true → Dead t)
          (revoke_family false family reason req.now rows).0
  unfolding revoke_family in_family
  family_revoked family reason rows =
      revoke_rows-Dead (in_family family) reason req.now rows
        (revoke_where_keeps (in_family family) (λ t at r. refl) (in_family family) reason req.now)

  replayed-sessions :
      (rec : RefreshToken) (w : AuthWorld)
      → (replayed env req rec w).sessions
        ≡ (revoke_family req.revoke_fails rec.family_id "a rotated refresh token was replayed"
            req.now w.sessions).0
  unfolding replayed
  replayed-sessions rec w = record_auth-sessions _ _ _ _ _ _

  usable-replayed :
      (now : Time) (rec : RefreshToken)
      → is_some rec.rotated_at ≡ true
      → usable now rec ≡ some token_replayed
  unfolding usable
  usable-replayed now rec h = rw h refl

  -- The token is there, so its state decides.
  refresh_stored :
      (plaintext : String) (rec : RefreshToken) (w : AuthWorld)
      → req.session_unread ≡ false
      → get_by_hash (env.hash plaintext) w.sessions ≡ some rec
      → refresh env req plaintext w ≡ by_state env req rec (usable req.now rec) w
  unfolding refresh on_session
  refresh_stored plaintext rec w read stored = rw (read, stored) refl

  -- A refresh token that was rotated before and is presented again gets no credentials, and no token
  -- of its family, the newest included, can be redeemed at any later time, when the database obeys.
  pub replay_revokes :
      (plaintext : String) (rec : RefreshToken) (w : AuthWorld)
      → get_by_hash (env.hash plaintext) w.sessions ≡ some rec
      → is_some rec.rotated_at ≡ true
      → req.session_unread ≡ false
      → req.revoke_fails ≡ false
      → ((refresh env req plaintext w).1 ≡ unauthorized)
        × All
            (λ t. in_family rec.family_id t ≡ true → Dead t)
            (refresh env req plaintext w).0.sessions
  unfolding by_state
  replay_revokes plaintext rec w stored used read up =
      let run : refresh env req plaintext w ≡ (replayed env req rec w, unauthorized) =
        refresh_stored plaintext rec w read stored
        ∙ ap (λ o. by_state env req rec o w) (usable-replayed req.now rec used) in
      let table =
        ap (λ (o : AuthWorld × Reply). o.0.sessions) run
        ∙ replayed-sessions rec w
        ∙ ap
            (λ d.
              (revoke_family d rec.family_id "a rotated refresh token was replayed" req.now
                w.sessions).0)
            up in
      (
        ap (λ (o : AuthWorld × Reply). o.1) run,
        subst (All (λ t. in_family rec.family_id t ≡ true → Dead t)) (sym table)
            (family_revoked rec.family_id "a rotated refresh token was replayed" w.sessions),
      )

  user_revoked :
      (user : Uid) (reason : String) (rows : Table)
      → All
          (λ t. of_user user t ≡ true → Dead t)
          (revoke_all_for_user false user reason req.now rows).0
  unfolding revoke_all_for_user of_user
  user_revoked user reason rows =
      revoke_rows-Dead (of_user user) reason req.now rows
        (revoke_where_keeps (of_user user) (λ t at r. refl) (of_user user) reason req.now)

  -- What a refresh that hands out credentials has found and done.
  pub record Redeemed (plaintext : String) (w : AuthWorld) (out : AuthWorld) (c : Credentials)
      : Type 0 where
    pub token : RefreshToken
    pub owner : User
    pub session : RefreshToken
    pub stored : get_by_hash (env.hash plaintext) w.sessions ≡ some token
    pub fresh : usable req.now token ≡ none
    pub owned : get_user req token.user_id w ≡ some owner
    pub active : owner.active ≡ true
    pub spent : Spent token.id out.sessions
    pub family : session.family_id ≡ token.family_id
    pub holder : session.user_id ≡ owner.id
    pub digest : session.token_hash ≡ env.hash c.refresh_token
    pub written : rotate req.write_fails token.id session w.sessions ≡ (out.sessions, none)

  rotated_granted :
      (pair c : Credentials) (failure : Option SessionError)
      → rotated pair failure ≡ granted c
      → (failure ≡ none) × (pair ≡ c)
  unfolding rotated
  rotated_granted pair c none h = (refl, cc h)
  rotated_granted pair c (some (invalid e)) h = cc h
  rotated_granted pair c (some already_exists) h = cc h
  rotated_granted pair c (some conflict) h = cc h
  rotated_granted pair c (some database) h = cc h
  rotated_granted pair c (some not_recognised) h = cc h

  exchange_granted :
      (rec : RefreshToken) (w w' : AuthWorld) (pair c : Credentials) (session : RefreshToken)
      → exchange req rec (w, some (pair, session)) ≡ (w', granted c)
      → (rotate req.write_fails rec.id session w.sessions ≡ (w'.sessions, none)) × (pair ≡ c)
  unfolding exchange
  exchange_granted rec w w' pair c session h =
      let found =
        rotated_granted pair c (rotate req.write_fails rec.id session w.sessions).1
          (ap (λ (o : AuthWorld × Reply). o.1) h) in
      let rows = ap (λ (o : AuthWorld × Reply). o.0.sessions) h in
      (
        ap (λ r. (r, (rotate req.write_fails rec.id session w.sessions).1)) rows
            ∙ ap (λ o. (w'.sessions, o)) found.0,
        found.1,
      )

  -- What issue gives out for a token of a family.
  record Issued (u : User) (family : Uid) (pair : Credentials) (session : RefreshToken)
      : Type 0 where
    in_family' : session.family_id ≡ family
    of_user' : session.user_id ≡ u.id
    hashed : session.token_hash ≡ env.hash pair.refresh_token

  issue-Issued :
      (u : User) (family : Uid) (w : AuthWorld)
      → is_zero_id family ≡ false
      → ((issue env req u family w).1 ≡ none)
        ⊎ ((pair : Credentials) × (session : RefreshToken) × (issue env req u family w
              ≡ (w, some (pair, session)))
            × Issued u family pair session)
  unfolding issue session_for credentials new_refresh_token
  issue-Issued u family w z = elim (Option-cases (env.sign u req.draw.at)) [
    | inl unsigned ↦ inl (rw (unsigned, issue) refl)
    | inr ((access, expiry), signed) ↦ elim (Bool-cases req.mint_fails) [
      | inl failed ↦ inl (simp (signed, failed, issue) refl)
      | inr minted ↦ inr (
        credentials req u access expiry,
        session_for env req u family,
        simp (signed, minted, z, issue) refl,
        record { in_family' = rw (z, session_for) refl; of_user' = refl; hashed = refl },
      )
    ]
  ]

  exchange_nothing :
      (rec : RefreshToken) (p : AuthWorld × Option (Credentials × RefreshToken))
      → p.1 ≡ none
      → (exchange req rec p).1 ≡ internal
  unfolding exchange
  exchange_nothing rec (w, none) h = refl
  exchange_nothing rec (w, some _) h = cc h

  for_user_granted :
      (rec : RefreshToken) (o : Option User) (w w' : AuthWorld) (c : Credentials)
      → is_zero_id rec.family_id ≡ false
      → for_user env req rec o w ≡ (w', granted c)
      → (u : User) × (session : RefreshToken) × (o ≡ some u)
        × (u.active ≡ true)
        × Issued u rec.family_id c session
        × (rotate req.write_fails rec.id session w.sessions ≡ (w'.sessions, none))
  unfolding for_user
  for_user_granted rec none w w' c z h = cc (ap (λ (o : AuthWorld × Reply). o.1) h)
  for_user_granted rec (some u) w w' c z h = elim (Bool-cases u.active) [
    | inr idle ↦ cc (ap (λ (o : AuthWorld × Reply). o.1) (simp (idle, for_user) at h))
    | inl active ↦ elim (issue-Issued u rec.family_id w z) [
      | inl failed ↦ cc (
        ap (λ (o : AuthWorld × Reply). o.1) (simp (active, for_user) at h),
        exchange_nothing rec (issue env req u rec.family_id w) failed,
      )
      | inr (pair, session, run, made) ↦
          let step : exchange req rec (w, some (pair, session)) ≡ (w', granted c) =
            ap (exchange req rec) (sym run) ∙ simp (active, for_user) at h in
          let done_ = exchange_granted rec w w' pair c session step in
          (
            u,
            session,
            refl,
            active,
            subst (λ p. Issued u rec.family_id p session) done_.1 made,
            done_.0,
          )
    ]
  ]

  by_state_granted :
      (rec : RefreshToken) (w w' : AuthWorld) (c : Credentials) (o : Option TokenError)
      → by_state env req rec o w ≡ (w', granted c)
      → (o ≡ none) × (for_user env req rec (get_user req rec.user_id w) w ≡ (w', granted c))
  unfolding by_state
  by_state_granted rec w w' c none h = (refl, h)
  by_state_granted rec w w' c (some token_expired) h = cc (ap (λ (p : AuthWorld × Reply). p.1) h)
  by_state_granted rec w w' c (some (token_revoked _)) h =
      cc (ap (λ (p : AuthWorld × Reply). p.1) h)
  by_state_granted rec w w' c (some token_replayed) h = cc (ap (λ (p : AuthWorld × Reply). p.1) h)

  -- A refresh hands out credentials only for a stored token that is neither rotated, nor revoked, nor
  -- expired, of an active user; the token is then spent, and the new one, of the same family and
  -- user, is what the credentials name. Stored tokens have a family, as their validation demands.
  pub refresh_granted :
      (plaintext : String) (w w' : AuthWorld) (c : Credentials)
      → ((rec : RefreshToken)
          → get_by_hash (env.hash plaintext) w.sessions ≡ some rec
          → is_zero_id rec.family_id ≡ false)
      → refresh env req plaintext w ≡ (w', granted c)
      → Redeemed plaintext w w' c
  unfolding refresh on_session
  refresh_granted plaintext w w' c z h = elim (Bool-cases req.session_unread) [
    | inl unread ↦ cc (ap (λ (o : AuthWorld × Reply). o.1) (simp (unread, refresh) at h))
    | inr read ↦ elim (Option-cases (get_by_hash (env.hash plaintext) w.sessions)) [
      | inl unknown ↦ cc (ap (λ (o : AuthWorld × Reply). o.1) (simp (read, unknown, refresh) at h))
      | inr (rec, stored) ↦
          let state =
            by_state_granted rec w w' c (usable req.now rec)
              (sym (refresh_stored plaintext rec w read stored) ∙ h) in
          let owner =
            for_user_granted rec (get_user req rec.user_id w) w w' c (z rec stored) state.1 in
          let rotation = owner.5 in
          record {
            token = rec;
            owner = owner.0;
            session = owner.1;
            stored = stored;
            fresh = state.0;
            owned = owner.2;
            active = owner.3;
            spent =
                subst (λ (o : Table × Option SessionError). Spent rec.id o.0) rotation
                  (rotate-Spent_own req.write_fails rec.id owner.1 w.sessions
                    (ap (λ (o : Table × Option SessionError). o.1) rotation));
            family = owner.4.in_family';
            holder = owner.4.of_user';
            digest = owner.4.hashed;
            written = rotation;
          }
    ]
  ]

  logout_all-sessions :
      (user : Uid) (reason : String) (w : AuthWorld)
      → req.revoke_fails ≡ false
      → (logout_all env req user reason w).0.sessions
        ≡ (revoke_all_for_user false user reason req.now w.sessions).0
  unfolding logout_all revoke_all_for_user revoke_rows
  logout_all-sessions user reason w up =
      simp (up, logout_all)
        (record_auth-sessions user "" "auth.logout_all" executed ""
          (record w { sessions = (revoke_all_for_user false user reason req.now w.sessions).0 }))

  -- When LogoutAll returns a count, no token of the user that was in the table can be redeemed then.
  pub logout_all_ends :
      (user : Uid) (reason : String) (n : ℕ) (w : AuthWorld)
      → (logout_all env req user reason w).1 ≡ some n
      → All (λ t. of_user user t ≡ true → Dead t) (logout_all env req user reason w).0.sessions
  unfolding logout_all revoke_all_for_user revoke_rows
  logout_all_ends user reason n w h = elim (Bool-cases req.revoke_fails) [
    | inl dead ↦ cc (simp (dead, logout_all) at h)
    | inr up ↦
        subst (All (λ t. of_user user t ≡ true → Dead t))
          (sym (logout_all-sessions user reason w up)) (user_revoked user reason w.sessions)
  ]
