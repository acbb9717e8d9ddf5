-- ===== src/Auth/Login/Refused.antt =====
-- Who is refused, and that the answer does not say why.
use aegisops_ai.Base.{
  ◌≡◌, refl, inl, inr, Bool, true, false, Bool-cases, String, Option, none, some,
}
use aegisops_ai.Domain.User.{User}
use aegisops_ai.Auth.Service.{AuthWorld, AuthEnv, Request, Reply, invalid_credentials}
use aegisops_ai.Auth.Service.Sound.{record_auth-sessions}
use aegisops_ai.Auth.Login.{Hasher, get_by_email, refused_login, checked, on_user, login}

module _ (normalise : String → String) (hasher : Hasher) (env : AuthEnv) (req : Request) where
  -- The address names an active user whose password this is.
  pub record Entitled (email password : String) (w : AuthWorld) : Type 0 where
    pub user : User
    pub known : get_by_email normalise (normalise email) w.users ≡ some user
    pub verified : hasher.verify password user.password_hash ≡ some true
    pub active : user.active ≡ true

  -- The answer and the tokens of a failed login.
  pub record Refusal (w : AuthWorld) (out : AuthWorld × Reply) : Type 0 where
    pub answer : out.1 ≡ invalid_credentials
    pub untouched : out.0.sessions ≡ w.sessions

  refused_login-Refusal :
      (email reason : String) (w : AuthWorld) → Refusal w (refused_login env req email reason w)
  unfolding refused_login
  refused_login-Refusal email reason w = record {
    answer = refl;
    untouched = record_auth-sessions env req _ _ _ _ _ _;
  }

  checked-Refusal :
      (email password : String) (u : User) (o : Option Bool) (w : AuthWorld)
      → (o ≡ some true → u.active ≡ true → ⊥)
      → Refusal w (checked hasher env req email password u o w)
  unfolding checked
  checked-Refusal email password u none w h = refused_login-Refusal _ _ w
  checked-Refusal email password u (some false) w h = refused_login-Refusal _ _ w
  checked-Refusal email password u (some true) w h = elim (Bool-cases u.active) [
    | inl active ↦ absurd (h refl active)
    | inr idle ↦ simp (idle, checked) (refused_login-Refusal _ _ w)
  ]

  on_user-Refusal :
      (email password : String) (o : Option User) (w : AuthWorld)
      → ¬ Entitled email password w
      → get_by_email normalise (normalise email) w.users ≡ o
      → Refusal w (on_user hasher env req (normalise email) password o w)
  unfolding on_user
  on_user-Refusal email password none w h e = refused_login-Refusal _ _ w
  on_user-Refusal email password (some u) w h e =
      checked-Refusal (normalise email) password u (hasher.verify password u.password_hash) w
        (λ v a. h (record { user = u; known = e; verified = v; active = a }))

  -- Whoever is not entitled, for whatever reason (no such user, an unreadable digest, a wrong
  -- password, a disabled account), gets the same answer and no session, when the users can be read.
  pub login_refused :
      (email password : String) (w : AuthWorld)
      → ¬ Entitled email password w
      → req.user_unread ≡ false
      → Refusal w (login normalise hasher env req email password w)
  unfolding login
  login_refused email password w h read =
      simp (read, login)
        (on_user-Refusal email password (get_by_email normalise (normalise email) w.users) w h refl)
