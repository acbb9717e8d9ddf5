-- ===== src/Auth/Sessions/Redeemed.antt =====
-- How often a refresh token can be redeemed, whatever requests run at the same time.
use aegisops_ai.Base.{
  ℕ, suc, ◌≤◌, ◌≡◌, refl, inl, inr, Bool, true, false, not, ◌&&◌, ◌||◌, Bool-cases, ◌==◌, String,
  List, [], ◌∷◌, ◌++◌, Option, none, some, is_some, Option-cases, if◌then◌else◌, any, map, arith,
  subst, All, All-append, All-map, All-keep,
}
use aegisops_ai.Shared.{Uid, Time}
use aegisops_ai.Auth.Token.{RefreshToken, token_validate}
use aegisops_ai.Auth.Sessions.{
  Table, SessionError, create, inserted, clashes, rotatable, mark_rotated, rotate, revoke_where,
  revoke_rows, revoke_family, revoke_all_for_user, revoke, delete_expired, loses_successor,
}

-- A call on the table. The first argument of each is whether the database fails.
pub data Call : Type 0 where
  creates : Bool → RefreshToken → Call
  rotates : Bool → Uid → RefreshToken → Call
  revokes_family : Bool → Uid → String → Time → Call
  revokes_user : Bool → Uid → String → Time → Call
  revokes : Bool → Uid → String → Time → Call
  deletes : Bool → Time → Call

unfoldable pub call : Call → Table → Table
call (creates down t) rows = (create down t rows).0
call (rotates down old next) rows = (rotate down old next rows).0
call (revokes_family down family reason at) rows = (revoke_family down family reason at rows).0
call (revokes_user down user reason at) rows = (revoke_all_for_user down user reason at rows).0
call (revokes down id reason at) rows = (revoke down id reason at rows).0
call (deletes down before) rows = (delete_expired down before rows).0

-- Whether the call exchanges this token for a new one.
unfoldable pub redeems : Uid → Call → Table → Bool
redeems id (rotates down old next) rows = old == id && not (is_some (rotate down old next rows).1)
redeems id _ rows = false

unfoldable pub redemptions : Uid → List Call → Table → ℕ
unfolding redeems call
redemptions id [] rows = 0
redemptions id (c ∷ calls) rows =
    let rest = redemptions id calls (call c rows) in if redeems id c rows then suc rest else rest

-- A call does not insert a row with this identifier.
abbrev pub Avoids : Uid → Call → Type 0
Avoids id (creates down t) = (t.id == id) ≡ false
Avoids id (rotates down old next) = (next.id == id) ≡ false
Avoids id _ = Unit

-- No row with this identifier is there to be rotated.
abbrev pub Spent : Uid → Table → Type 0
Spent id rows = All (λ t. rotatable id t ≡ false) rows

any_none :
    (p : RefreshToken → Bool) (rows : Table) → All (λ t. p t ≡ false) rows → any p rows ≡ false
unfolding any
any_none p [] h = refl
any_none p (t ∷ rows) h = rw h.0 (any_none p rows h.1)

and_false : (b : Bool) → (b && false) ≡ false
and_false true = refl
and_false false = refl

inserted-Spent :
    (id : Uid) (t : RefreshToken) → (t.id == id) ≡ false → rotatable id (inserted t) ≡ false
unfolding rotatable inserted
inserted-Spent id t h = rw h refl

marked-Spent :
    (id old : Uid) (next t : RefreshToken)
    → rotatable id t ≡ false
    → rotatable id (mark_rotated old next t) ≡ false
unfolding mark_rotated rotatable
marked-Spent id old next t h = elim (Bool-cases (rotatable old t)) [
  | inl hit ↦ rw (hit, mark_rotated) (and_false (t.id == id))
  | inr miss ↦ rw (miss, mark_rotated) h
]

own_mark-Spent : (id : Uid) (next t : RefreshToken) → rotatable id (mark_rotated id next t) ≡ false
unfolding mark_rotated rotatable
own_mark-Spent id next t = elim (Bool-cases (rotatable id t)) [
  | inl hit ↦ rw (hit, mark_rotated) (and_false (t.id == id))
  | inr miss ↦ rw (miss, mark_rotated) miss
]

own_marks-Spent :
    (id : Uid) (next : RefreshToken) (rows : Table) → Spent id (map (mark_rotated id next) rows)
own_marks-Spent id next [] = tt
own_marks-Spent id next (t ∷ rows) = (own_mark-Spent id next t, own_marks-Spent id next rows)

revoked-Spent :
    (id : Uid) (these : RefreshToken → Bool) (reason : String) (at : Time) (t : RefreshToken)
    → rotatable id t ≡ false
    → rotatable id (revoke_where these reason at t) ≡ false
unfolding revoke_where rotatable
revoked-Spent id these reason at t h = elim (Bool-cases (these t && not (is_some t.revoked_at))) [
  | inl hit ↦ rw (hit, revoke_where) h
  | inr miss ↦ rw (miss, revoke_where) h
]

-- What Rotate may leave, by cases.
rotate_cases :
    (P : Table × Option SessionError → Type 0) (down : Bool) (old : Uid) (next : RefreshToken)
    (rows : Table)
    → ((e : SessionError) → P (rows, some e))
    → (any (rotatable old) (rows ++ inserted next ∷ []) ≡ true
        → P (map (mark_rotated old next) (rows ++ inserted next ∷ []), none))
    → P (rotate down old next rows)
unfolding rotate
rotate_cases P down old next rows failed done_ = elim (Option-cases (token_validate next)) [
  | inr (e, bad) ↦ rw (bad, rotate) (failed _)
  | inl good ↦ elim (Bool-cases (down || any (clashes next) rows)) [
    | inl refused ↦ rw (good, refused, rotate) (failed _)
    | inr free ↦ elim (Bool-cases (any (rotatable old) (rows ++ inserted next ∷ []))) [
      | inl hit ↦ rw (good, free, hit, rotate) (done_ hit)
      | inr miss ↦ rw (good, free, miss, rotate) (failed _)
    ]
  ]
]

module _ (id : Uid) where
  with_next-Spent :
      (next : RefreshToken) (rows : Table)
      → (next.id == id) ≡ false
      → Spent id rows
      → Spent id (rows ++ inserted next ∷ [])
  with_next-Spent next rows a h =
      All-append (λ t. rotatable id t ≡ false) rows (inserted next ∷ []) h
        (inserted-Spent id next a, tt)

  create-Spent :
      (down : Bool) (t : RefreshToken) (rows : Table)
      → (t.id == id) ≡ false
      → Spent id rows
      → Spent id (create down t rows).0
  unfolding create
  create-Spent down t rows a h = elim (Option-cases (token_validate t)) [
    | inr (e, bad) ↦ rw (bad, create) h
    | inl good ↦ elim (Bool-cases down) [
      | inl dead ↦ rw (good, dead, create) h
      | inr up ↦ elim (Bool-cases (any (clashes t) rows)) [
        | inl taken ↦ rw (good, up, taken, create) h
        | inr free ↦ rw (good, up, free, create) (with_next-Spent t rows a h)
      ]
    ]
  ]

  rotate-Spent :
      (down : Bool) (old : Uid) (next : RefreshToken) (rows : Table)
      → (next.id == id) ≡ false
      → Spent id rows
      → Spent id (rotate down old next rows).0
  rotate-Spent down old next rows a h =
      rotate_cases (λ out. Spent id out.0) down old next rows (λ e. h)
        (λ hit.
          All-map (λ t. rotatable id t ≡ false) (λ t. rotatable id t ≡ false)
            (mark_rotated old next) (marked-Spent id old next) (rows ++ inserted next ∷ [])
            (with_next-Spent next rows a h))

  revoke_rows-Spent :
      (down : Bool) (these : RefreshToken → Bool) (reason : String) (at : Time) (rows : Table)
      → Spent id rows
      → Spent id (revoke_rows down these reason at rows).0
  unfolding revoke_rows
  revoke_rows-Spent down these reason at rows h = elim (Bool-cases down) [
    | inl dead ↦ rw (dead, revoke_rows) h
    | inr up ↦
        rw (up, revoke_rows)
          (All-map (λ t. rotatable id t ≡ false) (λ t. rotatable id t ≡ false)
            (revoke_where these reason at) (revoked-Spent id these reason at) rows h)
  ]

  delete_expired-Spent :
      (down : Bool) (before : Time) (rows : Table)
      → Spent id rows
      → Spent id (delete_expired down before rows).0
  unfolding delete_expired
  delete_expired-Spent down before rows h =
      elim (Bool-cases (down || any (loses_successor before rows) rows)) [
        | inl refused ↦ rw refused h
        | inr fine ↦ rw fine (All-keep (λ t. rotatable id t ≡ false) _ rows h)
      ]

  call-Spent : (c : Call) (rows : Table) → Avoids id c → Spent id rows → Spent id (call c rows)
  unfolding call revoke_family revoke_all_for_user revoke
  call-Spent (creates down t) rows a h = create-Spent down t rows a h
  call-Spent (rotates down old next) rows a h = rotate-Spent down old next rows a h
  call-Spent (revokes_family down family reason at) rows a h =
      revoke_rows-Spent down _ reason at rows h
  call-Spent (revokes_user down user reason at) rows a h = revoke_rows-Spent down _ reason at rows h
  call-Spent (revokes down i reason at) rows a h = revoke_rows-Spent down _ reason at rows h
  call-Spent (deletes down before) rows a h = delete_expired-Spent down before rows h

  -- A spent token is not redeemed again.
  Spent-redeems :
      (c : Call) (rows : Table) → Avoids id c → Spent id rows → redeems id c rows ≡ false
  unfolding redeems
  Spent-redeems (creates down t) rows a h = refl
  Spent-redeems (rotates down old next) rows a h =
      rotate_cases (λ out. (old == id && not (is_some out.1)) ≡ false) down old next rows
        (λ e. and_false (old == id))
        (λ hit. elim (Bool-cases (old == id)) [
          | inl own ↦
              let same : old ≡ id = ground arith in
              cc (
                subst (λ o. any (rotatable o) (rows ++ inserted next ∷ []) ≡ true) same hit,
                any_none (rotatable id) (rows ++ inserted next ∷ [])
                    (with_next-Spent next rows a h),
              )
          | inr other ↦ rw other refl
        ])
  Spent-redeems (revokes_family down family reason at) rows a h = refl
  Spent-redeems (revokes_user down user reason at) rows a h = refl
  Spent-redeems (revokes down i reason at) rows a h = refl
  Spent-redeems (deletes down before) rows a h = refl

  -- A redeemed token is spent.
  redeems-Spent : (c : Call) (rows : Table) → redeems id c rows ≡ true → Spent id (call c rows)
  unfolding redeems call
  redeems-Spent (creates down t) rows r = cc r
  redeems-Spent (rotates down old next) rows r =
      rotate_cases (λ out. (old == id && not (is_some out.1)) ≡ true → Spent id out.0) down old next
        rows (λ e failed. cc (failed, and_false (old == id))) (λ hit done_. own_rotate done_) r
    where
      own_rotate :
          (old == id && true) ≡ true
          → Spent id (map (mark_rotated old next) (rows ++ inserted next ∷ []))
      own_rotate own =
          let same : id ≡ old = ground (arith, own) in
          subst (λ o. Spent id (map (mark_rotated o next) (rows ++ inserted next ∷ []))) same
            (own_marks-Spent id next (rows ++ inserted next ∷ []))
  redeems-Spent (revokes_family down family reason at) rows r = cc r
  redeems-Spent (revokes_user down user reason at) rows r = cc r
  redeems-Spent (revokes down i reason at) rows r = cc r
  redeems-Spent (deletes down before) rows r = cc r

  redemptions-Spent :
      (calls : List Call) (rows : Table)
      → All (Avoids id) calls
      → Spent id rows
      → redemptions id calls rows ≡ 0
  unfolding redemptions
  redemptions-Spent [] rows a h = refl
  redemptions-Spent (c ∷ calls) rows a h =
      rw (Spent-redeems c rows a.0 h)
        (redemptions-Spent calls (call c rows) a.1 (call-Spent c rows a.0 h))

-- Behind a Rotate that succeeds, the old token is spent.
pub rotate-Spent_own :
    (down : Bool) (old : Uid) (next : RefreshToken) (rows : Table)
    → (rotate down old next rows).1 ≡ none
    → Spent old (rotate down old next rows).0
rotate-Spent_own down old next rows =
    rotate_cases (λ out. out.1 ≡ none → Spent old out.0) down old next rows (λ e failed. cc failed)
      (λ hit done_. own_marks-Spent old next (rows ++ inserted next ∷ []))

-- However the requests of all clients interleave on the table, and whichever calls fail, a refresh
-- token is exchanged for a new one at most once. Its identifier, a random one, is not drawn again.
pub redeemed_once :
    (id : Uid) (calls : List Call) (rows : Table)
    → All (Avoids id) calls
    → redemptions id calls rows ≤ 1
unfolding redemptions
redeemed_once id [] rows a = omega arith
redeemed_once id (c ∷ calls) rows a = elim (Bool-cases (redeems id c rows)) [
  | inl now ↦
      let none_left = redemptions-Spent id calls (call c rows) a.1 (redeems-Spent id c rows now) in
      rw now (omega arith)
  | inr later ↦ rw later (redeemed_once id calls (call c rows) a.1)
]
