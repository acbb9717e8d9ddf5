-- ===== src/Migrate/Runner/Rows.antt =====
-- The rows that a prefix of the migrations leaves, and which of them are found.
use aegisops_ai.Base.{
  ℕ, suc, ◌+◌, ◌≤◌, ◌<◌, ◌≡◌, refl, ap, ◌∙◌, true, false, ◌==◌, List, [], ◌∷◌, ◌++◌, none, some,
  arith, subst, All, length,
}
use aegisops_ai.Migrate.Load.{Migration}
use aegisops_ai.Migrate.Load.Contiguous.{Numbered}
use aegisops_ai.Migrate.Runner.{AppliedMigration, applied_row, has_version}

-- The rows that the migrations leave.
abbrev pub RowsOf : List Migration → List AppliedMigration → Type 0
RowsOf [] [] = Unit
RowsOf [] (_ ∷ _) = ⊥
RowsOf (_ ∷ _) [] = ⊥
RowsOf (m ∷ ms) (r ∷ rows) = (r.version ≡ m.version) × (r.checksum ≡ m.checksum) × RowsOf ms rows

pub RowsOf-append :
    (ms : List Migration) (rows : List AppliedMigration) (m : Migration) (r : AppliedMigration)
    → RowsOf ms rows
    → (r.version ≡ m.version) × (r.checksum ≡ m.checksum)
    → RowsOf (ms ++ m ∷ []) (rows ++ r ∷ [])
RowsOf-append [] [] m r h e = (e.0, e.1, tt)
RowsOf-append [] (_ ∷ _) m r h e = absurd h
RowsOf-append (_ ∷ _) [] m r h e = absurd h
RowsOf-append (_ ∷ ms) (_ ∷ rows) m r h e = (h.0, h.1, RowsOf-append ms rows m r h.2 e)

-- The row of an applied migration is found.
abbrev pub Found : List AppliedMigration → Migration → Type 0
Found rows m =
    (r : AppliedMigration) × (applied_row m.version rows ≡ some r) × (r.checksum ≡ m.checksum)

behind_row :
    (k j : ℕ) (r : AppliedMigration) (rows : List AppliedMigration) (ms : List Migration)
    → r.version ≡ k
    → k < j
    → Numbered j ms
    → All (Found rows) ms
    → All (Found (r ∷ rows)) ms
unfolding applied_row has_version
behind_row k j r rows [] e l n h = tt
behind_row k j r rows (m ∷ ms) e l n h =
    let other : (r.version == m.version) ≡ false = let v = n.0 in ground arith in
    (
      (h.0.0, rw (other, applied_row) h.0.1, h.0.2),
      behind_row k (suc j) r rows ms e (omega arith) n.1 h.1,
    )

pub rows_applied :
    (k : ℕ) (ms : List Migration) (rows : List AppliedMigration)
    → Numbered k ms
    → RowsOf ms rows
    → All (Found rows) ms
unfolding applied_row has_version
rows_applied k [] rows n h = tt
rows_applied k (m ∷ ms) [] n h = absurd h
rows_applied k (m ∷ ms) (r ∷ rows) n h =
    let own : (r.version == m.version) ≡ true = let e = h.0 in ground arith in
    (
      (r, rw (own, applied_row) refl, h.1),
      behind_row k (suc k) r rows ms (h.0 ∙ n.0) (omega arith) n.1
          (rows_applied (suc k) ms rows n.1 h.2),
    )

-- A migration behind the applied ones is not found.
pub not_found :
    (k v : ℕ) (ms : List Migration) (rows : List AppliedMigration)
    → Numbered k ms
    → RowsOf ms rows
    → k + length ms ≤ v
    → applied_row v rows ≡ none
unfolding applied_row has_version
not_found k v [] [] n h l = refl
not_found k v [] (_ ∷ _) n h l = absurd h
not_found k v (_ ∷ _) [] n h l = absurd h
not_found k v (m ∷ ms) (r ∷ rows) n h l =
    let other : (r.version == v) ≡ false = let e = h.0 in let f = n.0 in ground arith in
    rw (other, applied_row) (not_found (suc k) v ms rows n.1 h.2 (omega arith))

pub append_assoc : (xs ys zs : List Migration) → (xs ++ ys) ++ zs ≡ xs ++ (ys ++ zs)
append_assoc [] ys zs = refl
append_assoc (x ∷ xs) ys zs = ap (λ l. x ∷ l) (append_assoc xs ys zs)

pub append_nil : (xs : List Migration) → xs ++ [] ≡ xs
append_nil [] = refl
append_nil (x ∷ xs) = ap (λ l. x ∷ l) (append_nil xs)

pub Numbered-split :
    (k : ℕ) (done pending : List Migration)
    → Numbered k (done ++ pending)
    → Numbered k done × Numbered (k + length done) pending
Numbered-split k [] pending n = (tt, subst (λ j. Numbered j pending) (omega arith) n)
Numbered-split k (m ∷ done) pending n =
    let rest = Numbered-split (suc k) done pending n.1 in
    let shifted : suc k + length done ≡ k + suc (length done) = omega arith in
    ((n.0, rest.0), subst (λ j. Numbered j pending) shifted rest.1)

pub none_later :
    (k j : ℕ) (done pending : List Migration) (rows : List AppliedMigration)
    → Numbered k done
    → RowsOf done rows
    → k + length done ≤ j
    → Numbered j pending
    → All (λ m. applied_row m.version rows ≡ none) pending
none_later k j done [] rows n h l p = tt
none_later k j done (m ∷ pending) rows n h l p = (
  not_found k m.version done rows n h (let e = p.0 in omega arith),
  none_later k (suc j) done pending rows n h (omega arith) p.1,
)
