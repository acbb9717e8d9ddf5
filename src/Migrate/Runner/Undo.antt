-- ===== src/Migrate/Runner/Undo.antt =====
-- Down takes back what Up did, newest first. The texts to revert need not restore all of a schema:
-- the shipped ones leave extensions installed. `Alike` says when two schemas differ in no more.
use aegisops_ai.Base.{
  ℕ, zero, suc, ◌+◌, ◌≤◌, ◌≡◌, refl, sym, ap, ◌∙◌, ◌⊎◌, inl, inr, true, false, not, Bool-cases,
  ◌==◌, String, List, [], ◌∷◌, ◌++◌, Option, none, some, Option-cases, arith, subst, All, length,
  keep, is_blank, sort_stable, pos_part, ℤ,
}
use aegisops_ai.Migrate.Load.{Migration}
use aegisops_ai.Migrate.Runner.Newest.{
  turned, turned-turned, turned_both, sorted_newest, All-turned,
}
use aegisops_ai.Migrate.Load.Contiguous.{Numbered}
use aegisops_ai.Migrate.Runner.{
  AppliedMigration, Conditions, Database, MigrateError, applied_row, has_version, revert_one,
  without_row, revert_newest, newer, down, no_down, not_reverted,
}
use aegisops_ai.Migrate.Runner.Rows.{RowsOf, Found, rows_applied, Numbered-split, none_later}
use aegisops_ai.Migrate.Runner.Prefix.{clean_run, clean_run-append, clean_run_broken}

last_number :
    (k : ℕ) (done : List Migration) (m : Migration)
    → Numbered k (done ++ m ∷ [])
    → m.version ≡ k + length done
last_number k [] m n = let e = n.0 in omega arith
last_number k (d ∷ done) m n = let e = last_number (suc k) done m n.1 in omega arith

-- The row of the newest migration is the one that goes.
keep-last :
    (k : ℕ) (done : List Migration) (m : Migration) (rows : List AppliedMigration)
    → Numbered k (done ++ m ∷ [])
    → RowsOf (done ++ m ∷ []) rows
    → RowsOf done (keep (λ r. not (has_version m.version r)) rows)
unfolding keep has_version
keep-last k [] m [] n h = absurd h
keep-last k [] m (r ∷ []) n h =
    let own : (r.version == m.version) ≡ true = let e = h.0 in ground arith in rw own tt
keep-last k [] m (r ∷ _ ∷ _) n h = absurd h.2
keep-last k (d ∷ done) m [] n h = absurd h
keep-last k (d ∷ done) m (r ∷ rows) n h =
    let later = last_number (suc k) done m n.1 in
    let other : (r.version == m.version) ≡ false = let e = h.0 in let f = n.0 in ground arith in
    rw other (h.0, h.1, keep-last (suc k) done m rows n.1 h.2)

module _ {S : Type 0} (run_sql : String → S → Option S) (Alike : S → S → Type 0) where
  -- From a schema like the one that the text to apply makes, the text to revert, where it does not
  -- fail, leads to one like the schema before.
  abbrev pub Undoes : Migration → Type 0
  Undoes m =
      (s s' t u : S)
      → run_sql m.up_sql s ≡ some s'
      → Alike t s'
      → run_sql m.down_sql t ≡ some u
      → Alike u s

module _ {S : Type 0} (run_sql : String → S → Option S) (Alike : S → S → Type 0) (start : S) where
  -- The rows that a clean run of these migrations leaves, up to their times, and a schema like its.
  pub record BackTo (done : List Migration) (db : Database run_sql) : Type 0 where
    pub recorded : RowsOf done db.rows
    pub alike : (s : S) × (clean_run run_sql done start ≡ some s) × Alike db.schema s

  -- Reverting the newest migration.
  revert_one-BackTo :
      (c : Conditions) (m : Migration) (done : List Migration) (db db' : Database run_sql)
      → Undoes run_sql Alike m
      → Numbered 1 (done ++ m ∷ [])
      → BackTo (done ++ m ∷ []) db
      → revert_one run_sql c m db ≡ some db'
      → BackTo done db'
  unfolding revert_one without_row
  revert_one-BackTo c m done db db' u n h e = elim (Bool-cases (c.write_fails m.version)) [
    | inl failed ↦ cc (rw (failed, revert_one) at e)
    | inr fine ↦ elim (Option-cases (run_sql m.down_sql db.schema)) [
      | inl refused ↦ cc (rw (fine, refused, revert_one) at e)
      | inr (back, ran) ↦ elim (Option-cases (clean_run run_sql done start)) [
        | inl broken ↦ cc (clean_run_broken run_sql done (m ∷ []) start broken, h.alike.1)
        | inr (s, built) ↦
            let applied = sym (clean_run-append run_sql done m start s built) ∙ h.alike.1 in
            let made : some (record {
              rows = keep (λ (r : AppliedMigration). not (has_version m.version r)) db.rows;
              schema = back;
            })
                ≡ some db' =
              rw (fine, ran, revert_one) at e in
            subst (BackTo done) (cc made) (record {
              recorded = keep-last 1 done m db.rows n h.recorded;
              alike = (s, built, u s h.alike.0 db.schema back applied h.alike.2 ran);
            })
      ]
    ]
  ]

  -- Where Down ends, from the newest migrations on: some of them are reverted, at most `left`, and
  -- without an error as many as that, or all.
  pub record Reverts (left : ℕ) (newest : List Migration)
      (out : Database run_sql × Option MigrateError) : Type 0 where
    pub reverted : List Migration
    pub kept : List Migration
    pub split : newest ≡ reverted ++ kept
    pub reached : BackTo (turned kept) out.0
    pub bounded : length reverted ≤ left
    pub complete : out.1 ≡ none → (length reverted ≡ left) ⊎ (kept ≡ [])

  stops :
      (left : ℕ) (newest : List Migration) (db : Database run_sql) (o : Option MigrateError)
      → BackTo (turned newest) db
      → (o ≡ none → (0 ≡ left) ⊎ (newest ≡ []))
      → Reverts left newest (db, o)
  stops left newest db o h e = record {
    reverted = [];
    kept = newest;
    split = refl;
    reached = h;
    bounded = omega arith;
    complete = e;
  }

  one_more_back :
      (left : ℕ) (m : Migration) (newest : List Migration)
      (out : Database run_sql × Option MigrateError)
      → Reverts left newest out
      → Reverts (suc left) (m ∷ newest) out
  one_more_back left m newest out r = record {
    reverted = m ∷ r.reverted;
    kept = r.kept;
    split = ap (λ l. m ∷ l) r.split;
    reached = r.reached;
    bounded = let b = r.bounded in omega arith;
    complete = λ e. elim (r.complete e) [ inl n ↦ inl (ap suc n) | inr none_left ↦ inr none_left ];
  }

  revert_newest-Reverts :
      (c : Conditions) (applied : List AppliedMigration) (left : ℕ) (newest : List Migration)
      (db : Database run_sql)
      → All (Undoes run_sql Alike) newest
      → All (Found applied) newest
      → Numbered 1 (turned newest)
      → BackTo (turned newest) db
      → Reverts left newest (revert_newest run_sql c applied left newest db)
  unfolding revert_newest turned
  revert_newest-Reverts c applied left [] db u f n h = stops left [] db none h (λ e. inr refl)
  revert_newest-Reverts c applied zero (m ∷ ms) db u f n h =
      stops 0 (m ∷ ms) db none h (λ e. inl refl)
  revert_newest-Reverts c applied (suc left) (m ∷ ms) db u f n h =
      elim (Bool-cases (is_blank m.down_sql)) [
        | inl blank ↦
            rw (f.0.1, blank, revert_newest)
              (stops (suc left) (m ∷ ms) db (some (no_down m.version)) h (λ e. cc e))
        | inr there ↦ elim (Option-cases (revert_one run_sql c m db)) [
          | inl failed ↦
              rw (f.0.1, there, failed, revert_newest)
                (stops (suc left) (m ∷ ms) db (some (not_reverted m.version)) h (λ e. cc e))
          | inr (db', ran) ↦
              rw (f.0.1, there, ran, revert_newest)
                (one_more_back left m ms _ (
                  revert_newest-Reverts c applied left ms db' u.1 f.1
                    (Numbered-split 1 (turned ms) (m ∷ []) n).0
                    (revert_one-BackTo c m (turned ms) db db' u.0 n h ran)))
        ]
      ]

module _ {S : Type 0} (run_sql : String → S → Option S) (Alike : S → S → Type 0) (start : S) where
  -- Migrations that are not applied are passed over.
  revert_newest-skips :
      (c : Conditions) (applied : List AppliedMigration) (left : ℕ) (others newest : List Migration)
      (db : Database run_sql)
      → All (λ m. applied_row m.version applied ≡ none) others
      → revert_newest run_sql c applied left (others ++ newest) db
        ≡ revert_newest run_sql c applied left newest db
  unfolding revert_newest
  revert_newest-skips c applied zero (m ∷ ms) [] db h = refl
  revert_newest-skips c applied zero (m ∷ ms) (n ∷ ns) db h = refl
  revert_newest-skips c applied left [] newest db h = refl
  revert_newest-skips c applied (suc left) (m ∷ ms) newest db h =
      rw (h.0, revert_newest) (revert_newest-skips c applied (suc left) ms newest db h.1)

  -- The loop of Down, where the first migrations are applied and the others are pending.
  revert_sorted-Reverts :
      (c : Conditions) (left : ℕ) (done pending : List Migration) (db : Database run_sql)
      → Numbered 1 (done ++ pending)
      → All (Undoes run_sql Alike) done
      → BackTo run_sql Alike start done db
      → Reverts run_sql Alike start left
          (turned done)
          (revert_newest run_sql c db.rows left (sort_stable newer (done ++ pending)) db)
  revert_sorted-Reverts c left done pending db n u h =
      let (n_done, n_pending) = Numbered-split 1 done pending n in
      let order = sorted_newest 1 (done ++ pending) n ∙ turned_both done pending in
      let missing =
        none_later 1 (1 + length done) done pending db.rows n_done h.recorded (omega arith)
          n_pending in
      let skipped = revert_newest-skips c db.rows left (turned pending) (turned done) db (
        All-turned (λ m. applied_row m.version db.rows ≡ none) (1 + length done) pending n_pending
          missing) in
      let again = sym (turned-turned done) in
      subst (Reverts run_sql Alike start left (turned done))
        (sym (ap (λ l. revert_newest run_sql c db.rows left l db) order ∙ skipped))
        (revert_newest-Reverts run_sql Alike start c db.rows left (turned done) db
          (All-turned (Undoes run_sql Alike) 1 done n_done u)
          (All-turned (Found db.rows) 1 done n_done (rows_applied 1 done db.rows n_done h.recorded))
          (subst (Numbered 1) again n_done) (subst (λ l. BackTo run_sql Alike start l db) again h))

  -- Of numbered migrations of which the first are applied and the others are pending, where each
  -- text to revert an applied one, when it does not fail, restores the schema up to Alike, and for a
  -- positive number of steps: Down passes over the pending ones and reverts applied ones, newest
  -- first, at most as many as asked. The rows are then those of a clean run of the remaining ones,
  -- and the schema is like its. It reverts exactly as many as asked, or all there are, when it
  -- returns no error.
  pub down_takes_back :
      (c : Conditions) (steps : ℤ) (done pending : List Migration) (db : Database run_sql)
      → Numbered 1 (done ++ pending)
      → All (Undoes run_sql Alike) done
      → BackTo run_sql Alike start done db
      → (pos_part steps ≡ 0 → ⊥)
      → Reverts run_sql Alike start
          (pos_part steps)
          (turned done)
          (down run_sql c steps (done ++ pending) db)
  unfolding down
  down_takes_back c steps done pending db n u h p =
      let all = subst (λ l. BackTo run_sql Alike start l db) (sym (turned-turned done)) h in
      let ran = revert_sorted-Reverts c (pos_part steps) done pending db n u h in
      let some_steps : (pos_part steps == 0) ≡ false = ground arith in
      elim (Bool-cases c.lock_fails) [
        | inl locked ↦
            rw (some_steps, locked, down) (stops run_sql Alike start _ _ db _ all (λ e. cc e))
        | inr free ↦ elim (Bool-cases c.read_fails) [
          | inl unread ↦
              rw (some_steps, free, unread, down)
                (stops run_sql Alike start _ _ db _ all (λ e. cc e))
          | inr read ↦ rw (some_steps, free, read, down) ran
        ]
      ]
