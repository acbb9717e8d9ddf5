-- ===== src/Migrate/Runner/Prefix.antt =====
-- Up, from any partial run, leads to the database of a clean run.
use aegisops_ai.Base.{
  ℕ, ◌+◌, ◌≡◌, refl, sym, ap, ◌∙◌, inl, inr, false, Bool-cases, String, str_eq_iff, List, [], ◌∷◌,
  ◌++◌, Option, none, some, Option-cases, any, arith, subst, All, length,
}
use aegisops_ai.Migrate.Load.{Migration}
use aegisops_ai.Migrate.Load.Contiguous.{Numbered}
use aegisops_ai.Migrate.Runner.{
  AppliedMigration, Conditions, Database, MigrateError, applied_row, has_version, changed,
  verify_checksums, apply_one, with_row, row_for, apply_pending, up, not_applied,
}
use aegisops_ai.Migrate.Runner.Rows.{
  RowsOf, RowsOf-append, Found, rows_applied, append_assoc, append_nil, Numbered-split, none_later,
}

module _ {S : Type 0} (run_sql : String → S → Option S) where
  -- The schema of a clean run of these migrations.
  unfoldable pub clean_run : List Migration → S → Option S
  clean_run [] s = some s
  clean_run (m ∷ ms) s = elim (run_sql m.up_sql s) [ none ↦ none | some s' ↦ clean_run ms s' ]

  pub clean_run-append :
      (ms : List Migration) (m : Migration) (s s' : S)
      → clean_run ms s ≡ some s'
      → clean_run (ms ++ m ∷ []) s ≡ run_sql m.up_sql s'
  unfolding clean_run
  clean_run-append [] m s s' h =
      let same : s ≡ s' = cc h in
      elim (Option-cases (run_sql m.up_sql s)) [
        | inl failed ↦ rw (failed, clean_run) (sym failed ∙ ap (run_sql m.up_sql) same)
        | inr (next, ran) ↦ rw (ran, clean_run) (sym ran ∙ ap (run_sql m.up_sql) same)
      ]
  clean_run-append (n ∷ ms) m s s' h = elim (Option-cases (run_sql n.up_sql s)) [
    | inl failed ↦ cc (rw (failed, clean_run) at h)
    | inr (next, ran) ↦
        rw (ran, clean_run) (clean_run-append ms m next s' (rw (ran, clean_run) at h))
  ]

  pub clean_run_broken :
      (ms more : List Migration) (s : S) → clean_run ms s ≡ none → clean_run (ms ++ more) s ≡ none
  unfolding clean_run
  clean_run_broken [] more s h = cc h
  clean_run_broken (n ∷ ms) more s h = elim (Option-cases (run_sql n.up_sql s)) [
    | inl failed ↦ rw (failed, clean_run) refl
    | inr (next, ran) ↦
        rw (ran, clean_run) (clean_run_broken ms more next (rw (ran, clean_run) at h))
  ]

module _ {S : Type 0} (run_sql : String → S → Option S) (start : S) where
  -- The database that a clean run of these migrations leaves, up to the times of the rows.
  pub record UpTo (done : List Migration) (db : Database run_sql) : Type 0 where
    pub recorded : RowsOf done db.rows
    pub built : clean_run run_sql done start ≡ some db.schema

  apply_one-UpTo :
      (c : Conditions) (m : Migration) (done : List Migration) (db db' : Database run_sql)
      → UpTo done db
      → apply_one run_sql c m db ≡ some db'
      → UpTo (done ++ m ∷ []) db'
  unfolding apply_one with_row row_for
  apply_one-UpTo c m done db db' h e = elim (Bool-cases (c.write_fails m.version)) [
    | inl failed ↦ cc (rw (failed, apply_one) at e)
    | inr fine ↦ elim (Option-cases (run_sql m.up_sql db.schema)) [
      | inl refused ↦ cc (rw (fine, refused, apply_one) at e)
      | inr (s, ran) ↦ elim (Bool-cases (any (has_version m.version) db.rows)) [
        | inl taken ↦ cc (rw (fine, ran, taken, apply_one) at e)
        | inr free ↦
            let made : some (record { rows = db.rows ++ row_for run_sql c m ∷ []; schema = s })
                ≡ some db' =
              rw (fine, ran, free, apply_one) at e in
            subst (UpTo (done ++ m ∷ [])) (cc made) (record {
              recorded = RowsOf-append done db.rows m (row_for run_sql c m) h.recorded (refl, refl);
              built = clean_run-append run_sql done m start db.schema h.built ∙ ran;
            })
      ]
    ]
  ]

  -- Where Up ends: some more of the pending migrations are applied, and all of them without an error.
  pub record Ends (done pending : List Migration) (out : Database run_sql × Option MigrateError)
      : Type 0 where
    pub more : List Migration
    pub rest : List Migration
    pub split : pending ≡ more ++ rest
    pub reached : UpTo (done ++ more) out.0
    pub complete : out.1 ≡ none → rest ≡ []

  stays :
      (done pending : List Migration) (db : Database run_sql) (err : MigrateError)
      → UpTo done db
      → Ends done pending (db, some err)
  stays done pending db err h = record {
    more = [];
    rest = pending;
    split = refl;
    reached = rw (append_nil done) h;
    complete = λ e. cc e;
  }

  goes_on :
      (done : List Migration) (m : Migration) (pending : List Migration)
      (out : Database run_sql × Option MigrateError)
      → Ends (done ++ m ∷ []) pending out
      → Ends done (m ∷ pending) out
  goes_on done m pending out e = record {
    more = m ∷ e.more;
    rest = e.rest;
    split = ap (λ l. m ∷ l) e.split;
    reached = subst (λ l. UpTo l out.0) (append_assoc done (m ∷ []) e.more) e.reached;
    complete = e.complete;
  }

  apply_pending-Ends :
      (c : Conditions) (applied : List AppliedMigration) (k : ℕ) (done pending : List Migration)
      (db : Database run_sql)
      → All (λ m. applied_row m.version applied ≡ none) pending
      → UpTo done db
      → Ends done pending (apply_pending run_sql c applied pending db)
  unfolding apply_pending
  apply_pending-Ends c applied k done [] db n h = record {
    more = [];
    rest = [];
    split = refl;
    reached = rw (append_nil done) h;
    complete = λ e. refl;
  }
  apply_pending-Ends c applied k done (m ∷ pending) db n h =
      elim (Option-cases (apply_one run_sql c m db)) [
        | inl failed ↦
            rw (n.0, failed, apply_pending) (stays done (m ∷ pending) db (not_applied m.version) h)
        | inr (db', ran) ↦
            rw (n.0, ran, apply_pending)
              (goes_on done m pending _ (
                apply_pending-Ends c applied k (done ++ m ∷ []) pending db' n.1
                  (apply_one-UpTo c m done db db' h ran)))
      ]

  -- Applied migrations are skipped.
  apply_pending-skips :
      (c : Conditions) (applied : List AppliedMigration) (done pending : List Migration)
      (db : Database run_sql)
      → All (Found applied) done
      → apply_pending run_sql c applied (done ++ pending) db
        ≡ apply_pending run_sql c applied pending db
  unfolding apply_pending
  apply_pending-skips c applied [] pending db h = refl
  apply_pending-skips c applied (m ∷ done) pending db h =
      rw (h.0.1, apply_pending) (apply_pending-skips c applied done pending db h.1)

  -- Where some of the migrations, the first ones, are applied, as after a clean run of these, Up
  -- applies more of them in order, whatever fails: the database is then that of a clean run of a
  -- longer part, and of all of them when Up returns no error.
  pub up_extends :
      (c : Conditions) (done pending : List Migration) (db : Database run_sql)
      → Numbered 1 (done ++ pending)
      → UpTo done db
      → Ends done pending (up run_sql c (done ++ pending) db)
  unfolding up
  up_extends c done pending db n h =
      let parts = Numbered-split 1 done pending n in
      let skipped =
        apply_pending-skips c db.rows done pending db
          (rows_applied 1 done db.rows parts.0 h.recorded) in
      let ran =
        apply_pending-Ends c db.rows 1 done pending db
          (none_later 1 (1 + length done) done pending db.rows parts.0 h.recorded (omega arith)
            parts.1)
          h in
      elim (Bool-cases c.lock_fails) [
        | inl locked ↦ rw (locked, up) (stays done pending db _ h)
        | inr free ↦ elim (Bool-cases c.table_fails) [
          | inl lost ↦ rw (free, lost, up) (stays done pending db _ h)
          | inr there ↦ elim (Bool-cases c.read_fails) [
            | inl unread ↦ rw (free, there, unread, up) (stays done pending db _ h)
            | inr read ↦ elim (Option-cases (verify_checksums (done ++ pending) db.rows)) [
              | inr (err, dirty) ↦ rw (free, there, read, dirty, up) (stays done pending db err h)
              | inl clean ↦ rw (free, there, read, clean, skipped, up) ran
            ]
          ]
        ]
      ]

  unchanged :
      (rows : List AppliedMigration) (ms : List Migration)
      → All (Found rows) ms
      → verify_checksums ms rows ≡ none
  unfolding verify_checksums changed
  unchanged rows [] h = refl
  unchanged rows (m ∷ ms) h =
      let same = (str_eq_iff h.0.0.checksum m.checksum).1 h.0.2 in
      rw (h.0.1, same, changed, unchanged rows ms h.1) refl

  -- Up on a database where every migration is applied changes nothing and returns no error, when
  -- the lock, the table and its rows are to be had.
  pub up_idempotent :
      (c : Conditions) (ms : List Migration) (db : Database run_sql)
      → Numbered 1 ms
      → UpTo ms db
      → c.lock_fails ≡ false
      → c.table_fails ≡ false
      → c.read_fails ≡ false
      → up run_sql c ms db ≡ (db, none)
  unfolding up apply_pending
  up_idempotent c ms db n h l t r =
      let found = rows_applied 1 ms db.rows n h.recorded in
      let skipped : apply_pending run_sql c db.rows ms db ≡ (db, none) =
        subst (λ l'. apply_pending run_sql c db.rows l' db ≡ (db, none)) (append_nil ms)
          (apply_pending-skips c db.rows ms [] db found) in
      rw (l, t, r, unchanged db.rows ms found, up) skipped
