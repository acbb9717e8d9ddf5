-- ===== src/Examples/AtMigrate.antt =====
-- The theorems on the migrations.
use aegisops_ai.Base.{
  ◌≡◌, refl, sym, ap, ◌∙◌, Bool, true, false, String, str_eq, if◌then◌else◌, List, [], ◌∷◌, ◌++◌,
  Option, none, some, pos, arith,
}
use aegisops_ai.Migrate.Load.{Migration, Entry}
use aegisops_ai.Migrate.Runner.{Conditions, Database, verify_checksums, up, down}
use aegisops_ai.Migrate.Runner.Prefix.{Ends, clean_run, up_extends}
use aegisops_ai.Migrate.Runner.Newest.{turned}
use aegisops_ai.Migrate.Runner.Undo.{Undoes, Reverts, down_takes_back}

abbrev files : List Entry
files =
    record { file_name = "0002_incidents.up.sql"; is_dir = false; body = some "i" }
    ∷ record { file_name = "0001_identity.up.sql"; is_dir = false; body = some "u" }
    ∷ record { file_name = "0001_identity.down.sql"; is_dir = false; body = some "d" }
    ∷ []

abbrev identity : Migration
identity = record { version = 1; name = "identity"; up_sql = "u"; down_sql = "d"; checksum = "u" }

abbrev incidents : Migration
incidents = record { version = 2; name = "incidents"; up_sql = "i"; down_sql = ""; checksum = "i" }

-- A schema is the list of the texts in force; `d` takes the last one back.
abbrev sql : String → List String → Option (List String)
sql s [] = if str_eq s "d" then none else some (s ∷ [])
sql s (t ∷ ts) = if str_eq s "d" then some ts else some (s ∷ t ∷ ts)

abbrev fine : Conditions
fine = record {
  lock_fails = false;
  table_fails = false;
  read_fails = false;
  write_fails = λ v. false;
  now = λ v. 100;
  took = λ v. 3;
}

abbrev empty : Database sql
empty = record { rows = []; schema = [] }

up_extends_example :
    Ends sql [] [] (identity ∷ incidents ∷ []) (up sql fine ([] ++ identity ∷ incidents ∷ []) empty)
unfolding clean_run
up_extends_example =
    up_extends sql [] fine [] (identity ∷ incidents ∷ []) empty (refl, (refl, tt))
      (record { recorded = tt; built = refl })

-- A schema of the texts in force, and whether an extension is installed. Applying installs it; `d`
-- takes the last text back and leaves the extension.
abbrev sql_extended : String → List String × Bool → Option (List String × Bool)
sql_extended s ([], e) = if str_eq s "d" then none else some (s ∷ [], true)
sql_extended s (t ∷ ts, e) = if str_eq s "d" then some (ts, e) else some (s ∷ t ∷ ts, true)

abbrev SameTexts : List String × Bool → List String × Bool → Type 0
SameTexts a b = a.0 ≡ b.0

abbrev extended : Database sql_extended
extended = (up sql_extended fine (identity ∷ []) (record { rows = []; schema = ([], false) })).0

texts_of : Option (List String × Bool) → List String
texts_of none = []
texts_of (some s) = s.0

-- Whatever is on top is taken back.
popped :
    (ts : List String) (t u : List String × Bool)
    → t.0 ≡ "u" ∷ ts
    → sql_extended "d" t ≡ some u
    → u.0 ≡ ts
popped ts ([], e) u h r = cc
popped ts (x ∷ xs, e) u h r = cc

identity-Undoes : Undoes sql_extended SameTexts identity
unfolding texts_of
identity-Undoes ([], e) s' t u h same r =
    popped [] t u (same ∙ sym (ap (λ (o : Option (List String × Bool)). texts_of o) h)) r
identity-Undoes (x ∷ xs, e) s' t u h same r =
    popped (x ∷ xs) t u (same ∙ sym (ap (λ (o : Option (List String × Bool)). texts_of o) h)) r

down_takes_back_example :
    Reverts sql_extended SameTexts
      ([], false)
      1
      (turned (identity ∷ []))
      (down sql_extended fine (pos 1) (identity ∷ incidents ∷ []) extended)
unfolding clean_run up verify_checksums
down_takes_back_example =
    down_takes_back sql_extended SameTexts ([], false) fine (pos 1) (identity ∷ []) (incidents ∷ [])
      extended (refl, (refl, tt)) (identity-Undoes, tt)
      (record { recorded = (refl, refl, tt); alike = (("u" ∷ [], true), refl, refl) })
      (λ e. omega arith)
