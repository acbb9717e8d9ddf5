-- ===== src/Migrate/Load.antt =====
-- internal/database/migrate/migrate.go: Load. The checksum, SHA-256 in hexadecimal behind the
-- normalisation of line ends, is a parameter. Go visits the versions in any order and this model in
-- the order of the files, which decides only which of two errors is reported.
pub mod Contiguous
use aegisops_ai.Base.{
  ℕ, zero, suc, ◌+◌, ◌-◌, ◌*◌, ◌^◌, Bool, true, false, not, ◌&&◌, ◌||◌, ◌==◌, ltb, leb, String,
  Char, code, str_eq, is_blank, List, [], ◌∷◌, ◌++◌, Option, none, some, ◌⊎◌, inl, inr,
  if◌then◌else◌, sort_stable, find_first,
}

pub record Migration : Type 0 where
  pub version : ℕ
  pub name : String
  pub up_sql : String
  pub down_sql : String
  pub checksum : String

-- An entry of the directory; `none` is a file that cannot be read.
pub record Entry : Type 0 where
  pub file_name : String
  pub is_dir : Bool
  pub body : Option String

pub data Direction : Type 0 where
  up down : Direction

pub record Matched : Type 0 where
  pub version : ℕ
  pub name : String
  pub direction : Direction

pub data LoadError : Type 0 where
  bad_name : String → LoadError
  bad_version : String → LoadError
  unreadable : String → LoadError
  conflicting_names : ℕ → LoadError
  no_up : ℕ → LoadError
  gap : (found expected : ℕ) → LoadError

is_digit : ℕ → Bool
is_digit c = leb 48 c && leb c 57

is_name_char : ℕ → Bool
unfolding is_digit
is_name_char c = (leb 97 c && leb c 122) || is_digit c || c == 95

-- The longest part in front whose characters pass, and what is behind it.
span : (ℕ → Bool) → String → String × String
span p String.[] = ("", "")
span p (String.◌∷◌ c s) =
    let rest = span p s in
    if p (code c) then (String.◌∷◌ c rest.0, rest.1) else ("", String.◌∷◌ c s)

-- The value of decimal digits.
decimal : ℕ → String → ℕ
decimal n String.[] = n
decimal n (String.◌∷◌ c s) = decimal (n * 10 + (code c - 48)) s

direction_of : String → Option Direction
direction_of s =
    if str_eq s ".up.sql" then some up else if str_eq s ".down.sql" then some down else none

-- The text behind an underscore.
behind_underscore : String → Option String
behind_underscore String.[] = none
behind_underscore (String.◌∷◌ c s) = if code c == 95 then some s else none

-- filenamePattern and its three groups: no digit is an underscore, and no character of a name a dot.
match_name : String → Option (String × (String × Direction))
unfolding span is_name_char is_digit direction_of behind_underscore
match_name file =
    let digits = span is_digit file in
    elim (behind_underscore digits.1) [
      | none ↦ none
      | some rest ↦
          let name = span is_name_char rest in
          elim (direction_of name.1) [
            | none ↦ none
            | some d ↦
                if str_eq digits.0 "" || str_eq name.0 ""
                then none
                else some (digits.0, (name.0, d))
          ]
    ]

-- The checks on the version, an int.
with_version : String → String × (String × Direction) → Matched ⊎ LoadError
unfolding decimal
with_version file (digits, (name, d)) =
    let version = decimal 0 digits in
    if leb (2 ^ 63) version || version == 0
    then inr (bad_version file)
    else inl (record { version = version; name = name; direction = d })

pub record Pair : Type 0 where
  pub number : ℕ
  pub called : String
  pub up_body : String
  pub down_body : String

with_body : Direction → String → Pair → Pair
with_body up body p = record p { up_body = body }
with_body down body p = record p { down_body = body }

-- byVersion[version], made where it is missing; `none` where the names differ.
file_under : Matched → String → List Pair → Option (List Pair)
unfolding with_body
file_under m body [] = some (
    with_body m.direction body
      (record { number = m.version; called = m.name; up_body = ""; down_body = "" })
    ∷ [])
file_under m body (p ∷ pairs) =
    let rest = file_under m body pairs in
    if p.number == m.version
    then if str_eq p.called m.name then some (with_body m.direction body p ∷ pairs) else none
    else elim rest [ none ↦ none | some pairs' ↦ some (p ∷ pairs') ]

-- One file.
collect_file : String → Option String → Matched ⊎ LoadError → List Pair → List Pair ⊎ LoadError
unfolding file_under
collect_file file body (inr e) pairs = inr e
collect_file file none (inl m) pairs = inr (unreadable file)
collect_file file (some body) (inl m) pairs = elim (file_under m body pairs) [
  | none ↦ inr (conflicting_names m.version)
  | some pairs' ↦ inl pairs'
]

matched_of : String → Matched ⊎ LoadError
unfolding match_name with_version
matched_of file = elim (match_name file) [
  | none ↦ inr (bad_name file)
  | some groups ↦ with_version file groups
]

-- The loop over the directory.
collect : List Entry → List Pair → List Pair ⊎ LoadError
unfolding collect_file matched_of
collect [] pairs = inl pairs
collect (e ∷ entries) pairs =
    if e.is_dir
    then collect entries pairs
    else elim (collect_file e.file_name e.body (matched_of e.file_name) pairs) [
      | inr err ↦ inr err
      | inl pairs' ↦ collect entries pairs'
    ]

module _ (checksum_of : String → String) where
  migration_of : Pair → Migration
  migration_of p = record {
    version = p.number;
    name = p.called;
    up_sql = p.up_body;
    down_sql = p.down_body;
    checksum = checksum_of p.up_body;
  }

  -- The loop over the versions.
  build : List Pair → List Migration ⊎ LoadError
  unfolding migration_of
  build [] = inl []
  build (p ∷ pairs) =
      let rest = build pairs in
      if is_blank p.up_body
      then inr (no_up p.number)
      else elim rest [ inr err ↦ inr err | inl ms ↦ inl (migration_of p ∷ ms) ]

  before : Migration → Migration → Bool
  before a b = ltb a.version b.version

  -- The first version that is not the expected one.
  first_gap : ℕ → List Migration → Option LoadError
  first_gap expected [] = none
  first_gap expected (m ∷ ms) =
      if m.version == expected then first_gap (suc expected) ms else some (gap m.version expected)

  checked : List Migration → List Migration ⊎ LoadError
  unfolding first_gap
  checked ms = elim (first_gap 1 ms) [ some err ↦ inr err | none ↦ inl ms ]

  in_order : List Migration ⊎ LoadError → List Migration ⊎ LoadError
  unfolding checked before
  in_order (inr err) = inr err
  in_order (inl ms) = checked (sort_stable before ms)

  from_pairs : List Pair ⊎ LoadError → List Migration ⊎ LoadError
  unfolding build in_order
  from_pairs (inr err) = inr err
  from_pairs (inl pairs) = in_order (build pairs)

  unfoldable pub load : List Entry → List Migration ⊎ LoadError
  unfolding collect from_pairs
  load entries = from_pairs (collect entries [])
