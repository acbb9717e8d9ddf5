-- ===== src/Storage/Incidents/Paging.antt =====
-- internal/repository/postgres/incident.go: reading a timeline page by page.
use aegisops_ai.Base.{
  ℕ, zero, suc, ◌+◌, ◌-◌, ◌≤◌, ◌<◌, ◌≡◌, refl, sym, ◌∙◌, ap, subst, true, false, ltb, ltb→lt,
  Bool-cases, inl, inr, List, [], ◌∷◌, ◌++◌, Option, none, some, if◌then◌else◌, keep, keep_all,
  length, length-append, ℤ, pos, negsuc, All, take, sort_stable, IsSorted,
  sort_stable-IsSorted_self, arith,
}
use aegisops_ai.Shared.{Uid}
use aegisops_ai.Domain.Timeline.{TimelineEvent}
use aegisops_ai.Storage.Incidents.{
  events, page_of, event_rows, final_seq, normalise, is_after, seq_before,
}
use aegisops_ai.Storage.Incidents.Numbering.{timeline_of, IsNumbered}

skip : ℕ → List TimelineEvent → List TimelineEvent
skip zero l = l
skip (suc n) [] = []
skip (suc n) (e ∷ l) = skip n l

take-skip : (n : ℕ) (l : List TimelineEvent) → take n l ++ skip n l ≡ l
unfolding skip
take-skip zero l = refl
take-skip (suc n) [] = refl
take-skip (suc n) (e ∷ l) = ap (λ m. e ∷ m) (take-skip n l)

take-take : (n : ℕ) (l : List TimelineEvent) → take n (take (suc n) l) ≡ take n l
take-take zero l = refl
take-take (suc n) [] = refl
take-take (suc n) (e ∷ l) = ap (λ m. e ∷ m) (take-take n l)

take_whole : (n : ℕ) (l : List TimelineEvent) → length (take (suc n) l) ≤ n → take (suc n) l ≡ l
take_whole n [] h = refl
take_whole zero (e ∷ l) h = absurd (omega arith)
take_whole (suc n) (e ∷ l) h = ap (λ m. e ∷ m) (take_whole n l (omega arith))

length-take : (n : ℕ) (l : List TimelineEvent) → n < length (take (suc n) l) → length (take n l) ≡ n
length-take zero l h = refl
length-take (suc n) [] h = absurd (omega arith)
length-take (suc n) (e ∷ l) h = ap suc (length-take n l (omega arith))

IsNumbered-after :
    (j k : ℕ) (l : List TimelineEvent)
    → j < k
    → IsNumbered k l
    → All (λ e. is_after (some (pos j)) e ≡ true) l
unfolding is_after
IsNumbered-after j k [] lt h = tt
IsNumbered-after j k (e ∷ l) lt h =
    (rw h.0 (ground arith), IsNumbered-after j (suc k) l (omega arith) h.1)

IsNumbered-later :
    (j k : ℕ) (x : TimelineEvent) (l : List TimelineEvent)
    → x.seq ≡ pos j
    → j < k
    → IsNumbered k l
    → All (λ e. seq_before e x ≡ false) l
unfolding seq_before
IsNumbered-later j k x [] e lt h = tt
IsNumbered-later j k x (f ∷ l) e lt h =
    (rw (e, h.0) (ground arith), IsNumbered-later j (suc k) x l e (omega arith) h.1)

IsNumbered-IsSorted : (k : ℕ) (l : List TimelineEvent) → IsNumbered k l → IsSorted seq_before l
IsNumbered-IsSorted k [] h = tt
IsNumbered-IsSorted k (e ∷ l) h =
    (IsNumbered-later k (suc k) e l h.0 (omega arith) h.1, IsNumbered-IsSorted (suc k) l h.1)

-- The entries behind a prefix are those after its last number.
keep-after :
    (k : ℕ) (read rest : List TimelineEvent)
    → IsNumbered (suc k) (read ++ rest)
    → keep (is_after (some (pos (k + length read)))) (read ++ rest) ≡ rest
unfolding keep is_after
keep-after k [] rest h =
    keep_all (is_after (some (pos (k + 0)))) rest
      (IsNumbered-after (k + 0) (suc k) rest (omega arith) h)
keep-after k (e ∷ read) rest h =
    let passed : is_after (some (pos (k + suc (length read)))) e ≡ false = rw h.0 (ground arith) in
    rw passed (
      ap (λ n. keep (is_after (some (pos n))) (read ++ rest)) (omega arith)
      ∙ keep-after (suc k) read rest h.1)

IsNumbered-suffix :
    (k : ℕ) (read rest : List TimelineEvent)
    → IsNumbered k (read ++ rest)
    → IsNumbered (k + length read) rest
IsNumbered-suffix k [] rest h = subst (λ n. IsNumbered n rest) (omega arith) h
IsNumbered-suffix k (e ∷ read) rest h =
    subst (λ n. IsNumbered n rest) (omega arith) (IsNumbered-suffix (suc k) read rest h.1)

final_seq-IsNumbered :
    (k n : ℕ) (l : List TimelineEvent)
    → IsNumbered (suc k) l
    → length l ≡ suc n
    → final_seq l ≡ some (pos (suc k + n))
unfolding final_seq
final_seq-IsNumbered k n [] h e = absurd (omega arith)
final_seq-IsNumbered k n (x ∷ []) h e = ap some (h.0 ∙ ap pos (omega arith))
final_seq-IsNumbered k n (x ∷ y ∷ l) h e =
    final_seq-IsNumbered (suc k) (n - 1) (y ∷ l) h.1 (omega arith)
    ∙ ap (λ m. some (pos m)) (omega arith)

IsNumbered-take : (n k : ℕ) (l : List TimelineEvent) → IsNumbered k l → IsNumbered k (take n l)
IsNumbered-take zero k l h = tt
IsNumbered-take (suc n) k [] h = tt
IsNumbered-take (suc n) k (e ∷ l) h = (h.0, IsNumbered-take n (suc k) l h.1)

normalise-suc : (limit : ℤ) → (m : ℕ) × (normalise limit ≡ suc m)
unfolding normalise
normalise-suc (pos zero) = (49, refl)
normalise-suc (pos (suc n)) = elim (Bool-cases (ltb 500 (suc n))) [
  | inl above ↦ (499, rw above refl)
  | inr within ↦ (n, rw within refl)
]
normalise-suc (negsuc n) = (49, refl)

-- A client that follows the cursors until there is no further page.
unfoldable pub read_on : ℕ → ℤ → Uid → List TimelineEvent → Option ℤ → List TimelineEvent
unfolding events
read_on zero limit id rows cursor = []
read_on (suc calls) limit id rows cursor =
    let page = events limit cursor id rows in
    let more = read_on calls limit id rows page.next_cursor in
    page.items ++ (if page.has_more then more else [])

event_rows-rest :
    (n k : ℕ) (cursor : Option ℤ) (id : Uid) (rows read rest : List TimelineEvent)
    → timeline_of id rows ≡ read ++ rest
    → keep (is_after cursor) (read ++ rest) ≡ rest
    → IsNumbered k rest
    → event_rows n cursor id rows ≡ take n rest
unfolding event_rows timeline_of
event_rows-rest n k cursor id rows read rest whole behind numbered =
    ap (λ l. take n (sort_stable seq_before (keep (is_after cursor) l))) whole
    ∙ ap (λ l. take n (sort_stable seq_before l)) behind
    ∙ ap (take n) (sort_stable-IsSorted_self seq_before rest (IsNumbered-IsSorted k rest numbered))

append_assoc : (a b c : List TimelineEvent) → (a ++ b) ++ c ≡ a ++ (b ++ c)
append_assoc [] b c = refl
append_assoc (e ∷ a) b c = ap (λ l. e ∷ l) (append_assoc a b c)

append_none : (l : List TimelineEvent) → l ++ [] ≡ l
append_none [] = refl
append_none (e ∷ l) = ap (λ m. e ∷ m) (append_none l)

module _ (limit : ℤ) (m : ℕ) (size : normalise limit ≡ suc m) (id : Uid)
    (rows : List TimelineEvent) where
  events-rest :
      (k : ℕ) (cursor : Option ℤ) (read rest : List TimelineEvent)
      → timeline_of id rows ≡ read ++ rest
      → keep (is_after cursor) (read ++ rest) ≡ rest
      → IsNumbered k rest
      → events limit cursor id rows ≡ page_of (suc m) (take (suc (suc m)) rest)
  unfolding events
  events-rest k cursor read rest whole behind numbered = rw size (
      ap (page_of (suc m))
        (event_rows-rest (suc (suc m)) k cursor id rows read rest whole behind numbered))

  read_on-rest :
      (calls : ℕ) (cursor : Option ℤ) (read rest : List TimelineEvent)
      → timeline_of id rows ≡ read ++ rest
      → IsNumbered 1 (read ++ rest)
      → keep (is_after cursor) (read ++ rest) ≡ rest
      → length rest < calls
      → read_on calls limit id rows cursor ≡ rest
  unfolding read_on page_of
  read_on-rest zero cursor read rest whole numbered behind fuel = absurd (omega arith)
  read_on-rest (suc calls) cursor read rest whole numbered behind fuel =
      let suffix = IsNumbered-suffix 1 read rest numbered in
      let page = events-rest (1 + length read) cursor read rest whole behind suffix in
      elim (Bool-cases (ltb (suc m) (length (take (suc (suc m)) rest)))) [
        | inr last ↦
            rw (page, last, read_on)
              (append_none (take (suc (suc m)) rest) ∙ take_whole (suc m) rest (ground arith))
        | inl more ↦
            let full : length (take (suc m) rest) ≡ suc m =
              length-take (suc m) rest (ltb→lt (suc m) (length (take (suc (suc m)) rest)) more) in
            let taken = read ++ take (suc m) rest in
            let split : taken ++ skip (suc m) rest ≡ read ++ rest =
              append_assoc read (take (suc m) rest) (skip (suc m) rest)
              ∙ ap (λ l. read ++ l) (take-skip (suc m) rest) in
            let numbered' : IsNumbered 1 (taken ++ skip (suc m) rest) =
              subst (IsNumbered 1) (sym split) numbered in
            let ended : final_seq (take (suc m) rest) ≡ some (pos (0 + length taken)) =
              final_seq-IsNumbered (length read) m (take (suc m) rest)
                (IsNumbered-take (suc m) (suc (length read)) rest
                  (subst (λ n. IsNumbered n rest) (omega arith) suffix))
                full
              ∙ ap (λ n. some (pos n))
                  (omega (arith, length-append read (take (suc m) rest), full)) in
            rw (page, more, read_on, take-take (suc m) rest, ended)
              (ap (λ l. take (suc m) rest ++ l)
                  (read_on-rest calls (some (pos (0 + length taken))) taken (skip (suc m) rest)
                    (whole ∙ sym split) numbered' (keep-after 0 taken (skip (suc m) rest) numbered')
                    (omega (
                      arith,
                      full,
                      length-append (take (suc m) rest) (skip (suc m) rest),
                      ap length (take-skip (suc m) rest),
                    )))
                ∙ take-skip (suc m) rest)
      ]

keep_every : (l : List TimelineEvent) → keep (is_after none) l ≡ l
unfolding keep is_after
keep_every [] = refl
keep_every (e ∷ l) = ap (λ k. e ∷ k) (keep_every l)

-- Whatever size of a page is asked for, a client that follows the cursors through a timeline that
-- AppendEvent numbered reads every entry of the incident once, in order, and needs no more calls
-- than there are entries and one.
pub read_on-timeline_of :
    (limit : ℤ) (id : Uid) (rows : List TimelineEvent)
    → IsNumbered 1 (timeline_of id rows)
    → read_on (suc (length (timeline_of id rows))) limit id rows none ≡ timeline_of id rows
read_on-timeline_of limit id rows numbered =
    let (m, size) = normalise-suc limit in
    read_on-rest limit m size id rows (suc (length (timeline_of id rows))) none []
      (timeline_of id rows) refl numbered (keep_every (timeline_of id rows)) (omega arith)
