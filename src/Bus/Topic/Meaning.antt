-- ===== src/Bus/Topic/Meaning.antt =====
-- What a topic pattern means, without the algorithm, and that `matches` decides it.
use aegisops_ai.Base.{
  ◌≡◌, refl, sym, ap, ◌∙◌, subst, ◌⊎◌, inl, inr, ◌↔◌, Bool, true, false, Bool-cases, String, List,
  [], ◌∷◌, ◌++◌, str_eq, str_eq_iff, length, arith,
}
use aegisops_ai.Bus.Topic.{
  try_splits, one_segment, is_last, match_first, match_segments, matches, split_dots,
}

-- The segments that one segment of a pattern stands for.
abbrev pub StandsFor : String → List String → Type 0
StandsFor p piece = (p ≡ "#") ⊎ (((p ≡ "*") × (length piece ≡ 1)) ⊎ (piece ≡ p ∷ []))

-- The key is cut into pieces, one for each segment of the pattern.
abbrev pub Matches : List String → List String → Type 0
Matches [] key = key ≡ []
Matches (p ∷ pattern') key =
    (piece : List String) × (rest : List String) × (key ≡ piece ++ rest)
    × StandsFor p piece
    × Matches pattern' rest

try_splits_sound :
    (m : List String → Bool) (key : List String)
    → try_splits m key ≡ true
    → (piece : List String) × (rest : List String) × (key ≡ piece ++ rest) × (m rest ≡ true)
unfolding try_splits
try_splits_sound m [] h = ([], [], refl, h)
try_splits_sound m (k ∷ key) h = elim (Bool-cases (m (k ∷ key))) [
  | inl here ↦ ([], k ∷ key, refl, here)
  | inr later ↦
      let found = try_splits_sound m key (ground (arith, h, later)) in
      (k ∷ found.0, found.1, ap (λ l. k ∷ l) found.2, found.3)
]

try_splits_complete :
    (m : List String → Bool) (piece rest : List String)
    → m rest ≡ true
    → try_splits m (piece ++ rest) ≡ true
unfolding try_splits
try_splits_complete m [] [] h = h
try_splits_complete m [] (k ∷ rest) h = ground (arith, h)
try_splits_complete m (k ∷ piece) rest h =
    let later = try_splits_complete m piece rest h in
    elim (Bool-cases (m (k ∷ piece ++ rest))) [
      | inl here ↦ ground (arith, here)
      | inr other ↦ rw other later
    ]

is_last_sound : (key : List String) → is_last key ≡ true → key ≡ []
unfolding is_last
is_last_sound [] h = refl
is_last_sound (_ ∷ _) h = cc h

one_segment_sound :
    (fits : String → Bool) (m : List String → Bool) (key : List String)
    → one_segment fits m key ≡ true
    → (k : String) × (rest : List String) × (key ≡ k ∷ rest) × (fits k ≡ true) × (m rest ≡ true)
unfolding one_segment
one_segment_sound fits m [] h = cc h
one_segment_sound fits m (k ∷ key) h = (k, key, refl, ground (arith, h), ground (arith, h))

append_nil : (xs : List String) → xs ≡ xs ++ []
append_nil [] = refl
append_nil (x ∷ xs) = ap (λ l. x ∷ l) (append_nil xs)

length_one : {A : Type 0} (xs : List A) → length xs ≡ 1 → (x : A) × (xs ≡ x ∷ [])
length_one [] h = absurd (omega arith)
length_one (x ∷ []) h = (x, refl)
length_one (x ∷ _ ∷ _) h = absurd (omega arith)

-- A key that the rest `m` takes behind a piece.
abbrev Cut : String → (List String → Bool) → List String → Type 0
Cut p m key =
    (piece : List String) × (rest : List String) × (key ≡ piece ++ rest)
    × StandsFor p piece
    × (m rest ≡ true)

match_first_sound :
    (p : String) (last : Bool) (m : List String → Bool) (key : List String)
    → (last ≡ true → m [] ≡ true)
    → match_first p last m key ≡ true
    → Cut p m key
unfolding match_first
match_first_sound p last m key t h = elim (Bool-cases (str_eq p "#")) [
  | inl many ↦ elim (Bool-cases last) [
    | inl trailing ↦ (key, [], append_nil key, inl ((str_eq_iff p "#").0 many), t trailing)
    | inr more ↦
        let found = try_splits_sound m key (rw (many, more) at h) in
        (found.0, found.1, found.2, inl ((str_eq_iff p "#").0 many), found.3)
  ]
  | inr few ↦ elim (Bool-cases (str_eq p "*")) [
    | inl star ↦
        let found = one_segment_sound (λ k. true) m key (rw (few, star) at h) in
        (found.0 ∷ [], found.1, found.2, inr (inl ((str_eq_iff p "*").0 star, refl)), found.4)
    | inr word ↦
        let found = one_segment_sound (str_eq p) m key (rw (few, word) at h) in
        (
          found.0 ∷ [],
          found.1,
          found.2,
          inr (inr (ap (λ s. s ∷ []) (sym ((str_eq_iff p found.0).0 found.3)))),
          found.4,
        )
  ]
]

one_word :
    (p : String) (m : List String → Bool) (rest : List String)
    → str_eq p "#" ≡ false
    → (k : String) → (p ≡ "*") ⊎ (k ≡ p)
    → m rest ≡ true
    → (last : Bool) → match_first p last m (k ∷ rest) ≡ true
unfolding match_first one_segment
one_word p m rest few k w h last = elim (Bool-cases (str_eq p "*")) [
  | inl star ↦ rw (few, star) h
  | inr word ↦ elim w [
    | inl e ↦ cc (word, (str_eq_iff p "*").1 e)
    | inr e ↦ rw (few, word, (str_eq_iff p k).1 (sym e)) h
  ]
]

match_first_complete :
    (p : String) (last : Bool) (m : List String → Bool) (key : List String)
    → Cut p m key
    → match_first p last m key ≡ true
unfolding match_first
match_first_complete p last m key (piece, rest, e, s, h) = elim (Bool-cases (str_eq p "#")) [
  | inl many ↦
      let found = try_splits_complete m piece rest h in rw (many, e) (ground (arith, found))
  | inr few ↦ elim s [
    | inl hash ↦ cc (few, (str_eq_iff p "#").1 hash)
    | inr (inl (star, one)) ↦
        let k = length_one piece one in
        subst (λ l. match_first p last m l ≡ true) (sym (e ∙ ap (λ l. l ++ rest) k.1))
          (one_word p m rest few k.0 (inl star) h last)
    | inr (inr word) ↦
        subst (λ l. match_first p last m l ≡ true) (sym (e ∙ ap (λ l. l ++ rest) word))
          (one_word p m rest few p (inr refl) h last)
  ]
]

is_last-match :
    (pattern' : List String) → is_last pattern' ≡ true → match_segments pattern' [] ≡ true
unfolding is_last match_segments
is_last-match [] h = refl
is_last-match (_ ∷ _) h = cc h

match_segments_sound :
    (pattern' key : List String) → match_segments pattern' key ≡ true → Matches pattern' key
unfolding match_segments
match_segments_sound [] key h = is_last_sound key h
match_segments_sound (p ∷ pattern') key h =
    let cut =
      match_first_sound p (is_last pattern') (match_segments pattern') key (is_last-match pattern')
        h in
    (cut.0, cut.1, cut.2, cut.3, match_segments_sound pattern' cut.1 cut.4)

match_segments_complete :
    (pattern' key : List String) → Matches pattern' key → match_segments pattern' key ≡ true
unfolding match_segments is_last
match_segments_complete [] key h = rw h refl
match_segments_complete (p ∷ pattern') key (piece, rest, e, s, h) =
    match_first_complete p (is_last pattern') (match_segments pattern') key
      (piece, rest, e, s, match_segments_complete pattern' rest h)

-- A pattern matches itself.
self_match : (key : List String) → Matches key key
self_match [] = refl
self_match (k ∷ key) = (k ∷ [], key, refl, inr (inr refl), self_match key)

matches_sound :
    (topic key : String) → matches topic key ≡ true → Matches (split_dots topic) (split_dots key)
unfolding matches split_dots
matches_sound topic key h = elim (Bool-cases (str_eq topic "#")) [
  | inl hash ↦
      rw ((str_eq_iff topic "#").0 hash)
        (split_dots key, [], append_nil (split_dots key), inl refl, refl)
  | inr other ↦ elim (Bool-cases (str_eq topic key)) [
    | inl same ↦ rw ((str_eq_iff topic key).0 same) (self_match (split_dots key))
    | inr differ ↦
        match_segments_sound (split_dots topic) (split_dots key) (rw (other, differ) at h)
  ]
]

matches_complete :
    (topic key : String) → Matches (split_dots topic) (split_dots key) → matches topic key ≡ true
unfolding matches
matches_complete topic key m =
    let found = match_segments_complete (split_dots topic) (split_dots key) m in
    ground (arith, found)

-- A topic pattern matches a routing key exactly when the key's dotted segments can be cut into
-- pieces, one for each segment of the pattern: any number of segments for `#`, one for `*`, and the
-- segment itself otherwise. The two shortcuts change nothing.
pub matches_iff :
    (topic key : String) → (matches topic key ≡ true) ↔ Matches (split_dots topic) (split_dots key)
matches_iff topic key = (matches_sound topic key, matches_complete topic key)
