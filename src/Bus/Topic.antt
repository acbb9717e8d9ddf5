-- ===== src/Bus/Topic.antt =====
-- internal/events/inproc/bus.go: matches and matchSegments.
pub mod Meaning
use aegisops_ai.Base.{
  ℕ, Bool, true, false, ◌&&◌, ◌||◌, String, List, [], ◌∷◌, if◌then◌else◌, ◌==◌, str_eq, code, Char,
}

-- A character before the first of these texts.
before_first : Char → List String → List String
before_first c [] = String.◌∷◌ c "" ∷ []
before_first c (word ∷ rest) = String.◌∷◌ c word ∷ rest

-- strings.Split(s, ".").
unfoldable pub split_dots : String → List String
unfolding before_first
split_dots String.[] = "" ∷ []
split_dots (String.◌∷◌ c s) =
    let rest = split_dots s in if code c == 46 then "" ∷ rest else before_first c rest

-- The loop over the split points of the key.
try_splits : (List String → Bool) → List String → Bool
try_splits rest [] = rest []
try_splits rest (k ∷ key) = rest (k ∷ key) || try_splits rest key

-- One segment of the key, then the rest of both.
one_segment : (String → Bool) → (List String → Bool) → List String → Bool
one_segment fits rest [] = false
one_segment fits rest (k ∷ key) = fits k && rest key

is_last : List String → Bool
is_last [] = true
is_last (_ ∷ _) = false

-- The switch on the first segment of a pattern; `rest` matches what is behind it.
unfoldable pub match_first : String → Bool → (List String → Bool) → List String → Bool
unfolding try_splits one_segment
match_first p last rest key =
    if str_eq p "#"
    then last || try_splits rest key
    else if str_eq p "*"
    then one_segment (λ k. true) rest key
    else one_segment (str_eq p) rest key

unfoldable pub match_segments : List String → List String → Bool
unfolding is_last match_first
match_segments [] key = is_last key
match_segments (p ∷ pattern') key = match_first p (is_last pattern') (match_segments pattern') key

unfoldable pub matches : String → String → Bool
unfolding match_segments split_dots
matches topic key =
    str_eq topic "#" || str_eq topic key || match_segments (split_dots topic) (split_dots key)
