-- ===== src/Prometheus/Strings.antt =====
-- What prometheus.rs uses of `str`, over ASCII.
use lading.Prelude.{
  ℕ, List, [], ◌∷◌, Bool, true, false, ◌&&◌, ◌||◌, Option, some, none, leb, ◌==◌, if◌then◌else◌,
  Text,
}
use lading.Observer.Tokens.{is_whitespace}

unfoldable pub is_empty : Text → Bool
is_empty [] = true
is_empty (c ∷ cs) = false

-- a text up to its last character that a test does not hold of
unfoldable pub trim_end : (ℕ → Bool) → Text → Text
unfolding is_empty
trim_end test [] = []
trim_end test (c ∷ cs) =
    let rest = trim_end test cs in if is_empty rest && test c then [] else c ∷ rest

-- a text from its first character on that a test does not hold of
unfoldable pub trim_start : (ℕ → Bool) → Text → Text
trim_start test [] = []
trim_start test (c ∷ cs) = let rest = trim_start test cs in if test c then rest else c ∷ cs

-- `trim`
unfoldable pub trim : Text → Text
unfolding trim_end trim_start
trim text = trim_end is_whitespace (trim_start is_whitespace text)

-- `trim_end_matches`
unfoldable pub trim_end_matches : ℕ → Text → Text
unfolding trim_end
trim_end_matches mark text = trim_end (λ c. c == mark) text

-- `trim_matches`
unfoldable pub trim_matches : ℕ → Text → Text
unfolding trim_end trim_start
trim_matches mark text = trim_end (λ c. c == mark) (trim_start (λ c. c == mark) text)

-- `starts_with`
unfoldable pub starts_with : Text → Text → Bool
starts_with [] text = true
starts_with (p ∷ prefix) [] = false
starts_with (p ∷ prefix) (c ∷ cs) =
    let rest = starts_with prefix cs in if p == c then rest else false

-- `contains`
unfoldable pub contains : ℕ → Text → Bool
contains mark [] = false
contains mark (c ∷ cs) = let rest = contains mark cs in if c == mark then true else rest

-- a character at the beginning of the first of some pieces
unfoldable pub push_first : ℕ → List Text → List Text
push_first c [] = (c ∷ []) ∷ []
push_first c (piece ∷ pieces) = (c ∷ piece) ∷ pieces

-- `split`, at the characters that a test holds of
unfoldable pub split_by : (ℕ → Bool) → Text → List Text
unfolding push_first
split_by test [] = [] ∷ []
split_by test (c ∷ cs) =
    let pieces = split_by test cs in if test c then [] ∷ pieces else push_first c pieces

-- `split_inclusive`: a piece ends with the character, and there is no empty one
unfoldable pub split_inclusive : ℕ → Text → List Text
unfolding push_first
split_inclusive mark [] = []
split_inclusive mark (c ∷ cs) =
    let pieces = split_inclusive mark cs in
    if c == mark then (c ∷ []) ∷ pieces else push_first c pieces

-- `split_once`
unfoldable pub split_once : ℕ → Text → Option (Text × Text)
split_once mark [] = none
split_once mark (c ∷ cs) =
    if c == mark
    then some ([], cs)
    else elim (split_once mark cs) [ none ↦ none | some parts ↦ some (c ∷ parts.0, parts.1) ]

unfoldable pub full_pieces : List Text → List Text
unfolding is_empty
full_pieces [] = []
full_pieces (piece ∷ pieces) =
    let rest = full_pieces pieces in if is_empty piece then rest else piece ∷ rest

-- `is_ascii_whitespace`, which leaves out the vertical tabulator
unfoldable pub is_ascii_whitespace : ℕ → Bool
is_ascii_whitespace c = (leb 9 c && leb c 10) || ((leb 12 c && leb c 13) || c == b' ')

-- `split_ascii_whitespace`
unfoldable pub split_ascii_whitespace : Text → List Text
unfolding full_pieces split_by
split_ascii_whitespace text = full_pieces (split_by is_ascii_whitespace text)

-- `replace` of two underscores by a dot
unfoldable pub dotted : Text → Text
dotted [] = []
dotted (c ∷ []) = c ∷ []
dotted (c ∷ d ∷ cs) =
    let rest = dotted cs in
    let next = dotted (d ∷ cs) in if c == b'_' && d == b'_' then b'.' ∷ rest else c ∷ next
