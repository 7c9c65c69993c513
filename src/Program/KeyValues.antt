-- ===== src/Program/KeyValues.antt =====
-- bin/lading.rs: `CliKeyValues`, from the text of an option and back. Text is ASCII.
use lading.Prelude.{
  ℕ, zero, suc, List, [], ◌∷◌, ◌++◌, Bool, ◌&&◌, ◌||◌, Option, some, none, leb, ◌==◌, if◌then◌else◌,
  Text, length,
}
use lading.Prelude.Names.{Names, put}
use lading.Prometheus.Strings.{trim_end_matches}

-- `[[:alpha:]_]`
unfoldable pub is_key : ℕ → Bool
is_key c = (leb b'a' c && leb c b'z') || ((leb b'A' c && leb c b'Z') || c == b'_')

-- the characters of a key at the beginning of a text, and the rest
unfoldable pub key_run : Text → Text × Text
key_run [] = ([], [])
key_run (c ∷ cs) =
    let (key, rest) = key_run cs in if is_key c then (c ∷ key, rest) else ([], c ∷ cs)

unfoldable pub before_equals : Text → Text → Option (Text × Text)
before_equals [] rest = none
before_equals (c ∷ key) [] = none
before_equals (c ∷ key) (d ∷ rest) = if d == b'=' then some (c ∷ key, rest) else none

-- a match of the regular expression at the beginning of a text: the key, and the text after the
-- equals sign
unfoldable pub key_at : Text → Option (Text × Text)
unfolding before_equals
key_at text = let (key, rest) = key_run text in before_equals key rest

-- what a search finds: the text before the match, the key and the text after the match
abbrev pub Found : Type 0
Found = Option (Text × Text × Text)

unfoldable pub found_here : Option (Text × Text) → Found → Found
found_here none later = later
found_here (some (key, after)) later = some ([], key, after)

unfoldable pub found_later : ℕ → Found → Found
found_later c none = none
found_later c (some (before, key, after)) = some (c ∷ before, key, after)

-- the first match in a text, by `captures_iter` and by `find_at`
unfoldable pub find_key : Text → Found
unfolding found_here found_later
find_key [] = none
find_key (c ∷ cs) = let later = find_key cs in found_here (key_at (c ∷ cs)) (found_later c later)

-- the text up to the next match, or all of it
unfoldable pub value_of : Text → Found → Text
value_of text none = text
value_of text (some (before, key, after)) = before

-- the keys and the values, in the order of the text
unfoldable pub captures : ℕ → Text → List (Text × Text)
captures zero text = []
captures (suc fuel) text = elim (find_key text) [
  | none ↦ []
  | some (before, key, after) ↦
      (key, trim_end_matches b',' (value_of after (find_key after))) ∷ captures fuel after
]

-- the map of some keys and values; the last value of a key counts
unfoldable pub insert_all : List (Text × Text) → Names Text → Names Text
unfolding put
insert_all [] labels = labels
insert_all ((key, value) ∷ entries) labels = insert_all entries (put labels key value)

-- `from_str`: there are no more keys than characters
unfoldable pub from_str : Text → Names Text
unfolding captures insert_all
from_str input = insert_all (captures (length input) input) []

-- `Display`, in the order of the map
unfoldable pub display : List (Text × Text) → Text
display [] = []
display ((key, value) ∷ entries) = (key ++ (b'=' ∷ value)) ++ (b',' ∷ display entries)
