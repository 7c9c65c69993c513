-- ===== src/Observer/Stat.antt =====
-- stat.rs: `parse`, over ASCII; a slice that starts past the end panics.
use lading.Prelude.{
  ℕ, ◌^◌, ◌-◌, List, [], ◌∷◌, ◌++◌, Bool, true, false, Option, some, none, Outcome, done, panicked,
  leb, ◌==◌, if◌then◌else◌, Text, length, ltb, get_elem?,
}
use lading.Observer.Tokens.{is_whitespace, parse_unsigned, from_str_radix}

-- an `i32` by its sign and its size
pub record Signed : Type 0 where
  pub negative : Bool
  pub size : ℕ

unfoldable pub bounded : Bool → ℕ → Option ℕ → Option Signed
bounded negative limit none = none
bounded negative limit (some size) =
    if leb size limit then some (record { negative = negative; size = size }) else none

-- `parse::<i32>`
unfoldable pub parse_i32 : Text → Option Signed
unfolding bounded parse_unsigned from_str_radix
parse_i32 [] = none
parse_i32 (c ∷ cs) =
    if c == b'-'
    then bounded true (2 ^ 31) (parse_unsigned 10 cs)
    else bounded false (2 ^ 31 - 1) (from_str_radix 10 (c ∷ cs))

-- the text before the first of a character, found by `find`
unfoldable pub before_first : ℕ → Text → Option Text
before_first mark [] = none
before_first mark (c ∷ cs) =
    if c == mark
    then some []
    else elim (before_first mark cs) [ none ↦ none | some before ↦ some (c ∷ before) ]

-- the text after the last of a character, found by `rfind`
unfoldable pub after_last : ℕ → Text → Option Text
after_last mark [] = none
after_last mark (c ∷ cs) = elim (after_last mark cs) [
  | none ↦ if c == mark then some cs else none
  | some after ↦ some after
]

unfoldable pub close_word : Text → List Text
close_word [] = []
close_word (c ∷ cs) = (c ∷ cs) ∷ []

-- `split_whitespace`, within a word
unfoldable pub split_words : Text → Text → List Text
unfolding close_word is_whitespace
split_words word [] = close_word word
split_words word (c ∷ cs) =
    let next = split_words [] cs in
    let more = split_words (word ++ c ∷ []) cs in
    if is_whitespace c then close_word word ++ next else more

-- the numbers, where all of them are there
unfoldable pub all_of : Option Signed → Option ℕ → Option ℕ → Option (Signed × ℕ × ℕ)
all_of (some pid) (some utime) (some stime) = some (pid, utime, stime)
all_of (some pid) (some utime) none = none
all_of (some pid) none stime = none
all_of none utime stime = none

-- a field by its place, as a number
unfoldable pub parse_field : List Text → ℕ → Option ℕ
unfolding from_str_radix
parse_field parts i = elim (get_elem? parts i) [ none ↦ none | some part ↦ from_str_radix 10 part ]

unfoldable pub parse_parts : List Text → List Text → Option (Signed × ℕ × ℕ)
unfolding parse_i32 all_of parse_field
parse_parts [] after_parts = none
parse_parts (pid_str ∷ before_parts) after_parts =
    if ltb (length after_parts) 13
    then none
    else all_of (parse_i32 pid_str) (parse_field after_parts 11) (parse_field after_parts 12)

-- the parts before the first parenthesis and after the last one with the character that follows it
unfoldable pub parse_around : Option Text → Option Text → Outcome (Option (Signed × ℕ × ℕ))
unfolding parse_parts split_words
parse_around none after = done none
parse_around (some before) none = done none
parse_around (some before) (some []) = panicked
parse_around (some before) (some (c ∷ after)) =
    done (parse_parts (split_words [] before) (split_words [] after))

-- `parse`; none is an error
unfoldable pub parse : Text → Outcome (Option (Signed × ℕ × ℕ))
unfolding parse_around before_first after_last
parse contents = parse_around (before_first b'(' contents) (after_last b')' contents)
