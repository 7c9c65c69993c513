-- ===== src/Observer/Tokens.antt =====
-- memory.rs: `next_token`, and what the parsers use of `str` and of the numbers.
use lading.Prelude.{
  ℕ, ◌+◌, ◌-◌, ◌*◌, List, [], ◌∷◌, ◌++◌, Bool, ◌&&◌, ◌||◌, Option, some, none, ltb, leb, ◌==◌,
  if◌then◌else◌, Text, u64_max,
}

unfoldable pub is_whitespace : ℕ → Bool
is_whitespace c = (leb 9 c && leb c 13) || c == b' '

-- the rest of a text from its first character on that is no white space
unfoldable pub skip_whitespace : Text → Text
unfolding is_whitespace
skip_whitespace [] = []
skip_whitespace (c ∷ cs) = let rest = skip_whitespace cs in if is_whitespace c then rest else c ∷ cs

-- a text up to its first white space, and the rest
unfoldable pub split_token : Text → Text × Text
unfolding is_whitespace
split_token [] = ([], [])
split_token (c ∷ cs) =
    let (token, rest) = split_token cs in
    if is_whitespace c then ([], c ∷ cs) else (c ∷ token, rest)

-- the token at the beginning of a text, if there is one
unfoldable pub token_of : Text → Option (Text × Text)
unfolding split_token
token_of [] = none
token_of (c ∷ cs) = some (split_token (c ∷ cs))

-- `next_token`, with the text that the iterator has left
unfoldable pub next_token : Text → Option (Text × Text)
unfolding skip_whitespace token_of
next_token source = token_of (skip_whitespace source)

-- `lines`: a last line that is empty is none; a carriage return before the end of a line is dropped
unfoldable pub strip_return : Text → Text
strip_return [] = []
strip_return (c ∷ []) = if c == 13 then [] else c ∷ []
strip_return (c ∷ d ∷ cs) = c ∷ strip_return (d ∷ cs)

unfoldable pub lines_from : Text → Text → List Text
unfolding strip_return
lines_from line [] = []
lines_from line (c ∷ []) = if c == 10 then strip_return line ∷ [] else (line ++ c ∷ []) ∷ []
lines_from line (c ∷ d ∷ cs) =
    let next = lines_from [] (d ∷ cs) in
    let more = lines_from (line ++ c ∷ []) (d ∷ cs) in
    if c == 10 then strip_return line ∷ next else more

unfoldable pub lines : Text → List Text
unfolding lines_from
lines source = lines_from [] source

-- the value of a digit, of sixteen at most
unfoldable pub digit : ℕ → ℕ → Option ℕ
digit radix c =
    let value =
      if leb b'0' c && leb c b'9'
      then c - b'0'
      else if leb b'a' c && leb c b'f'
      then c - b'a' + 10
      else if leb b'A' c && leb c b'F'
      then c - b'A' + 10
      else 16 in
    if ltb value radix then some value else none

-- the digits after a number, until it is more than a `u64` holds
unfoldable pub parse_digits : ℕ → ℕ → Text → Option ℕ
unfolding digit
parse_digits radix n [] = some n
parse_digits radix n (c ∷ cs) = elim (digit radix c) [
  | none ↦ none
  | some d ↦ if leb (n * radix + d) u64_max then parse_digits radix (n * radix + d) cs else none
]

-- a number of one digit at least
unfoldable pub parse_unsigned : ℕ → Text → Option ℕ
unfolding parse_digits
parse_unsigned radix [] = none
parse_unsigned radix (c ∷ cs) = parse_digits radix 0 (c ∷ cs)

-- `u64::from_str_radix`: there may be a plus sign
unfoldable pub from_str_radix : ℕ → Text → Option ℕ
unfolding parse_unsigned
from_str_radix radix [] = none
from_str_radix radix (c ∷ cs) =
    if c == b'+' then parse_unsigned radix cs else parse_unsigned radix (c ∷ cs)
