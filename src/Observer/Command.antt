-- ===== src/Observer/Command.antt =====
-- The command name in a stat file does not matter.
use lading.Prelude.{
  ℕ, ◌≡◌, ◌≢◌, refl, sym, ap, ◌∙◌, [], ◌∷◌, ◌++◌, some, none, done, Text, All, arith, append_assoc,
}
use lading.Observer.Stat.{before_first, after_last, split_words, parse_parts, parse_around, parse}

-- A text without a character.
abbrev pub Lacks : ℕ → Text → Type 0
Lacks mark text = All (λ (c : ℕ). c ≢ mark) text

before_first-append :
    (mark : ℕ) (before rest : Text)
    → Lacks mark before
    → before_first mark (before ++ mark ∷ rest) ≡ some before
unfolding before_first
before_first-append mark [] rest h = ground arith
before_first-append mark (c ∷ before) rest h =
    ground (arith, h.0, before_first-append mark before rest h.1)

after_last-none : (mark : ℕ) (text : Text) → Lacks mark text → after_last mark text ≡ none
unfolding after_last
after_last-none mark [] h = refl
after_last-none mark (c ∷ text) h = ground (arith, h.0, after_last-none mark text h.1)

after_last-append :
    (mark : ℕ) (text after : Text)
    → Lacks mark after
    → after_last mark (text ++ mark ∷ after) ≡ some after
unfolding after_last
after_last-append mark [] after h = ground (arith, after_last-none mark after h)
after_last-append mark (c ∷ text) after h = ground (arith, after_last-append mark text after h)

-- A stat file whose first part has no opening parenthesis, and whose last part no closing one: whatever
-- the command name between them, parentheses and white space included, `parse` does not panic and reads
-- the numbers of the two parts.
pub parse-command :
    (before command after : Text)
    → Lacks b'(' before
    → Lacks b')' after
    → parse (before ++ (b'(' ∷ (command ++ (b')' ∷ b' ' ∷ after))))
      ≡ done (parse_parts (split_words [] before) (split_words [] after))
unfolding parse parse_around
parse-command before command after h k =
    let first = before_first-append b'(' before (command ++ (b')' ∷ b' ' ∷ after)) h in
    let last : after_last b')' (before ++ (b'(' ∷ (command ++ (b')' ∷ b' ' ∷ after))))
        ≡ some (b' ' ∷ after) =
      ap (λ (t : Text). after_last b')' t)
        (sym (append_assoc before (b'(' ∷ command) (b')' ∷ b' ' ∷ after)))
      ∙ after_last-append b')' (before ++ (b'(' ∷ command)) (b' ' ∷ after) (omega arith, k) in
    rw (first, last) refl
