-- ===== src/Program/Displayed.antt =====
-- Keys and values that were written are read back.
use lading.Prelude.{
  ℕ, zero, suc, ◌≤◌, ◌≡◌, ◌≢◌, refl, sym, ap, ◌∙◌, List, [], ◌∷◌, ◌++◌, Bool, true, false, Option,
  some, none, All, arith, ◌==◌, subst, Bool-cases, inl, inr, if-true, if-false, Text, length,
  length-append, append_assoc,
}
use lading.Observer.Command.{Lacks}
use lading.Procfs.Digits.{IsFull}
use lading.Prometheus.Strings.{trim_end_matches, trim_end}
use lading.Prelude.Names.{Names, lookup}
use lading.Program.Labels.{last_value, lookup-nil, lookup-insert_all}
use lading.Program.KeyValues.{
  is_key, key_run, before_equals, key_at, found_here, found_later, find_key, value_of, captures,
  insert_all, from_str, display,
}

-- All characters are those of a key.
abbrev pub AreKeys : Text → Type 0
AreKeys text = All (λ (c : ℕ). is_key c ≡ true) text

equals-is_key : is_key b'=' ≡ false
unfolding is_key
equals-is_key = refl

comma-is_key : is_key b',' ≡ false
unfolding is_key
comma-is_key = refl

key_run-stop : (c : ℕ) (cs : Text) → is_key c ≡ false → key_run (c ∷ cs) ≡ ([], c ∷ cs)
unfolding key_run
key_run-stop c cs h = if-false (is_key c) _ _ h

key_run-step :
    (c : ℕ) (cs : Text) → is_key c ≡ true → key_run (c ∷ cs) ≡ (c ∷ (key_run cs).0, (key_run cs).1)
unfolding key_run
key_run-step c cs h = if-true (is_key c) _ _ h

key_run-key :
    (key after : Text) → AreKeys key → key_run (key ++ (b'=' ∷ after)) ≡ (key, b'=' ∷ after)
key_run-key [] after h = key_run-stop b'=' after equals-is_key
key_run-key (c ∷ key) after h =
    key_run-step c (key ++ (b'=' ∷ after)) h.0
    ∙ ap (λ (p : Text × Text). (c ∷ p.0, p.1)) (key_run-key key after h.1)

key_at-key :
    (key after : Text)
    → IsFull key
    → AreKeys key
    → key_at (key ++ (b'=' ∷ after)) ≡ some (key, after)
unfolding key_at
key_at-key [] after f h = absurd f
key_at-key (c ∷ key) after f h =
    ap (λ (p : Text × Text). before_equals p.0 p.1) (key_run-key (c ∷ key) after h)

-- A text does not begin with an equals sign.
abbrev pub NoEquals : Text → Type 0
NoEquals [] = Unit
NoEquals (c ∷ cs) = c ≢ b'='

before_equals-none : (key rest : Text) → NoEquals rest → before_equals key rest ≡ none
unfolding before_equals
before_equals-none [] rest h = refl
before_equals-none (c ∷ key) [] h = refl
before_equals-none (c ∷ key) (d ∷ rest) h = ground (arith, h)

key_run-comma : (v x : Text) → Lacks b'=' v → NoEquals (key_run (v ++ (b',' ∷ x))).1
key_run-comma [] x h =
    subst (λ (p : Text × Text). NoEquals p.1) (sym (key_run-stop b',' x comma-is_key)) (omega arith)
key_run-comma (c ∷ v) x h = elim (Bool-cases (is_key c)) [
  | inl e ↦
      subst (λ (p : Text × Text). NoEquals p.1) (sym (key_run-step c (v ++ (b',' ∷ x)) e))
        (key_run-comma v x h.1)
  | inr e ↦ subst (λ (p : Text × Text). NoEquals p.1) (sym (key_run-stop c (v ++ (b',' ∷ x)) e)) h.0
]

key_at-comma : (v x : Text) → Lacks b'=' v → key_at (v ++ (b',' ∷ x)) ≡ none
unfolding key_at
key_at-comma v x h =
    before_equals-none (key_run (v ++ (b',' ∷ x))).0 (key_run (v ++ (b',' ∷ x))).1
      (key_run-comma v x h)

find_key-later :
    (c : ℕ) (cs : Text) → key_at (c ∷ cs) ≡ none → find_key (c ∷ cs) ≡ found_later c (find_key cs)
unfolding find_key
find_key-later c cs h =
    ap (λ (o : Option (Text × Text)). found_here o (found_later c (find_key cs))) h

find_key-here :
    (key after : Text)
    → IsFull key
    → AreKeys key
    → find_key (key ++ (b'=' ∷ after)) ≡ some ([], key, after)
unfolding find_key
find_key-here [] after f h = absurd f
find_key-here (c ∷ key) after f h =
    ap
      (λ (o : Option (Text × Text)).
        found_here o (found_later c (find_key (key ++ (b'=' ∷ after)))))
      (key_at-key (c ∷ key) after tt h)

-- The next key after a value and its comma.
find_key-comma :
    (v key after : Text)
    → Lacks b'=' v
    → IsFull key
    → AreKeys key
    → find_key (v ++ (b',' ∷ (key ++ (b'=' ∷ after)))) ≡ some (v ++ b',' ∷ [], key, after)
unfolding found_later
find_key-comma [] key after h f k =
    find_key-later b',' (key ++ (b'=' ∷ after)) (key_at-comma [] (key ++ (b'=' ∷ after)) tt)
    ∙ ap (found_later b',') (find_key-here key after f k)
find_key-comma (c ∷ v) key after h f k =
    find_key-later c (v ++ (b',' ∷ (key ++ (b'=' ∷ after))))
      (key_at-comma (c ∷ v) (key ++ (b'=' ∷ after)) h)
    ∙ ap (found_later c) (find_key-comma v key after h.1 f k)

find_key-nil : find_key [] ≡ none
unfolding find_key
find_key-nil = refl

find_key-last : (v : Text) → Lacks b'=' v → find_key (v ++ b',' ∷ []) ≡ none
unfolding found_later
find_key-last [] h =
    find_key-later b',' [] (key_at-comma [] [] tt) ∙ ap (found_later b',') find_key-nil
find_key-last (c ∷ v) h =
    find_key-later c (v ++ b',' ∷ []) (key_at-comma (c ∷ v) [] h)
    ∙ ap (found_later c) (find_key-last v h.1)

-- A key of one character at least; a value without an equals sign, which does not end in a comma.
abbrev pub IsEntry : Text × Text → Type 0
IsEntry entry =
    IsFull entry.0
    × AreKeys entry.0
    × Lacks b'=' entry.1
    × (trim_end_matches b',' entry.1 ≡ entry.1)

trim_end-again :
    (test : ℕ → Bool) (a : Text) (mark : ℕ)
    → test mark ≡ true
    → trim_end test (a ++ mark ∷ []) ≡ trim_end test a
unfolding trim_end
trim_end-again test [] mark k = rw k refl
trim_end-again test (c ∷ a) mark k = rw (trim_end-again test a mark k) refl

trim-comma : (v : Text) → trim_end_matches b',' (v ++ b',' ∷ []) ≡ trim_end_matches b',' v
unfolding trim_end_matches
trim-comma v = trim_end-again (λ c. c == b',') v b',' refl

display-cons :
    (key value : Text) (entries : List (Text × Text))
    → display ((key, value) ∷ entries) ≡ key ++ (b'=' ∷ (value ++ (b',' ∷ display entries)))
unfolding display
display-cons key value entries = append_assoc key (b'=' ∷ value) (b',' ∷ display entries)

display-nil : display [] ≡ []
unfolding display
display-nil = refl

-- What a search finds behind a value: the next entry, if there is one.
value_of-entry :
    (value : Text) (entries : List (Text × Text))
    → Lacks b'=' value
    → All IsEntry entries
    → value_of (value ++ (b',' ∷ display entries)) (find_key (value ++ (b',' ∷ display entries)))
      ≡ value ++ b',' ∷ []
unfolding value_of
value_of-entry value [] h k = rw (display-nil) (rw (find_key-last value h) refl)
value_of-entry value ((key, next) ∷ entries) h k =
    rw (display-cons key next entries)
      (rw (find_key-comma value key (next ++ (b',' ∷ display entries)) h k.0.0 k.0.1) refl)

captures-step :
    (fuel : ℕ) (text before key after : Text)
    → find_key text ≡ some (before, key, after)
    → captures (suc fuel) text
      ≡ (key, trim_end_matches b',' (value_of after (find_key after))) ∷ captures fuel after
unfolding captures
captures-step fuel text before key after h = rw (h, captures) refl

captures-none : (fuel : ℕ) (text : Text) → find_key text ≡ none → captures fuel text ≡ []
unfolding captures
captures-none zero text h = refl
captures-none (suc fuel) text h = rw (h, captures) refl

captures-found :
    (fuel : ℕ) (text before key value : Text) (entries : List (Text × Text))
    → find_key text ≡ some (before, key, value ++ (b',' ∷ display entries))
    → IsEntry (key, value)
    → All IsEntry entries
    → captures fuel (value ++ (b',' ∷ display entries)) ≡ entries
    → captures (suc fuel) text ≡ (key, value) ∷ entries
captures-found fuel text before key value entries h e k again =
    captures-step fuel text before key (value ++ (b',' ∷ display entries)) h
    ∙ cc (
      ap (trim_end_matches b',') (value_of-entry value entries e.2 k) ∙ trim-comma value ∙ e.3,
      again,
    )

captures-comma :
    (fuel : ℕ) (value : Text) (entries : List (Text × Text))
    → length entries ≤ fuel
    → Lacks b'=' value
    → All IsEntry entries
    → captures fuel (value ++ (b',' ∷ display entries)) ≡ entries
captures-comma zero value [] l h k =
    captures-none zero (value ++ (b',' ∷ display []))
      (ap (λ (t : Text). find_key (value ++ (b',' ∷ t))) display-nil ∙ find_key-last value h)
captures-comma zero value (entry ∷ entries) l h k = absurd (omega (arith, l))
captures-comma (suc fuel) value [] l h k =
    captures-none (suc fuel) (value ++ (b',' ∷ display []))
      (ap (λ (t : Text). find_key (value ++ (b',' ∷ t))) display-nil ∙ find_key-last value h)
captures-comma (suc fuel) value ((key, next) ∷ entries) l h k =
    captures-found fuel (value ++ (b',' ∷ display ((key, next) ∷ entries))) (value ++ b',' ∷ []) key
      next entries
      (ap (λ (t : Text). find_key (value ++ (b',' ∷ t))) (display-cons key next entries)
        ∙ find_key-comma value key (next ++ (b',' ∷ display entries)) h k.0.0 k.0.1)
      k.0 k.1 (captures-comma fuel next entries (omega (arith, l)) k.0.2 k.1)

-- The text of some entries has more characters than there are entries.
length-display : (entries : List (Text × Text)) → length entries ≤ length (display entries)
length-display [] = omega arith
length-display ((key, value) ∷ entries) =
    subst (λ (t : Text). suc (length entries) ≤ length t) (sym (display-cons key value entries))
      (omega (
        arith,
        length-append key (b'=' ∷ (value ++ (b',' ∷ display entries))),
        length-append value (b',' ∷ display entries),
        length-display entries,
      ))

captures-display :
    (fuel : ℕ) (entries : List (Text × Text))
    → length entries ≤ fuel
    → All IsEntry entries
    → captures fuel (display entries) ≡ entries
captures-display fuel [] l k =
    captures-none fuel (display []) (ap find_key display-nil ∙ find_key-nil)
captures-display zero (entry ∷ entries) l k = absurd (omega (arith, l))
captures-display (suc fuel) ((key, value) ∷ entries) l k =
    captures-found fuel (display ((key, value) ∷ entries)) [] key value entries
      (ap find_key (display-cons key value entries)
        ∙ find_key-here key (value ++ (b',' ∷ display entries)) k.0.0 k.0.1)
      k.0 k.1 (captures-comma fuel value entries (omega (arith, l)) k.0.2 k.1)

-- Entries whose keys are of letters and underscores and whose values, which may have commas and white
-- space, have no equals sign and do not end in a comma: the text that `Display` writes of them is read
-- by `from_str` as the map of just these entries: every key has in it the last value that the entries
-- give it, and none if they give it none.
pub from_str-display :
    (entries : List (Text × Text))
    → All IsEntry entries
    → (from_str (display entries) ≡ insert_all entries [])
      × ((key : Text) → lookup (from_str (display entries)) key ≡ last_value entries key none)
unfolding from_str
from_str-display entries k =
    let read : from_str (display entries) ≡ insert_all entries [] =
      ap (λ (l : List (Text × Text)). insert_all l [])
        (captures-display (length (display entries)) entries (length-display entries) k) in
    (
      read,
      λ key.
          ap (λ (m : Names Text). lookup m key) read
          ∙ lookup-insert_all entries [] key
          ∙ ap (last_value entries key) (lookup-nil key),
    )
