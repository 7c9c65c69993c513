-- ===== src/Prometheus/Samples.antt =====
-- What is recorded of the lines of a metric.
use lading.Prelude.{
  ℕ, ◌≡◌, ◌≢◌, refl, sym, ap, ◌∙◌, List, [], ◌∷◌, ◌++◌, map, false, Option, some, none, ◌==◌, All,
  All-append, arith, Text, Outcome-cases, inl, inr, if-false, done, panicked, append_assoc, codes,
}
use lading.Observer.Command.{Lacks}
use lading.Observer.Tokens.{is_whitespace}
use lading.Procfs.Digits.{IsFull}
use lading.Procfs.Masks.{join}
use lading.Prometheus.Strings.{
  is_empty, trim, trim_end, split_by, split_once, full_pieces, is_ascii_whitespace,
  split_ascii_whitespace, starts_with,
}
use lading.Prometheus.Scrape.{
  Labels, Float, Scrape, parse_label, parse_labels, split_labels, line_parts, value_line,
  record_value, scrape_line,
}
use lading.Prometheus.Splitting.{
  Fails, Lacks-Fails, contains-append, contains-Lacks, split_once-append, split_inclusive-append,
  split_inclusive-last, split_by-append, split_by-last, trim_matches-marks, trim_end_matches-mark,
  trim_start-same, trim_end-kept,
}

-- a label as it is written
abbrev pub label_text : Text × Text → Text
label_text label = label.0 ++ (b'=' ∷ b'"' ∷ (label.1 ++ b'"' ∷ []))

abbrev pub labels_text : Labels → Text
labels_text labels = join b',' (map label_text labels)

-- a line of a metric with a name, labels and a value
abbrev pub sample_text : Text → Labels → Text → Text
sample_text name labels value = (name ++ (b'{' ∷ labels_text labels)) ++ (b'}' ∷ b' ' ∷ value)

-- A label has no quote, comma or brace, and no equals sign in its name.
abbrev pub IsLabel : Text × Text → Type 0
IsLabel label =
    Lacks b'=' label.0
    × Lacks b',' label.0
    × Lacks b'}' label.0
    × Lacks b'"' label.1
    × Lacks b',' label.1
    × Lacks b'}' label.1

-- A name is not empty, has no brace and no white space, and does not begin with a hash.
abbrev pub IsName : Text → Type 0
IsName [] = ⊥
IsName (c ∷ cs) =
    (c ≢ b'#') × Fails is_whitespace (c ∷ cs) × Lacks b'{' (c ∷ cs) × Lacks b'}' (c ∷ cs)

-- A value is not empty and has no white space, hash or brace.
abbrev pub IsValue : Text → Type 0
IsValue value = IsFull value × Fails is_whitespace value × Lacks b'#' value × Lacks b'}' value

-- There is a label at least.
abbrev pub HasLabels : Labels → Type 0
HasLabels [] = ⊥
HasLabels (label ∷ labels) = All IsLabel (label ∷ labels)

label_text-Lacks :
    (mark : ℕ) (label : Text × Text)
    → Lacks mark label.0
    → Lacks mark label.1
    → mark ≢ b'='
    → mark ≢ b'"'
    → Lacks mark (label_text label)
label_text-Lacks mark label h k d e =
    All-append (λ (c : ℕ). c ≢ mark) label.0 (b'=' ∷ b'"' ∷ (label.1 ++ b'"' ∷ [])) h
      (
        (λ p. d (sym p)),
        (
          (λ p. e (sym p)),
          All-append (λ (c : ℕ). c ≢ mark) label.1 (b'"' ∷ []) k ((λ p. e (sym p)), tt),
        ),
      )

parse_label-label_text :
    (label : Text × Text) → IsLabel label → parse_label (label_text label) ≡ done label
unfolding parse_label
parse_label-label_text label h =
    rw (split_once-append b'=' label.0 (b'"' ∷ (label.1 ++ b'"' ∷ [])) h.0)
      (ap (λ (t : Text). done (label.0, t)) (trim_matches-marks b'"' label.1 h.3))

parse_labels-map :
    (labels : Labels) → All IsLabel labels → parse_labels (map label_text labels) ≡ done labels
unfolding parse_labels
parse_labels-map [] h = refl
parse_labels-map (label ∷ labels) h =
    rw (parse_label-label_text label h.0) (rw (parse_labels-map labels h.1) refl)

labels_text-Lacks : (labels : Labels) → All IsLabel labels → Lacks b'}' (labels_text labels)
unfolding join
labels_text-Lacks [] h = tt
labels_text-Lacks (label ∷ []) h =
    label_text-Lacks b'}' label h.0.2 h.0.5 (omega arith) (omega arith)
labels_text-Lacks (label ∷ next ∷ labels) h =
    All-append (λ (c : ℕ). c ≢ b'}') (label_text label) (b',' ∷ labels_text (next ∷ labels))
      (label_text-Lacks b'}' label h.0.2 h.0.5 (omega arith) (omega arith))
      (omega arith, labels_text-Lacks (next ∷ labels) h.1)

split_by-labels_text :
    (labels : Labels)
    → HasLabels labels
    → split_by (λ c. c == b',') (labels_text labels) ≡ map label_text labels
unfolding join
split_by-labels_text [] h = absurd h
split_by-labels_text (label ∷ []) h =
    split_by-last (λ c. c == b',') (label_text label)
      (Lacks-Fails b',' (label_text label)
        (label_text-Lacks b',' label h.0.1 h.0.4 (omega arith) (omega arith)))
split_by-labels_text (label ∷ next ∷ labels) h =
    split_by-append (λ c. c == b',') b',' (label_text label) (labels_text (next ∷ labels))
      (Lacks-Fails b',' (label_text label)
        (label_text-Lacks b',' label h.0.1 h.0.4 (omega arith) (omega arith)))
      refl
    ∙ ap (λ (l : List Text). label_text label ∷ l) (split_by-labels_text (next ∷ labels) h.1)

labels-All : (labels : Labels) → HasLabels labels → All IsLabel labels
labels-All [] h = tt
labels-All (label ∷ labels) h = h

-- The text of labels with the closing brace.
split_labels-some :
    (name name_and_labels : Text) (labels : Labels)
    → HasLabels labels
    → split_labels name_and_labels (some (name, labels_text labels ++ b'}' ∷ []))
      ≡ done (name, some labels)
unfolding split_labels
split_labels-some name name_and_labels labels h =
    rw
      (
        trim_end_matches-mark b'}' (labels_text labels)
            (labels_text-Lacks labels (labels-All labels h)),
        split_by-labels_text labels h,
        parse_labels-map labels (labels-All labels h),
      )
      refl

pub ascii-Fails : (value : Text) → Fails is_whitespace value → Fails is_ascii_whitespace value
unfolding is_whitespace is_ascii_whitespace
ascii-Fails [] h = tt
ascii-Fails (c ∷ value) h = (ground (arith, h.0), ascii-Fails value h.1)

full_pieces-value : (value : Text) → IsFull value → full_pieces ([] ∷ value ∷ []) ≡ value ∷ []
unfolding full_pieces
full_pieces-value [] h = absurd h
full_pieces-value (c ∷ value) h = refl

split-value : (value : Text) → IsValue value → split_ascii_whitespace (b' ' ∷ value) ≡ value ∷ []
unfolding split_ascii_whitespace is_ascii_whitespace
split-value value h =
    ap full_pieces (
      split_by-append is_ascii_whitespace b' ' [] value tt refl
      ∙ ap (λ (l : List Text). [] ∷ l)
          (split_by-last is_ascii_whitespace value (ascii-Fails value h.1)))
    ∙ full_pieces-value value h.0

name-Lacks_closing : (name : Text) → IsName name → Lacks b'}' name
name-Lacks_closing [] h = absurd h
name-Lacks_closing (c ∷ name) h = h.3

name-Lacks_opening : (name : Text) → IsName name → Lacks b'{' name
name-Lacks_opening [] h = absurd h
name-Lacks_opening (c ∷ name) h = h.2

-- a line of a metric with what is between its braces
abbrev pub braced : Text → Text → Text → Text
braced name between value = (name ++ (b'{' ∷ between)) ++ (b'}' ∷ b' ' ∷ value)

line_parts-braced :
    (name between value : Text)
    → IsName name
    → Lacks b'}' between
    → IsValue value
    → line_parts (braced name between value) ≡ done ((name ++ (b'{' ∷ between)) ++ b'}' ∷ [], value)
unfolding line_parts
line_parts-braced name between value h k l =
    let before : Text = name ++ (b'{' ∷ between) in
    let no_brace : Lacks b'}' before =
      All-append (λ (c : ℕ). c ≢ b'}') name (b'{' ∷ between) (name-Lacks_closing name h)
        (omega arith, k) in
    rw
      (
        contains-append b'}' before (b' ' ∷ value),
        split_inclusive-append b'}' before (b' ' ∷ value) no_brace,
        split_inclusive-last b'}' b' ' value (omega arith, l.3),
      )
      (rw (split-value value l) refl)

split_once-braced :
    (name between : Text)
    → IsName name
    → split_once b'{' ((name ++ (b'{' ∷ between)) ++ b'}' ∷ []) ≡ some (name, between ++ b'}' ∷ [])
split_once-braced name between h =
    ap (split_once b'{') (append_assoc name (b'{' ∷ between) (b'}' ∷ []))
    ∙ split_once-append b'{' name (between ++ b'}' ∷ []) (name-Lacks_opening name h)

-- A text of which neither end is white space is not trimmed.
pub trim-kept :
    (c : ℕ) (a b : Text)
    → is_whitespace c ≡ false
    → Fails is_whitespace b
    → is_empty b ≡ false
    → trim ((c ∷ a) ++ b) ≡ (c ∷ a) ++ b
unfolding trim
trim-kept c a b h k l =
    ap (trim_end is_whitespace) (trim_start-same is_whitespace c (a ++ b) h)
    ∙ trim_end-kept is_whitespace (c ∷ a) b k l

not_empty : (a : Text) → IsFull a → is_empty a ≡ false
unfolding is_empty
not_empty [] h = absurd h
not_empty (c ∷ a) h = refl

pub trim-sample_text :
    (name value : Text) (labels : Labels)
    → IsName name
    → IsValue value
    → trim (sample_text name labels value) ≡ sample_text name labels value
trim-sample_text [] value labels h l = absurd h
trim-sample_text (c ∷ name) value labels h l =
    let before : Text = name ++ (b'{' ∷ labels_text labels) in
    let same : sample_text (c ∷ name) labels value ≡ (c ∷ (before ++ b'}' ∷ b' ' ∷ [])) ++ value =
      ap (λ (x : Text). c ∷ x) (sym (append_assoc before (b'}' ∷ b' ' ∷ []) value)) in
    ap trim same
    ∙ trim-kept c (before ++ b'}' ∷ b' ' ∷ []) value h.1.0 l.1 (not_empty value l.0)
    ∙ sym same

pub is_empty-sample_text :
    (name value : Text) (labels : Labels)
    → IsName name
    → is_empty (sample_text name labels value) ≡ false
unfolding is_empty
is_empty-sample_text [] value labels h = absurd h
is_empty-sample_text (c ∷ name) value labels h = refl

split_once-none : (mark : ℕ) (a : Text) → Lacks mark a → split_once mark a ≡ none
unfolding split_once
split_once-none mark [] h = refl
split_once-none mark (c ∷ a) h = ground (arith, h.0, split_once-none mark a h.1)

parse_label-none : (a : Text) → Lacks b'=' a → parse_label a ≡ panicked
unfolding parse_label
parse_label-none a h = rw (split_once-none b'=' a h) refl

-- A piece without an equals sign panics, whatever the piece before it is.
parse_labels-none :
    (first second : Text) → Lacks b'=' second → parse_labels (first ∷ second ∷ []) ≡ panicked
unfolding parse_labels
parse_labels-none first second h = elim (Outcome-cases (parse_label first)) [
  | inl e ↦ rw e refl
  | inr (label, e) ↦ rw (e, parse_label-none second h) refl
]

split_labels-comma :
    (name name_and_labels first second : Text)
    → Lacks b',' first
    → Lacks b',' second
    → Lacks b'}' (first ++ (b',' ∷ second))
    → Lacks b'=' second
    → split_labels name_and_labels (some (name, (first ++ (b',' ∷ second)) ++ b'}' ∷ [])) ≡ panicked
unfolding split_labels
split_labels-comma name name_and_labels first second h k l d =
    rw
      (
        trim_end_matches-mark b'}' (first ++ (b',' ∷ second)) l,
        split_by-append (λ c. c == b',') b',' first second (Lacks-Fails b',' first h) refl,
        split_by-last (λ c. c == b',') second (Lacks-Fails b',' second k),
        parse_labels-none first second d,
      )
      refl

module _ (float : Float) (tags : Option Labels) (metrics : Option (List Text)) where
  open float use {F}

  value_line-sample_text :
      (s : Scrape F) (name value : Text) (labels : Labels)
      → IsName name
      → HasLabels labels
      → IsValue value
      → value_line float tags metrics s (sample_text name labels value)
        ≡ done (record_value float tags metrics s name value (some labels))
  unfolding value_line
  value_line-sample_text s name value labels h k l =
      let between : Text = labels_text labels in
      rw
        (
          line_parts-braced name between value h (labels_text-Lacks labels (labels-All labels k)) l,
          contains-Lacks b'#' value l.2,
          split_once-braced name between h,
          split_labels-some name ((name ++ (b'{' ∷ between)) ++ b'}' ∷ []) labels k,
        )
        refl

  -- A line with two pieces around a comma between its braces, the second of them without an equals
  -- sign, as a label value with a comma in its quotes has it, panics.
  pub value_line-comma :
      (s : Scrape F) (name first second value : Text)
      → IsName name
      → IsValue value
      → Lacks b',' first
      → Lacks b'}' first
      → Lacks b',' second
      → Lacks b'}' second
      → Lacks b'=' second
      → value_line float tags metrics s (braced name (first ++ (b',' ∷ second)) value) ≡ panicked
  unfolding value_line
  value_line-comma s name first second value h l a b c d e =
      let between : Text = first ++ (b',' ∷ second) in
      let no_brace : Lacks b'}' between =
        All-append (λ (x : ℕ). x ≢ b'}') first (b',' ∷ second) b (omega arith, d) in
      rw
        (
          line_parts-braced name between value h no_brace l,
          contains-Lacks b'#' value l.2,
          split_once-braced name between h,
          split_labels-comma name ((name ++ (b'{' ∷ between)) ++ b'}' ∷ []) first second a c
              no_brace e,
        )
        refl

  starts_with-name :
      (prefix name rest : Text) → IsName name → starts_with (b'#' ∷ prefix) (name ++ rest) ≡ false
  unfolding starts_with
  starts_with-name prefix [] rest h = absurd h
  starts_with-name prefix (c ∷ name) rest h = ground (arith, h.0)

  pub scrape_line-sample_text :
      (s : Scrape F) (name value : Text) (labels : Labels)
      → IsName name
      → HasLabels labels
      → IsValue value
      → scrape_line float tags metrics s (sample_text name labels value)
        ≡ done (record_value float tags metrics s name value (some labels))
  unfolding scrape_line
  scrape_line-sample_text s name value labels h k l =
      let line : Text = sample_text name labels value in
      let same : line ≡ name ++ ((b'{' ∷ labels_text labels) ++ (b'}' ∷ b' ' ∷ value)) =
        append_assoc name (b'{' ∷ labels_text labels) (b'}' ∷ b' ' ∷ value) in
      let no_hash : (prefix : Text) → starts_with (b'#' ∷ prefix) line ≡ false = λ prefix.
        ap (starts_with (b'#' ∷ prefix)) same
        ∙ starts_with-name prefix name ((b'{' ∷ labels_text labels) ++ (b'}' ∷ b' ' ∷ value)) h in
      if-false (starts_with (codes "# HELP") line) (done s) _ (no_hash (codes " HELP"))
      ∙ if-false (starts_with (codes "# TYPE") line) _ _ (no_hash (codes " TYPE"))
      ∙ value_line-sample_text s name value labels h k l
