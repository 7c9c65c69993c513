-- ===== src/Prometheus/Scrape.antt =====
-- prometheus.rs: `scrape_metrics` on the text of the response. An `expect` that fails panics.
use lading.Prelude.{
  ℕ, List, [], ◌∷◌, ◌++◌, Bool, true, false, Option, some, none, Outcome, done, ◌>>=◌, expect, drop,
  get_elem?, ◌==◌, if◌then◌else◌, Text, text_eq, codes,
}
use lading.Prelude.Names.{Names, lookup, put}
use lading.Observer.Tokens.{lines}
use lading.Prometheus.Strings.{
  trim, is_empty, starts_with, contains, split_by, split_inclusive, split_once,
  split_ascii_whitespace, trim_end_matches, trim_matches, dotted,
}

pub data MetricType : Type 0 where
  gauge : MetricType
  counter : MetricType
  histogram : MetricType
  summary : MetricType

-- `from_str`
unfoldable pub from_str : Text → Option MetricType
from_str s =
    if text_eq s (codes "counter")
    then some counter
    else if text_eq s (codes "gauge")
    then some gauge
    else if text_eq s (codes "histogram")
    then some histogram
    else if text_eq s (codes "summary")
    then some summary
    else none

abbrev pub Labels : Type 0
Labels = List (Text × Text)

-- the types with the names that end in `_sum`, `_count` and `_bucket` too
unfoldable pub insert_suffixed : Names MetricType → Text → MetricType → Names MetricType
unfolding put
insert_suffixed typemap name metric_type =
    put
      (put
        (put (put typemap (name ++ codes "_sum") metric_type) (name ++ codes "_count") metric_type)
        (name ++ codes "_bucket") metric_type)
      name metric_type

unfoldable pub insert_type : Names MetricType → Text → MetricType → Names MetricType
unfolding insert_suffixed put
insert_type typemap name histogram = insert_suffixed typemap name histogram
insert_type typemap name summary = insert_suffixed typemap name summary
insert_type typemap name gauge = put typemap name gauge
insert_type typemap name counter = put typemap name counter

-- a line that starts with `# TYPE`
unfoldable pub type_line : Names MetricType → Text → Outcome (Names MetricType)
unfolding insert_type
type_line typemap line = do
  let parts = drop 2 (split_ascii_whitespace line)
  name ← expect (get_elem? parts 0)
  metric_type ← expect (get_elem? parts 1)
  metric_type' ← expect (from_str metric_type)
  done (insert_type typemap name metric_type')

-- a label, at its first equals sign
unfoldable pub parse_label : Text → Outcome (Text × Text)
parse_label label = do
  parts ← expect (split_once b'=' label)
  done (parts.0, trim_matches b'"' parts.1)

unfoldable pub parse_labels : List Text → Outcome Labels
unfolding parse_label
parse_labels [] = done []
parse_labels (label ∷ labels) = do
  first ← parse_label label
  rest ← parse_labels labels
  done (first ∷ rest)

-- the name and the labels, where there is a brace
unfoldable pub split_labels : Text → Option (Text × Text) → Outcome (Text × Option Labels)
unfolding parse_labels
split_labels name_and_labels none = done (name_and_labels, none)
split_labels name_and_labels (some parts) = do
  labels ← parse_labels (split_by (λ c. c == b',') (trim_end_matches b'}' parts.1))
  done (parts.0, some labels)

-- the name and the labels, and the value, of a line
unfoldable pub line_parts : Text → Outcome (Text × Text)
line_parts line = do
  let parts = if contains b'}' line then split_inclusive b'}' line else split_ascii_whitespace line
  name_and_labels ← expect (get_elem? parts 0)
  rest ← expect (get_elem? parts 1)
  value ← expect (get_elem? (split_ascii_whitespace rest) 0)
  done (name_and_labels, value)

-- the labels of a line and the tags of the configuration
unfoldable pub all_labels : Option Labels → Option Labels → Option Labels
all_labels none labels = labels
all_labels (some tags) none = some tags
all_labels (some tags) (some labels) = some (labels ++ tags)

-- `unwrap_or_default`
unfoldable pub or_default : Option Labels → Labels
or_default none = []
or_default (some labels) = labels

-- whether the names to record, if there are any, have a name
unfoldable pub is_listed : List Text → Text → Bool
is_listed [] name = false
is_listed (metric ∷ metrics) name =
    let rest = is_listed metrics name in if text_eq metric name then true else rest

unfoldable pub is_wanted : Option (List Text) → Text → Bool
unfolding is_listed
is_wanted none name = true
is_wanted (some metrics) name = is_listed metrics name

-- A floating-point number is a parameter, with how it is parsed, whether it is negative and whether it
-- is more than a `u64` holds, and what it is as one.
pub record Float : Type 1 where
  pub F : Type 0
  pub parse : Text → Option F
  pub is_negative : F → Bool
  pub is_above : F → Bool
  pub as_u64 : F → ℕ

-- a call of the recorder, of a gauge or of a counter
pub data Recorded (F : Type 0) : Type 0 where
  gauge_set : Text → Labels → F → Recorded F
  counter_absolute : Text → Labels → ℕ → Recorded F

-- the types so far and the calls so far, the first call first
pub record Scrape (F : Type 0) : Type 0 where
  pub typemap : Names MetricType
  pub recorded : List (Recorded F)

module _ (float : Float) where
  open float use {F, parse, is_negative, is_above, as_u64}

  -- what is recorded of a counter: not a value that is no number, negative or too large
  unfoldable pub counter_calls : Text → Labels → Option F → List (Recorded F)
  counter_calls name labels none = []
  counter_calls name labels (some value) =
      if is_negative value
      then []
      else if is_above value
      then []
      else counter_absolute (codes "target/" ++ name) labels (as_u64 value) ∷ []

  unfoldable pub gauge_calls : Text → Labels → Option F → List (Recorded F)
  gauge_calls name labels none = []
  gauge_calls name labels (some value) = gauge_set (codes "target/" ++ name) labels value ∷ []

  -- what is recorded for a type, if the name has one
  unfoldable pub calls : Option MetricType → Text → Labels → Text → List (Recorded F)
  unfolding counter_calls gauge_calls
  calls none name labels value = []
  calls (some gauge) name labels value = gauge_calls name labels (parse value)
  calls (some counter) name labels value = counter_calls name labels (parse value)
  calls (some histogram) name labels value = []
  calls (some summary) name labels value = []

  -- the calls for a value, where its name is wanted
  unfoldable pub record_value :
      Option Labels → Option (List Text) → Scrape F → Text → Text → Option Labels → Scrape F
  unfolding calls is_wanted all_labels or_default dotted lookup
  record_value tags metrics s name value labels =
      if is_wanted metrics (dotted name)
      then record s {
        recorded =
            s.recorded
            ++ calls (lookup s.typemap name) (dotted name) (or_default (all_labels tags labels))
                value;
      }
      else s

  -- a line of a value; one with a `#` in its value is skipped
  unfoldable pub value_line :
      Option Labels → Option (List Text) → Scrape F → Text → Outcome (Scrape F)
  unfolding line_parts split_labels record_value
  value_line tags metrics s line = do
    (name_and_labels, value) ← line_parts line
    if contains b'#' value then done s else (do
      (name, labels) ← split_labels name_and_labels (split_once b'{' name_and_labels)
      done (record_value tags metrics s name value labels))

  -- a line that is not empty
  unfoldable pub scrape_line :
      Option Labels → Option (List Text) → Scrape F → Text → Outcome (Scrape F)
  unfolding type_line value_line
  scrape_line tags metrics s line =
      if starts_with (codes "# HELP") line
      then done s
      else if starts_with (codes "# TYPE") line
      then (do typemap ← type_line s.typemap line; done (record s { typemap = typemap }))
      else value_line tags metrics s line

  -- the loop over the lines, which are trimmed and left out where they are empty
  unfoldable pub scrape_lines :
      Option Labels → Option (List Text) → Scrape F → List Text → Outcome (Scrape F)
  unfolding scrape_line
  scrape_lines tags metrics s [] = done s
  scrape_lines tags metrics s (l ∷ ls) =
      let skip = scrape_lines tags metrics s ls in
      let line = trim l in
      if is_empty line
      then skip
      else (do s' ← scrape_line tags metrics s line; scrape_lines tags metrics s' ls)

  -- `scrape_metrics` on a text
  unfoldable pub scrape_text : Option Labels → Option (List Text) → Text → Outcome (Scrape F)
  unfolding scrape_lines
  scrape_text tags metrics text =
      scrape_lines tags metrics (record { typemap = []; recorded = [] }) (lines text)
