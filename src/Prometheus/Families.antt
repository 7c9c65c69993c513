-- ===== src/Prometheus/Families.antt =====
-- What is recorded of a metric with its type.
use lading.Prelude.{
  ℕ, ◌≡◌, refl, sym, ap, ◌∙◌, List, [], ◌∷◌, ◌++◌, map, Bool, true, false, Option, some, All, Text,
  if-true, done, append_assoc, append_nil, codes, text_eq,
}
use lading.Prelude.Names.{Names, lookup, lookup-put_self}
use lading.Observer.Tokens.{is_whitespace}
use lading.Prometheus.Strings.{
  is_empty, trim, full_pieces, is_ascii_whitespace, split_ascii_whitespace, starts_with, dotted,
}
use lading.Prometheus.Scrape.{
  Labels, MetricType, gauge, counter, histogram, summary, from_str, insert_type, type_line,
  all_labels, or_default, is_wanted, Float, Recorded, calls, Scrape, record_value, scrape_line,
  scrape_lines,
}
use lading.Prometheus.Calls.{with_tags, sample_call, sample_calls, calls-labels}
use lading.Prometheus.Splitting.{Fails, split_by-append, split_by-last}
use lading.Prometheus.Samples.{
  IsName, IsValue, HasLabels, sample_text, trim-kept, ascii-Fails, trim-sample_text,
  is_empty-sample_text, scrape_line-sample_text,
}

-- the name of a type
abbrev pub type_name : MetricType → Text
type_name gauge = codes "gauge"
type_name counter = codes "counter"
type_name histogram = codes "histogram"
type_name summary = codes "summary"

-- the line that tells the type of a metric
abbrev pub type_text : Text → MetricType → Text
type_text name metric_type = codes "# TYPE " ++ (name ++ (b' ' ∷ type_name metric_type))

from_str-type_name : (t : MetricType) → from_str (type_name t) ≡ some t
unfolding from_str text_eq
from_str-type_name gauge = refl
from_str-type_name counter = refl
from_str-type_name histogram = refl
from_str-type_name summary = refl

lookup-insert_type :
    (m : Names MetricType) (name : Text) (t : MetricType)
    → lookup (insert_type m name t) name ≡ some t
unfolding insert_type
lookup-insert_type m name gauge = lookup-put_self m name gauge
lookup-insert_type m name counter = lookup-put_self m name counter
lookup-insert_type m name histogram = lookup-put_self _ name histogram
lookup-insert_type m name summary = lookup-put_self _ name summary

type_name-Fails : (t : MetricType) → Fails is_whitespace (type_name t)
unfolding is_whitespace
type_name-Fails gauge = (refl, (refl, (refl, (refl, (refl, tt)))))
type_name-Fails counter = (refl, (refl, (refl, (refl, (refl, (refl, (refl, tt)))))))
type_name-Fails histogram =
    (refl, (refl, (refl, (refl, (refl, (refl, (refl, (refl, (refl, tt)))))))))
type_name-Fails summary = (refl, (refl, (refl, (refl, (refl, (refl, (refl, tt)))))))

name-Fails : (name : Text) → IsName name → Fails is_whitespace name
name-Fails [] h = absurd h
name-Fails (c ∷ name) h = h.1

full-name :
    (name : Text) (t : MetricType)
    → IsName name
    → full_pieces (codes "#" ∷ codes "TYPE" ∷ name ∷ type_name t ∷ [])
      ≡ codes "#" ∷ codes "TYPE" ∷ name ∷ type_name t ∷ []
unfolding full_pieces
full-name [] t h = absurd h
full-name (c ∷ name) gauge h = refl
full-name (c ∷ name) counter h = refl
full-name (c ∷ name) histogram h = refl
full-name (c ∷ name) summary h = refl

-- A type line has four words.
split-type_text :
    (name : Text) (t : MetricType)
    → IsName name
    → split_ascii_whitespace (type_text name t) ≡ codes "#" ∷ codes "TYPE" ∷ name ∷ type_name t ∷ []
unfolding split_ascii_whitespace is_ascii_whitespace
split-type_text name t h =
    let test : ℕ → Bool = is_ascii_whitespace in
    let last : Text = name ++ (b' ' ∷ type_name t) in
    ap full_pieces (
      split_by-append test b' ' (codes "#") (codes "TYPE " ++ last) (refl, tt) refl
      ∙ ap (λ (l : List Text). codes "#" ∷ l)
          (split_by-append test b' ' (codes "TYPE") last (refl, (refl, (refl, (refl, tt)))) refl)
      ∙ ap (λ (l : List Text). codes "#" ∷ codes "TYPE" ∷ l)
          (split_by-append test b' ' name (type_name t) (ascii-Fails name (name-Fails name h)) refl)
      ∙ ap (λ (l : List Text). codes "#" ∷ codes "TYPE" ∷ name ∷ l)
          (split_by-last test (type_name t) (ascii-Fails (type_name t) (type_name-Fails t))))
    ∙ full-name name t h

type_line-type_text :
    (m : Names MetricType) (name : Text) (t : MetricType)
    → IsName name
    → type_line m (type_text name t) ≡ done (insert_type m name t)
unfolding type_line
type_line-type_text m name t h = rw (split-type_text name t h, from_str-type_name t) refl

-- Labels with at least one of them, and a value.
abbrev pub IsSample : Labels × Text → Type 0
IsSample sample = HasLabels sample.0 × IsValue sample.1

-- the lines of a metric: its type, and a line for each sample
abbrev pub family : Text → MetricType → List (Labels × Text) → List Text
family name t samples =
    type_text name t ∷ map (λ (sample : Labels × Text). sample_text name sample.0 sample.1) samples

type_name-full : (t : MetricType) → is_empty (type_name t) ≡ false
unfolding is_empty
type_name-full gauge = refl
type_name-full counter = refl
type_name-full histogram = refl
type_name-full summary = refl

trim-type_text : (name : Text) (t : MetricType) → trim (type_text name t) ≡ type_text name t
unfolding is_whitespace
trim-type_text name t =
    let before : Text = codes "# TYPE " ++ (name ++ b' ' ∷ []) in
    let same : type_text name t ≡ before ++ type_name t =
      ap (λ (x : Text). codes "# TYPE " ++ x) (sym (append_assoc name (b' ' ∷ []) (type_name t))) in
    ap trim same
    ∙ trim-kept b'#' (codes " TYPE " ++ (name ++ b' ' ∷ [])) (type_name t) refl (type_name-Fails t)
        (type_name-full t)
    ∙ sym same

type_text_full : (name : Text) (t : MetricType) → is_empty (type_text name t) ≡ false
unfolding is_empty
type_text_full name t = refl

module _ (float : Float) (tags : Option Labels) (metrics : Option (List Text)) where
  open float use {F}

  record_value-wanted :
      (s : Scrape F) (name value : Text) (t : MetricType) (labels : Option Labels)
      → is_wanted metrics (dotted name) ≡ true
      → lookup s.typemap name ≡ some t
      → record_value float tags metrics s name value labels ≡ record s {
        recorded =
            s.recorded
            ++ calls float (some t) (dotted name) (or_default (all_labels tags labels)) value;
      }
  unfolding record_value
  record_value-wanted s name value t labels h k =
      if-true (is_wanted metrics (dotted name)) _ s h
      ∙ ap
          (λ (o : Option MetricType). record s {
            recorded =
                s.recorded
                ++ calls float o (dotted name) (or_default (all_labels tags labels)) value;
          })
          k

  scrape_lines-step :
      (s s' : Scrape F) (l : Text) (ls : List Text)
      → trim l ≡ l
      → is_empty l ≡ false
      → scrape_line float tags metrics s l ≡ done s'
      → scrape_lines float tags metrics s (l ∷ ls) ≡ scrape_lines float tags metrics s' ls
  unfolding scrape_lines
  scrape_lines-step s s' l ls h k e = rw (h, k, e) refl

  scrape_lines-nil : (s : Scrape F) → scrape_lines float tags metrics s [] ≡ done s
  unfolding scrape_lines
  scrape_lines-nil s = refl

  scrape_lines-samples :
      (s : Scrape F) (name : Text) (t : MetricType) (samples : List (Labels × Text))
      → IsName name
      → is_wanted metrics (dotted name) ≡ true
      → lookup s.typemap name ≡ some t
      → All IsSample samples
      → scrape_lines float tags metrics s
          (map (λ (sample : Labels × Text). sample_text name sample.0 sample.1) samples)
        ≡ done (record s { recorded = s.recorded ++ sample_calls float tags name t samples })
  scrape_lines-samples s name t [] h w k a =
      scrape_lines-nil s
      ∙ ap (λ (l : List (Recorded F)). done (record s { recorded = l }))
          (sym (append_nil s.recorded))
  scrape_lines-samples s name t (sample ∷ samples) h w k a =
      let now : List (Recorded F) =
        sample_call float t (codes "target/" ++ dotted name) (with_tags tags sample.0) sample.1 in
      let s' : Scrape F = record s { recorded = s.recorded ++ now } in
      scrape_lines-step s s' (sample_text name sample.0 sample.1)
        (map (λ (x : Labels × Text). sample_text name x.0 x.1) samples)
        (trim-sample_text name sample.1 sample.0 h a.0.1)
        (is_empty-sample_text name sample.1 sample.0 h)
        (scrape_line-sample_text float tags metrics s name sample.1 sample.0 h a.0.0 a.0.1
          ∙ ap done (
              record_value-wanted s name sample.1 t (some sample.0) w k
              ∙ ap (λ (l : List (Recorded F)). record s { recorded = s.recorded ++ l })
                  (calls-labels float tags t (dotted name) sample.1 sample.0)))
      ∙ scrape_lines-samples s' name t samples h w k a.1
      ∙ ap (λ (l : List (Recorded F)). done (record s { recorded = l }))
          (append_assoc s.recorded now (sample_calls float tags name t samples))

  scrape_line-type_text :
      (s : Scrape F) (name : Text) (t : MetricType)
      → IsName name
      → scrape_line float tags metrics s (type_text name t)
        ≡ done (record s { typemap = insert_type s.typemap name t })
  unfolding scrape_line starts_with
  scrape_line-type_text s name t h = rw (type_line-type_text s.typemap name t h) refl

  -- The lines of a metric of any of the four types, whose name is to be recorded, with samples that
  -- have a label at least: none of them panics, and what is recorded after all that was before is, in
  -- the order of the samples, for a gauge each value that is a number, for a counter each that is
  -- neither negative nor too large, and nothing for a histogram or a summary; each under the dotted
  -- name below `target/` and with its labels, the tags after them.
  pub scrape_lines-family :
      (s : Scrape F) (name : Text) (t : MetricType) (samples : List (Labels × Text))
      → IsName name
      → is_wanted metrics (dotted name) ≡ true
      → All IsSample samples
      → scrape_lines float tags metrics s (family name t samples)
        ≡ done (record {
          typemap = insert_type s.typemap name t;
          recorded = s.recorded ++ sample_calls float tags name t samples;
        })
  scrape_lines-family s name t samples h w a =
      let s' : Scrape F = record s { typemap = insert_type s.typemap name t } in
      scrape_lines-step s s' (type_text name t)
        (map (λ (x : Labels × Text). sample_text name x.0 x.1) samples) (trim-type_text name t)
        (type_text_full name t) (scrape_line-type_text s name t h)
      ∙ scrape_lines-samples s' name t samples h w (lookup-insert_type s.typemap name t) a
