-- ===== src/Prometheus/Calls.antt =====
-- What is to be recorded of the samples of a metric, and that `calls` records it.
use lading.Prelude.{
  ◌≡◌, refl, ap, ◌∙◌, List, [], ◌∷◌, ◌++◌, Option, some, none, Text, codes, ◌||◌, if◌then◌else◌,
  Bool-cases, inl, inr,
}
use lading.Prometheus.Strings.{dotted}
use lading.Prometheus.Scrape.{
  Labels, MetricType, gauge, counter, histogram, summary, all_labels, or_default, Float, Recorded,
  gauge_set, counter_absolute, gauge_calls, counter_calls, calls,
}

-- the labels of a sample with the tags after them
abbrev pub with_tags : Option Labels → Labels → Labels
with_tags none labels = labels
with_tags (some added) labels = labels ++ added

or_default-all_labels :
    (tags : Option Labels) (labels : Labels)
    → or_default (all_labels tags (some labels)) ≡ with_tags tags labels
unfolding or_default all_labels
or_default-all_labels none labels = refl
or_default-all_labels (some added) labels = refl

module _ (float : Float) where
  open float use {F, parse, is_negative, is_above, as_u64}

  -- a gauge is set to a number; a counter to one that is neither negative nor too large
  abbrev pub gauge_sample : Text → Labels → Option F → List (Recorded F)
  gauge_sample name labels none = []
  gauge_sample name labels (some value) = gauge_set name labels value ∷ []

  abbrev pub counter_sample : Text → Labels → Option F → List (Recorded F)
  counter_sample name labels none = []
  counter_sample name labels (some value) =
      if is_negative value || is_above value
      then []
      else counter_absolute name labels (as_u64 value) ∷ []

  -- what is to be recorded of a sample, by the type
  abbrev pub sample_call : MetricType → Text → Labels → Text → List (Recorded F)
  sample_call gauge name labels value = gauge_sample name labels (parse value)
  sample_call counter name labels value = counter_sample name labels (parse value)
  sample_call histogram name labels value = []
  sample_call summary name labels value = []

  counter_calls-counter_sample :
      (name : Text) (labels : Labels) (value : Option F)
      → counter_calls float name labels value
        ≡ counter_sample (codes "target/" ++ name) labels value
  unfolding counter_calls
  counter_calls-counter_sample name labels none = refl
  counter_calls-counter_sample name labels (some value) = elim (Bool-cases (is_negative value)) [
    | inl e ↦ rw e refl
    | inr e ↦ elim (Bool-cases (is_above value)) [ inl k ↦ rw (e, k) refl | inr k ↦ rw (e, k) refl ]
  ]

  gauge_calls-gauge_sample :
      (name : Text) (labels : Labels) (value : Option F)
      → gauge_calls float name labels value ≡ gauge_sample (codes "target/" ++ name) labels value
  unfolding gauge_calls
  gauge_calls-gauge_sample name labels none = refl
  gauge_calls-gauge_sample name labels (some value) = refl

  calls-sample_call :
      (t : MetricType) (name value : Text) (labels : Labels)
      → calls float (some t) name labels value
        ≡ sample_call t (codes "target/" ++ name) labels value
  unfolding calls
  calls-sample_call gauge name value labels = gauge_calls-gauge_sample name labels (parse value)
  calls-sample_call counter name value labels =
      counter_calls-counter_sample name labels (parse value)
  calls-sample_call histogram name value labels = refl
  calls-sample_call summary name value labels = refl

  -- what is to be recorded of some samples, in their order
  abbrev pub sample_calls :
      Option Labels → Text → MetricType → List (Labels × Text) → List (Recorded F)
  sample_calls tags name t [] = []
  sample_calls tags name t (sample ∷ samples) =
      sample_call t (codes "target/" ++ dotted name) (with_tags tags sample.0) sample.1
      ++ sample_calls tags name t samples

  pub calls-labels :
      (tags : Option Labels) (t : MetricType) (name value : Text) (labels : Labels)
      → calls float (some t) name (or_default (all_labels tags (some labels))) value
        ≡ sample_call t (codes "target/" ++ name) (with_tags tags labels) value
  calls-labels tags t name value labels =
      ap (λ (l : Labels). calls float (some t) name l value) (or_default-all_labels tags labels)
      ∙ calls-sample_call t name value (with_tags tags labels)
