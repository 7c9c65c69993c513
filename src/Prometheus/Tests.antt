-- ===== src/Prometheus/Tests.antt =====
-- Tests and witnesses of the metrics of a target.
use lading.Prelude.{ℕ, ◌≡◌, refl, arith, [], ◌∷◌, ◌++◌, false, none, done, panicked, codes, text_eq}
use lading.Observer.Tokens.{is_whitespace, from_str_radix, lines}
use lading.Prometheus.Strings.{
  contains, trim, is_empty, starts_with, split_ascii_whitespace, is_ascii_whitespace, dotted,
  split_inclusive, split_once, trim_end_matches, trim_matches,
}
use lading.Prometheus.Scrape.{
  gauge, insert_type, from_str, is_wanted, calls, or_default, all_labels, Float, gauge_set,
  counter_absolute, Scrape, scrape_lines, scrape_text, value_line,
}
use lading.Prometheus.Samples.{braced, value_line-comma}
use lading.Prometheus.Families.{family, scrape_lines-family}

-- numbers that are whole and not negative
abbrev whole : Float
whole = record {
  F = ℕ;
  parse = from_str_radix 10;
  is_negative = λ f. false;
  is_above = λ f. false;
  as_u64 = λ f. f;
}

dotted-double : dotted (codes "a__b_c") ≡ codes "a.b_c"
unfolding dotted
dotted-double = refl

split-tabulator : split_ascii_whitespace (codes " a \t b") ≡ codes "a" ∷ codes "b" ∷ []
unfolding split_ascii_whitespace is_ascii_whitespace
split-tabulator = refl

abbrev start : Scrape ℕ
start = record { typemap = []; recorded = [] }

-- A counter with and without labels; the other metric has no type.
scrape_text-counter :
    (s : Scrape ℕ) × (scrape_text whole none none
        (codes "# HELP a__b text\n# TYPE a__b counter\n  a__b{k=\"v\"} 7\n\na__b 9\nother 1\n")
      ≡ done s)
    × (s.recorded
        ≡ counter_absolute (codes "target/a.b") ((codes "k", codes "v") ∷ []) 7
          ∷ counter_absolute (codes "target/a.b") [] 9
          ∷ [])
unfolding scrape_text lines trim is_empty starts_with from_str_radix is_whitespace
    split_ascii_whitespace is_ascii_whitespace from_str text_eq contains split_inclusive split_once
    trim_end_matches trim_matches
scrape_text-counter = (_, refl, refl)

scrape_lines-family_example :
    scrape_lines whole none none start
      (family (codes "up") gauge (((codes "k", codes "v") ∷ [], codes "1") ∷ []))
    ≡ done (record {
      typemap = insert_type [] (codes "up") gauge;
      recorded = gauge_set (codes "target/up") ((codes "k", codes "v") ∷ []) 1 ∷ [];
    })
unfolding is_whitespace from_str_radix is_wanted calls dotted or_default all_labels
scrape_lines-family_example =
    scrape_lines-family whole none none start (codes "up") gauge
      (((codes "k", codes "v") ∷ [], codes "1") ∷ [])
      (
        omega arith,
        (refl, (refl, tt)),
        (omega arith, (omega arith, tt)),
        (omega arith, (omega arith, tt)),
      )
      refl
      (
        (
          (
            (
              (omega arith, tt),
              (omega arith, tt),
              (omega arith, tt),
              (omega arith, tt),
              (omega arith, tt),
              (omega arith, tt),
            ),
            tt,
          ),
          (tt, (refl, tt), (omega arith, tt), (omega arith, tt)),
        ),
        tt,
      )

value_line-comma_example :
    value_line whole none none start
      (braced (codes "up") (codes "k=\"a" ++ (b',' ∷ codes "b\"")) (codes "1"))
    ≡ panicked
unfolding is_whitespace
value_line-comma_example =
    value_line-comma whole none none start (codes "up") (codes "k=\"a") (codes "b\"") (codes "1")
      (
        omega arith,
        (refl, (refl, tt)),
        (omega arith, (omega arith, tt)),
        (omega arith, (omega arith, tt)),
      )
      (tt, (refl, tt), (omega arith, tt), (omega arith, tt))
      (omega arith, (omega arith, (omega arith, (omega arith, tt))))
      (omega arith, (omega arith, (omega arith, (omega arith, tt))))
      (omega arith, (omega arith, tt)) (omega arith, (omega arith, tt))
      (omega arith, (omega arith, tt))
