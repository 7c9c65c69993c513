-- ===== src/Observer/Totals.antt =====
-- What the aggregation by pathname comes to.
use lading.Prelude.{
  ℕ, ◌+◌, ◌<◌, ◌≡◌, refl, sym, ap, ◌∙◌, List, [], ◌∷◌, Bool, true, false, Bool-cases, inl, inr,
  Option, some, none, if◌then◌else◌, Text, text_eq, text_eq_self, text_eq→eq, sum_by, length, arith,
}
use lading.Observer.Smaps.{
  Required, Optional, AggrMeasure, Region, no_measure, aggregate_option, add_measure, add_region,
  add_regions, aggregate_by_pathname,
}
use lading.Observer.Measures.{
  required, optional, required-add_measure, optional-add_measure, required-no_measure,
  optional-no_measure,
}

-- the entry of a pathname
abbrev pub find_entry : Text → List (Text × AggrMeasure) → Option AggrMeasure
find_entry pathname [] = none
find_entry pathname (entry ∷ entries) =
    if text_eq entry.0 pathname then some entry.1 else find_entry pathname entries

-- the regions of a pathname
abbrev pub regions_of : Text → List Region → List Region
regions_of pathname [] = []
regions_of pathname (region ∷ regions) =
    if text_eq region.pathname pathname
    then region ∷ regions_of pathname regions
    else regions_of pathname regions

-- the values that are there, added up
abbrev pub option_total : (Region → Option ℕ) → List Region → Option ℕ
option_total f [] = none
option_total f (region ∷ regions) = aggregate_option (f region) (option_total f regions)

-- the values that are there so far
abbrev measure_of : Option AggrMeasure → AggrMeasure
measure_of none = no_measure
measure_of (some m) = m

abbrev has : Option AggrMeasure → ℕ
has none = 0
has (some m) = 1

-- what the regions make of the entry of a pathname
abbrev gather : Text → Option AggrMeasure → List Region → Option AggrMeasure
gather pathname o [] = o
gather pathname o (region ∷ regions) =
    gather pathname
      (if text_eq region.pathname pathname
        then some (add_measure (measure_of o) region.measure)
        else o)
      regions

find_other :
    (pathname : Text) (a b : Text)
    → text_eq a b ≡ false
    → text_eq a pathname ≡ true
    → text_eq b pathname ≡ false
find_other pathname a b h k = elim (Bool-cases (text_eq b pathname)) [
  | inr e ↦ e
  | inl e ↦
      let same : a ≡ b = text_eq→eq a pathname k ∙ sym (text_eq→eq b pathname e) in
      absurd (ground (arith, rw same at h, text_eq_self b))
]

find_entry-add_region :
    (pathname : Text) (entries : List (Text × AggrMeasure)) (region : Region)
    → find_entry pathname (add_region entries region) ≡ (
        if text_eq region.pathname pathname
        then some (add_measure (measure_of (find_entry pathname entries)) region.measure)
        else find_entry pathname entries)
unfolding add_region
find_entry-add_region pathname [] region = refl
find_entry-add_region pathname (entry ∷ entries) region =
    elim (Bool-cases (text_eq entry.0 region.pathname)) [
      | inl same ↦ rw same (
          go (text_eq entry.0 pathname) (text_eq region.pathname pathname)
            (ap (λ (t : Text). text_eq t pathname) (text_eq→eq entry.0 region.pathname same)))
      | inr other ↦ rw other (elim (Bool-cases (text_eq entry.0 pathname)) [
        | inl here ↦ rw (here, find_other pathname entry.0 region.pathname other here) refl
        | inr elsewhere ↦ rw elsewhere (find_entry-add_region pathname entries region)
      ])
    ]
  where
    go :
        (b c : Bool)
        → b ≡ c
        → (if b then some (add_measure entry.1 region.measure) else find_entry pathname entries) ≡ (
            if c
            then some (
                add_measure
                  (measure_of (if b then some entry.1 else find_entry pathname entries))
                  region.measure)
            else if b
            then some entry.1
            else find_entry pathname entries)
    go true true e = refl
    go false false e = refl
    go true false e = absurd (ground (arith, e))
    go false true e = absurd (ground (arith, e))

find_entry-add_regions :
    (pathname : Text) (entries : List (Text × AggrMeasure)) (regions : List Region)
    → find_entry pathname (add_regions entries regions)
      ≡ gather pathname (find_entry pathname entries) regions
unfolding add_regions
find_entry-add_regions pathname entries [] = refl
find_entry-add_regions pathname entries (region ∷ regions) =
    find_entry-add_regions pathname (add_region entries region) regions
    ∙ ap (λ (o : Option AggrMeasure). gather pathname o regions)
        (find_entry-add_region pathname entries region)

aggregate_assoc :
    (a b c : Option ℕ)
    → aggregate_option (aggregate_option a b) c ≡ aggregate_option a (aggregate_option b c)
unfolding aggregate_option
aggregate_assoc a b none = refl
aggregate_assoc a none (some z) = refl
aggregate_assoc none (some y) (some z) = refl
aggregate_assoc (some x) (some y) (some z) = ap (λ (n : ℕ). some n) (omega arith)

aggregate_none : (a : Option ℕ) → aggregate_option none a ≡ a
unfolding aggregate_option
aggregate_none none = refl
aggregate_none (some n) = refl

none_aggregate : (a : Option ℕ) → aggregate_option a none ≡ a
unfolding aggregate_option
none_aggregate a = refl

-- The entry of a pathname after some of its regions.
abbrev Gathered : Option AggrMeasure → List Region → Option AggrMeasure → Type 0
Gathered o regions none = (o ≡ none) × (regions ≡ [])
Gathered o regions (some m) =
    (0 < has o + length regions)
    × ((k : Required)
        → required k m
          ≡ required k (measure_of o) + sum_by (λ (r : Region). required k r.measure) regions)
    × ((k : Optional)
        → optional k m
          ≡ aggregate_option (optional k (measure_of o))
              (option_total (λ r. optional k r.measure) regions))

-- one more region, before the others
one_more_region :
    (o : Option AggrMeasure) (region : Region) (regions : List Region) (result : Option AggrMeasure)
    → Gathered (some (add_measure (measure_of o) region.measure)) regions result
    → Gathered o (region ∷ regions) result
one_more_region o region regions none h = absurd (ground (arith, h.0))
one_more_region o region regions (some m) h = (
  omega arith,
  λ k. h.1 k ∙ rw (required-add_measure k (measure_of o) region.measure) (omega arith),
  λ k.
      h.2 k
      ∙ rw (optional-add_measure k (measure_of o) region.measure) (
          aggregate_assoc (optional k (measure_of o)) (optional k region.measure)
            (option_total (λ r. optional k r.measure) regions)),
)

gather-Gathered :
    (pathname : Text) (o : Option AggrMeasure) (regions : List Region)
    → Gathered o (regions_of pathname regions) (gather pathname o regions)
gather-Gathered pathname none [] = (refl, refl)
gather-Gathered pathname (some m) [] =
    (omega arith, λ k. omega arith, λ k. sym (none_aggregate (optional k m)))
gather-Gathered pathname o (region ∷ regions) =
    elim (Bool-cases (text_eq region.pathname pathname)) [
      | inl here ↦ rw here (
          one_more_region o region (regions_of pathname regions) _
            (gather-Gathered pathname (some (add_measure (measure_of o) region.measure)) regions))
      | inr elsewhere ↦ rw elsewhere (gather-Gathered pathname o regions)
    ]

-- The totals of some regions, none where there are none of them.
abbrev pub Totals : List Region → Option AggrMeasure → Type 0
Totals regions none = regions ≡ []
Totals regions (some m) =
    (0 < length regions)
    × ((k : Required) → required k m ≡ sum_by (λ (r : Region). required k r.measure) regions)
    × ((k : Optional) → optional k m ≡ option_total (λ r. optional k r.measure) regions)

Gathered-Totals :
    (regions : List Region) (result : Option AggrMeasure)
    → Gathered none regions result
    → Totals regions result
Gathered-Totals regions none h = h.1
Gathered-Totals regions (some m) h = (
  omega (arith, h.0),
  λ k. h.1 k ∙ rw (required-no_measure k) (omega arith),
  λ k.
      h.2 k
      ∙ rw (optional-no_measure k)
          (aggregate_none (option_total (λ r. optional k r.measure) regions)),
)

-- The aggregation has an entry for a pathname just where some region has it. Then each value that every
-- region has is the sum over the regions of the pathname, and each that they may have is the sum over
-- those of them that have it, and is missing where none has.
pub aggregate_by_pathname-Totals :
    (regions : List Region) (pathname : Text)
    → Totals (regions_of pathname regions) (find_entry pathname (aggregate_by_pathname regions))
unfolding aggregate_by_pathname
aggregate_by_pathname-Totals regions pathname = rw (find_entry-add_regions pathname [] regions) (
    Gathered-Totals (regions_of pathname regions) (gather pathname none regions)
      (gather-Gathered pathname none regions))
