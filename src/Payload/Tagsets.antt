-- ===== src/Payload/Tagsets.antt =====
-- The tagsets that a generator of dogstatsd tags makes, one call after the other.
use lading.Prelude.{
  ℕ, zero, suc, ◌+◌, ◌≤◌, ◌<◌, ◌≡◌, refl, ap, ◌∙◌, List, [], ◌∷◌, Outcome, done, panicked, ◌>>=◌,
  leb, le→leb, lt→not-leb, if-true, if-false, arith, length, All,
}
use lading.Payload.Tags.{ConfRange, Draws, Generator, reseeded, produce, generate}
use lading.Payload.Tagging.{IsIn, IsTag, IsValid, Continues, Produced, produce-Produced}

-- A tagset with a number of tags and with lengths in the ranges.
abbrev pub IsTagset : ConfRange → ConfRange → List (List ℕ) → Type 0
IsTagset tags_per_msg tag_length tagset =
    IsIn tags_per_msg (length tagset) × All (IsTag tag_length) tagset

module _ (draws : Draws) where
  open draws use {rng, floats, seed_from_u64}

  -- the tagsets of so many calls
  abbrev pub generates : ℕ → Generator draws → Outcome (List (List (List ℕ)) × Generator draws)
  generates zero gen = done ([], gen)
  generates (suc n) gen =
      generate draws gen >>= λ r. (generates n r.1 >>= λ rs. done (r.0 ∷ rs.0, rs.1))

  -- A generator as `new` makes it.
  pub record IsFresh (gen : Generator draws) : Type 0 where
    pub seeded : gen.internal_rng ≡ seed_from_u64 gen.seed
    pub none_yet : gen.tagsets_produced ≡ 0

  pub reseeded-below :
      (gen : Generator draws) → gen.tagsets_produced < gen.num_tagsets → reseeded draws gen ≡ gen
  unfolding reseeded
  reseeded-below gen h =
      if-false (leb gen.num_tagsets gen.tagsets_produced) _ _
        (lt→not-leb gen.tagsets_produced gen.num_tagsets h)

  pub reseeded-again :
      (gen : Generator draws)
      → gen.num_tagsets ≤ gen.tagsets_produced
      → reseeded draws gen
        ≡ record gen { internal_rng = seed_from_u64 gen.seed; tagsets_produced = 0 }
  unfolding reseeded
  reseeded-again gen h =
      if-true (leb gen.num_tagsets gen.tagsets_produced) _ _
        (le→leb gen.num_tagsets gen.tagsets_produced h)

  -- Tagsets, and a generator that counts them.
  abbrev pub Tagsets :
      ℕ → Generator draws → Outcome (List (List (List ℕ)) × Generator draws) → Type 0
  Tagsets n gen panicked = ⊥
  Tagsets n gen (done (tagsets, after)) =
      (length tagsets ≡ n)
      × All (IsTagset gen.tags_per_msg gen.tag_length) tagsets
      × IsValid draws after
      × Continues draws (gen.tagsets_produced + n) gen after

  pub generate-below :
      (gen : Generator draws)
      → gen.tagsets_produced < gen.num_tagsets
      → generate draws gen ≡ produce draws gen
  unfolding generate
  generate-below gen h = ap (λ (x : Generator draws). produce draws x) (reseeded-below gen h)

  Continues-trans :
      (a b c : ℕ) (gen after last : Generator draws)
      → Continues draws a gen after
      → Continues draws b after last
      → b ≡ c
      → Continues draws c gen last
  Continues-trans a b c gen after last h k e =
      k
      ∙ ap
          (λ (x : Generator draws). record x {
            internal_rng = last.internal_rng;
            unique_tags = last.unique_tags;
            tagsets_produced = b;
          })
          h
      ∙ ap
          (λ (count : ℕ). record gen {
            internal_rng = last.internal_rng;
            unique_tags = last.unique_tags;
            tagsets_produced = count;
          })
          e

  then_more :
      (n : ℕ) (gen : Generator draws) (m : Outcome (List (List ℕ) × Generator draws))
      → Produced draws gen m
      → ((after : Generator draws)
          → IsValid draws after
          → Continues draws (gen.tagsets_produced + 1) gen after
          → Tagsets n after (generates n after))
      → Tagsets (suc n) gen (m >>= λ r. (generates n r.1 >>= λ rs. done (r.0 ∷ rs.0, rs.1)))
  then_more n gen panicked h k = h
  then_more n gen (done (tagset, after)) h k = go (generates n after) (k after h.2 h.3)
    where
      go :
          (m : Outcome (List (List (List ℕ)) × Generator draws))
          → Tagsets n after m
          → Tagsets (suc n) gen (m >>= λ rs. done (tagset ∷ rs.0, rs.1))
      go panicked l = l
      go (done (tagsets, last)) l = (
        omega (arith, l.0),
        (
          (h.0, h.1),
          rw
              (
                ap (λ (x : Generator draws). x.tags_per_msg) h.3,
                ap (λ (x : Generator draws). x.tag_length) h.3,
              )
              at l.1,
        ),
        l.2,
        Continues-trans (gen.tagsets_produced + 1) (after.tagsets_produced + n)
            (gen.tagsets_produced + suc n) gen after last h.3 l.3
            (omega (arith, ap (λ (x : Generator draws). x.tagsets_produced) h.3)),
      )

  -- the calls until the generator has made all its tagsets
  pub generates-Tagsets :
      (n : ℕ) (gen : Generator draws)
      → IsValid draws gen
      → gen.tagsets_produced + n ≤ gen.num_tagsets
      → Tagsets n gen (generates n gen)
  generates-Tagsets zero gen v h =
      (refl, tt, v, ap (λ (count : ℕ). record gen { tagsets_produced = count }) (omega arith))
  generates-Tagsets (suc n) gen v h =
      let e = generate-below gen (omega (arith, h)) in
      then_more n gen (generate draws gen) (rw e (produce-Produced draws gen v)) (λ after w c.
        generates-Tagsets n after w (
          omega (
            arith,
            ap (λ (x : Generator draws). x.tagsets_produced) c,
            ap (λ (x : Generator draws). x.num_tagsets) c,
            h,
          )))
