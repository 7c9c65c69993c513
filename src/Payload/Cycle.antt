-- ===== src/Payload/Cycle.antt =====
-- A generator of dogstatsd tags makes its tagsets again.
use lading.Prelude.{
  ℕ, zero, suc, ◌+◌, ◌<◌, ◌≡◌, refl, sym, ap, subst, ◌∙◌, List, [], ◌∷◌, some, Outcome, done,
  panicked, ◌>>=◌, arith, length,
}
use lading.Payload.Strings.{Pool}
use lading.Payload.Tags.{ConfRange, Draws, Generator, new, produce, generate}
use lading.Payload.Tagging.{Continues}
use lading.Payload.Tagsets.{generates, Tagsets, reseeded-below, reseeded-again, generates-Tagsets}
use lading.Payload.Repeats.{AllNew, SameMade, with_tags, generates-SameMade}
use lading.Payload.Calls.{fresh, IsUsable, new-fresh, fresh-IsValid}

module _ (draws : Draws) where
  open draws use {rng, floats, seed_from_u64}

  -- the generator that has made its tagsets is reseeded to the new one, with other unique tags
  generate-after :
      (gen after : Generator draws)
      → gen.internal_rng ≡ seed_from_u64 gen.seed
      → gen.tagsets_produced ≡ 0
      → 0 < gen.num_tagsets
      → Continues draws gen.num_tagsets gen after
      → generate draws after ≡ generate draws (with_tags draws gen after.unique_tags)
  unfolding generate
  generate-after gen after e f h c =
      ap (λ (x : Generator draws). produce draws x)
        (reseeded-again draws after (
            omega (
              arith,
              ap (λ (x : Generator draws). x.num_tagsets) c,
              ap (λ (x : Generator draws). x.tagsets_produced) c,
            ))
          ∙ ap
              (λ (x : Generator draws). record x {
                internal_rng = seed_from_u64 x.seed;
                unique_tags = after.unique_tags;
                tagsets_produced = 0;
              })
              c
          ∙ ap
              (λ (r : rng.State). record gen {
                internal_rng = r;
                unique_tags = after.unique_tags;
                tagsets_produced = 0;
              })
              (sym e)
          ∙ ap
              (λ (count : ℕ). record gen {
                unique_tags = after.unique_tags;
                tagsets_produced = count;
              })
              (sym f)
          ∙ sym
              (reseeded-below draws (with_tags draws gen after.unique_tags) (omega (arith, f, h))))

  -- the same tagsets, where the one outcome is known
  same_tagsets :
      (p : floats.Float) (tagsets : List (List (List ℕ))) (middle : Generator draws)
      (m : Outcome (List (List (List ℕ)) × Generator draws))
      → SameMade draws p (done (tagsets, middle)) m
      → (after : Generator draws) × (m ≡ done (tagsets, after))
  same_tagsets p tagsets middle panicked h = absurd h
  same_tagsets p tagsets middle (done (others, after)) h =
      (after, ap (λ (ts : List (List (List ℕ))). done (ts, after)) (sym h.0))

  -- With usable arguments and a probability of new tags that no number drawn is above: `new` makes a
  -- generator, whose first `num_tagsets` calls of `generate` and the `num_tagsets` after them yield the
  -- same tagsets, without a panic.
  pub new-repeats :
      (seed : ℕ) (tags_per_msg tag_length : ConfRange) (num_tagsets : ℕ) (str_pool : Pool)
      (p : floats.Float)
      → IsUsable draws tags_per_msg tag_length str_pool p
      → AllNew draws p
      → (gen : Generator draws) × (tagsets : List (List (List ℕ))) × (middle : Generator draws)
        × (after : Generator draws) × (new draws seed tags_per_msg tag_length num_tagsets str_pool p
            ≡ some gen)
        × (generates draws num_tagsets gen ≡ done (tagsets, middle))
        × (generates draws num_tagsets middle ≡ done (tagsets, after))
        × (length tagsets ≡ num_tagsets)
  new-repeats seed tags_per_msg tag_length zero str_pool p u h =
      let gen : Generator draws = fresh draws seed tags_per_msg tag_length 0 str_pool p in
      (
        gen,
        [],
        gen,
        gen,
        new-fresh draws seed tags_per_msg tag_length 0 str_pool p u,
        refl,
        refl,
        refl,
      )
  new-repeats seed tags_per_msg tag_length (suc n) str_pool p u h =
      go (generates draws (suc n) gen) refl (
        generates-Tagsets draws (suc n) gen
          (fresh-IsValid draws seed tags_per_msg tag_length (suc n) str_pool p u) (omega arith))
    where
      gen : Generator draws
      gen = fresh draws seed tags_per_msg tag_length (suc n) str_pool p

      zero_suc : 0 + suc n ≡ suc n
      zero_suc = omega arith

      go :
          (m : Outcome (List (List (List ℕ)) × Generator draws))
          → generates draws (suc n) gen ≡ m
          → Tagsets draws (suc n) gen m
          → (g : Generator draws) × (tagsets : List (List (List ℕ))) × (middle : Generator draws)
            × (after : Generator draws) × (new draws seed tags_per_msg tag_length (suc n) str_pool p
                ≡ some g)
            × (generates draws (suc n) g ≡ done (tagsets, middle))
            × (generates draws (suc n) middle ≡ done (tagsets, after))
            × (length tagsets ≡ suc n)
      go panicked e t = absurd t
      go (done (tagsets, middle)) e t =
          let w = middle.unique_tags in
          let c : Continues draws (suc n) gen middle =
            subst (λ (count : ℕ). Continues draws count gen middle) zero_suc t.3 in
          let same : SameMade draws p (done (tagsets, middle))
              (generates draws (suc n) (with_tags draws gen w)) =
            subst
              (λ (m : Outcome (List (List (List ℕ)) × Generator draws)).
                SameMade draws p m (generates draws (suc n) (with_tags draws gen w)))
              e (generates-SameMade draws (suc n) gen w p refl h) in
          let (after, f) =
            same_tagsets p tagsets middle (generates draws (suc n) (with_tags draws gen w)) same in
          (
            gen,
            tagsets,
            middle,
            after,
            new-fresh draws seed tags_per_msg tag_length (suc n) str_pool p u,
            e,
            ap
                  (λ (m : Outcome (List (List ℕ) × Generator draws)).
                    m >>= λ r. (generates draws n r.1 >>= λ rs. done (r.0 ∷ rs.0, rs.1)))
                  (generate-after gen middle refl refl (omega arith) c)
                ∙ f,
            t.0,
          )
