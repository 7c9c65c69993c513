-- ===== src/Payload/Calls.antt =====
-- What a new generator of dogstatsd tags makes, call after call.
use lading.Prelude.{
  ℕ, zero, suc, ◌≤◌, ◌<◌, ◌≡◌, refl, ap, subst, ◌∙◌, List, [], ◌∷◌, true, Bool-cases, inl, inr,
  some, Outcome, done, panicked, ◌>>=◌, leb, le→not-ltb, arith, length, All,
}
use lading.Payload.Strings.{Pool}
use lading.Payload.Tags.{
  ConfRange, constant, inclusive, valid, start, end_of, min_tag_length, Draws, Generator, new,
  reseeded, produce, generate,
}
use lading.Payload.Tagging.{IsOrdered, IsValid, Produced, produce-Produced}
use lading.Payload.Tagsets.{IsTagset, generates}

valid-IsOrdered : (range : ConfRange) → valid range ≡ true → IsOrdered range
unfolding valid start end_of
valid-IsOrdered (constant c) h = omega arith
valid-IsOrdered (inclusive min max) h = ground (arith, h)

module _ (draws : Draws) where
  open draws use {rng, floats, seed_from_u64}

  -- the generator that `new` makes
  abbrev pub fresh : ℕ → ConfRange → ConfRange → ℕ → Pool → floats.Float → Generator draws
  fresh seed tags_per_msg tag_length num_tagsets str_pool p = record {
    seed = seed;
    internal_rng = seed_from_u64 seed;
    tagsets_produced = 0;
    num_tagsets = num_tagsets;
    tags_per_msg = tags_per_msg;
    tag_length = tag_length;
    str_pool = str_pool;
    unique_tag_probability = p;
    unique_tags = [];
  }

  -- What `new` and `generate` want of their arguments.
  pub record IsUsable (tags_per_msg tag_length : ConfRange) (str_pool : Pool) (p : floats.Float)
      : Type 0 where
    pub counts : IsOrdered tags_per_msg
    pub lengths : valid tag_length ≡ true
    pub long : min_tag_length ≤ start tag_length
    pub pool : end_of tag_length < length str_pool.inner
    pub at_least : floats.le (floats.hundredths 1) p ≡ true
    pub at_most : floats.le p (floats.hundredths 100) ≡ true

  -- Tagsets in the ranges, and a valid generator with these.
  abbrev Always :
      ℕ → ConfRange → ConfRange → Outcome (List (List (List ℕ)) × Generator draws) → Type 0
  Always n tags_per_msg tag_length panicked = ⊥
  Always n tags_per_msg tag_length (done (tagsets, after)) =
      (length tagsets ≡ n) × All (IsTagset tags_per_msg tag_length) tagsets

  more_calls :
      (n : ℕ) (gen : Generator draws) (tags_per_msg tag_length : ConfRange)
      (m : Outcome (List (List ℕ) × Generator draws))
      → gen.tags_per_msg ≡ tags_per_msg
      → gen.tag_length ≡ tag_length
      → Produced draws gen m
      → ((after : Generator draws)
          → IsValid draws after
          → after.tags_per_msg ≡ tags_per_msg
          → after.tag_length ≡ tag_length
          → Always n tags_per_msg tag_length (generates draws n after))
      → Always
          (suc n)
          tags_per_msg
          tag_length
          (m >>= λ r. (generates draws n r.1 >>= λ rs. done (r.0 ∷ rs.0, rs.1)))
  more_calls n gen tags_per_msg tag_length panicked e f h k = h
  more_calls n gen tags_per_msg tag_length (done (tagset, after)) e f h k =
      go (generates draws n after) (
        k after h.2 (ap (λ (x : Generator draws). x.tags_per_msg) h.3 ∙ e)
          (ap (λ (x : Generator draws). x.tag_length) h.3 ∙ f))
    where
      go :
          (m : Outcome (List (List (List ℕ)) × Generator draws))
          → Always n tags_per_msg tag_length m
          → Always (suc n) tags_per_msg tag_length (m >>= λ rs. done (tagset ∷ rs.0, rs.1))
      go panicked l = l
      go (done (tagsets, last)) l = (
        omega (arith, l.0),
        (
          subst (λ (c : ConfRange). IsTagset c tag_length tagset) e
              (subst (λ (c : ConfRange). IsTagset gen.tags_per_msg c tagset) f (h.0, h.1)),
          l.1,
        ),
      )

  reseeded-IsValid :
      (gen : Generator draws)
      → IsValid draws gen
      → IsValid draws (reseeded draws gen)
        × ((reseeded draws gen).tags_per_msg ≡ gen.tags_per_msg)
        × ((reseeded draws gen).tag_length ≡ gen.tag_length)
  unfolding reseeded
  reseeded-IsValid gen v = elim (Bool-cases (leb gen.num_tagsets gen.tagsets_produced)) [
    | inl again ↦ rw again (
      record {
        counts = v.counts;
        lengths = v.lengths;
        long = v.long;
        pool = v.pool;
        handles = v.handles;
      },
      refl,
      refl,
    )
    | inr more ↦ rw more (v, refl, refl)
  ]

  generate-reseeded :
      (gen : Generator draws) → generate draws gen ≡ produce draws (reseeded draws gen)
  unfolding generate
  generate-reseeded gen = refl

  generates-Always :
      (n : ℕ) (gen : Generator draws) (tags_per_msg tag_length : ConfRange)
      → IsValid draws gen
      → gen.tags_per_msg ≡ tags_per_msg
      → gen.tag_length ≡ tag_length
      → Always n tags_per_msg tag_length (generates draws n gen)
  generates-Always zero gen tags_per_msg tag_length v e f = (refl, tt)
  generates-Always (suc n) gen tags_per_msg tag_length v e f =
      let (w, a, b) = reseeded-IsValid gen v in
      more_calls n (reseeded draws gen) tags_per_msg tag_length (generate draws gen) (a ∙ e) (b ∙ f)
        (rw (generate-reseeded gen) (produce-Produced draws (reseeded draws gen) w))
        (λ after u c d. generates-Always n after tags_per_msg tag_length u c d)

  pub new-fresh :
      (seed : ℕ) (tags_per_msg tag_length : ConfRange) (num_tagsets : ℕ) (str_pool : Pool)
      (p : floats.Float)
      → IsUsable tags_per_msg tag_length str_pool p
      → new draws seed tags_per_msg tag_length num_tagsets str_pool p
        ≡ some (fresh seed tags_per_msg tag_length num_tagsets str_pool p)
  unfolding new
  new-fresh seed tags_per_msg tag_length num_tagsets str_pool p u =
      rw (u.lengths, le→not-ltb (start tag_length) min_tag_length u.long)
        (rw (u.at_least, u.at_most) refl)

  pub fresh-IsValid :
      (seed : ℕ) (tags_per_msg tag_length : ConfRange) (num_tagsets : ℕ) (str_pool : Pool)
      (p : floats.Float)
      → IsUsable tags_per_msg tag_length str_pool p
      → IsValid draws (fresh seed tags_per_msg tag_length num_tagsets str_pool p)
  fresh-IsValid seed tags_per_msg tag_length num_tagsets str_pool p u = record {
    counts = u.counts;
    lengths = valid-IsOrdered tag_length u.lengths;
    long = u.long;
    pool = u.pool;
    handles = tt;
  }

  -- With usable arguments: `new` makes a generator, and any number of calls of `generate` yield, without
  -- a panic, tagsets whose number of tags is in its range, each tag two texts that are not empty with a
  -- colon between them, and its length in its range.
  pub new-generates :
      (seed : ℕ) (tags_per_msg tag_length : ConfRange) (num_tagsets : ℕ) (str_pool : Pool)
      (p : floats.Float) (n : ℕ)
      → IsUsable tags_per_msg tag_length str_pool p
      → (gen : Generator draws) × (tagsets : List (List (List ℕ))) × (after : Generator draws)
        × (new draws seed tags_per_msg tag_length num_tagsets str_pool p ≡ some gen)
        × (generates draws n gen ≡ done (tagsets, after))
        × (length tagsets ≡ n)
        × All (IsTagset tags_per_msg tag_length) tagsets
  new-generates seed tags_per_msg tag_length num_tagsets str_pool p n u =
      go (generates draws n gen) refl (
        generates-Always n gen tags_per_msg tag_length
          (fresh-IsValid seed tags_per_msg tag_length num_tagsets str_pool p u) refl refl)
    where
      gen : Generator draws
      gen = fresh seed tags_per_msg tag_length num_tagsets str_pool p

      go :
          (m : Outcome (List (List (List ℕ)) × Generator draws))
          → generates draws n gen ≡ m
          → Always n tags_per_msg tag_length m
          → (g : Generator draws) × (tagsets : List (List (List ℕ))) × (after : Generator draws)
            × (new draws seed tags_per_msg tag_length num_tagsets str_pool p ≡ some g)
            × (generates draws n g ≡ done (tagsets, after))
            × (length tagsets ≡ n)
            × All (IsTagset tags_per_msg tag_length) tagsets
      go panicked e h = absurd h
      go (done (tagsets, after)) e h = (
        gen,
        tagsets,
        after,
        new-fresh seed tags_per_msg tag_length num_tagsets str_pool p u,
        e,
        h.0,
        h.1,
      )
