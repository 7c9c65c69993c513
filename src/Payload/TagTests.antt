-- ===== src/Payload/TagTests.antt =====
-- Tests and witnesses of the generator of dogstatsd tags.
use lading.Prelude.{
  ℕ, ◌+◌, ◌≡◌, refl, arith, List, [], ◌∷◌, Option, some, none, done, All, length, ltb, leb, ◌>>=◌,
}
use lading.Payload.Strings.{Pool, Handle, of_size_with_handle, using_handle}
use lading.Payload.Tests.{lowest}
use lading.Payload.Tags.{
  constant, inclusive, valid, start, end_of, Floats, Draws, Among, Generator, new, generate,
}
use lading.Payload.Tagsets.{generates}
use lading.Payload.Repeats.{AllNew}
use lading.Payload.Calls.{IsUsable}
use lading.Payload.Cycle.{new-repeats}

-- probabilities by their hundredths
abbrev hundredths : Floats
hundredths = record { Float = ℕ; gt = λ a b. ltb b a; le = leb; hundredths = λ n. n }

abbrev first_handles : List (Handle × Handle) → ℕ → Option (Handle × Handle) × ℕ
first_handles [] s = (none, s)
first_handles (handles ∷ others) s = (some handles, s)

first_handles-Among :
    (P : Handle × Handle → Type 0) (handles : List (Handle × Handle)) (s : ℕ)
    → All P handles
    → Among P (first_handles handles s).0
first_handles-Among P [] s h = tt
first_handles-Among P (handles ∷ others) s h = h.0

-- the lowest numbers, one half, and the first handles
abbrev halves : Draws
halves = record {
  rng = lowest;
  floats = hundredths;
  seed_from_u64 = λ n. n;
  open_closed01 = λ s. (50, s + 1);
  choose = first_handles;
  picks = first_handles-Among;
}

abbrev pool : Pool
pool = record { inner = 97 ∷ 98 ∷ 99 ∷ 100 ∷ 101 ∷ 102 ∷ 103 ∷ 104 ∷ 105 ∷ [] }

-- A second tag is one that exists, where the probability of a new one is below one half.
generate-existing :
    (generates halves 1 (record {
      seed = 7;
      internal_rng = 7;
      tagsets_produced = 0;
      num_tagsets = 2;
      tags_per_msg = constant 2;
      tag_length = inclusive 4 8;
      str_pool = pool;
      unique_tag_probability = 40;
      unique_tags = [];
    })
      >>= λ r. done r.0)
    ≡ done (((97 ∷ b':' ∷ 97 ∷ 98 ∷ []) ∷ (97 ∷ b':' ∷ 97 ∷ 98 ∷ []) ∷ []) ∷ [])
unfolding generate of_size_with_handle using_handle
generate-existing = refl

usable : IsUsable halves (inclusive 2 3) (inclusive 4 8) pool 100
unfolding valid start end_of
usable = record {
  counts = omega arith;
  lengths = refl;
  long = omega arith;
  pool = omega arith;
  at_least = refl;
  at_most = refl;
}

halves-AllNew : AllNew halves 100
halves-AllNew r = refl

new-repeats_example :
    (gen : Generator halves) × (tagsets : List (List (List ℕ))) × (middle : Generator halves)
    × (after : Generator halves) × (new halves 7 (inclusive 2 3) (inclusive 4 8) 5 pool 100
        ≡ some gen)
    × (generates halves 5 gen ≡ done (tagsets, middle))
    × (generates halves 5 middle ≡ done (tagsets, after))
    × (length tagsets ≡ 5)
new-repeats_example =
    new-repeats halves 7 (inclusive 2 3) (inclusive 4 8) 5 pool 100 usable halves-AllNew
