-- ===== src/Payload/Tests.antt =====
-- Tests and witnesses of the plain text payload.
use lading.Prelude.{ℕ, ◌+◌, ◌≡◌, ◌≤◌, ◌<◌, refl, arith, List, [], ◌∷◌, some, none, done}
use lading.Random.{Rng}
use lading.Block.Construct.{fixed}
use lading.Block.Fixed.{FixedResult}
use lading.Payload.Strings.{Pool, of_size, using_handle}
use lading.Payload.Ascii.{new, to_bytes}
use lading.Payload.Lines.{Written, new-to_bytes}
use lading.Payload.Cached.{serializer, new-fixed}

-- a generator that draws the lowest number of a range, and the count of the draws otherwise
pub lowest-range : (lo hi s : ℕ) → lo < hi → (lo ≤ lo) × (lo < hi)
lowest-range lo hi s h = (omega arith, h)

abbrev pub lowest : Rng
lowest = record {
  State = ℕ;
  draw_range = λ lo hi s. (lo, s + 1);
  draw = λ s. (0, s + 1);
  in_range = lowest-range;
  in_word = λ s. omega arith;
}

abbrev letters : Pool
letters = record { inner = 97 ∷ 98 ∷ 99 ∷ [] }

-- A request for all bytes of the pool cannot be satisfied.
of_size-all : of_size lowest letters 3 0 ≡ done (none, 0)
unfolding of_size
of_size-all = refl

using_handle-outside : using_handle letters (1, 2) ≡ done none
unfolding using_handle
using_handle-outside = refl

-- Lines of one character each, until five bytes do not hold another.
to_bytes-letters : to_bytes lowest letters 5 0 ≡ done (some (97 ∷ 10 ∷ 97 ∷ 10 ∷ []), 6)
unfolding to_bytes of_size
to_bytes-letters = refl

new-to_bytes_example :
    (pool : Pool) × (s' : ℕ) × (bytes : List ℕ) × (s'' : ℕ) × (new lowest 0 ≡ done (pool, s'))
    × (to_bytes lowest pool 7000 s' ≡ done (some bytes, s''))
    × Written 7000 bytes
new-to_bytes_example = new-to_bytes lowest 0 7000

new-fixed_example :
    (pool : Pool) × (s' : ℕ) × (new lowest 0 ≡ done (pool, s'))
    × FixedResult 4 10 (fixed lowest (serializer lowest pool) 11 s' 10 4)
new-fixed_example = new-fixed lowest 0 11 4 10 (omega arith) (omega arith) (omega arith)
