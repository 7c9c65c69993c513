-- ===== src/Block/Tests.antt =====
-- Tests and witnesses of the block cache.
use lading.Prelude.{
  ℕ, zero, suc, ◌+◌, ◌-◌, ◌%◌, ◌≤◌, ◌<◌, ◌≡◌, refl, List, [], ◌∷◌, some, done, arith,
}
use lading.Random.{Rng}
use lading.Block.Cache.{Block, Cache, spin}
use lading.Block.Turns.{next_blocks, next_blocks-eq-spin}
use lading.Block.Read.{read_at}
use lading.Block.Seek.{one_cycle, IsValid}
use lading.Block.Cycle.{Repeats, read_at-Repeats}
use lading.Block.Construct.{Serializer, panicked, require_blocks}

abbrev short_block : Block
short_block = record { total_bytes = 2; bytes = 1 ∷ 2 ∷ [] }

abbrev long_block : Block
long_block = record { total_bytes = 3; bytes = 3 ∷ 4 ∷ 5 ∷ [] }

abbrev two_blocks : Cache
two_blocks = record { idx = 1; blocks = short_block ∷ long_block ∷ []; total_cycle_size = 5 }

two_blocks-IsValid : IsValid two_blocks
two_blocks-IsValid = record {
  blocks_valid = ((refl, omega arith), ((refl, omega arith), tt));
  total_size = refl;
}

spin_three : spin 3 two_blocks ≡ done (long_block ∷ short_block ∷ long_block ∷ [])
unfolding spin
spin_three = refl

next_blocks-eq-spin_example :
    (out : List Block) × (spin 3 two_blocks ≡ done out)
    × (next_blocks 3 two_blocks ≡ done (out, record two_blocks { idx = 0 }))
next_blocks-eq-spin_example = next_blocks-eq-spin 3 two_blocks (omega arith)

read_over_the_end : read_at 8 two_blocks 4 7 ≡ done (some (5 ∷ 1 ∷ 2 ∷ 3 ∷ 4 ∷ 5 ∷ 1 ∷ []))
unfolding read_at
read_over_the_end = refl

read_at-Repeats_example :
    (out : List ℕ) × (read_at 8 two_blocks 4 7 ≡ done (some out))
    × Repeats (one_cycle two_blocks.blocks) 4 7 out
read_at-Repeats_example =
    read_at-Repeats two_blocks 4 7 two_blocks-IsValid (omega arith) (omega arith)

-- A generator that counts through a range, and a serializer that writes zeros.
pub rotated-range : (lo hi s : ℕ) → lo < hi → (lo ≤ lo + s % (hi - lo)) × (lo + s % (hi - lo) < hi)
rotated-range lo hi s h = (omega arith, omega arith)

abbrev pub rotated : Rng
rotated = record {
  State = ℕ;
  draw_range = λ lo hi s. (lo + s % (hi - lo), s + 1);
  draw = λ s. (0, s + 1);
  in_range = rotated-range;
  in_word = λ s. omega arith;
}

abbrev zeros_list : ℕ → List ℕ
zeros_list zero = []
zeros_list (suc n) = 0 ∷ zeros_list n

abbrev pub zeros : Serializer rotated
zeros n s = done (some (zeros_list n), s)

-- Two blocks of 2_500_000_000 bytes each, which fit a total of 4_000_000_000 with a maximum of as many,
-- are too much for the sum.
abbrev large_block : Block
large_block = record { total_bytes = 2500000000; bytes = [] }

require_blocks-large : require_blocks (large_block ∷ large_block ∷ []) ≡ panicked
unfolding require_blocks
require_blocks-large = refl
