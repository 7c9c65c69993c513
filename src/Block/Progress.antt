-- ===== src/Block/Progress.antt =====
-- The loop that builds the blocks ends, but for the draws that come out empty.
use lading.Prelude.{ℕ, zero, suc, ◌+◌, ◌<◌, [], ltb, u32_max, if◌then◌else◌}
use lading.Random.{Rng}
use lading.Block.Cache.{Block}
use lading.Block.Construct.{
  deserialize, insufficient_block_sizes, empty_block, zero_value, Built, built, failed, panicked,
  no_fuel, Serializer, Filling, construct_block, round, Fixed, cache, error, spin_error,
}
use lading.Block.Fixed.{WellBuilt}

-- one for a block that came out empty
abbrev pub empty_count : Built Block → ℕ
empty_count (failed empty_block) = 1
empty_count (built b) = 0
empty_count (failed deserialize) = 0
empty_count (failed insufficient_block_sizes) = 0
empty_count (failed zero_value) = 0
empty_count panicked = 0
empty_count no_fuel = 0

module _ (g : Rng) (serializer : Serializer g) where
  open g use {State, draw_range}

  -- whether the block of a round comes out empty
  abbrev pub round_empty : ℕ → Filling g serializer → ℕ
  round_empty m f =
      let (n, s) = draw_range f.min_block_size m f.state in
      empty_count (construct_block g serializer n s).0

  abbrev then_count : (Filling g serializer → ℕ) → Built (Filling g serializer) → ℕ
  then_count again (built f) = if ltb f.bytes_remaining f.min_block_size then 0 else again f
  then_count again (failed e) = 0
  then_count again panicked = 0
  then_count again no_fuel = 0

  -- the number of the rounds of the loop whose block comes out empty
  unfoldable pub empty_rounds : ℕ → ℕ → Filling g serializer → ℕ
  empty_rounds zero m f = 0
  empty_rounds (suc fuel) m f =
      if ltb 0 f.bytes_remaining
      then round_empty m f + then_count (λ f'. empty_rounds fuel m f') (round g serializer m f)
      else 0

  -- A round that does not end the loop brings it nearer to its end, unless its block is empty.
  abbrev Advances : ℕ → Filling g serializer → Built (Filling g serializer) → Type 0
  Advances empty f (built f') = f'.bytes_remaining < f.bytes_remaining + empty
  Advances empty f (failed e) = Unit {0}
  Advances empty f panicked = Unit {0}
  Advances empty f no_fuel = ⊥

  abbrev HasFuel : Built (Filling g serializer) → Type 0
  HasFuel (built f) = Unit {0}
  HasFuel (failed e) = Unit {0}
  HasFuel panicked = Unit {0}
  HasFuel no_fuel = ⊥

  -- What `fixed` may come to where its fuel does not run out.
  abbrev pub FixedEnded : ℕ → ℕ → Fixed → Type 0
  FixedEnded m total (cache c) = WellBuilt m total c
  FixedEnded m total (error (spin_error deserialize)) = Unit {0}
  FixedEnded m total (error e) = ⊥
  FixedEnded m total panicked = u32_max + 1 < total + m
  FixedEnded m total no_fuel = ⊥

  -- the loop before its first round
  abbrev pub begin : State → ℕ → Filling g serializer
  begin s total = record { state = s; bytes_remaining = total; min_block_size = 0; blocks = [] }
