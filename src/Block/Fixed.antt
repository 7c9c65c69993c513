-- ===== src/Block/Fixed.antt =====
-- What `Cache::fixed` returns.
use lading.Prelude.{
  ℕ, suc, ◌+◌, ◌*◌, ◌≤◌, ◌<◌, ◌≡◌, refl, ◌⊎◌, inl, inr, List, [], ◌∷◌, Bool-cases, leb, ltb,
  u32_max, All, arith, lt→ltb, ◌||◌, false,
}
use lading.Random.{Rng}
use lading.Block.Cache.{Block, Cache}
use lading.Block.Turns.{OnBlock}
use lading.Block.Seek.{BlockIsValid, sizes, IsValid}
use lading.Block.Construct.{
  deserialize, insufficient_block_sizes, empty_block, zero_value, Built, built, failed, panicked,
  no_fuel, Serializer, Filling, finish, require_blocks, Fixed, fixed, to_cache, cache, error,
  spin_error,
}
use lading.Block.Sizes.{IsBounded, Fits, Accounted, FillResult, fill-FillResult}

-- A cache as it should be built: valid, on its first block, of blocks below the maximum size, and
-- with a total that misses the one asked for by less than a quarter of the maximum size, and exceeds
-- it by less than the maximum size.
pub record WellBuilt (maximum_block_bytes total_bytes : ℕ) (c : Cache) : Type 0 where
  pub valid : IsValid c
  pub on_block : OnBlock c
  pub fits : All (Fits maximum_block_bytes) c.blocks
  pub enough : 4 * total_bytes < 4 * c.total_cycle_size + maximum_block_bytes
  pub not_too_much : c.total_cycle_size < total_bytes + maximum_block_bytes

All-valid : (m : ℕ) (blocks : List Block) → All (Fits m) blocks → All BlockIsValid blocks
All-valid m [] h = tt
All-valid m (b ∷ blocks) h = (h.0.0, All-valid m blocks h.1)

-- What `fixed` may come to where the sizes are accepted: no error but the serializer's own, and a
-- panic only where the sizes together exceed 2 ^ 32.
abbrev pub FixedResult : ℕ → ℕ → Fixed → Type 0
FixedResult m total (cache c) = WellBuilt m total c
FixedResult m total (error (spin_error deserialize)) = Unit {0}
FixedResult m total (error e) = ⊥
FixedResult m total panicked = u32_max + 1 < total + m
FixedResult m total no_fuel = Unit {0}

ended :
    (m total remaining floor : ℕ) (blocks : List Block)
    → 0 < m
    → m ≤ total
    → All (Fits m) blocks
    → 4 * floor < m
    → total ≤ sizes blocks + remaining
    → sizes blocks + remaining < total + m
    → (remaining ≡ 0) ⊎ (remaining < floor)
    → FixedResult m total (to_cache (require_blocks blocks))
unfolding to_cache require_blocks
ended m total remaining floor [] p h fits k l o z = absurd (omega arith)
ended m total remaining floor (b ∷ bs) p h fits k l o z =
    elim (Bool-cases (leb (sizes (b ∷ bs)) u32_max)) [
      | inl e ↦ rw e (record {
        valid = record { blocks_valid = All-valid m (b ∷ bs) fits; total_size = refl };
        on_block = omega arith;
        fits = fits;
        enough = omega arith;
        not_too_much = omega arith;
      })
      | inr e ↦ let over : u32_max < sizes (b ∷ bs) = ground arith in rw e (omega (arith, over))
    ]

module _ (g : Rng) (serializer : Serializer g) where
  finish-FixedResult :
      (m total : ℕ) (r : Built (Filling g serializer))
      → 0 < m
      → m ≤ total
      → FillResult g serializer m total r
      → FixedResult m total (to_cache (finish g serializer r))
  unfolding finish to_cache
  finish-FixedResult m total (built f) p h (a, z) =
      ended m total f.bytes_remaining f.min_block_size f.blocks p h a.fits a.floor a.reaches
        a.overshoot z
  finish-FixedResult m total (failed deserialize) p h k = tt
  finish-FixedResult m total (failed insufficient_block_sizes) p h k = absurd k
  finish-FixedResult m total (failed empty_block) p h k = absurd k
  finish-FixedResult m total (failed zero_value) p h k = absurd k
  finish-FixedResult m total panicked p h k = absurd k
  finish-FixedResult m total no_fuel p h k = tt

  pub start-Accounted :
      (m total : ℕ) (s : g.State)
      → 0 < m
      → Accounted g serializer m total
          (record { state = s; bytes_remaining = total; min_block_size = 0; blocks = [] })
  start-Accounted m total s p = record {
    fits = tt;
    floor = omega arith;
    reaches = omega arith;
    overshoot = omega arith;
    exact = λ q. omega arith;
  }

  pub fixed-FixedResult :
      (fuel m total : ℕ) (s : g.State)
      → IsBounded g serializer
      → 0 < m
      → m ≤ total
      → total ≤ u32_max
      → FixedResult m total (fixed g serializer fuel s total m)
  unfolding fixed
  fixed-FixedResult fuel m total s b p h k =
      let accepted : (ltb u32_max m || ltb total m) ≡ false = ground arith in
      rw accepted (
        finish-FixedResult m total _ p h (
          fill-FillResult g serializer fuel m total _ b (omega arith)
            (start-Accounted m total s p)))

  -- A maximum block size of zero is accepted, and the first draw of a block size then panics.
  pub fixed_zero :
      (fuel total : ℕ) (s : g.State)
      → 0 < total
      → fixed g serializer (suc fuel) s total 0 ≡ Fixed.panicked
  unfolding fixed
  fixed_zero fuel total s h =
      let accepted : ltb total 0 ≡ false = ground arith in rw (lt→ltb 0 total h, accepted)
