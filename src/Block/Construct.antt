-- ===== src/Block/Construct.antt =====
-- lading_payload/src/block.rs: `construct_block`, `construct_block_cache_inner` and `Cache::fixed`.
use lading.Prelude.{
  ℕ, zero, suc, ◌-◌, ◌/◌, List, [], ◌∷◌, ◌++◌, ◌||◌, Option, some, none, length, ltb, leb,
  if◌then◌else◌, u32_max, sum_by, Outcome, done,
}
use lading.Random.{Rng}
use lading.Block.Cache.{Block, Cache}

-- The variants of `SpinError` that construction can end in, `deserialize` for the serializer's own.
pub data SpinError : Type 0 where
  deserialize insufficient_block_sizes empty_block zero_value : SpinError

-- What construction comes to. `panicked` is a failed `expect`, an empty range to draw from, a sum
-- that overflows, or a panic of the serializer; `no_fuel` is a loop that has used up the bound on its
-- rounds.
pub data Built {ℓ} (A : Type ℓ) : Type ℓ where
  built : A → Built A
  failed : SpinError → Built A
  panicked no_fuel : Built A

-- `crate::Serialize`, over the state of the generator that it draws from: the bytes that `to_bytes`
-- writes when it is told to write at most so many, `none` for its error, or its panic.
abbrev pub Serializer : Rng → Type 0
Serializer g = ℕ → g.State → Outcome (Option (List ℕ) × g.State)

-- the block around the bytes that a serializer has written
unfoldable pub wrap_block : List ℕ → Built Block
wrap_block [] = failed empty_block
wrap_block (b ∷ bytes) =
    if leb (length (b ∷ bytes)) u32_max
    then built (record { total_bytes = length (b ∷ bytes); bytes = b ∷ bytes })
    else panicked

unfoldable pub wrap_written : Option (List ℕ) → Built Block
unfolding wrap_block
wrap_written none = failed deserialize
wrap_written (some bytes) = wrap_block bytes

-- The test that there are blocks, and `filled_sum`, their sum as a `u32`: the terms are not negative,
-- so that some partial sum overflows just if the whole one does.
unfoldable pub require_blocks : List Block → Built (List Block)
require_blocks [] = failed insufficient_block_sizes
require_blocks (b ∷ blocks) =
    if leb (sum_by (λ x. x.total_bytes) (b ∷ blocks)) u32_max then built (b ∷ blocks) else panicked

module _ (g : Rng) (serializer : Serializer g) where
  open g use {State, draw_range}

  unfoldable pub written_block : State → Outcome (Option (List ℕ) × State) → Built Block × State
  unfolding wrap_written
  written_block s (done (written, s')) = (wrap_written written, s')
  written_block s Outcome.panicked = (panicked, s)

  -- `construct_block`
  unfoldable pub construct_block : ℕ → State → Built Block × State
  unfolding written_block
  construct_block chunk_size s = written_block s (serializer chunk_size s)

  -- The state of the loop: the generator, `bytes_remaining`, `min_block_size` and the blocks so far.
  pub record Filling : Type 0 where
    pub state : State
    pub bytes_remaining : ℕ
    pub min_block_size : ℕ
    pub blocks : List Block

  -- The arms of the `match` on a constructed block. The new floor is a quarter of the size that
  -- came out empty, rounded down: for a `u32` the product with 0.25 in `f64` is exact.
  unfoldable pub after_block : ℕ → Filling → Built Block × State → Built Filling
  after_block block_size f (built block, s) = built (record f {
    state = s;
    bytes_remaining = f.bytes_remaining - block.total_bytes;
    blocks = f.blocks ++ block ∷ [];
  })
  after_block block_size f (failed empty_block, s) =
      built (record f { state = s; min_block_size = block_size / 4 })
  after_block block_size f (failed e, s) = failed e
  after_block block_size f (panicked, s) = panicked
  after_block block_size f (no_fuel, s) = no_fuel

  -- One round of the loop up to the test that ends it.
  unfoldable pub round : ℕ → Filling → Built Filling
  unfolding construct_block after_block
  round max_block_size f =
      if ltb f.min_block_size max_block_size
      then (let (block_size, s) = draw_range f.min_block_size max_block_size f.state in
          after_block block_size f (construct_block block_size s))
      else panicked

  -- The test at the end of a round: `break` when less than the floor is left.
  unfoldable pub and_then : (Filling → Built Filling) → Built Filling → Built Filling
  and_then again (built f) = if ltb f.bytes_remaining f.min_block_size then built f else again f
  and_then again (failed e) = failed e
  and_then again panicked = panicked
  and_then again no_fuel = no_fuel

  -- The `while` loop.
  unfoldable pub fill : ℕ → ℕ → Filling → Built Filling
  unfolding round and_then
  fill zero max_block_size f = no_fuel
  fill (suc fuel) max_block_size f =
      if ltb 0 f.bytes_remaining
      then and_then (λ f'. fill fuel max_block_size f') (round max_block_size f)
      else built f

  -- what is returned when the loop is over
  unfoldable pub finish : Built Filling → Built (List Block)
  unfolding require_blocks
  finish (built f) = require_blocks f.blocks
  finish (failed e) = failed e
  finish panicked = panicked
  finish no_fuel = no_fuel

  -- `construct_block_cache_inner`
  unfoldable pub construct_block_cache_inner : ℕ → State → ℕ → ℕ → Built (List Block)
  unfolding fill finish
  construct_block_cache_inner fuel s max_block_size total_bytes = finish (
      fill fuel max_block_size
        (record { state = s; bytes_remaining = total_bytes; min_block_size = 0; blocks = [] }))

-- The errors of `Cache::fixed`.
pub data Error : Type 0 where
  maximum_block : Error
  spin_error : SpinError → Error

pub data Fixed : Type 0 where
  cache : Cache → Fixed
  error : Error → Fixed
  panicked no_fuel : Fixed

unfoldable pub to_cache : Built (List Block) → Fixed
to_cache (built blocks) =
    cache
      (record { idx = 0; blocks = blocks; total_cycle_size = sum_by (λ b. b.total_bytes) blocks })
to_cache (failed e) = error (spin_error e)
to_cache panicked = panicked
to_cache no_fuel = no_fuel

-- `Cache::fixed`, once the payload's configuration has been turned into its serializer
unfoldable pub fixed : (g : Rng) → Serializer g → ℕ → g.State → ℕ → ℕ → Fixed
unfolding construct_block_cache_inner to_cache
fixed g serializer fuel s total_bytes maximum_block_bytes =
    if ltb u32_max maximum_block_bytes || ltb total_bytes maximum_block_bytes
    then error maximum_block
    else to_cache (construct_block_cache_inner g serializer fuel s maximum_block_bytes total_bytes)
