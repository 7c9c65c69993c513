-- ===== src/Block/Read.antt =====
-- lading_payload/src/block.rs: `Cache::read_at`. A `usize` has 64 bits, and the offset wraps there;
-- a byte is a number.
use lading.Prelude.{
  ℕ, zero, suc, ◌+◌, ◌-◌, ◌%◌, ◌^◌, min, List, [], ◌∷◌, ◌++◌, ◌&&◌, Outcome, done, ◌>>=◌, ◌>>◌,
  assert, slice, leb, ltb, if◌then◌else◌, Option, some, none,
}
use lading.Block.Cache.{Block, Cache}

-- What the walk over the blocks leaves: the bytes that it read and their number, none where no block
-- holds the offset, and `block_start`.
pub record Walk : Type 0 where
  pub bytes : List ℕ
  pub count : ℕ
  pub block_start : ℕ

-- the slice of the block in which the offset lies, to its end or to the size
unfoldable pub read_block : Block → ℕ → ℕ → ℕ → Outcome Walk
read_block block offset_within_cycle block_start remaining = do
  let block_offset = offset_within_cycle - block_start
  let bytes_in_block = min (block.total_bytes - block_offset) remaining
  bytes ← slice block.bytes block_offset (block_offset + bytes_in_block)
  done (record { bytes = bytes; count = bytes_in_block; block_start = block_start })

-- the `for` loop
unfoldable pub seek : List Block → ℕ → ℕ → ℕ → Outcome Walk
unfolding read_block
seek [] offset_within_cycle block_start remaining =
    done (record { bytes = []; count = 0; block_start = block_start })
seek (block ∷ blocks) offset_within_cycle block_start remaining =
    let rest = seek blocks offset_within_cycle (block_start + block.total_bytes) remaining in
    if ltb offset_within_cycle (block_start + block.total_bytes)
    then read_block block offset_within_cycle block_start remaining
    else rest

-- The `while` loop; the option is `none` when the fuel, a bound on its rounds, runs out.
unfoldable pub read_loop : ℕ → List Block → ℕ → ℕ → ℕ → List ℕ → Outcome (Option (List ℕ))
unfolding seek
read_loop zero blocks total_cycle_size remaining current_offset bytes = done none
read_loop (suc fuel) blocks total_cycle_size remaining current_offset bytes =
    if ltb 0 remaining
    then (do
      assert (ltb 0 total_cycle_size)
      walk ← seek blocks (current_offset % total_cycle_size) 0 remaining
      let remaining' = remaining - walk.count
      let bytes' = bytes ++ walk.bytes
      let rest =
          read_loop fuel blocks total_cycle_size remaining' ((current_offset + walk.count) % 2 ^ 64)
            bytes'
      (if ltb 0 remaining' && leb total_cycle_size walk.block_start
          then done (some bytes')
          else rest))
    else done (some bytes)

-- `Cache::read_at`
unfoldable pub read_at : ℕ → Cache → ℕ → ℕ → Outcome (Option (List ℕ))
unfolding read_loop
read_at fuel c offset size = read_loop fuel c.blocks c.total_cycle_size size offset []
