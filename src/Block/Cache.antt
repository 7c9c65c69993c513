-- ===== src/Block/Cache.antt =====
-- lading_payload/src/block.rs: `Block`, `Cache`, `spin`, `peek_next` and `next_block`.
use lading.Prelude.{ℕ, zero, suc, ◌+◌, ◌%◌, List, [], ◌∷◌, Outcome, done, ◌>>=◌, index, length}

pub record Block : Type 0 where
  pub total_bytes : ℕ
  pub bytes : List ℕ

-- `Cache::Fixed`, the only variant
pub record Cache : Type 0 where
  pub idx : ℕ
  pub blocks : List Block
  pub total_cycle_size : ℕ

-- `Cache::peek_next`
unfoldable pub peek_next : Cache → Outcome Block
peek_next c = index c.blocks c.idx

-- `Cache::next_block`
unfoldable pub next_block : Cache → Outcome (Block × Cache)
next_block c = do
  block ← index c.blocks c.idx
  done (block, record c { idx = (c.idx + 1) % length c.blocks })

-- The loop of `spin` on a channel whose receiver takes `takes` blocks and is then closed: the blocks
-- that were sent before the error of the send that failed.
unfoldable pub spin_from : ℕ → ℕ → List Block → Outcome (List Block)
spin_from zero idx blocks = do block ← index blocks idx; done []
spin_from (suc takes) idx blocks = do
  block ← index blocks idx
  rest ← spin_from takes ((idx + 1) % length blocks) blocks
  done (block ∷ rest)

-- `Cache::spin`
unfoldable pub spin : ℕ → Cache → Outcome (List Block)
unfolding spin_from
spin takes c = spin_from takes c.idx c.blocks
