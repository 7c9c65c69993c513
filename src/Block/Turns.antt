-- ===== src/Block/Turns.antt =====
-- The blocks of a cache are handed out in turn, over and over.
use lading.Prelude.{
  ℕ, zero, suc, ◌+◌, ◌%◌, ◌<◌, ◌≡◌, refl, ap, ◌∙◌, sym, List, [], ◌∷◌, Option, some, Outcome, done,
  ◌>>=◌, length, get_elem?, get_elem?-some, arith,
}
use native.Mathlib.Nat.{mod-add-mod, mod-eq_of_lt, mod-lt}
use lading.Block.Cache.{Block, Cache, next_block, spin, spin_from}

-- The index stands on a block.
abbrev pub OnBlock : Cache → Type 0
OnBlock c = c.idx < length c.blocks

-- `n` calls of `next_block`: the blocks in the order of the calls, and the cache that they leave.
unfoldable pub next_blocks : ℕ → Cache → Outcome (List Block × Cache)
next_blocks zero c = done ([], c)
next_blocks (suc n) c = do
  (block, c') ← next_block c
  (rest, c'') ← next_blocks n c'
  done (block ∷ rest, c'')

-- The turn of the `i`th block from `idx` on.
abbrev pub turn : List Block → ℕ → ℕ → Option Block
turn blocks idx i = get_elem? blocks ((idx + i) % length blocks)

-- The list holds the first `n` turns from `idx` on.
abbrev pub Turns : List Block → ℕ → ℕ → List Block → Type 0
Turns blocks idx n out = (length out ≡ n) × ((i : ℕ) → i < n → get_elem? out i ≡ turn blocks idx i)

mod_step : (a n i : ℕ) → ((a + 1) % n + i) % n ≡ (a + suc i) % n
mod_step a n i = mod-add-mod (a + 1) n i ∙ ap (λ x. x % n) (omega arith)

turn_zero :
    (blocks : List Block) (idx : ℕ) → idx < length blocks → turn blocks idx 0 ≡ get_elem? blocks idx
turn_zero blocks idx h =
    ap (get_elem? blocks) (ap (λ x. x % length blocks) (omega arith) ∙ mod-eq_of_lt h)

Turns-cons :
    (blocks : List Block) (idx n : ℕ) (block : Block) (rest : List Block)
    → idx < length blocks
    → get_elem? blocks idx ≡ some block
    → Turns blocks ((idx + 1) % length blocks) n rest
    → Turns blocks idx (suc n) (block ∷ rest)
Turns-cons blocks idx n block rest h e t = (omega (arith, t.0), at)
  where
    at : (i : ℕ) → i < suc n → get_elem? (block ∷ rest) i ≡ turn blocks idx i
    at zero l = sym (turn_zero blocks idx h ∙ e)
    at (suc i) l = t.1 i (omega arith) ∙ ap (get_elem? blocks) (mod_step idx (length blocks) i)

next_idx-lt :
    (blocks : List Block) (idx : ℕ)
    → idx < length blocks
    → (idx + 1) % length blocks < length blocks
next_idx-lt blocks idx h = mod-lt (idx + 1) (omega arith)

spin_from-Turns :
    (takes idx : ℕ) (blocks : List Block)
    → idx < length blocks
    → (sent : List Block) × (spin_from takes idx blocks ≡ done sent) × Turns blocks idx takes sent
unfolding spin_from
spin_from-Turns zero idx blocks h =
    let (b, e) = get_elem?-some blocks idx h in ([], rw (e, spin_from), (refl, λ i l. elim l [ ]))
spin_from-Turns (suc takes) idx blocks h =
    let (b, e) = get_elem?-some blocks idx h in
    let (rest, e', t) =
      spin_from-Turns takes ((idx + 1) % length blocks) blocks (next_idx-lt blocks idx h) in
    (b ∷ rest, rw (e, spin_from, e'), Turns-cons blocks idx takes b rest h e t)

-- A channel whose receiver takes `takes` blocks gets from `spin` exactly that many, in turn from the
-- cache's index on and round again after the last; the index never leaves the blocks.
pub spin-Turns :
    (takes : ℕ) (c : Cache)
    → OnBlock c
    → (sent : List Block) × (spin takes c ≡ done sent) × Turns c.blocks c.idx takes sent
unfolding spin
spin-Turns takes c h = spin_from-Turns takes c.idx c.blocks h

next_blocks-spin :
    (n idx total : ℕ) (blocks : List Block)
    → idx < length blocks
    → (out : List Block) × (spin_from n idx blocks ≡ done out)
      × (next_blocks n (record { idx = idx; blocks = blocks; total_cycle_size = total })
          ≡ done (
            out,
            record { idx = (idx + n) % length blocks; blocks = blocks; total_cycle_size = total },
          ))
unfolding next_blocks next_block spin_from
next_blocks-spin zero idx total blocks h =
    let (b, e) = get_elem?-some blocks idx h in
    let e' : (idx + 0) % length blocks ≡ idx =
      ap (λ x. x % length blocks) (omega arith) ∙ mod-eq_of_lt h in
    ([], rw (e, spin_from), rw e')
next_blocks-spin (suc n) idx total blocks h =
    let (b, e) = get_elem?-some blocks idx h in
    let (out, s, t) =
      next_blocks-spin n ((idx + 1) % length blocks) total blocks (next_idx-lt blocks idx h) in
    (b ∷ out, rw (e, spin_from, s), rw (e, t, mod_step idx (length blocks) n))

-- From a cache whose index stands on a block, `n` calls of `next_block` return the very blocks that
-- `spin` sends to a receiver that takes `n`, and leave the same cache `n` turns further.
pub next_blocks-eq-spin :
    (n : ℕ) (c : Cache)
    → OnBlock c
    → (out : List Block) × (spin n c ≡ done out)
      × (next_blocks n c ≡ done (out, record c { idx = (c.idx + n) % length c.blocks }))
unfolding spin
next_blocks-eq-spin n c h = next_blocks-spin n c.idx c.total_cycle_size c.blocks h
