-- ===== src/Block/Seek.antt =====
-- One walk over the blocks reads part of the block that holds the offset.
use lading.Prelude.{
  ℕ, ◌+◌, ◌-◌, ◌≤◌, ◌<◌, ◌≡◌, sym, ap, ◌∙◌, min, List, [], ◌∷◌, ◌++◌, Bool-cases, inl, inr, done,
  slice, ltb, arith, length, get_elem?, take, drop, All, sum_by, length-take, length-drop,
  get_elem?-take, get_elem?-drop, get_elem?-append_left, get_elem?-append_right, ltb→lt, not-ltb→le,
}
use lading.Block.Cache.{Block, Cache}
use lading.Block.Read.{Walk, read_block, seek}

-- A block's size is the number of its bytes, and is not zero.
abbrev pub BlockIsValid : Block → Type 0
BlockIsValid b = (length b.bytes ≡ b.total_bytes) × (0 < b.total_bytes)

abbrev pub sizes : List Block → ℕ
sizes = sum_by (λ b. b.total_bytes)

-- All bytes of the blocks in order: one cycle.
abbrev pub one_cycle : List Block → List ℕ
one_cycle [] = []
one_cycle (b ∷ blocks) = b.bytes ++ one_cycle blocks

pub record IsValid (c : Cache) : Type 0 where
  pub blocks_valid : All BlockIsValid c.blocks
  pub total_size : c.total_cycle_size ≡ sizes c.blocks

-- What a walk from `off` has read of the bytes `xs`, which begin at `start`.
pub record WalkIsValid (xs : List ℕ) (off start end remaining : ℕ) (w : Walk) : Type 0 where
  pub counted : length w.bytes ≡ w.count
  pub progress : 0 < w.count
  pub within : w.count ≤ remaining
  pub inside : off + w.count ≤ end
  pub before : w.block_start < end
  pub bytes_at : (i : ℕ) → i < w.count → get_elem? w.bytes i ≡ get_elem? xs (off - start + i)

slice_done :
    (xs : List ℕ) (from n : ℕ)
    → from + n ≤ length xs
    → slice xs from (from + n) ≡ done (take n (drop from xs))
slice_done xs from n h = let e : from + n - from ≡ n = omega arith in rw e (ground arith)

get_elem?-slice :
    (xs : List ℕ) (from n i : ℕ)
    → i < n
    → get_elem? (take n (drop from xs)) i ≡ get_elem? xs (from + i)
get_elem?-slice xs from n i h = get_elem?-take n i (drop from xs) h ∙ get_elem?-drop from i xs

read_block_lem :
    (b : Block) (blocks : List Block) (off start remaining : ℕ)
    → BlockIsValid b
    → start ≤ off
    → off < start + b.total_bytes
    → 0 < remaining
    → (w : Walk) × (read_block b off start remaining ≡ done w)
      × WalkIsValid (one_cycle (b ∷ blocks)) off start (start + b.total_bytes) remaining w
unfolding read_block
read_block_lem b blocks off start remaining v h k r =
    let n = min (b.total_bytes - (off - start)) remaining in
    let bytes = take n (drop (off - start) b.bytes) in
    (
      record { bytes = bytes; count = n; block_start = start },
      rw (slice_done b.bytes (off - start) n (omega arith)),
      record {
        counted =
            omega (
              arith,
              length-take n (drop (off - start) b.bytes),
              length-drop (off - start) b.bytes,
            );
        progress = omega arith;
        within = omega arith;
        inside = omega arith;
        before = omega arith;
        bytes_at = λ i l.
            get_elem?-slice b.bytes (off - start) n i l
            ∙ sym
                (get_elem?-append_left b.bytes (one_cycle blocks) (off - start + i) (omega arith));
      },
    )

further :
    (b : Block) (blocks : List Block) (off start remaining : ℕ) (w : Walk)
    → BlockIsValid b
    → start + b.total_bytes ≤ off
    → WalkIsValid
        (one_cycle blocks)
        off
        (start + b.total_bytes)
        (start + b.total_bytes + sizes blocks)
        remaining
        w
    → WalkIsValid (one_cycle (b ∷ blocks)) off start (start + sizes (b ∷ blocks)) remaining w
further b blocks off start remaining w v h k = record {
  counted = k.counted;
  progress = k.progress;
  within = k.within;
  inside = omega (arith, k.inside);
  before = omega (arith, k.before);
  bytes_at = λ i l.
      k.bytes_at i l
      ∙ sym (get_elem?-append_right b.bytes (one_cycle blocks) (off - (start + b.total_bytes) + i))
      ∙ ap (get_elem? (one_cycle (b ∷ blocks))) (omega arith);
}

WalkIsValid-mono :
    (xs : List ℕ) (off start end end' remaining : ℕ) (w : Walk)
    → end ≤ end'
    → WalkIsValid xs off start end remaining w
    → WalkIsValid xs off start end' remaining w
WalkIsValid-mono xs off start end end' remaining w h k = record {
  counted = k.counted;
  progress = k.progress;
  within = k.within;
  inside = omega (arith, k.inside);
  before = omega (arith, k.before);
  bytes_at = k.bytes_at;
}

abbrev pub Sought : List Block → ℕ → ℕ → ℕ → Type 0
Sought blocks off start remaining =
    (w : Walk) × (seek blocks off start remaining ≡ done w)
    × WalkIsValid (one_cycle blocks) off start (start + sizes blocks) remaining w

pub seek_lem :
    (blocks : List Block) (off start remaining : ℕ)
    → All BlockIsValid blocks
    → start ≤ off
    → off < start + sizes blocks
    → 0 < remaining
    → Sought blocks off start remaining
unfolding seek
seek_lem [] off start remaining v h k r = absurd (omega arith)
seek_lem (b ∷ blocks) off start remaining v h k r =
    elim (Bool-cases (ltb off (start + b.total_bytes))) [
      | inl e ↦
          let (w, s, m) = read_block_lem b blocks off start remaining v.0 h (ltb→lt _ _ e) r in
          (
            w,
            rw e s,
            WalkIsValid-mono (one_cycle (b ∷ blocks)) off start (start + b.total_bytes)
                (start + sizes (b ∷ blocks)) remaining w (omega arith) m,
          )
      | inr e ↦
          let past : start + b.total_bytes ≤ off = not-ltb→le _ _ e in
          let (w, s, m) =
            seek_lem blocks off (start + b.total_bytes) remaining v.1 past (omega arith) r in
          (w, rw e s, further b blocks off start remaining w v.0 past m)
    ]
