-- ===== src/Block/Sizes.antt =====
-- The sizes of the blocks that are constructed, and of the whole cache.
use lading.Prelude.{
  ℕ, zero, suc, ◌+◌, ◌-◌, ◌*◌, ◌≤◌, ◌<◌, ◌≡◌, refl, ◌⊎◌, inl, inr, List, [], ◌∷◌, ◌++◌, Option,
  some, none, length, ltb, leb, u32_max, sum_by-append, All, All-append, arith, Bool-cases, ltb→lt,
  lt→ltb, not-ltb→le, true, done,
}
use lading.Random.{Rng}
use lading.Block.Cache.{Block}
use lading.Block.Seek.{BlockIsValid, sizes}
use lading.Block.Construct.{
  deserialize, insufficient_block_sizes, empty_block, zero_value, Built, built, failed, panicked,
  no_fuel, Serializer, wrap_block, wrap_written, written_block, construct_block, Filling,
  after_block, round, and_then, fill,
}

-- What a serializer promises: it does not panic, and it writes at most as many bytes as it is told.
abbrev pub IsBounded : (g : Rng) → Serializer g → Type 0
IsBounded g serializer =
    (n : ℕ) (s : g.State)
    → (written : Option (List ℕ)) × (s' : g.State) × (serializer n s ≡ done (written, s'))
      × ((bytes : List ℕ) → written ≡ some bytes → length bytes ≤ n)

-- A block of at least one byte and below the maximum.
abbrev pub Fits : ℕ → Block → Type 0
Fits max_block_size b = BlockIsValid b × (b.total_bytes < max_block_size)

-- What `construct_block` may come to: such a block, or an error that is not `zero_value`.
abbrev pub BlockResult : ℕ → Built Block → Type 0
BlockResult max_block_size (built b) = Fits max_block_size b
BlockResult max_block_size (failed deserialize) = Unit {0}
BlockResult max_block_size (failed empty_block) = Unit {0}
BlockResult max_block_size (failed insufficient_block_sizes) = ⊥
BlockResult max_block_size (failed zero_value) = ⊥
BlockResult max_block_size panicked = ⊥
BlockResult max_block_size no_fuel = ⊥

wrap_block-BlockResult :
    (max_block_size : ℕ) (bytes : List ℕ)
    → max_block_size ≤ u32_max
    → length bytes < max_block_size
    → BlockResult max_block_size (wrap_block bytes)
unfolding wrap_block
wrap_block-BlockResult m [] h k = tt
wrap_block-BlockResult m (b ∷ bytes) h k =
    let e : leb (length (b ∷ bytes)) u32_max ≡ true = ground arith in rw e ((refl, omega arith), k)

wrap_written-BlockResult :
    (max_block_size n : ℕ) (o : Option (List ℕ))
    → max_block_size ≤ u32_max
    → n < max_block_size
    → ((bytes : List ℕ) → o ≡ some bytes → length bytes ≤ n)
    → BlockResult max_block_size (wrap_written o)
unfolding wrap_written
wrap_written-BlockResult m n none h k b = tt
wrap_written-BlockResult m n (some bytes) h k b =
    wrap_block-BlockResult m bytes h (omega (arith, b bytes refl))

module _ (g : Rng) (serializer : Serializer g) where
  open g use {State}

  pub construct_block-BlockResult :
      (max_block_size n : ℕ) (s : State)
      → IsBounded g serializer
      → max_block_size ≤ u32_max
      → n < max_block_size
      → BlockResult max_block_size (construct_block g serializer n s).0
  unfolding construct_block written_block
  construct_block-BlockResult m n s b h k =
      let (written, s', e, l) = b n s in rw e (wrap_written-BlockResult m n written h k l)

  -- What the loop keeps, for a maximum block size and a total.
  pub record Accounted (max_block_size total_bytes : ℕ) (f : Filling g serializer) : Type 0 where
    pub fits : All (Fits max_block_size) f.blocks
    pub floor : 4 * f.min_block_size < max_block_size
    pub reaches : total_bytes ≤ sizes f.blocks + f.bytes_remaining
    pub overshoot : sizes f.blocks + f.bytes_remaining < total_bytes + max_block_size
    pub exact : 0 < f.bytes_remaining → sizes f.blocks + f.bytes_remaining ≡ total_bytes

  abbrev pub RoundResult : ℕ → ℕ → Built (Filling g serializer) → Type 0
  RoundResult m total (built f) = Accounted m total f
  RoundResult m total (failed deserialize) = Unit {0}
  RoundResult m total (failed e) = ⊥
  RoundResult m total panicked = ⊥
  RoundResult m total no_fuel = ⊥

  push-Accounted :
      (m total : ℕ) (f : Filling g serializer) (b : Block) (s : State)
      → 0 < f.bytes_remaining
      → Accounted m total f
      → Fits m b
      → Accounted m total (record f {
        state = s;
        bytes_remaining = f.bytes_remaining - b.total_bytes;
        blocks = f.blocks ++ b ∷ [];
      })
  push-Accounted m total f b s p a h =
      let added = sum_by-append (λ (x : Block). x.total_bytes) f.blocks (b ∷ []) in
      record {
        fits = All-append (Fits m) f.blocks (b ∷ []) a.fits (h, tt);
        floor = a.floor;
        reaches = omega (arith, a.reaches, added);
        overshoot = omega (arith, a.exact p, added, h.1, a.overshoot);
        exact = λ q. omega (arith, a.exact p, added);
      }

  after_block-RoundResult :
      (m total n : ℕ) (f : Filling g serializer) (r : Built Block × State)
      → 0 < f.bytes_remaining
      → n < m
      → Accounted m total f
      → BlockResult m r.0
      → RoundResult m total (after_block g serializer n f r)
  unfolding after_block
  after_block-RoundResult m total n f (built b, s) p k a h = push-Accounted m total f b s p a h
  after_block-RoundResult m total n f (failed empty_block, s) p k a h = record {
    fits = a.fits;
    floor = omega arith;
    reaches = a.reaches;
    overshoot = a.overshoot;
    exact = a.exact;
  }
  after_block-RoundResult m total n f (failed deserialize, s) p k a h = tt
  after_block-RoundResult m total n f (failed insufficient_block_sizes, s) p k a h = absurd h
  after_block-RoundResult m total n f (failed zero_value, s) p k a h = absurd h
  after_block-RoundResult m total n f (panicked, s) p k a h = absurd h
  after_block-RoundResult m total n f (no_fuel, s) p k a h = absurd h

  pub round-RoundResult :
      (m total : ℕ) (f : Filling g serializer)
      → IsBounded g serializer
      → m ≤ u32_max
      → 0 < f.bytes_remaining
      → Accounted m total f
      → RoundResult m total (round g serializer m f)
  unfolding round
  round-RoundResult m total f b h p a =
      let r = g.draw_range f.min_block_size m f.state in
      let k : r.0 < m = (g.in_range f.min_block_size m f.state (omega (arith, a.floor))).1 in
      rw (lt→ltb f.min_block_size m (omega (arith, a.floor))) (
        after_block-RoundResult m total r.0 f (construct_block g serializer r.0 r.1) p k a
          (construct_block-BlockResult m r.0 r.1 b h k))

  -- The loop has ended by its condition or by its `break`.
  abbrev pub FillResult : ℕ → ℕ → Built (Filling g serializer) → Type 0
  FillResult m total (built f) =
      Accounted m total f × ((f.bytes_remaining ≡ 0) ⊎ (f.bytes_remaining < f.min_block_size))
  FillResult m total (failed deserialize) = Unit {0}
  FillResult m total (failed e) = ⊥
  FillResult m total panicked = ⊥
  FillResult m total no_fuel = Unit {0}

  and_then-FillResult :
      (m total : ℕ) (again : Filling g serializer → Built (Filling g serializer))
      (r : Built (Filling g serializer))
      → ((f : Filling g serializer) → Accounted m total f → FillResult m total (again f))
      → RoundResult m total r
      → FillResult m total (and_then g serializer again r)
  unfolding and_then
  and_then-FillResult m total again (built f) ih h =
      elim (Bool-cases (ltb f.bytes_remaining f.min_block_size)) [
        | inl e ↦ rw e (h, inr (ltb→lt _ _ e))
        | inr e ↦ rw e (ih f h)
      ]
  and_then-FillResult m total again (failed deserialize) ih h = tt
  and_then-FillResult m total again (failed insufficient_block_sizes) ih h = absurd h
  and_then-FillResult m total again (failed empty_block) ih h = absurd h
  and_then-FillResult m total again (failed zero_value) ih h = absurd h
  and_then-FillResult m total again panicked ih h = absurd h
  and_then-FillResult m total again no_fuel ih h = absurd h

  pub fill-FillResult :
      (fuel m total : ℕ) (f : Filling g serializer)
      → IsBounded g serializer
      → m ≤ u32_max
      → Accounted m total f
      → FillResult m total (fill g serializer fuel m f)
  unfolding fill
  fill-FillResult zero m total f b h a = tt
  fill-FillResult (suc fuel) m total f b h a = elim (Bool-cases (ltb 0 f.bytes_remaining)) [
    | inl e ↦ rw e (
        and_then-FillResult m total (λ f'. fill g serializer fuel m f') (round g serializer m f)
          (λ f' a'. fill-FillResult fuel m total f' b h a')
          (round-RoundResult m total f b h (ltb→lt _ _ e) a))
    | inr e ↦ let z = not-ltb→le 0 f.bytes_remaining e in rw e (a, inl (omega arith))
  ]
