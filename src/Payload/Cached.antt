-- ===== src/Payload/Cached.antt =====
-- The block cache of the plain text payload: `Cache::fixed` with the serializer of ascii.rs.
use lading.Prelude.{ℕ, suc, ◌*◌, ◌≤◌, ◌<◌, ◌≡◌, ap, some, done, length, arith, u32_max}
use lading.Random.{Rng}
use lading.Block.Construct.{Serializer, fixed}
use lading.Block.Sizes.{IsBounded}
use lading.Block.Fixed.{FixedResult, fixed-FixedResult}
use lading.Payload.Strings.{Pool}
use lading.Payload.Pool.{with_size-IsOf}
use lading.Payload.Ascii.{max_length, new, to_bytes}
use lading.Payload.Lines.{write_lines-Writes}

some-injective : {A : Type 0} {a b : A} → some a ≡ some b → a ≡ b
some-injective e = ground arith

module _ (g : Rng) where
  open g use {State}

  abbrev pub serializer : Pool → Serializer g
  serializer pool n s = to_bytes g pool n s

  serializer-IsBounded :
      (pool : Pool) → max_length ≤ length pool.inner → IsBounded g (serializer pool)
  unfolding to_bytes
  serializer-IsBounded pool h n s =
      let (written, s', e, w) = write_lines-Writes g (suc n) pool n s h (omega arith) in
      (some written, s', e, λ bytes k. omega (arith, w.bounded, ap length (some-injective k)))

  -- `fixed` with a new plain text payload, on every generator and with every bound on the rounds of
  -- its loop, for a 32-bit total and a maximum block size that is neither zero nor refused: the payload
  -- is there, `fixed` reports no error but one of the serializer, a cache that it returns is well
  -- built, and it panics only where the total and the maximum together exceed 2 ^ 32.
  pub new-fixed :
      (s : State) (fuel m total : ℕ)
      → 0 < m
      → m ≤ total
      → total ≤ u32_max
      → (pool : Pool) × (s' : State) × (new g s ≡ done (pool, s'))
        × FixedResult m total (fixed g (serializer pool) fuel s' total m)
  unfolding new
  new-fixed s fuel m total p h k =
      let (pool, s', e, l, _) = with_size-IsOf g (max_length * 4) s in
      (
        pool,
        s',
        e,
        fixed-FixedResult g (serializer pool) fuel m total s'
            (serializer-IsBounded pool (omega (arith, l))) p h k,
      )
