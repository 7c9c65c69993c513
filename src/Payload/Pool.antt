-- ===== src/Payload/Pool.antt =====
-- What the pool of strings hands out.
use lading.Prelude.{
  lt→not-leb, ℕ, zero, suc, ◌+◌, ◌-◌, ◌%◌, ◌^◌, ◌<◌, ◌≡◌, refl, ap, List, [], ◌∷◌, some, done,
  length, get_elem?, get_elem?-some, slice, take, drop, length-take, length-drop, All, arith,
  lt→ltb,
}
use lading.Random.{Rng}
use lading.Payload.Strings.{
  alphanum, Pool, Handle, stuff, with_size_and_alphabet, with_size, of_size, of_size_with_handle,
  using_handle,
}

-- the string of so many bytes at an offset
abbrev pub window : Pool → ℕ → ℕ → List ℕ
window pool lower_idx bytes = take bytes (drop lower_idx pool.inner)

plus_minus : (a b : ℕ) → a + b - a ≡ b
plus_minus a b = omega arith

slice-window :
    (pool : Pool) (lower_idx bytes : ℕ)
    → lower_idx < length pool.inner - bytes
    → slice pool.inner lower_idx (lower_idx + bytes) ≡ done (window pool lower_idx bytes)
slice-window pool l n h =
    ground (arith, ap (λ (k : ℕ). take k (drop l pool.inner)) (plus_minus l n))

pub length-window :
    (pool : Pool) (lower_idx bytes : ℕ)
    → lower_idx < length pool.inner - bytes
    → length (window pool lower_idx bytes) ≡ bytes
length-window pool l n h =
    omega (arith, length-take n (drop l pool.inner), length-drop l pool.inner)

-- A byte is one of an alphabet.
abbrev pub IsOf : List ℕ → ℕ → Type 0
IsOf alphabet byte = (i : ℕ) × (get_elem? alphabet i ≡ some byte)

module _ (g : Rng) where
  open g use {State, draw_range}

  -- the offset that is drawn for a string of so many bytes
  abbrev pub offset : Pool → ℕ → State → ℕ
  offset pool bytes s = (draw_range 0 (length pool.inner - bytes) s).0

  -- the generator after that
  abbrev pub after : Pool → ℕ → State → State
  after pool bytes s = (draw_range 0 (length pool.inner - bytes) s).1

  pub offset-lt :
      (pool : Pool) (bytes : ℕ) (s : State)
      → bytes < length pool.inner
      → offset pool bytes s < length pool.inner - bytes
  offset-lt pool bytes s h = (g.in_range 0 (length pool.inner - bytes) s (omega arith)).1

  pub of_size-some :
      (pool : Pool) (bytes : ℕ) (s : State)
      → bytes < length pool.inner
      → of_size g pool bytes s
        ≡ done (some (window pool (offset pool bytes s) bytes), after pool bytes s)
  unfolding of_size
  of_size-some pool bytes s h =
      rw
        (lt→not-leb bytes (length pool.inner) h, lt→ltb 0 (length pool.inner - bytes) (omega arith))
        (rw (slice-window pool (offset pool bytes s) bytes (offset-lt pool bytes s h)) refl)

  of_size_with_handle-some :
      (pool : Pool) (bytes : ℕ) (s : State)
      → bytes < length pool.inner
      → of_size_with_handle g pool bytes s
        ≡ done (
          some (window pool (offset pool bytes s) bytes, (offset pool bytes s, bytes)),
          after pool bytes s,
        )
  unfolding of_size_with_handle
  of_size_with_handle-some pool bytes s h =
      rw
        (lt→not-leb bytes (length pool.inner) h, lt→ltb 0 (length pool.inner - bytes) (omega arith))
        (rw (slice-window pool (offset pool bytes s) bytes (offset-lt pool bytes s h)) refl)

  using_handle-window :
      (pool : Pool) (lower_idx bytes : ℕ)
      → lower_idx < length pool.inner - bytes
      → using_handle pool (lower_idx, bytes) ≡ done (some (window pool lower_idx bytes))
  unfolding using_handle
  using_handle-window pool l n h =
      rw (lt→ltb (l + n) (length pool.inner) (omega arith), slice-window pool l n h) refl

  -- For a request of fewer bytes than the pool has, `of_size_with_handle` hands out a string of just
  -- so many bytes and a handle that `using_handle` turns back into it; `of_size` on the same generator
  -- hands out the same string and leaves the generator in the same state.
  pub using_handle-of_size_with_handle :
      (pool : Pool) (bytes : ℕ) (s : State)
      → bytes < length pool.inner
      → (str : List ℕ) × (handle : Handle) × (s' : State) × (of_size_with_handle g pool bytes s
          ≡ done (some (str, handle), s'))
        × (using_handle pool handle ≡ done (some str))
        × (of_size g pool bytes s ≡ done (some str, s'))
        × (length str ≡ bytes)
  using_handle-of_size_with_handle pool bytes s h = (
    window pool (offset pool bytes s) bytes,
    (offset pool bytes s, bytes),
    after pool bytes s,
    of_size_with_handle-some pool bytes s h,
    using_handle-window pool (offset pool bytes s) bytes (offset-lt pool bytes s h),
    of_size-some pool bytes s h,
    length-window pool (offset pool bytes s) bytes (offset-lt pool bytes s h),
  )

  stuff-Stuffed :
      (n idx c : ℕ) (alphabet : List ℕ) (s : State)
      → (str : List ℕ) × (s' : State) × (stuff g n idx (c ∷ alphabet) s ≡ done (str, s'))
        × (length str ≡ n)
        × All (IsOf (c ∷ alphabet)) str
  unfolding stuff
  stuff-Stuffed zero idx c alphabet s = ([], s, refl, refl, tt)
  stuff-Stuffed (suc n) idx c alphabet s =
      let i : ℕ = idx % length (c ∷ alphabet) in
      let (a, e) = get_elem?-some (c ∷ alphabet) i (omega arith) in
      let (str, s', p, l, h) =
        stuff-Stuffed n ((idx + (g.draw s).0) % 2 ^ 64) c alphabet (g.draw s).1 in
      (a ∷ str, s', rw (e) (rw (p) refl), omega (arith, l), ((i, e), h))

  -- `with_size` never panics, and its pool has just as many bytes as were asked for, all of them
  -- letters or digits.
  pub with_size-IsOf :
      (n : ℕ) (s : State)
      → (pool : Pool) × (s' : State) × (with_size g n s ≡ done (pool, s'))
        × (length pool.inner ≡ n)
        × All (IsOf alphanum) pool.inner
  unfolding with_size with_size_and_alphabet
  with_size-IsOf n s =
      let (str, s', p, l, h) = stuff-Stuffed n (g.draw s).0 97 (drop 1 alphanum) (g.draw s).1 in
      (record { inner = str }, s', rw p refl, l, h)
