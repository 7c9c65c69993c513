-- ===== src/Payload/Lines.antt =====
-- What the plain text payload writes.
use lading.Prelude.{
  ℕ, zero, suc, ◌+◌, ◌-◌, ◌*◌, ◌≤◌, ◌<◌, ◌≡◌, refl, ap, List, [], ◌∷◌, ◌++◌, Bool-cases, inl, inr,
  Option, some, Outcome, done, length, length-append, All, ltb, arith, not-ltb→le,
}
use lading.Random.{Rng}
use lading.Payload.Strings.{Pool, of_size}
use lading.Payload.Pool.{with_size-IsOf, using_handle-of_size_with_handle}
use lading.Payload.Ascii.{max_length, new, before, write_line, write_lines, to_bytes}

-- the lines, each with a newline after it
abbrev pub unlines : List (List ℕ) → List ℕ
unlines [] = []
unlines (line ∷ lines) = line ++ 10 ∷ unlines lines

-- A line is not empty, and below the maximum.
abbrev pub IsLine : List ℕ → Type 0
IsLine line = (0 < length line) × (length line < max_length)

-- What is written for a number of bytes: lines, which are no longer together than that, and of which
-- there is one at least where the longest line would fit.
pub record Written (max_bytes : ℕ) (bytes : List ℕ) : Type 0 where
  pub lines : List (List ℕ)
  pub are_lines : All IsLine lines
  pub written : bytes ≡ unlines lines
  pub bounded : length bytes ≤ max_bytes
  pub not_empty : max_length ≤ max_bytes → 0 < length bytes

module _ (g : Rng) where
  open g use {State}

  drawn-IsLine :
      (pool : Pool) (s : State)
      → max_length ≤ length pool.inner
      → (line : List ℕ) × (s' : State) × (of_size g pool
            (g.draw_range 1 max_length s).0
            (g.draw_range 1 max_length s).1
          ≡ done (some line, s'))
        × IsLine line
  drawn-IsLine pool s h =
      let r = g.draw_range 1 max_length s in
      let (l, u) = g.in_range 1 max_length s (omega arith) in
      let (line, handle, s', a, b, c, d) =
        using_handle-of_size_with_handle g pool r.0 r.1 (omega arith) in
      (line, s', c, (omega (arith, d), omega (arith, d)))

  -- A run of the loop that ends in what is written for a number of bytes.
  abbrev pub Writes : ℕ → Outcome (Option (List ℕ) × State) → Type 0
  Writes n m = (bytes : List ℕ) × (s' : State) × (m ≡ done (some bytes, s')) × Written n bytes

  write_line-Writes :
      (again : ℕ → State → Outcome (Option (List ℕ) × State)) (n : ℕ) (line : List ℕ) (s : State)
      → IsLine line
      → ((r : ℕ) → r < n → Writes r (again r s))
      → Writes n (write_line g again n (some line) s)
  unfolding write_line before
  write_line-Writes again n line s l h = elim (Bool-cases (ltb n (length line + 1))) [
    | inl full ↦ (
      [],
      s,
      rw full refl,
      record {
        lines = [];
        are_lines = tt;
        written = refl;
        bounded = omega arith;
        not_empty = ground arith;
      },
    )
    | inr fits ↦
        let k : length line + 1 ≤ n = not-ltb→le n (length line + 1) fits in
        let (rest, s', e, w) = h (n - (length line + 1)) (omega arith) in
        (
          line ++ 10 ∷ rest,
          s',
          rw (fits, e) refl,
          record {
            lines = line ∷ w.lines;
            are_lines = (l, w.are_lines);
            written = ap (λ (r : List ℕ). line ++ 10 ∷ r) w.written;
            bounded = omega (arith, length-append line (10 ∷ rest), w.bounded);
            not_empty = λ _. omega (arith, length-append line (10 ∷ rest));
          },
        )
  ]

  pub write_lines-Writes :
      (fuel : ℕ) (pool : Pool) (n : ℕ) (s : State)
      → max_length ≤ length pool.inner
      → n < fuel
      → Writes n (write_lines g fuel pool n s)
  unfolding write_lines
  write_lines-Writes zero pool n s h k = absurd (omega arith)
  write_lines-Writes (suc fuel) pool n s h k =
      let (line, s', e, l) = drawn-IsLine pool s h in
      rw e (
        write_line-Writes (λ r t. write_lines g fuel pool r t) n line s' l
          (λ r m. write_lines-Writes fuel pool r s' h (omega arith)))

  -- A new payload, on any generator and for any number of bytes: neither `new` nor `to_bytes` panics
  -- or reports an error, and what is written is lines of 1 to 6143 characters, each with a newline
  -- after it, at most as many bytes as asked for, and one line at least where 6144 bytes may be
  -- written. The loop takes at most one round more than there are bytes.
  pub new-to_bytes :
      (s : State) (max_bytes : ℕ)
      → (pool : Pool) × (s' : State) × (bytes : List ℕ) × (s'' : State) × (new g s
          ≡ done (pool, s'))
        × (to_bytes g pool max_bytes s' ≡ done (some bytes, s''))
        × Written max_bytes bytes
  unfolding new to_bytes
  new-to_bytes s n =
      let (pool, s', e, l, _) = with_size-IsOf g (max_length * 4) s in
      let (bytes, s'', p, w) =
        write_lines-Writes (suc n) pool n s' (omega (arith, l)) (omega arith) in
      (pool, s', bytes, s'', e, p, w)
