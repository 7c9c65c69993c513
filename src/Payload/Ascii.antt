-- ===== src/Payload/Ascii.antt =====
-- lading_payload/src/ascii.rs: `Ascii::new` and `to_bytes`. Writing into the buffer does not fail.
use lading.Prelude.{
  ℕ, zero, suc, ◌+◌, ◌-◌, ◌*◌, List, [], ◌∷◌, ◌++◌, Option, some, none, Outcome, done, panicked,
  ◌>>=◌, length, ltb, if◌then◌else◌,
}
use lading.Random.{Rng, gen_range}
use lading.Payload.Strings.{Pool, with_size, of_size}

-- `MAX_LENGTH`
abbrev pub max_length : ℕ
max_length = 6144

-- A written line before the lines that follow it, unless they end in an error.
unfoldable pub before : List ℕ → Option (List ℕ) → Option (List ℕ)
before encoding none = none
before encoding (some rest) = some (encoding ++ 10 ∷ rest)

module _ (g : Rng) where
  open g use {State}

  -- `Ascii::new`
  unfoldable pub new : State → Outcome (Pool × State)
  new s = with_size g (max_length * 4) s

  -- The round of the loop once a string has been asked for: there is none, which is an error, or its
  -- line does not fit any more, or it is written and the loop goes on.
  unfoldable pub write_line :
      (ℕ → State → Outcome (Option (List ℕ) × State))
      → ℕ
      → Option (List ℕ)
      → State
      → Outcome (Option (List ℕ) × State)
  unfolding before
  write_line again bytes_remaining none s = done (none, s)
  write_line again bytes_remaining (some encoding) s =
      let line_length = length encoding + 1 in
      if ltb bytes_remaining line_length then done (some [], s) else (do
        (rest, s') ← again (bytes_remaining - line_length) s
        done (before encoding rest, s'))

  -- The loop of `to_bytes`: the bytes that are written, or none for an error. That the fuel, a bound
  -- on its rounds, runs out counts as a panic.
  unfoldable pub write_lines : ℕ → Pool → ℕ → State → Outcome (Option (List ℕ) × State)
  unfolding write_line
  write_lines zero pool bytes_remaining s = panicked
  write_lines (suc fuel) pool bytes_remaining s = do
    (bytes, s') ← gen_range g 1 max_length s
    (encoding, s'') ← of_size g pool bytes s'
    write_line (λ remainder s'''. write_lines fuel pool remainder s''') bytes_remaining encoding s''

  -- `Ascii::to_bytes`: each round but the last takes a byte at least
  unfoldable pub to_bytes : Pool → ℕ → State → Outcome (Option (List ℕ) × State)
  unfolding write_lines
  to_bytes pool max_bytes s = write_lines (suc max_bytes) pool max_bytes s
