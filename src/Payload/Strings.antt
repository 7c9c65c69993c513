-- ===== src/Payload/Strings.antt =====
-- lading_payload/src/common/strings.rs. A string of ASCII characters is the list of its bytes.
use lading.Prelude.{
  ℕ, zero, suc, ◌+◌, ◌-◌, ◌%◌, ◌^◌, List, [], ◌∷◌, Option, some, none, Outcome, done, ◌>>=◌, length,
  index, slice, ltb, leb, if◌then◌else◌,
}
use lading.Random.{Rng, gen_range}

-- `ALPHANUM`
abbrev pub alphanum : List ℕ
alphanum =
    97 ∷ 98 ∷ 99 ∷ 100 ∷ 101 ∷ 102 ∷ 103 ∷ 104 ∷ 105 ∷ 106 ∷ 107 ∷ 108 ∷ 109 ∷ 110 ∷ 111 ∷ 112 ∷ 113
    ∷ 114 ∷ 115 ∷ 116 ∷ 117 ∷ 118 ∷ 119 ∷ 120 ∷ 121 ∷ 122 ∷ 65 ∷ 66 ∷ 67 ∷ 68 ∷ 69 ∷ 70 ∷ 71 ∷ 72
    ∷ 73 ∷ 74 ∷ 75 ∷ 76 ∷ 77 ∷ 78 ∷ 79 ∷ 80 ∷ 81 ∷ 82 ∷ 83 ∷ 84 ∷ 85 ∷ 86 ∷ 87 ∷ 88 ∷ 89 ∷ 90 ∷ 48
    ∷ 49 ∷ 50 ∷ 51 ∷ 52 ∷ 53 ∷ 54 ∷ 55 ∷ 56 ∷ 57 ∷ []

pub record Pool : Type 0 where
  pub inner : List ℕ

-- `Handle`: an offset and a length
abbrev pub Handle : Type 0
Handle = ℕ × ℕ

module _ (g : Rng) where
  open g use {State, draw}

  -- the loop of `with_size_and_alphabet` over the bytes to go
  unfoldable pub stuff : ℕ → ℕ → List ℕ → State → Outcome (List ℕ × State)
  stuff zero idx alphabet s = done ([], s)
  stuff (suc bytes) idx alphabet s = do
    c ← index alphabet (idx % length alphabet)
    let (step, s') = draw s
    (rest, s'') ← stuff bytes ((idx + step) % 2 ^ 64) alphabet s'
    done (c ∷ rest, s'')

  -- `Pool::with_size_and_alphabet`
  unfoldable pub with_size_and_alphabet : ℕ → List ℕ → State → Outcome (Pool × State)
  unfolding stuff
  with_size_and_alphabet bytes [] s = let (idx, s') = draw s in done (record { inner = [] }, s')
  with_size_and_alphabet bytes (c ∷ alphabet) s = do
    let (idx, s') = draw s
    (inner, s'') ← stuff bytes idx (c ∷ alphabet) s'
    done (record { inner = inner }, s'')

  -- `Pool::with_size`
  unfoldable pub with_size : ℕ → State → Outcome (Pool × State)
  unfolding with_size_and_alphabet
  with_size bytes s = with_size_and_alphabet bytes alphanum s

  -- `Pool::of_size`
  unfoldable pub of_size : Pool → ℕ → State → Outcome (Option (List ℕ) × State)
  of_size pool bytes s = if leb (length pool.inner) bytes then done (none, s) else (do
    (lower_idx, s') ← gen_range g 0 (length pool.inner - bytes) s
    str ← slice pool.inner lower_idx (lower_idx + bytes)
    done (some str, s'))

  -- `Pool::of_size_with_handle`
  unfoldable pub of_size_with_handle : Pool → ℕ → State → Outcome (Option (List ℕ × Handle) × State)
  of_size_with_handle pool bytes s = if leb (length pool.inner) bytes then done (none, s) else (do
    (lower_idx, s') ← gen_range g 0 (length pool.inner - bytes) s
    str ← slice pool.inner lower_idx (lower_idx + bytes)
    done (some (str, (lower_idx, bytes)), s'))

  -- `Pool::of_size_range`
  unfoldable pub of_size_range : Pool → ℕ → ℕ → State → Outcome (Option (List ℕ) × State)
  unfolding of_size
  of_size_range pool from to s = do (bytes, s') ← gen_range g from to s; of_size pool bytes s'

-- `Pool::using_handle`; the sum of an offset and a length is taken not to overflow
unfoldable pub using_handle : Pool → Handle → Outcome (Option (List ℕ))
using_handle pool handle =
    if ltb (handle.0 + handle.1) (length pool.inner)
    then (slice pool.inner handle.0 (handle.0 + handle.1) >>= λ str. done (some str))
    else done none
