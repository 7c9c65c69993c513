-- ===== src/Payload/Frame.antt =====
-- lading_payload/src/dogstatsd.rs: `to_bytes_length_prefix_framed`.
use lading.Prelude.{
  ℕ, zero, suc, ◌+◌, ◌-◌, ◌/◌, ◌%◌, List, [], ◌∷◌, ◌++◌, Bool, Option, some, none, Outcome, done,
  panicked, ◌>>=◌, ◌>>◌, assert, length, ltb, leb, ◌==◌, if◌then◌else◌, u32_max,
}
use lading.Random.{Rng}
use lading.Payload.Lines.{unlines}
use lading.Payload.Members.{Generate, dogstatsd_to_bytes}

-- `u32::to_le_bytes`
unfoldable pub to_le_bytes : ℕ → List ℕ
to_le_bytes n = n % 256 ∷ n / 256 % 256 ∷ n / 65536 % 256 ∷ n / 16777216 % 256 ∷ []

-- The members that fit, and the bytes that remain.
pub record Collected : Type 0 where
  pub members : List (List ℕ)
  pub bytes_remaining : ℕ

unfoldable pub collect_one : List ℕ → Option Collected → Option Collected
collect_one encoding none = none
collect_one encoding (some c) = some (record c { members = encoding ∷ c.members })

-- the frame around the members: the length, then their lines
unfoldable pub write_frame : ℕ → Collected → Outcome (List ℕ)
unfolding to_le_bytes
write_frame max_bytes c = if c.bytes_remaining == max_bytes then done [] else (do
  assert (leb max_bytes u32_max)
  assert (leb c.bytes_remaining u32_max)
  done (to_le_bytes (max_bytes - c.bytes_remaining) ++ unlines c.members))

module _ (g : Rng) where
  open g use {State}

  -- A round of the loop: an error of the member, or it does not fit any more, or it is kept.
  unfoldable pub collect_member :
      (ℕ → State → Outcome (Option Collected × State))
      → ℕ
      → Option (List ℕ)
      → State
      → Outcome (Option Collected × State)
  unfolding collect_one
  collect_member again bytes_remaining none s = done (none, s)
  collect_member again bytes_remaining (some encoding) s =
      let line_length = length encoding + 1 in
      if ltb bytes_remaining line_length
      then done (some (record { members = []; bytes_remaining = bytes_remaining }), s)
      else (do
        (rest, s') ← again (bytes_remaining - line_length) s
        done (collect_one encoding rest, s'))

  -- the loop; that its fuel runs out counts as a panic
  unfoldable pub collect : ℕ → Generate g → ℕ → State → Outcome (Option Collected × State)
  unfolding collect_member
  collect zero generate bytes_remaining s = panicked
  collect (suc fuel) generate bytes_remaining s =
      let (encoding, s') = generate s in
      collect_member (λ remainder s''. collect fuel generate remainder s'') bytes_remaining encoding
        s'

  -- what is written once the members are there, or their error
  unfoldable pub frame_members : ℕ → Option Collected × State → Outcome (Option (List ℕ) × State)
  unfolding write_frame
  frame_members max_bytes (none, s) = done (none, s)
  frame_members max_bytes (some c, s) = do bytes ← write_frame max_bytes c; done (some bytes, s)

  -- `to_bytes_length_prefix_framed`
  unfoldable pub to_bytes_length_prefix_framed :
      Generate g → ℕ → State → Outcome (Option (List ℕ) × State)
  unfolding collect frame_members
  to_bytes_length_prefix_framed generate max_bytes s = do
    collected ← collect (suc max_bytes) generate max_bytes s
    frame_members max_bytes collected

  -- `Serialize::to_bytes` of `DogStatsD`
  unfoldable pub dogstatsd_serialize :
      Bool → Generate g → ℕ → State → Outcome (Option (List ℕ) × State)
  unfolding to_bytes_length_prefix_framed dogstatsd_to_bytes
  dogstatsd_serialize length_prefix_framed generate max_bytes s =
      if length_prefix_framed
      then to_bytes_length_prefix_framed generate max_bytes s
      else dogstatsd_to_bytes g generate max_bytes s
