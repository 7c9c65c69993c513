-- ===== src/Payload/Records.antt =====
-- The payloads of statik.rs and of opentelemetry_log.rs, opentelemetry_trace.rs and
-- opentelemetry_metric.rs. Files, generators and the protobuf encoder are parameters.
use lading.Prelude.{
  ℕ, zero, suc, ◌+◌, ◌-◌, ◌/◌, List, [], ◌∷◌, Option, some, none, Outcome, done, panicked, ◌>>=◌,
  ◌≤◌, ◌<◌, ◌≡◌, sum_by, length, ltb, if◌then◌else◌,
}
use lading.Random.{Rng}
use lading.Payload.Halving.{Filled, failed, wrote}

-- `statik::Source`, with the path as the name of a file
pub record Source : Type 0 where
  pub byte_size : ℕ
  pub path : ℕ

-- the sources below the number of bytes
unfoldable pub sources_below : ℕ → List Source → List Source
sources_below max_bytes [] = []
sources_below max_bytes (source ∷ sources) =
    let rest = sources_below max_bytes sources in
    if ltb source.byte_size max_bytes then source ∷ rest else rest

module _ (g : Rng) where
  open g use {State}

  -- what is written of the source that was chosen, if any: what opening its file and one `fill_buf` give,
  -- or the error of either
  unfoldable pub static_written : (ℕ → Option (List ℕ)) → Option Source → Filled
  static_written fill_buf none = wrote []
  static_written fill_buf (some source) = elim (fill_buf source.path) [
    | none ↦ failed
    | some bytes ↦ wrote bytes
  ]

  -- `Static::to_bytes`, over what `choose` picks from some sources and over what a reader of a file has
  -- in its buffer after one `fill_buf`
  unfoldable pub static_to_bytes :
      (List Source → State → Option Source × State)
      → (ℕ → Option (List ℕ))
      → List Source
      → ℕ
      → State
      → Filled × State
  unfolding sources_below static_written
  static_to_bytes choose fill_buf sources max_bytes s =
      let (source, s') = choose (sources_below max_bytes sources) s in
      (static_written fill_buf source, s')

-- A protobuf encoder for one of the three kinds of request, each of which is one message in a list of
-- one around a list of members.
pub record Prost : Type 1 where
  pub Member : Type 0
  pub encoded_len : Member → ℕ
  pub encode_to_vec : List Member → List ℕ
  -- the length of a number as a varint
  pub varint_len : ℕ → ℕ
  pub short : (n : ℕ) → n < 128 → varint_len n ≡ 1
  pub medium : (n : ℕ) → n < 16384 → varint_len n ≤ 2
  pub long : (n : ℕ) → varint_len n ≤ 10
  -- A field of a message: its key, its length and its content.
  pub request :
      (members : List Member)
      → (body list : ℕ)
      → body ≡ sum_by (λ m. 1 + varint_len (encoded_len m) + encoded_len m) members
      → list ≡ 1 + varint_len body + body
      → length (encode_to_vec members) ≡ 1 + varint_len list + list

module _ (g : Rng) (p : Prost) where
  open g use {State}
  open p use {Member, encoded_len, encode_to_vec}

  unfoldable pub push_member : Member → Option (List Member) → Option (List Member)
  push_member m none = none
  push_member m (some members) = some (m ∷ members)

  -- A round of the loop: an error of the member, or it does not fit any more, or it is pushed.
  unfoldable pub export_round :
      (ℕ → State → Outcome (Option (List Member) × State))
      → ℕ
      → Option Member
      → State
      → Outcome (Option (List Member) × State)
  unfolding push_member
  export_round again bytes_remaining none s = done (none, s)
  export_round again bytes_remaining (some member) s =
      let len = encoded_len member + 2 in
      if ltb bytes_remaining len
      then done (some [], s)
      else (do (rest, s') ← again (bytes_remaining - len) s; done (push_member member rest, s'))

  -- The loop; that its fuel runs out counts as a panic.
  unfoldable pub export_loop :
      ℕ → (State → Option Member × State) → ℕ → State → Outcome (Option (List Member) × State)
  unfolding export_round
  export_loop zero generate bytes_remaining s = panicked
  export_loop (suc fuel) generate bytes_remaining s =
      let (member, s') = generate s in
      export_round (λ remainder t. export_loop fuel generate remainder t) bytes_remaining member s'

  unfoldable pub encoded : Option (List Member) × State → Option (List ℕ) × State
  encoded (none, s) = (none, s)
  encoded (some members, s) = (some (encode_to_vec members), s)

  -- `to_bytes` of `OpentelemetryLogs`, `OpentelemetryTraces` and `OpentelemetryMetrics`
  unfoldable pub opentelemetry_to_bytes :
      (State → Option Member × State) → ℕ → State → Outcome (Option (List ℕ) × State)
  unfolding export_loop encoded
  opentelemetry_to_bytes generate max_bytes s =
      let overhead = 5 + (max_bytes + 126) / 127 in
      if ltb max_bytes overhead
      then done (some [], s)
      else (do r ← export_loop (suc max_bytes) generate (max_bytes - overhead) s; done (encoded r))
