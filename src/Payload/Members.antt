-- ===== src/Payload/Members.antt =====
-- The payloads that write one line for each member: json.rs, apache_common.rs, splunk_hec.rs,
-- syslog.rs and dogstatsd.rs without frames. How a member is generated and encoded is a parameter.
use lading.Prelude.{
  ℕ, zero, suc, ◌+◌, List, [], ◌∷◌, ◌++◌, Option, Outcome, done, panicked, ◌>>=◌, length, ltb,
  if◌then◌else◌,
}
use lading.Random.{Rng}
use lading.Payload.Ascii.{write_line}

-- What a generator and an encoder come to: the encoding of a new member, or none for an error.
abbrev pub Generate : Rng → Type 0
Generate g = g.State → Option (List ℕ) × g.State

-- `splunk_hec::Encoding`
pub data Encoding : Type 0 where
  text json : Encoding

module _ (g : Rng) where
  open g use {State}

  -- The loop that `to_bytes` has in each of these files. Each round but the last takes a byte at least;
  -- that the fuel, a bound on the rounds, runs out counts as a panic.
  unfoldable pub write_members : ℕ → Generate g → ℕ → State → Outcome (Option (List ℕ) × State)
  unfolding write_line
  write_members zero generate bytes_remaining s = panicked
  write_members (suc fuel) generate bytes_remaining s =
      let (encoding, s') = generate s in
      write_line g (λ remainder s''. write_members fuel generate remainder s'') bytes_remaining
        encoding s'

  -- `Json::to_bytes`
  unfoldable pub json_to_bytes : Generate g → ℕ → State → Outcome (Option (List ℕ) × State)
  unfolding write_members
  json_to_bytes generate max_bytes s = write_members (suc max_bytes) generate max_bytes s

  -- `ApacheCommon::to_bytes`
  unfoldable pub apache_common_to_bytes : Generate g → ℕ → State → Outcome (Option (List ℕ) × State)
  unfolding write_members
  apache_common_to_bytes generate max_bytes s = write_members (suc max_bytes) generate max_bytes s

  -- `SplunkHec::to_bytes`: the encoding of a member is that of the payload
  unfoldable pub splunk_hec_to_bytes :
      Encoding → (Encoding → Generate g) → ℕ → State → Outcome (Option (List ℕ) × State)
  unfolding write_members
  splunk_hec_to_bytes encoding generate max_bytes s =
      write_members (suc max_bytes) (generate encoding) max_bytes s

  -- `DogStatsD::to_bytes`, the one without frames
  unfoldable pub dogstatsd_to_bytes : Generate g → ℕ → State → Outcome (Option (List ℕ) × State)
  unfolding write_members
  dogstatsd_to_bytes generate max_bytes s = write_members (suc max_bytes) generate max_bytes s

  -- the loop of `Syslog5424::to_bytes` over the endless members, which counts what is written
  unfoldable pub write_syslog :
      ℕ → (State → List ℕ × State) → ℕ → ℕ → State → Outcome (List ℕ × State)
  write_syslog zero generate max_bytes written_bytes s = panicked
  write_syslog (suc fuel) generate max_bytes written_bytes s =
      let (encoded, s') = generate s in
      if ltb max_bytes (length encoded + 1 + written_bytes) then done ([], s') else (do
        (rest, s'') ← write_syslog fuel generate max_bytes (written_bytes + 1 + length encoded) s'
        done (encoded ++ 10 ∷ rest, s''))

  -- `Syslog5424::to_bytes`
  unfoldable pub syslog_to_bytes : (State → List ℕ × State) → ℕ → State → Outcome (List ℕ × State)
  unfolding write_syslog
  syslog_to_bytes generate max_bytes s =
      if ltb max_bytes 2 then done ([], s) else write_syslog (suc max_bytes) generate max_bytes 0 s
