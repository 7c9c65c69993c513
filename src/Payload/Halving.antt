-- ===== src/Payload/Halving.antt =====
-- The payloads that generate more members than fit and halve their number until they do:
-- datadog_logs.rs, fluent.rs and trace_agent.rs. Generating and encoding are parameters. `none` is a
-- loop that has used up the fuel, a bound on its rounds.
use lading.Prelude.{
  ℕ, zero, suc, ◌+◌, ◌/◌, List, [], ◌∷◌, ◌++◌, Option, some, none, length, take, sum_by, ltb, ◌==◌,
  if◌then◌else◌,
}
use lading.Random.{Rng}

-- What a payload comes to: an error of generating or encoding, a failed `expect`, or the bytes that it
-- writes.
pub data Filled : Type 0 where
  failed panicked : Filled
  wrote : List ℕ → Filled

-- A round of the searches below, on the encoding of the first `high` members.
unfoldable pub halve_round : (ℕ → Option Filled) → ℕ → ℕ → Option (List ℕ) → Option Filled
halve_round again max_bytes high none = some failed
halve_round again max_bytes high (some encoding) =
    if ltb max_bytes (length encoding) then again (high / 2) else some (wrote encoding)

module _ {M : Type 0} where
  -- the search in `DatadogLog::to_bytes`, which ends at no members and then writes nothing
  unfoldable pub halve_while : ℕ → (List M → Option (List ℕ)) → List M → ℕ → ℕ → Option Filled
  unfolding halve_round
  halve_while zero encode members max_bytes high = none
  halve_while (suc fuel) encode members max_bytes high =
      if high == 0
      then some (wrote [])
      else halve_round (λ half. halve_while fuel encode members max_bytes half) max_bytes high
          (encode (take high members))

  -- the search in `TraceAgent::to_bytes`, which has no such test
  unfoldable pub halve_loop : ℕ → (List M → Option (List ℕ)) → List M → ℕ → ℕ → Option Filled
  unfolding halve_round
  halve_loop zero encode members max_bytes high = none
  halve_loop (suc fuel) encode members max_bytes high =
      halve_round (λ half. halve_loop fuel encode members max_bytes half) max_bytes high
        (encode (take high members))

-- the lengths of encoded members together
abbrev pub total_length : List (List ℕ) → ℕ
total_length members = sum_by length members

abbrev pub concat : List (List ℕ) → List ℕ
concat [] = []
concat (m ∷ members) = m ++ concat members

-- the search in `Fluent::to_bytes`, over members that are encoded already
unfoldable pub halve_fluent : ℕ → List (List ℕ) → ℕ → ℕ → Option Filled
halve_fluent zero members max_bytes high = none
halve_fluent (suc fuel) members max_bytes high =
    let rest = halve_fluent fuel members max_bytes (high / 2) in
    if ltb max_bytes (total_length (take high members))
    then rest
    else some (wrote (concat (take high members)))

module _ (g : Rng) {M : Type 0} where
  open g use {State}

  -- Some new members, or none for the error of one of them.
  unfoldable pub cons_members :
      (State → Option (List M) × State) → Option M → State → Option (List M) × State
  cons_members more none s = (none, s)
  cons_members more (some m) s =
      let (members, s') = more s in
      elim members [ none ↦ (none, s') | some ms ↦ (some (m ∷ ms), s') ]

  unfoldable pub generate_members : (State → Option M × State) → ℕ → State → Option (List M) × State
  unfolding cons_members
  generate_members generate zero s = (some [], s)
  generate_members generate (suc n) s =
      let (m, s') = generate s in cons_members (generate_members generate n) m s'

  -- the search, once the members are there
  unfoldable pub halve_members : (List M → Option (List ℕ)) → ℕ → Option (List M) → Option Filled
  unfolding halve_while
  halve_members encode max_bytes none = some failed
  halve_members encode max_bytes (some members) =
      halve_while (suc (length members)) encode members max_bytes (length members)

  -- `DatadogLog::to_bytes`
  unfoldable pub datadog_logs_to_bytes :
      (State → Option M × State) → (List M → Option (List ℕ)) → ℕ → State → Option Filled × State
  unfolding generate_members halve_members
  datadog_logs_to_bytes generate encode max_bytes s =
      if ltb max_bytes 220
      then (some (wrote []), s)
      else (let (members, s') = generate_members generate (max_bytes / 220 + 100) s in
          (halve_members encode max_bytes members, s'))

module _ (g : Rng) where
  open g use {State}

  unfoldable pub grow_fluent_round :
      (List (List ℕ) → State → Option (Option (List (List ℕ)) × State))
      → List (List ℕ)
      → Option (List (List ℕ)) × State
      → Option (Option (List (List ℕ)) × State)
  grow_fluent_round again members (none, s) = some (none, s)
  grow_fluent_round again members (some more, s) = again (members ++ more) s

  -- The first loop of `Fluent::to_bytes`: ten members more until they are too long; none among them is
  -- a failed `expect`.
  unfoldable pub grow_fluent :
      ℕ
      → (State → Option (List ℕ) × State)
      → ℕ
      → List (List ℕ)
      → State
      → Option (Option (List (List ℕ)) × State)
  unfolding grow_fluent_round
  grow_fluent zero generate max_bytes members s = none
  grow_fluent (suc fuel) generate max_bytes members s =
      if ltb max_bytes (total_length members)
      then some (some members, s)
      else grow_fluent_round (λ ms s'. grow_fluent fuel generate max_bytes ms s') members
          (generate_members g generate 10 s)

  unfoldable pub finish_fluent :
      ℕ → Option (Option (List (List ℕ)) × State) → Option (Filled × State)
  unfolding halve_fluent
  finish_fluent max_bytes none = none
  finish_fluent max_bytes (some (none, s)) = some (panicked, s)
  finish_fluent max_bytes (some (some members, s)) =
      elim (halve_fluent (suc (length members)) members max_bytes (length members)) [
        | none ↦ none
        | some filled ↦ some (filled, s)
      ]

  -- `Fluent::to_bytes`, over the generator and `rmp_serde::to_vec` together
  unfoldable pub fluent_to_bytes :
      ℕ → (State → Option (List ℕ) × State) → ℕ → State → Option (Filled × State)
  unfolding grow_fluent finish_fluent
  fluent_to_bytes fuel generate max_bytes s =
      if ltb max_bytes 16
      then some (wrote [], s)
      else finish_fluent max_bytes (
          grow_fluent_round (λ ms s'. grow_fluent fuel generate max_bytes ms s') []
            (generate_members g generate 10 s))
