-- ===== src/Payload/Traces.antt =====
-- lading_payload/src/trace_agent.rs: `TraceAgent::to_bytes`. Generating a span and encoding groups of
-- spans, as JSON or MsgPack, are parameters. `none` is a loop that has used up its fuel.
use lading.Prelude.{
  ℕ, zero, suc, ◌+◌, ◌-◌, List, [], ◌∷◌, ◌++◌, Option, some, none, length, ltb, if◌then◌else◌,
}
use lading.Random.{Rng}
use lading.Payload.Halving.{Filled, failed, panicked, halve_loop, generate_members}

-- groups of spans with the generator after them; no groups where a span's `expect` failed
abbrev pub Groups : (g : Rng) → Type 0 → Type 0
Groups g Span = Option (List (List Span)) × g.State

module _ (g : Rng) {Span : Type 0} where
  open g use {State, draw_range}

  -- what follows the spans of a group
  unfoldable pub push_group :
      (List (List Span) → State → Option (Groups g Span))
      → List (List Span)
      → Option (List Span) × State
      → Option (Groups g Span)
  push_group again members (none, s) = some (none, s)
  push_group again members (some spans, s) = again (members ++ spans ∷ []) s

  -- the first loop: groups of random size, ten thousand spans together
  unfoldable pub group_spans :
      ℕ → (State → Option Span × State) → ℕ → List (List Span) → State → Option (Groups g Span)
  unfolding push_group
  group_spans zero generate remaining members s = none
  group_spans (suc fuel) generate remaining members s =
      if ltb 0 remaining
      then (let (total, s') = draw_range 0 (remaining + 1) s in
          push_group (λ ms t. group_spans fuel generate (remaining - total) ms t) members
            (generate_members g generate total s'))
      else some (some members, s)

  -- The test of the second loop on the encoding: too long, or groups of five thousand spans more.
  unfoldable pub grow_round :
      (List (List Span) → State → Option (Option Filled × Groups g Span))
      → (State → Option Span × State)
      → ℕ
      → List (List Span)
      → Option (List ℕ)
      → State
      → Option (Option Filled × Groups g Span)
  grow_round again generate max_bytes members none s = some (some failed, (none, s))
  grow_round again generate max_bytes members (some encoding) s =
      if ltb max_bytes (length encoding)
      then some (none, (some members, s))
      else elim (generate_members g generate 5000 s).0 [
        | none ↦ some (some panicked, (none, (generate_members g generate 5000 s).1))
        | some spans ↦ again (members ++ spans ∷ []) (generate_members g generate 5000 s).1
      ]

  -- the second loop, until the encoding is too long; it may end the call early
  unfoldable pub grow_spans :
      ℕ
      → (List (List Span) → Option (List ℕ))
      → (State → Option Span × State)
      → ℕ
      → List (List Span)
      → State
      → Option (Option Filled × Groups g Span)
  unfolding grow_round
  grow_spans zero encode generate max_bytes members s = none
  grow_spans (suc fuel) encode generate max_bytes members s =
      grow_round (λ ms t. grow_spans fuel encode generate max_bytes ms t) generate max_bytes members
        (encode members) s

  -- the third loop on what the second one leaves
  unfoldable pub shrink_spans :
      ℕ
      → (List (List Span) → Option (List ℕ))
      → ℕ
      → Option (Option Filled × Groups g Span)
      → Option Filled
  unfolding halve_loop
  shrink_spans fuel encode max_bytes none = none
  shrink_spans fuel encode max_bytes (some (some filled, groups)) = some filled
  shrink_spans fuel encode max_bytes (some (none, (none, s))) = some panicked
  shrink_spans fuel encode max_bytes (some (none, (some members, s))) =
      halve_loop fuel encode members max_bytes (length members)

  -- `TraceAgent::to_bytes` after its first loop
  unfoldable pub fill_spans :
      ℕ
      → (List (List Span) → Option (List ℕ))
      → (State → Option Span × State)
      → ℕ
      → Option (Groups g Span)
      → Option Filled
  unfolding grow_spans shrink_spans
  fill_spans fuel encode generate max_bytes none = none
  fill_spans fuel encode generate max_bytes (some (none, s)) = some panicked
  fill_spans fuel encode generate max_bytes (some (some members, s)) =
      shrink_spans fuel encode max_bytes (grow_spans fuel encode generate max_bytes members s)

  -- `TraceAgent::to_bytes`, each loop with the same bound on its rounds
  unfoldable pub trace_agent_to_bytes :
      ℕ
      → (List (List Span) → Option (List ℕ))
      → (State → Option Span × State)
      → ℕ
      → State
      → Option Filled
  unfolding group_spans fill_spans
  trace_agent_to_bytes fuel encode generate max_bytes s =
      fill_spans fuel encode generate max_bytes (group_spans fuel generate 10000 [] s)
