-- ===== src/Payload/Traced.antt =====
-- When filling a block with fluent messages or with spans ends.
use lading.Prelude.{
  le→not-ltb, ℕ, zero, suc, ◌+◌, ◌/◌, ◌≤◌, ◌<◌, ◌≡◌, refl, List, [], ◌∷◌, ◌++◌, Bool-cases, inl,
  inr, Option, some, none, length, length-append, take, sum_by-append, ltb, lt→ltb, arith,
  not-ltb→le,
}
use lading.Random.{Rng}
use lading.Payload.Halving.{
  Filled, failed, panicked, wrote, halve_round, halve_loop, total_length, concat, halve_fluent,
  cons_members, generate_members, grow_fluent_round, grow_fluent, finish_fluent, fluent_to_bytes,
  datadog_logs_to_bytes,
}
use lading.Payload.Halved.{FilledWithin, datadog_logs_to_bytes-FilledWithin}
use lading.Payload.Traces.{
  Groups, group_spans, grow_round, grow_spans, shrink_spans, fill_spans, trace_agent_to_bytes,
}

-- A payload that ends: with at most so many bytes, or with a panic where there is a reason for it.
abbrev pub WrittenOr : Type 0 → ℕ → Option Filled → Type 0
WrittenOr P n none = ⊥
WrittenOr P n (some (wrote bytes)) = length bytes ≤ n
WrittenOr P n (some failed) = ⊥
WrittenOr P n (some panicked) = P

length-concat : (members : List (List ℕ)) → length (concat members) ≡ total_length members
length-concat [] = refl
length-concat (m ∷ members) = omega (arith, length-append m (concat members), length-concat members)

halve_fluent-WrittenOr :
    (P : Type 0) (fuel : ℕ) (members : List (List ℕ)) (n high : ℕ)
    → high < fuel
    → WrittenOr P n (halve_fluent fuel members n high)
unfolding halve_fluent
halve_fluent-WrittenOr P zero members n high h = absurd (omega arith)
halve_fluent-WrittenOr P (suc fuel) members n zero h =
    rw (le→not-ltb n 0 (omega arith)) (omega arith)
halve_fluent-WrittenOr P (suc fuel) members n (suc high) h =
    elim (Bool-cases (ltb n (total_length (take (suc high) members)))) [
      | inl long ↦
          rw long (halve_fluent-WrittenOr P fuel members n (suc high / 2) (omega (arith, h)))
      | inr short ↦ rw short (
          omega (
            arith,
            length-concat (take (suc high) members),
            not-ltb→le n (total_length (take (suc high) members)) short,
          ))
    ]

-- how a payload ends, without the generator
abbrev pub ending {ℓ} : {S : Type ℓ} → Option (Filled × S) → Option Filled
ending none = none
ending (some (filled, s)) = some filled

-- New members that have a byte together, or a reason for the error of one of them.
abbrev HasBytes {ℓ} : {S : Type ℓ} → Type 0 → Option (List (List ℕ)) × S → Type 0
HasBytes P (none, s) = P
HasBytes P (some members, s) = 0 < total_length members

module _ (g : Rng) where
  open g use {State}

  -- Every encoded member has a byte.
  abbrev pub NoneEmpty : (State → Option (List ℕ) × State) → Type 0
  NoneEmpty generate = (s : State) (m : List ℕ) → (generate s).0 ≡ some m → 0 < length m

  -- The generation of some member fails.
  abbrev pub SomeFails : (State → Option (List ℕ) × State) → Type 0
  SomeFails generate = (s : State) × ((generate s).0 ≡ none)

  cons_members-HasBytes :
      (P : Type 0) (more : State → Option (List (List ℕ)) × State) (m : Option (List ℕ)) (s : State)
      → (m ≡ none → P)
      → ((t : State) → (more t).0 ≡ none → P)
      → ((b : List ℕ) → m ≡ some b → 0 < length b)
      → HasBytes P (cons_members g more m s)
  unfolding cons_members
  cons_members-HasBytes P more none s p q h = p refl
  cons_members-HasBytes P more (some m) s p q h = go (more s).0 (q s)
    where
      go :
          (o : Option (List (List ℕ)))
          → (o ≡ none → P)
          → HasBytes {S = State} P
              (elim o [ none ↦ (none, (more s).1) | some ms ↦ (some (m ∷ ms), (more s).1) ])
      go none r = r refl
      go (some ms) r = omega (arith, h m refl)

  cons_members-none :
      (P : Type 0) (more : State → Option (List (List ℕ)) × State) (m : Option (List ℕ)) (s : State)
      → (m ≡ none → P)
      → ((t : State) → (more t).0 ≡ none → P)
      → (cons_members g more m s).0 ≡ none
      → P
  unfolding cons_members
  cons_members-none P more none s p q e = p refl
  cons_members-none P more (some m) s p q e = go (more s).0 (q s) e
    where
      go :
          (o : Option (List (List ℕ)))
          → (o ≡ none → P)
          → (elim o as (λ x. Option (List (List ℕ)) × State) [
            | none ↦ (none, (more s).1)
            | some ms ↦ (some (m ∷ ms), (more s).1)
          ]).0
            ≡ none
          → P
      go none r e = r refl
      go (some ms) r e = absurd (ground (arith, e))

  generate_members-none :
      (generate : State → Option (List ℕ) × State) (k : ℕ) (s : State)
      → (generate_members g generate k s).0 ≡ none
      → SomeFails generate
  unfolding generate_members
  generate_members-none generate zero s e = absurd (ground (arith, e))
  generate_members-none generate (suc k) s e =
      cons_members-none (SomeFails generate) (generate_members g generate k) (generate s).0
        (generate s).1 (λ f. (s, f)) (generate_members-none generate k) e

  generate_members-HasBytes :
      (generate : State → Option (List ℕ) × State) (k : ℕ) (s : State)
      → NoneEmpty generate
      → HasBytes (SomeFails generate) (generate_members g generate (suc k) s)
  unfolding generate_members
  generate_members-HasBytes generate k s h =
      cons_members-HasBytes (SomeFails generate) (generate_members g generate k) (generate s).0
        (generate s).1 (λ f. (s, f)) (generate_members-none generate k) (λ b e. h s b e)

  some_more :
      (P : Type 0) (n fuel : ℕ) (ms : List (List ℕ))
      (again : List (List ℕ) → State → Option (Option (List (List ℕ)) × State))
      (r : Option (List (List ℕ)) × State)
      → HasBytes P r
      → ((ns : List (List ℕ)) (t : State)
          → total_length ms < total_length ns
          → WrittenOr P n (ending (finish_fluent g n (again ns t))))
      → WrittenOr P n (ending (finish_fluent g n (grow_fluent_round g again ms r)))
  unfolding grow_fluent_round finish_fluent
  some_more P n fuel ms again (none, s) b h = b
  some_more P n fuel ms again (some more, s) b h =
      h (ms ++ more) s (omega (arith, sum_by-append length ms more, b))

  finish_fluent-WrittenOr :
      (P : Type 0) (n : ℕ) (members : List (List ℕ)) (s : State)
      → WrittenOr P n (ending (finish_fluent g n (some (some members, s))))
  unfolding finish_fluent
  finish_fluent-WrittenOr P n members s =
      go (halve_fluent (suc (length members)) members n (length members))
        (halve_fluent-WrittenOr P (suc (length members)) members n (length members) (omega arith))
    where
      go :
          (o : Option Filled)
          → WrittenOr P n o
          → WrittenOr P n (ending (elim o [ none ↦ none | some f ↦ some (f, s) ]))
      go none h = h
      go (some f) h = h

  grow_fluent-WrittenOr :
      (fuel : ℕ) (generate : State → Option (List ℕ) × State) (n : ℕ) (members : List (List ℕ))
      (s : State)
      → NoneEmpty generate
      → n < fuel + total_length members
      → WrittenOr
          (SomeFails generate)
          n
          (ending (finish_fluent g n (grow_fluent g (suc fuel) generate n members s)))
  unfolding grow_fluent
  grow_fluent-WrittenOr zero generate n members s h k =
      rw (lt→ltb n (total_length members) (omega (arith, k)))
        (finish_fluent-WrittenOr (SomeFails generate) n members s)
  grow_fluent-WrittenOr (suc fuel) generate n members s h k =
      elim (Bool-cases (ltb n (total_length members))) [
        | inl long ↦ rw long (finish_fluent-WrittenOr (SomeFails generate) n members s)
        | inr short ↦ rw short (
            some_more (SomeFails generate) n fuel members
              (λ ms t. grow_fluent g (suc fuel) generate n ms t) (generate_members g generate 10 s)
              (generate_members-HasBytes generate 9 s h)
              (λ ns t l. grow_fluent-WrittenOr fuel generate n ns t h (omega (arith, k, l))))
      ]

  fluent_to_bytes-WrittenOr :
      (generate : State → Option (List ℕ) × State) (n : ℕ) (s : State)
      → NoneEmpty generate
      → WrittenOr (SomeFails generate) n (ending (fluent_to_bytes g (suc (suc n)) generate n s))
  unfolding fluent_to_bytes
  fluent_to_bytes-WrittenOr generate n s h = elim (Bool-cases (ltb n 16)) [
    | inl small ↦ rw small (omega arith)
    | inr large ↦ rw large (
        some_more (SomeFails generate) n n [] (λ ms t. grow_fluent g (suc (suc n)) generate n ms t)
          (generate_members g generate 10 s) (generate_members-HasBytes generate 9 s h)
          (λ ns t l. grow_fluent-WrittenOr (suc n) generate n ns t h (omega (arith, l))))
  ]

  -- For every generator and encoder, `DatadogLog::to_bytes` ends, with an error or with at most as many
  -- bytes as it was told, and does not panic. With a generator whose encoded members are not empty,
  -- `Fluent::to_bytes` ends within two rounds of its loops more than there are bytes, without an error:
  -- with at most as many bytes as it was told, or with a panic, but only where the generation of some
  -- member fails.
  pub halving-FilledWithin :
      {M : Type 0} (logs : State → Option M × State) (encode : List M → Option (List ℕ))
      (generate : State → Option (List ℕ) × State) (n : ℕ) (s : State)
      → NoneEmpty generate
      → FilledWithin n (datadog_logs_to_bytes g logs encode n s).0
        × WrittenOr (SomeFails generate) n (ending (fluent_to_bytes g (suc (suc n)) generate n s))
  halving-FilledWithin logs encode generate n s h = (
    datadog_logs_to_bytes-FilledWithin g logs encode n s,
    fluent_to_bytes-WrittenOr generate n s h,
  )

-- The loop never ends: with no bound on its rounds does it come to bytes or an error.
abbrev pub NeverEnds : Option Filled → Type 0
NeverEnds none = Unit {0}
NeverEnds (some panicked) = Unit {0}
NeverEnds (some failed) = ⊥
NeverEnds (some (wrote bytes)) = ⊥

module _ (g : Rng) {Span : Type 0} where
  open g use {State}

  -- No groups of spans have an encoding of at most so many bytes, and encoding does not fail.
  abbrev pub TooLong : ℕ → (List (List Span) → Option (List ℕ)) → Type 0
  TooLong n encode =
      (members : List (List Span))
      → (bytes : List ℕ) × (encode members ≡ some bytes) × (n < length bytes)

  halve_loop-NeverEnds :
      (fuel : ℕ) (encode : List (List Span) → Option (List ℕ)) (members : List (List Span))
      (n high : ℕ)
      → TooLong n encode
      → NeverEnds (halve_loop fuel encode members n high)
  unfolding halve_loop halve_round
  halve_loop-NeverEnds zero encode members n high h = tt
  halve_loop-NeverEnds (suc fuel) encode members n high h =
      let (bytes, e, l) = h (take high members) in
      rw e
        (rw (lt→ltb n (length bytes) l) (halve_loop-NeverEnds fuel encode members n (high / 2) h))

  grow_spans-NeverEnds :
      (fuel k : ℕ) (encode : List (List Span) → Option (List ℕ))
      (generate : State → Option Span × State) (n : ℕ) (members : List (List Span)) (s : State)
      → TooLong n encode
      → NeverEnds (shrink_spans g k encode n (grow_spans g fuel encode generate n members s))
  unfolding grow_spans grow_round shrink_spans
  grow_spans-NeverEnds zero k encode generate n members s h = tt
  grow_spans-NeverEnds (suc fuel) k encode generate n members s h =
      let (bytes, e, l) = h members in
      rw e (
        rw (lt→ltb n (length bytes) l) (halve_loop-NeverEnds k encode members n (length members) h))

  fill_spans-NeverEnds :
      (fuel : ℕ) (encode : List (List Span) → Option (List ℕ))
      (generate : State → Option Span × State) (n : ℕ) (groups : Option (Groups g Span))
      → TooLong n encode
      → NeverEnds (fill_spans g fuel encode generate n groups)
  unfolding fill_spans
  fill_spans-NeverEnds fuel encode generate n none h = tt
  fill_spans-NeverEnds fuel encode generate n (some (none, s)) h = tt
  fill_spans-NeverEnds fuel encode generate n (some (some members, s)) h =
      grow_spans-NeverEnds fuel fuel encode generate n members s h

  -- With an encoder that has no encoding of at most so many bytes, not even of no spans,
  -- `TraceAgent::to_bytes` never ends, on every generator and whatever the bound on its rounds, unless
  -- a span's generation panics.
  pub trace_agent_to_bytes-NeverEnds :
      (fuel : ℕ) (encode : List (List Span) → Option (List ℕ))
      (generate : State → Option Span × State) (n : ℕ) (s : State)
      → TooLong n encode
      → NeverEnds (trace_agent_to_bytes g fuel encode generate n s)
  unfolding trace_agent_to_bytes
  trace_agent_to_bytes-NeverEnds fuel encode generate n s h =
      fill_spans-NeverEnds fuel encode generate n (group_spans g fuel generate 10000 [] s) h
