-- ===== src/Payload/Recorded.antt =====
-- What the OpenTelemetry payloads and the static ones write.
use lading.Prelude.{
  ℕ, zero, suc, ◌+◌, ◌-◌, ◌/◌, ◌≤◌, ◌<◌, ◌≡◌, refl, List, [], ◌∷◌, Bool-cases, inl, inr, Option,
  some, none, Outcome, done, panicked, ◌>>=◌, length, All, ◌⊎◌, ◌++◌, sum_by, ltb, arith, ltb→lt,
  not-ltb→le,
}
use lading.Random.{Rng}
use lading.Payload.Halving.{Filled, failed, panicked, wrote}
use lading.Payload.Records.{
  Source, sources_below, static_written, static_to_bytes, Prost, push_member, export_round,
  export_loop, encoded, opentelemetry_to_bytes,
}

-- A result that is no panic: an error, or at most so many bytes.
abbrev pub BytesWithin {ℓ} : {S : Type ℓ} → ℕ → Outcome (Option (List ℕ) × S) → Type 0
BytesWithin n panicked = ⊥
BytesWithin n (done (none, s)) = Unit {0}
BytesWithin n (done (some bytes, s)) = length bytes ≤ n

module _ (g : Rng) (p : Prost) where
  open g use {State}
  open p use {Member, encoded_len, encode_to_vec, varint_len}

  -- Members shorter than 128 bytes, whose guessed lengths are no longer than the bytes there are.
  abbrev Budget : ℕ → Outcome (Option (List Member) × State) → Type 0
  Budget n panicked = ⊥
  Budget n (done (none, s)) = Unit {0}
  Budget n (done (some members, s)) =
      All (λ m. encoded_len m < 128) members × (sum_by (λ m. encoded_len m + 2) members ≤ n)

  abbrev pub ShortMembers : (State → Option Member × State) → Type 0
  ShortMembers generate = (s : State) (m : Member) → (generate s).0 ≡ some m → encoded_len m < 128

  pushed-Budget :
      (n : ℕ) (m : Member) (r : Outcome (Option (List Member) × State))
      → encoded_len m < 128
      → encoded_len m + 2 ≤ n
      → Budget (n - (encoded_len m + 2)) r
      → Budget n (r >>= λ q. done (push_member g p m q.0, q.1))
  unfolding push_member
  pushed-Budget n m panicked h k b = b
  pushed-Budget n m (done (none, s)) h k b = tt
  pushed-Budget n m (done (some members, s)) h k b = ((h, b.0), omega (arith, k, b.1))

  export_round-Budget :
      (again : ℕ → State → Outcome (Option (List Member) × State)) (n : ℕ) (m : Option Member)
      (s : State)
      → ((a : Member) → m ≡ some a → encoded_len a < 128)
      → ((r : ℕ) → r < n → Budget r (again r s))
      → Budget n (export_round g p again n m s)
  unfolding export_round
  export_round-Budget again n none s h k = tt
  export_round-Budget again n (some m) s h k = elim (Bool-cases (ltb n (encoded_len m + 2))) [
    | inl full ↦ rw full (tt, omega arith)
    | inr fits ↦
        let l : encoded_len m + 2 ≤ n = not-ltb→le n (encoded_len m + 2) fits in
        rw fits (
          pushed-Budget n m (again (n - (encoded_len m + 2)) s) (h m refl) l
            (k (n - (encoded_len m + 2)) (omega (arith, l))))
  ]

  export_loop-Budget :
      (fuel : ℕ) (generate : State → Option Member × State) (n : ℕ) (s : State)
      → ShortMembers generate
      → n < fuel
      → Budget n (export_loop g p fuel generate n s)
  unfolding export_loop
  export_loop-Budget zero generate n s h k = absurd (omega arith)
  export_loop-Budget (suc fuel) generate n s h k =
      export_round-Budget (λ r t. export_loop g p fuel generate r t) n (generate s).0 (generate s).1
        (λ m e. h s m e) (λ r l. export_loop-Budget fuel generate r (generate s).1 h (omega arith))

  body_length :
      (members : List Member)
      → All (λ m. encoded_len m < 128) members
      → sum_by (λ m. 1 + varint_len (encoded_len m) + encoded_len m) members
        ≡ sum_by (λ m. encoded_len m + 2) members
  body_length [] h = refl
  body_length (m ∷ members) h = omega (arith, p.short (encoded_len m) h.0, body_length members h.1)

  -- the overhead that is kept back is enough for the two messages around the members
  enough_overhead :
      (n body : ℕ)
      → 5 + (n + 126) / 127 ≤ n
      → body ≤ n - (5 + (n + 126) / 127)
      → 1 + varint_len (1 + varint_len body + body) + (1 + varint_len body + body) ≤ n
  enough_overhead n body h k = elim (Bool-cases (ltb n 128)) [
    | inl small ↦
        let l : n < 128 = ltb→lt n 128 small in
        let v : varint_len body ≡ 1 = p.short body (omega (arith, l, k, h)) in
        let w = p.short (1 + varint_len body + body) (omega (arith, v, l, k, h)) in
        omega (arith, v, w, k, h)
    | inr large ↦ elim (Bool-cases (ltb n 16384)) [
      | inl middle ↦
          let l : n < 16384 = ltb→lt n 16384 middle in
          let m : 128 ≤ n = not-ltb→le n 128 large in
          let v = p.medium body (omega (arith, l, k, h)) in
          let w = p.medium (1 + varint_len body + body) (omega (arith, v, l, k, h, m)) in
          omega (arith, v, w, k, h, m)
      | inr long ↦
          let m : 16384 ≤ n = not-ltb→le n 16384 long in
          omega (arith, p.long body, p.long (1 + varint_len body + body), k, h, m)
    ]
  ]

  encoded-BytesWithin :
      (n : ℕ) (r : Outcome (Option (List Member) × State))
      → 5 + (n + 126) / 127 ≤ n
      → Budget (n - (5 + (n + 126) / 127)) r
      → BytesWithin n (r >>= λ q. done (encoded g p q))
  unfolding encoded
  encoded-BytesWithin n panicked h b = b
  encoded-BytesWithin n (done (none, s)) h b = tt
  encoded-BytesWithin n (done (some members, s)) h b =
      let body = sum_by (λ m. 1 + varint_len (encoded_len m) + encoded_len m) members in
      let e = p.request members body (1 + varint_len body + body) refl refl in
      let k : body ≤ n - (5 + (n + 126) / 127) = omega (arith, body_length members b.0, b.1) in
      omega (arith, e, enough_overhead n body h k)

  -- With a generator of members that are shorter than 128 bytes, `to_bytes` of the OpenTelemetry
  -- payloads ends without a panic, with an error of a member or with at most as many bytes as it was
  -- told: what it keeps back is enough for the two messages around the members.
  pub opentelemetry_to_bytes-BytesWithin :
      (generate : State → Option Member × State) (n : ℕ) (s : State)
      → ShortMembers generate
      → BytesWithin n (opentelemetry_to_bytes g p generate n s)
  unfolding opentelemetry_to_bytes
  opentelemetry_to_bytes-BytesWithin generate n s h =
      elim (Bool-cases (ltb n (5 + (n + 126) / 127))) [
        | inl small ↦ rw small (omega arith)
        | inr large ↦
            let k : 5 + (n + 126) / 127 ≤ n = not-ltb→le n (5 + (n + 126) / 127) large in
            rw large (
              encoded-BytesWithin n (export_loop g p (suc n) generate (n - (5 + (n + 126) / 127)) s)
                k
                (export_loop-Budget (suc n) generate (n - (5 + (n + 126) / 127)) s h (omega arith)))
      ]

-- The source is one of some sources.
abbrev pub IsOf : Source → List Source → Type 0
IsOf source [] = ⊥
IsOf source (other ∷ sources) = (source ≡ other) ⊎ IsOf source sources

-- `choose` of the `rand` crate picks one of the items, and none only where there are none.
abbrev pub Chosen : List Source → Option Source → Type 0
Chosen [] none = Unit {0}
Chosen [] (some source) = ⊥
Chosen (other ∷ sources) none = ⊥
Chosen (other ∷ sources) (some source) = IsOf source (other ∷ sources)

abbrev pub Picks : (g : Rng) → (List Source → g.State → Option Source × g.State) → Type 0
Picks g choose = (sources : List Source) (s : g.State) → Chosen sources (choose sources s).0

-- `fill_buf` of a reader that has read nothing yet gives some first bytes of the file, and none only
-- where the file is empty.
abbrev pub IsStart : List ℕ → List ℕ → Type 0
IsStart buffer content =
    (rest : List ℕ) × (content ≡ buffer ++ rest) × ((0 < length buffer) ⊎ (content ≡ []))

abbrev pub FillsFrom : (ℕ → List ℕ) → (ℕ → Option (List ℕ)) → Type 0
FillsFrom content fill_buf =
    (path : ℕ) (buffer : List ℕ) → fill_buf path ≡ some buffer → IsStart buffer (content path)

-- What the static payload comes to: where there is no source below the number of bytes, nothing is
-- written; otherwise there is one whose file starts with what is written, or cannot be read.
abbrev pub StaticResult : (ℕ → List ℕ) → (ℕ → Option (List ℕ)) → List Source → ℕ → Filled → Type 0
StaticResult content fill_buf sources n panicked = ⊥
StaticResult content fill_buf sources n failed =
    (source : Source) × IsOf source sources × (source.byte_size < n) × (fill_buf source.path ≡ none)
StaticResult content fill_buf sources n (wrote out) =
    (All (λ (source : Source). n ≤ source.byte_size) sources × (out ≡ []))
    ⊎ ((source : Source) × IsOf source sources
        × (source.byte_size < n)
        × IsStart out (content source.path))

sources_below-IsOf :
    (n : ℕ) (source : Source) (sources : List Source)
    → IsOf source (sources_below n sources)
    → IsOf source sources × (source.byte_size < n)
unfolding sources_below
sources_below-IsOf n source [] h = absurd h
sources_below-IsOf n source (other ∷ sources) h = elim (Bool-cases (ltb other.byte_size n)) [
  | inl e ↦ elim (rw e at h) [
    | inl same ↦ (inl same, rw same (ltb→lt other.byte_size n e))
    | inr later ↦ let (i, l) = sources_below-IsOf n source sources later in (inr i, l)
  ]
  | inr e ↦ let (i, l) = sources_below-IsOf n source sources (rw e at h) in (inr i, l)
]

sources_below-nil :
    (n : ℕ) (sources : List Source)
    → sources_below n sources ≡ []
    → All (λ (source : Source). n ≤ source.byte_size) sources
unfolding sources_below
sources_below-nil n [] h = tt
sources_below-nil n (source ∷ sources) h = elim (Bool-cases (ltb source.byte_size n)) [
  | inl e ↦ absurd (ground (arith, rw e at h))
  | inr e ↦ (not-ltb→le source.byte_size n e, sources_below-nil n sources (rw e at h))
]

Chosen-none : (sources : List Source) → Chosen sources none → sources ≡ []
Chosen-none [] h = refl
Chosen-none (other ∷ sources) h = absurd h

Chosen-some :
    (sources : List Source) (source : Source) → Chosen sources (some source) → IsOf source sources
Chosen-some [] source h = absurd h
Chosen-some (other ∷ sources) source h = h

module _ (g : Rng) (content : ℕ → List ℕ) (fill_buf : ℕ → Option (List ℕ)) where
  static_written-StaticResult :
      (sources : List Source) (n : ℕ) (chosen : Option Source)
      → FillsFrom content fill_buf
      → Chosen (sources_below n sources) chosen
      → StaticResult content fill_buf sources n (static_written g fill_buf chosen)
  unfolding static_written
  static_written-StaticResult sources n none f h =
      inl (sources_below-nil n sources (Chosen-none (sources_below n sources) h), refl)
  static_written-StaticResult sources n (some source) f h = go (fill_buf source.path) refl
    where
      below : IsOf source sources × (source.byte_size < n)
      below = sources_below-IsOf n source sources (Chosen-some (sources_below n sources) source h)

      go :
          (r : Option (List ℕ))
          → fill_buf source.path ≡ r
          → StaticResult content fill_buf sources n
              (elim r [ none ↦ failed | some bytes ↦ wrote bytes ])
      go none e = (source, below.0, below.1, e)
      go (some bytes) e = inr (source, below.0, below.1, f source.path bytes e)

  -- `Static::to_bytes`, on all sources and files: where no source is below the number of bytes it writes
  -- nothing. Otherwise what it writes is the start of the file of such a source, of at least one byte
  -- unless the file is empty; it fails only where such a file cannot be read, and does not panic.
  pub static_to_bytes-StaticResult :
      (choose : List Source → g.State → Option Source × g.State) (sources : List Source) (n : ℕ)
      (s : g.State)
      → Picks g choose
      → FillsFrom content fill_buf
      → StaticResult content fill_buf sources n (static_to_bytes g choose fill_buf sources n s).0
  unfolding static_to_bytes
  static_to_bytes-StaticResult choose sources n s picks f =
      static_written-StaticResult sources n (choose (sources_below n sources) s).0 f
        (picks (sources_below n sources) s)
