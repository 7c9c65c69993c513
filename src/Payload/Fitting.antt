-- ===== src/Payload/Fitting.antt =====
-- What the payloads of lines write for a number of bytes.
use lading.Prelude.{
  ℕ, zero, suc, ◌+◌, ◌-◌, ◌≤◌, ◌<◌, ◌≡◌, refl, ap, List, [], ◌∷◌, ◌++◌, Bool-cases, inl, inr,
  Option, some, none, Outcome, done, panicked, ◌>>=◌, length, length-append, ltb, arith, not-ltb→le,
}
use lading.Random.{Rng}
use lading.Payload.Ascii.{before, write_line}
use lading.Payload.Lines.{unlines}
use lading.Payload.Members.{
  Generate, Encoding, write_members, json_to_bytes, apache_common_to_bytes, splunk_hec_to_bytes,
  dogstatsd_to_bytes, write_syslog, syslog_to_bytes,
}

-- Some lines, each with a newline after it, together no longer than a number of bytes.
pub record LinesWithin (max_bytes : ℕ) (bytes : List ℕ) : Type 0 where
  pub lines : List (List ℕ)
  pub written : bytes ≡ unlines lines
  pub bounded : length bytes ≤ max_bytes

-- A result that is no panic: an error of a member, or lines that fit.
abbrev pub Fits {ℓ} : {S : Type ℓ} → ℕ → Outcome (Option (List ℕ) × S) → Type 0
Fits n panicked = ⊥
Fits n (done (none, s)) = Unit {0}
Fits n (done (some bytes, s)) = LinesWithin n bytes

abbrev pub FitsAll {ℓ} : {S : Type ℓ} → ℕ → Outcome (List ℕ × S) → Type 0
FitsAll n panicked = ⊥
FitsAll n (done (bytes, s)) = LinesWithin n bytes

nothing_within : (n : ℕ) → LinesWithin n []
nothing_within n = record { lines = []; written = refl; bounded = omega arith }

line_within :
    (n : ℕ) (line bytes : List ℕ)
    → length line + 1 ≤ n
    → LinesWithin (n - (length line + 1)) bytes
    → LinesWithin n (line ++ 10 ∷ bytes)
line_within n line bytes h w = record {
  lines = line ∷ w.lines;
  written = ap (λ (r : List ℕ). line ++ 10 ∷ r) w.written;
  bounded = omega (arith, length-append line (10 ∷ bytes), w.bounded);
}

before-Fits {ℓ} :
    {S : Type ℓ} (n : ℕ) (line : List ℕ) (m : Outcome (Option (List ℕ) × S))
    → length line + 1 ≤ n
    → Fits (n - (length line + 1)) m
    → Fits n (m >>= λ r. done (before line r.0, r.1))
unfolding before
before-Fits n line panicked h f = f
before-Fits n line (done (none, s)) h f = tt
before-Fits n line (done (some bytes, s)) h f = line_within n line bytes h f

after-FitsAll {ℓ} :
    {S : Type ℓ} (n : ℕ) (line : List ℕ) (m : Outcome (List ℕ × S))
    → length line + 1 ≤ n
    → FitsAll (n - (length line + 1)) m
    → FitsAll n (m >>= λ r. done (line ++ 10 ∷ r.0, r.1))
after-FitsAll n line panicked h f = f
after-FitsAll n line (done (bytes, s)) h f = line_within n line bytes h f

module _ (g : Rng) where
  open g use {State}

  write_line-Fits :
      (again : ℕ → State → Outcome (Option (List ℕ) × State)) (n : ℕ) (e : Option (List ℕ))
      (s : State)
      → ((r : ℕ) → r < n → Fits r (again r s))
      → Fits n (write_line g again n e s)
  unfolding write_line
  write_line-Fits again n none s h = tt
  write_line-Fits again n (some line) s h = elim (Bool-cases (ltb n (length line + 1))) [
    | inl full ↦ rw full (nothing_within n)
    | inr fits ↦
        let k : length line + 1 ≤ n = not-ltb→le n (length line + 1) fits in
        rw fits (
          before-Fits n line (again (n - (length line + 1)) s) k
            (h (n - (length line + 1)) (omega (arith, k))))
  ]

  pub write_members-Fits :
      (fuel : ℕ) (generate : Generate g) (n : ℕ) (s : State)
      → n < fuel
      → Fits n (write_members g fuel generate n s)
  unfolding write_members
  write_members-Fits zero generate n s h = absurd (omega arith)
  write_members-Fits (suc fuel) generate n s h =
      write_line-Fits (λ r t. write_members g fuel generate r t) n (generate s).0 (generate s).1
        (λ r k. write_members-Fits fuel generate r (generate s).1 (omega arith))

  write_syslog-FitsAll :
      (fuel : ℕ) (generate : State → List ℕ × State) (n written : ℕ) (s : State)
      → n < fuel + written
      → written ≤ n
      → FitsAll (n - written) (write_syslog g fuel generate n written s)
  unfolding write_syslog
  write_syslog-FitsAll zero generate n written s h k = absurd (omega arith)
  write_syslog-FitsAll (suc fuel) generate n written s h k =
      let line = (generate s).0 in
      elim (Bool-cases (ltb n (length line + 1 + written))) [
        | inl full ↦ rw full (nothing_within (n - written))
        | inr fits ↦
            let l : length line + 1 + written ≤ n = not-ltb→le n (length line + 1 + written) fits in
            let e : n - (written + 1 + length line) ≡ n - written - (length line + 1) =
              omega arith in
            rw fits (
              after-FitsAll (n - written) line
                (write_syslog g fuel generate n (written + 1 + length line) (generate s).1)
                (omega (arith, l))
                (rw e at (
                  write_syslog-FitsAll fuel generate n (written + 1 + length line) (generate s).1
                    (omega arith) (omega (arith, l)))))
      ]

  write_syslog-from_start :
      (generate : State → List ℕ × State) (n : ℕ) (s : State)
      → FitsAll n (write_syslog g (suc n) generate n 0 s)
  write_syslog-from_start generate n s =
      let e : n - 0 ≡ n = omega arith in
      rw e at (write_syslog-FitsAll (suc n) generate n 0 s (omega arith) (omega arith))

  syslog_to_bytes-FitsAll :
      (generate : State → List ℕ × State) (n : ℕ) (s : State)
      → FitsAll n (syslog_to_bytes g generate n s)
  unfolding syslog_to_bytes
  syslog_to_bytes-FitsAll generate n s = elim (Bool-cases (ltb n 2)) [
    | inl small ↦ rw small (nothing_within n)
    | inr large ↦ rw large (write_syslog-from_start generate n s)
  ]

  -- For every generator of members and number of bytes, `to_bytes` of the payloads that write lines
  -- ends without a panic: with an error of a member, which syslog does not have, or with lines that are
  -- together no longer than that, each with a newline after it.
  pub to_bytes-Fits :
      (generate : Generate g) (encodings : Encoding → Generate g) (e : Encoding)
      (message : State → List ℕ × State) (n : ℕ) (s : State)
      → Fits n (json_to_bytes g generate n s)
        × Fits n (apache_common_to_bytes g generate n s)
        × Fits n (splunk_hec_to_bytes g e encodings n s)
        × Fits n (dogstatsd_to_bytes g generate n s)
        × FitsAll n (syslog_to_bytes g message n s)
  unfolding json_to_bytes apache_common_to_bytes splunk_hec_to_bytes dogstatsd_to_bytes
  to_bytes-Fits generate encodings e message n s = (
    write_members-Fits (suc n) generate n s (omega arith),
    write_members-Fits (suc n) generate n s (omega arith),
    write_members-Fits (suc n) (encodings e) n s (omega arith),
    write_members-Fits (suc n) generate n s (omega arith),
    syslog_to_bytes-FitsAll message n s,
  )
