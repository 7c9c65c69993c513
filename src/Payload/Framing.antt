-- ===== src/Payload/Framing.antt =====
-- What a frame of dogstatsd messages is.
use lading.Prelude.{
  le→not-ltb, lt→ltb, if-true, if-false, assert-true, le→leb, ℕ, zero, suc, ◌+◌, ◌-◌, ◌*◌, ◌≤◌, ◌<◌,
  ◌≡◌, refl, ap, ◌∙◌, List, [], ◌∷◌, ◌++◌, ◌⊎◌, Bool-cases, inl, inr, Option, some, none, Outcome,
  done, panicked, ◌>>=◌, length, length-append, ltb, leb, ◌==◌, arith, not-ltb→le, u32_max,
}
use lading.Random.{Rng}
use lading.Payload.Lines.{unlines}
use lading.Payload.Members.{Generate}
use lading.Payload.Frame.{
  to_le_bytes, Collected, collect_one, write_frame, collect_member, collect, frame_members,
  to_bytes_length_prefix_framed,
}

-- the number that four bytes stand for, the lowest first
abbrev pub from_le_bytes : List ℕ → ℕ
from_le_bytes [] = 0
from_le_bytes (b ∷ bytes) = b + 256 * from_le_bytes bytes

-- A frame: nothing, or four bytes that are the length of the lines after them, which fit.
pub record IsFrame (max_bytes : ℕ) (prefix : List ℕ) (lines : List (List ℕ)) : Type 0 where
  pub prefix_length : length prefix ≡ 4
  pub announces : from_le_bytes prefix ≡ length (unlines lines)
  pub bounded : length (unlines lines) ≤ max_bytes

abbrev pub Framed : ℕ → List ℕ → Type 0
Framed n bytes =
    (bytes ≡ [])
    ⊎ ((prefix : List ℕ) × (lines : List (List ℕ)) × (bytes ≡ prefix ++ unlines lines)
        × IsFrame n prefix lines)

abbrev pub FramedResult {ℓ} : {S : Type ℓ} → ℕ → Outcome (Option (List ℕ) × S) → Type 0
FramedResult n panicked = ⊥
FramedResult n (done (none, s)) = Unit {0}
FramedResult n (done (some bytes, s)) = Framed n bytes

-- The members take what does not remain.
abbrev CollectedResult {ℓ} : {S : Type ℓ} → ℕ → Outcome (Option Collected × S) → Type 0
CollectedResult n panicked = ⊥
CollectedResult n (done (none, s)) = Unit {0}
CollectedResult n (done (some c, s)) = length (unlines c.members) + c.bytes_remaining ≡ n

from_le_bytes-to_le_bytes : (n : ℕ) → n ≤ u32_max → from_le_bytes (to_le_bytes n) ≡ n
unfolding to_le_bytes
from_le_bytes-to_le_bytes n h = omega arith

length-to_le_bytes : (n : ℕ) → length (to_le_bytes n) ≡ 4
unfolding to_le_bytes
length-to_le_bytes n = refl

collected_one {ℓ} :
    {S : Type ℓ} (n : ℕ) (line : List ℕ) (m : Outcome (Option Collected × S))
    → length line + 1 ≤ n
    → CollectedResult (n - (length line + 1)) m
    → CollectedResult n (m >>= λ r. done (collect_one line r.0, r.1))
unfolding collect_one
collected_one n line panicked h f = f
collected_one n line (done (none, s)) h f = tt
collected_one n line (done (some c, s)) h f =
    omega (arith, length-append line (10 ∷ unlines c.members), f, h)

write_frame-lines :
    (n : ℕ) (c : Collected)
    → n ≤ u32_max
    → c.bytes_remaining ≤ n
    → c.bytes_remaining < n
    → write_frame n c ≡ done (to_le_bytes (n - c.bytes_remaining) ++ unlines c.members)
unfolding write_frame
write_frame-lines n c h l m =
    if-false (c.bytes_remaining == n) _ _ (ground (arith, m))
    ∙ assert-true (leb n u32_max) _ (le→leb n u32_max h)
    ∙ assert-true (leb c.bytes_remaining u32_max) _
        (le→leb c.bytes_remaining u32_max (omega (arith, h, l)))

write_frame-Framed :
    (n : ℕ) (c : Collected)
    → n ≤ u32_max
    → length (unlines c.members) + c.bytes_remaining ≡ n
    → (bytes : List ℕ) × (write_frame n c ≡ done bytes) × Framed n bytes
unfolding write_frame
write_frame-Framed n c h e = elim (Bool-cases (c.bytes_remaining == n)) [
  | inl nothing ↦ ([], if-true (c.bytes_remaining == n) _ _ nothing, inl refl)
  | inr some_lines ↦
      let l : n - c.bytes_remaining ≡ length (unlines c.members) = omega (arith, e) in
      (
        to_le_bytes (n - c.bytes_remaining) ++ unlines c.members,
        if-false (c.bytes_remaining == n) _ _ some_lines
            ∙ assert-true (leb n u32_max) _ (le→leb n u32_max h)
            ∙ assert-true (leb c.bytes_remaining u32_max) _
                (le→leb c.bytes_remaining u32_max (omega (arith, h, e))),
        inr (
          to_le_bytes (n - c.bytes_remaining),
          c.members,
          refl,
          record {
            prefix_length = length-to_le_bytes (n - c.bytes_remaining);
            announces = from_le_bytes-to_le_bytes (n - c.bytes_remaining) (omega (arith, h)) ∙ l;
            bounded = omega (arith, e);
          },
        ),
      )
]

one_more : (n : ℕ) → 0 < n → suc n ≡ suc (suc (n - 1))
one_more n h = omega arith

module _ (g : Rng) where
  open g use {State}

  collect_member-CollectedResult :
      (again : ℕ → State → Outcome (Option Collected × State)) (n : ℕ) (e : Option (List ℕ))
      (s : State)
      → ((r : ℕ) → r < n → CollectedResult r (again r s))
      → CollectedResult n (collect_member g again n e s)
  unfolding collect_member
  collect_member-CollectedResult again n none s h = tt
  collect_member-CollectedResult again n (some line) s h =
      elim (Bool-cases (ltb n (length line + 1))) [
        | inl full ↦ rw full (omega arith)
        | inr fits ↦
            let k : length line + 1 ≤ n = not-ltb→le n (length line + 1) fits in
            rw fits (
              collected_one n line (again (n - (length line + 1)) s) k
                (h (n - (length line + 1)) (omega (arith, k))))
      ]

  collect-CollectedResult :
      (fuel : ℕ) (generate : Generate g) (n : ℕ) (s : State)
      → n < fuel
      → CollectedResult n (collect g fuel generate n s)
  unfolding collect
  collect-CollectedResult zero generate n s h = absurd (omega arith)
  collect-CollectedResult (suc fuel) generate n s h =
      collect_member-CollectedResult (λ r t. collect g fuel generate r t) n (generate s).0
        (generate s).1 (λ r k. collect-CollectedResult fuel generate r (generate s).1 (omega arith))

  frame_members-FramedResult :
      (n : ℕ) (m : Outcome (Option Collected × State))
      → n ≤ u32_max
      → CollectedResult n m
      → FramedResult n (m >>= λ r. frame_members g n r)
  unfolding frame_members
  frame_members-FramedResult n panicked h e = e
  frame_members-FramedResult n (done (none, s)) h e = tt
  frame_members-FramedResult n (done (some c, s)) h e =
      let (bytes, w, f) = write_frame-Framed n c h e in rw w f

  -- For every generator of members and number of bytes that a `u32` holds, the framed `to_bytes` ends
  -- without a panic: with an error of a member, with nothing, or with four bytes and then lines that
  -- are together no longer than the number of bytes; the four bytes are the length of the lines as a
  -- little-endian number.
  pub to_bytes_length_prefix_framed-FramedResult :
      (generate : Generate g) (n : ℕ) (s : State)
      → n ≤ u32_max
      → FramedResult n (to_bytes_length_prefix_framed g generate n s)
  unfolding to_bytes_length_prefix_framed
  to_bytes_length_prefix_framed-FramedResult generate n s h =
      frame_members-FramedResult n (collect g (suc n) generate n s) h
        (collect-CollectedResult (suc n) generate n s (omega arith))

  collect_two :
      (fuel : ℕ) (generate : Generate g) (n : ℕ) (s s' s'' : State) (line next : List ℕ)
      → generate s ≡ (some line, s')
      → generate s' ≡ (some next, s'')
      → length line + 1 ≤ n
      → n < length line + 1 + (length next + 1)
      → collect g (suc (suc fuel)) generate n s
        ≡ done (some (record { members = line ∷ []; bytes_remaining = n - (length line + 1) }), s'')
  unfolding collect collect_member collect_one
  collect_two fuel generate n s s' s'' line next e f k m = rw e (
      if-false (ltb n (length line + 1)) _ _ (le→not-ltb n (length line + 1) k)
      ∙ rw f (rw (lt→ltb (n - (length line + 1)) (length next + 1) (omega (arith, k, m))) refl))

  -- A generator whose first message leaves fewer than four of the bytes, and whose second one does not
  -- fit any more, makes the framed `to_bytes` write more bytes than it was told, for a number of bytes
  -- that a `u32` holds.
  pub to_bytes_length_prefix_framed_overshoots :
      (generate : Generate g) (n : ℕ) (s s' s'' : State) (line next : List ℕ)
      → n ≤ u32_max
      → generate s ≡ (some line, s')
      → generate s' ≡ (some next, s'')
      → length line + 1 ≤ n
      → n < length line + 1 + 4
      → n < length line + 1 + (length next + 1)
      → (bytes : List ℕ) × (to_bytes_length_prefix_framed g generate n s ≡ done (some bytes, s''))
        × (n < length bytes)
  unfolding to_bytes_length_prefix_framed frame_members
  to_bytes_length_prefix_framed_overshoots generate n s s' s'' line next h e f k l m =
      let c : Collected = record { members = line ∷ []; bytes_remaining = n - (length line + 1) } in
      let two : collect g (suc n) generate n s ≡ done (some c, s'') =
        ap (λ (k : ℕ). collect g k generate n s) (one_more n (omega (arith, k)))
        ∙ collect_two (n - 1) generate n s s' s'' line next e f k m in
      (
        to_le_bytes (n - c.bytes_remaining) ++ unlines c.members,
        rw two (rw (write_frame-lines n c h (omega (arith, k)) (omega (arith, k))) refl),
        omega (
          arith,
          length-append (to_le_bytes (n - c.bytes_remaining)) (unlines c.members),
          length-to_le_bytes (n - c.bytes_remaining),
          length-append line (10 ∷ []),
          k,
          l,
        ),
      )
