-- ===== src/Payload/Halved.antt =====
-- What the payloads that halve write, and that they end.
use lading.Prelude.{
  le→not-ltb, ℕ, zero, suc, ◌+◌, ◌/◌, ◌≤◌, ◌<◌, ◌≡◌, refl, List, [], Bool-cases, inl, inr, Option,
  some, none, length, take, ltb, ◌==◌, arith, ltb→lt, not-ltb→le,
}
use lading.Random.{Rng}
use lading.Payload.Halving.{
  Filled, failed, panicked, wrote, halve_round, halve_while, halve_loop, generate_members,
  halve_members, datadog_logs_to_bytes,
}

-- A payload that ends without a panic: with an error, or with at most so many bytes.
abbrev pub FilledWithin : ℕ → Option Filled → Type 0
FilledWithin n none = ⊥
FilledWithin n (some (wrote bytes)) = length bytes ≤ n
FilledWithin n (some failed) = Unit {0}
FilledWithin n (some panicked) = ⊥

halve_round-FilledWithin :
    (again : ℕ → Option Filled) (n high : ℕ) (e : Option (List ℕ))
    → ((bytes : List ℕ) → e ≡ some bytes → n < length bytes → FilledWithin n (again (high / 2)))
    → FilledWithin n (halve_round again n high e)
unfolding halve_round
halve_round-FilledWithin again n high none h = tt
halve_round-FilledWithin again n high (some bytes) h = elim (Bool-cases (ltb n (length bytes))) [
  | inl long ↦ rw long (h bytes refl (ltb→lt n (length bytes) long))
  | inr short ↦ rw short (not-ltb→le n (length bytes) short)
]

module _ {M : Type 0} where
  halve_while-FilledWithin :
      (fuel : ℕ) (encode : List M → Option (List ℕ)) (members : List M) (n high : ℕ)
      → high < fuel
      → FilledWithin n (halve_while fuel encode members n high)
  unfolding halve_while
  halve_while-FilledWithin zero encode members n high h = absurd (omega arith)
  halve_while-FilledWithin (suc fuel) encode members n high h = elim (Bool-cases (high == 0)) [
    | inl nothing ↦ rw nothing (omega arith)
    | inr more ↦ rw more (
        halve_round-FilledWithin (λ half. halve_while fuel encode members n half) n high
          (encode (take high members))
          (λ bytes e l.
            halve_while-FilledWithin fuel encode members n (high / 2) (ground (arith, more, h))))
  ]

  -- The search without the test for no members ends where the encoding of no members fits.
  pub halve_loop-FilledWithin :
      (fuel : ℕ) (encode : List M → Option (List ℕ)) (members : List M) (n high : ℕ)
      (nothing : List ℕ)
      → high < fuel
      → encode [] ≡ some nothing
      → length nothing ≤ n
      → FilledWithin n (halve_loop fuel encode members n high)
  unfolding halve_loop
  halve_loop-FilledWithin zero encode members n high nothing h e k = absurd (omega arith)
  halve_loop-FilledWithin (suc fuel) encode members n zero nothing h e k =
      rw e (rw (le→not-ltb n (length nothing) k) k)
  halve_loop-FilledWithin (suc fuel) encode members n (suc high) nothing h e k =
      halve_round-FilledWithin (λ half. halve_loop fuel encode members n half) n (suc high)
        (encode (take (suc high) members))
        (λ bytes e' l.
          halve_loop-FilledWithin fuel encode members n (suc high / 2) nothing (omega (arith, h)) e
            k)

module _ (g : Rng) {M : Type 0} where
  open g use {State}

  halve_members-FilledWithin :
      (encode : List M → Option (List ℕ)) (n : ℕ) (members : Option (List M))
      → FilledWithin n (halve_members g encode n members)
  unfolding halve_members
  halve_members-FilledWithin encode n none = tt
  halve_members-FilledWithin encode n (some members) =
      halve_while-FilledWithin (suc (length members)) encode members n (length members)
        (omega arith)

  pub datadog_logs_to_bytes-FilledWithin :
      (generate : State → Option M × State) (encode : List M → Option (List ℕ)) (n : ℕ) (s : State)
      → FilledWithin n (datadog_logs_to_bytes g generate encode n s).0
  unfolding datadog_logs_to_bytes
  datadog_logs_to_bytes-FilledWithin generate encode n s = elim (Bool-cases (ltb n 220)) [
    | inl small ↦ rw small (omega arith)
    | inr large ↦
        rw large
          (halve_members-FilledWithin encode n (generate_members g generate (n / 220 + 100) s).0)
  ]
