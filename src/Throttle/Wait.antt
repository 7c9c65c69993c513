-- ===== src/Throttle/Wait.antt =====
-- The waiting loop of the stable throttle ends within two rounds.
use lading.Prelude.{
  ℕ, zero, suc, ◌+◌, ◌-◌, ◌*◌, ◌/◌, ◌%◌, ◌≤◌, ◌<◌, ◌≡◌, refl, ap, ◌∙◌, ◌⊎◌, inl, inr, Option, some,
  arith,
}
use lading.Throttle.Valve.{Valve, Result, ok, err, interval_ticks, request}
use lading.Throttle.Budget.{IsValid, request-IsValid, maximum-request, interval-request}
use lading.Throttle.Stable.{Clock, Waited, settle, wait_for}

request_cases :
    (v : Valve) (t r : ℕ)
    → r ≤ v.maximum_capacity
    → ((request v t r).1 ≡ ok 0) ⊎ ((request v t r).1 ≡ ok (interval_ticks - t % interval_ticks))
unfolding request
request_cases v t r h = ground arith

-- The answer to a request within the maximum: granted at once, or a wait that lasts exactly until
-- the next interval begins.
pub request_answer :
    (v : Valve) (t r : ℕ)
    → r ≤ v.maximum_capacity
    → ((request v t r).1 ≡ ok 0)
      ⊎ ((slop : ℕ) × ((request v t r).1 ≡ ok (suc slop))
          × (t + suc slop ≡ (t / interval_ticks + 1) * interval_ticks))
request_answer v t r h = elim (request_cases v t r h) [
  | inl e ↦ inl e
  | inr e ↦ inr (interval_ticks - t % interval_ticks - 1, e ∙ ap ok (omega arith), omega arith)
]

-- In a later interval a request within the maximum is granted at once.
request_rolled :
    (v : Valve) (t r : ℕ)
    → r ≤ v.maximum_capacity
    → v.interval < t / interval_ticks
    → (request v t r).1 ≡ ok 0
unfolding request
request_rolled v t r h k = ground arith

-- The valve has not run ahead of the clock, and holds at most its maximum.
pub record Keeps (c : Clock) (v : Valve) (w : c.World) : Type 0 where
  pub valid : IsValid v
  pub behind : v.interval ≤ (c.ticks_elapsed w).0 / interval_ticks

settle_granted :
    (c : Clock) (again : Valve → c.World → Option (Waited c)) (q : Valve × Result ℕ) (w : c.World)
    → q.1 ≡ ok 0
    → settle c again q w ≡ some (q.0, ok tt, w)
unfolding settle
settle_granted c again (v, ok zero) w h = refl
settle_granted c again (v, ok (suc n)) w h = cc
settle_granted c again (v, err e) w h = cc

settle_slop :
    (c : Clock) (again : Valve → c.World → Option (Waited c)) (q : Valve × Result ℕ) (w : c.World)
    (slop : ℕ)
    → q.1 ≡ ok (suc slop)
    → settle c again q w ≡ again q.0 (c.wait (suc slop) w)
unfolding settle
settle_slop c again (v, ok zero) w s h = cc
settle_slop c again (v, ok (suc n)) w s h = ground arith
settle_slop c again (v, err e) w s h = cc

module _ (c : Clock) where
  open c use {World, ticks_elapsed, wait}

  -- A round that follows a wait grants the request.
  second_round :
      (v : Valve) (w : World) (r slop : ℕ)
      → r ≤ v.maximum_capacity
      → v.interval ≤ (ticks_elapsed w).0 / interval_ticks
      → (ticks_elapsed w).0 + suc slop ≡ ((ticks_elapsed w).0 / interval_ticks + 1) * interval_ticks
      → (request
          (request v (ticks_elapsed w).0 r).0
          (ticks_elapsed (wait (suc slop) (ticks_elapsed w).1)).0
          r).1
        ≡ ok 0
  second_round v w r slop h k e =
      let t = (ticks_elapsed w).0 in
      request_rolled (request v t r).0 _ r (omega (arith, maximum-request v t r))
        (omega (arith, interval-request v t r h k, c.waits w (suc slop)))

  -- The loop has granted the request, and left the valve fit for the next one.
  abbrev pub Granted : Valve → Option (Waited c) → Type 0
  Granted v out =
      (v' : Valve) × (w' : World) × (out ≡ some (v', ok tt, w'))
      × Keeps c v' w'
      × (v'.maximum_capacity ≡ v.maximum_capacity)

  round-Granted :
      (fuel : ℕ) (v : Valve) (r : ℕ) (w : World)
      → IsValid v
      → r ≤ v.maximum_capacity
      → v.interval ≤ (ticks_elapsed w).0 / interval_ticks
      → (request v (ticks_elapsed w).0 r).1 ≡ ok 0
      → Granted v (wait_for c (suc fuel) v r w)
  unfolding wait_for
  round-Granted fuel v r w valid h behind e =
      let t = (ticks_elapsed w).0 in
      (
        (request v t r).0,
        (ticks_elapsed w).1,
        settle_granted c (λ x. wait_for c fuel x r) (request v t r) _ e,
        record {
          valid = request-IsValid v t r valid;
          behind = omega (arith, interval-request v t r h behind, c.steady w);
        },
        maximum-request v t r,
      )

  -- granted, seen from the valve that the loop began with
  Granted-from :
      (v q : Valve) (out : Option (Waited c))
      → q.maximum_capacity ≡ v.maximum_capacity
      → Granted q out
      → Granted v out
  Granted-from v q out e (v', w', o, k, m) = (v', w', o, k, m ∙ e)

  -- A request within the maximum is granted by the stable throttle within two rounds of its loop,
  -- on every clock; the valve is then again valid and not ahead of the clock.
  pub wait_for-Granted :
      (fuel : ℕ) (v : Valve) (r : ℕ) (w : World)
      → Keeps c v w
      → r ≤ v.maximum_capacity
      → Granted v (wait_for c (suc (suc fuel)) v r w)
  unfolding wait_for
  wait_for-Granted fuel v r w k h = elim (request_answer v (ticks_elapsed w).0 r h) [
    | inl e ↦ round-Granted (suc fuel) v r w k.valid h k.behind e
    | inr (slop, e, next) ↦
        let t = (ticks_elapsed w).0 in
        let q = request v t r in
        let w' = wait (suc slop) (ticks_elapsed w).1 in
        let behind : q.0.interval ≤ (ticks_elapsed w').0 / interval_ticks =
          omega (arith, interval-request v t r h k.behind, c.waits w (suc slop)) in
        let h' : r ≤ q.0.maximum_capacity = omega (arith, maximum-request v t r) in
        rw (settle_slop c (λ x. wait_for c (suc fuel) x r) q (ticks_elapsed w).1 slop e) (
          Granted-from v q.0 _ (maximum-request v t r) (
            round-Granted fuel q.0 r w' (request-IsValid v t r k.valid) h' behind
              (second_round v w r slop h k.behind next)))
  ]
