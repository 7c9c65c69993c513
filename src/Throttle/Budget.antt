-- ===== src/Throttle/Budget.antt =====
-- What a valve grants over a history of requests.
use lading.Prelude.{
  ℕ, zero, suc, ◌+◌, ◌/◌, ◌≤◌, ◌<◌, ◌≡◌, List, [], ◌∷◌, arith, ltb, ◌==◌, if◌then◌else◌,
}
use lading.Throttle.Valve.{Valve, Result, ok, err, Error, interval_ticks, new, request}

-- A valve holds at most its maximum.
pub record IsValid (v : Valve) : Type 0 where
  pub within : v.capacity ≤ v.maximum_capacity

pub new-IsValid : (maximum : ℕ) → IsValid (new maximum)
unfolding new
new-IsValid maximum = record { within = omega arith }

pub request-IsValid : (v : Valve) (t r : ℕ) → IsValid v → IsValid (request v t r).0
unfolding request
request-IsValid v t r h = ground arith

pub maximum-request :
    (v : Valve) (t r : ℕ) → (request v t r).0.maximum_capacity ≡ v.maximum_capacity
unfolding request
maximum-request v t r = ground arith

-- A request fails exactly when it is larger than the maximum, and then changes nothing.
pub request_error :
    (v : Valve) (t r : ℕ)
    → (v.maximum_capacity < r → request v t r ≡ (v, err Error.capacity))
      × (((request v t r).1 ≡ err Error.capacity) → v.maximum_capacity < r)
unfolding request
request_error v t r = (λ h. ground arith, λ h. ground arith)

-- After a request that does not fail the interval is that of the clock, or a later one that the
-- valve had already reached.
pub interval-request :
    (v : Valve) (t r : ℕ)
    → r ≤ v.maximum_capacity
    → v.interval ≤ t / interval_ticks
    → (request v t r).0.interval ≡ t / interval_ticks
unfolding request
interval-request v t r h k = ground arith

-- What a caller has got by an answer: all that it asked for, or nothing.
abbrev pub granted : Result ℕ → ℕ → ℕ
granted (err e) r = 0
granted (ok zero) r = r
granted (ok (suc slop)) r = 0

-- The sum of the grants that a history of requests, pairs of a clock reading and an amount, gets in
-- interval `k`.
unfoldable pub grants : Valve → List (ℕ × ℕ) → ℕ → ℕ
grants v [] k = 0
grants v ((t, r) ∷ rest) k =
    (if t / interval_ticks == k then granted (request v t r).1 r else 0)
    + grants (request v t r).0 rest k

-- The readings do not fall, from `t` on.
abbrev pub Rising : ℕ → List (ℕ × ℕ) → Type 0
Rising t [] = Unit {0}
Rising t ((u, r) ∷ rest) = (t ≤ u) × Rising u rest

-- What can still be granted in interval `k`.
abbrev left_in : Valve → ℕ → ℕ
left_in v k =
    if ltb k v.interval then 0 else if k == v.interval then v.capacity else v.maximum_capacity

granted-left :
    (v : Valve) (t r k : ℕ)
    → IsValid v
    → v.interval ≤ t / interval_ticks
    → (if t / interval_ticks == k then granted (request v t r).1 r else 0)
        + left_in (request v t r).0 k
      ≤ left_in v k
unfolding request
granted-left v t r k h m = ground arith

div_mono : (t u : ℕ) → t ≤ u → t / interval_ticks ≤ u / interval_ticks
div_mono t u h = omega arith

interval-le :
    (v : Valve) (t r : ℕ)
    → v.interval ≤ t / interval_ticks
    → (request v t r).0.interval ≤ t / interval_ticks
unfolding request
interval-le v t r h = ground arith

grants-left :
    (v : Valve) (t : ℕ) (cs : List (ℕ × ℕ)) (k : ℕ)
    → IsValid v
    → v.interval ≤ t / interval_ticks
    → Rising t cs
    → grants v cs k ≤ left_in v k
unfolding grants
grants-left v t [] k h m s = omega arith
grants-left v t ((u, r) ∷ rest) k h m s =
    let m' : v.interval ≤ u / interval_ticks = omega (arith, div_mono t u s.0) in
    omega (
      arith,
      granted-left v u r k h m',
      grants-left (request v u r).0 u rest k (request-IsValid v u r h) (interval-le v u r m') s.1,
    )

left_in-new : (maximum k : ℕ) → left_in (new maximum) k ≤ maximum
unfolding new
left_in-new maximum k = ground arith

-- Of a new valve, over every history of requests whose clock readings do not fall, the amounts
-- granted in any one interval add up to at most the maximum capacity.
pub grants-le-maximum :
    (maximum : ℕ) (cs : List (ℕ × ℕ)) (k : ℕ) → Rising 0 cs → grants (new maximum) cs k ≤ maximum
grants-le-maximum maximum cs k s = omega (
  arith,
  left_in-new maximum k,
  grants-left (new maximum) 0 cs k (new-IsValid maximum) (unfold new in omega arith) s,
)
