-- ===== src/Throttle/Tests.antt =====
-- Tests and witnesses of the throttle.
use lading.Prelude.{ℕ, ◌+◌, ◌≤◌, ◌≡◌, refl, some, List, [], ◌∷◌, arith}
use lading.Throttle.Valve.{ok, new, request}
use lading.Throttle.Budget.{grants, grants-le-maximum}
use lading.Throttle.Stable
use lading.Throttle.Stable.{Clock}
use lading.Throttle.{Config, Throttle, new_with_config, wait_for}
use lading.Throttle.Start.{AllAdmitted, new_with_config-AllAdmitted}

-- A clock whose reading goes up by 10 each time that it is read.
abbrev ticking : Clock
ticking = record {
  World = ℕ;
  ticks_elapsed = λ w. (w, w + 10);
  wait = λ n w. w + n;
  steady = λ w. omega arith;
  waits = λ w n. omega arith;
}

-- the requests of one second, and two of the next
abbrev history : List (ℕ × ℕ)
history = (10, 60) ∷ (20, 60) ∷ (999999, 40) ∷ (1000000, 60) ∷ (1000001, 40) ∷ []

grants-history : grants (new 100) history 0 ≡ 100
unfolding grants new request
grants-history = refl

grants-le-maximum_example : grants (new 100) history 0 ≤ 100
grants-le-maximum_example = grants-le-maximum 100 history 0 (omega arith)

request_empty :
    (request (record { maximum_capacity = 9; capacity = 3; interval = 2 }) 2400000 5).1 ≡ ok 600000
unfolding request
request_empty = refl

waits_once :
    wait_for ticking 2
      (Throttle.stable (record { maximum_capacity = 9; capacity = 3; interval = 0 }))
      5
      400000
    ≡ some (
      Throttle.stable (record { maximum_capacity = 9; capacity = 4; interval = 1 }),
      ok tt,
      1000020,
    )
unfolding wait_for Stable.wait_for request
waits_once = refl

new_with_config-AllAdmitted_example :
    AllAdmitted ticking 2 9 (new_with_config Config.stable 9) 0 (9 ∷ 9 ∷ 3 ∷ [])
new_with_config-AllAdmitted_example =
    new_with_config-AllAdmitted ticking Config.stable 9 0 (9 ∷ 9 ∷ 3 ∷ []) (omega arith)
