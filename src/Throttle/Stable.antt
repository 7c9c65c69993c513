-- ===== src/Throttle/Stable.antt =====
-- lading_throttle/src/stable.rs, `Stable`: the valve with a clock and the waiting loop.
use lading.Prelude.{ℕ, zero, suc, ◌+◌, ◌≤◌, Option, none, some}
use lading.Throttle.Valve.{Valve, Result, ok, err, request}

-- The trait `Clock`, over the state of the world. Time passes when it is read and when a caller
-- waits. The laws are those of `Instant` and `tokio::time::sleep`: readings do not fall, and a wait
-- ends no earlier than asked.
pub record Clock : Type 1 where
  pub World : Type 0
  pub ticks_elapsed : World → ℕ × World
  pub wait : ℕ → World → World
  pub steady : (w : World) → (ticks_elapsed w).0 ≤ (ticks_elapsed (ticks_elapsed w).1).0
  pub waits :
      (w : World) (n : ℕ) → (ticks_elapsed w).0 + n ≤ (ticks_elapsed (wait n (ticks_elapsed w).1)).0

-- What the waiting loop leaves: the valve, its result and the world.
abbrev pub Waited : Clock → Type 0
Waited c = Valve × Result (Unit {0}) × c.World

-- One round's answer: an error or no slop ends the loop, else the loop goes on after the wait.
unfoldable pub settle :
    (c : Clock)
    → (Valve → c.World → Option (Waited c))
    → Valve × Result ℕ
    → c.World
    → Option (Waited c)
settle c again (v, err e) w = some (v, err e, w)
settle c again (v, ok zero) w = some (v, ok tt, w)
settle c again (v, ok (suc slop)) w = again v (c.wait (suc slop) w)

-- `Stable::wait_for`; `none` means that the fuel, a bound on the rounds, ran out.
unfoldable pub wait_for : (c : Clock) → ℕ → Valve → ℕ → c.World → Option (Waited c)
unfolding settle
wait_for c zero v r w = none
wait_for c (suc fuel) v r w =
    settle c (λ v' w'. wait_for c fuel v' r w') (request v (c.ticks_elapsed w).0 r)
      (c.ticks_elapsed w).1
