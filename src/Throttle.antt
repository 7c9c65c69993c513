-- ===== src/Throttle.antt =====
-- lading_throttle: Valve is the interior of the stable throttle, Budget and Laws prove what it
-- promises, Stable adds the clock and the waiting loop, and this file is lib.rs.
pub mod Valve
mod Budget
pub mod Stable
mod Wait
mod Start
mod Tests
use lading.Prelude.{ℕ, Option, none, some}
use Valve.{Result, ok}
use Stable.{Clock, Waited}

-- `Config`
pub data Config : Type 0 where
  all_out stable : Config

-- `Default for Config`
abbrev pub default_config : Config
default_config = stable

-- `Throttle`; the clock's state is passed beside it
pub data Throttle : Type 0 where
  stable : Valve.Valve → Throttle
  all_out : Throttle

unfoldable pub new_with_config : Config → ℕ → Throttle
new_with_config Config.stable maximum_capacity = Throttle.stable (Valve.new maximum_capacity)
new_with_config Config.all_out maximum_capacity = Throttle.all_out

module _ (c : Clock) where
  open c use {World}

  -- the throttle after the inner call
  rewrap : Waited c → Throttle × Result (Unit {0}) × World
  rewrap r = (Throttle.stable r.0, r.1, r.2)

  lift_waited : Option (Waited c) → Option (Throttle × Result (Unit {0}) × World)
  unfolding rewrap
  lift_waited none = none
  lift_waited (some r) = some (rewrap r)

  -- `Throttle::wait_for`
  unfoldable pub wait_for : ℕ → Throttle → ℕ → World → Option (Throttle × Result (Unit {0}) × World)
  unfolding lift_waited
  wait_for fuel (Throttle.stable v) request w = lift_waited (Stable.wait_for c fuel v request w)
  wait_for fuel Throttle.all_out request w = some (Throttle.all_out, ok tt, w)

  -- `Throttle::wait`
  unfoldable pub wait : ℕ → Throttle → World → Option (Throttle × Result (Unit {0}) × World)
  unfolding wait_for
  wait fuel t w = wait_for fuel t 1 w
