-- ===== src/Throttle/Valve.antt =====
-- lading_throttle/src/stable.rs, the non-async interior: a valve that a request draws on.
-- A `u32` or a `u64` is a number; nothing in `request` can wrap.
use lading.Prelude.{ℕ, ◌-◌, ◌/◌, ◌%◌, ltb, leb, ◌==◌, if◌then◌else◌}

-- Ticks in one interval: microseconds in a second.
abbrev pub interval_ticks : ℕ
interval_ticks = 1000000

pub data Error : Type 0 where
  capacity : Error

pub data Result {ℓ} (A : Type ℓ) : Type ℓ where
  ok : A → Result A
  err : Error → Result A

pub record Valve : Type 0 where
  pub maximum_capacity : ℕ
  pub capacity : ℕ
  pub interval : ℕ

unfoldable pub new : ℕ → Valve
new maximum = record { maximum_capacity = maximum; capacity = maximum; interval = 0 }

-- the roll forward into the interval of `ticks_elapsed`
unfoldable pub roll : Valve → ℕ → Valve
roll v ticks_elapsed =
    let current_interval = ticks_elapsed / interval_ticks in
    if ltb v.interval current_interval
    then record v { capacity = v.maximum_capacity; interval = current_interval }
    else v

-- the draw on the capacity, or the ticks until the interval rolls over
unfoldable pub draw : Valve → ℕ → ℕ → Valve × Result ℕ
draw v ticks_elapsed capacity_request =
    if capacity_request == 0
    then (v, ok 0)
    else if leb capacity_request v.capacity
    then (record v { capacity = v.capacity - capacity_request }, ok 0)
    else (v, ok (interval_ticks - ticks_elapsed % interval_ticks))

unfoldable pub request : Valve → ℕ → ℕ → Valve × Result ℕ
unfolding roll draw
request v ticks_elapsed capacity_request =
    if ltb v.maximum_capacity capacity_request
    then (v, err Error.capacity)
    else draw (roll v ticks_elapsed) ticks_elapsed capacity_request
