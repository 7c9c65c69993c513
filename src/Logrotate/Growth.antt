-- ===== src/Logrotate/Growth.antt =====
-- How one file of model.rs grows with time.
use lading.Prelude.{ℕ, ◌+◌, ◌-◌, ◌*◌, ◌≤◌, ◌≡◌, ap, min, sat_add, u64_max, arith}
use lading.Logrotate.File
use lading.Logrotate.File.{File}

min_twice :
    (top w x y : ℕ)
    → sat_add top (sat_add top w (min x top)) (min y top) ≡ sat_add top w (min (x + y) top)
min_twice top w x y = omega arith

ticks_split : (m a b r : ℕ) → m ≤ a → a ≤ b → (a - m) * r + (b - a) * r ≡ (b - m) * r
ticks_split m a b r h k =
    let e : (a - m) + (b - a) ≡ b - m = omega arith in omega (arith, ap (λ (t : ℕ). t * r) e)

-- Advancing a file to a tick and then to a later one is advancing it to the later one at once,
-- saturation included.
pub advance_time-advance_time :
    (f : File) (a b : ℕ)
    → a ≤ b
    → File.advance_time (File.advance_time f a) b ≡ File.advance_time f b
unfolding File.advance_time
advance_time-advance_time f a b h = ground (
  arith,
  min_twice u64_max f.bytes_written ((a - f.modified_tick) * f.bytes_per_tick)
      ((b - a) * f.bytes_per_tick),
  ticks_split f.modified_tick a b f.bytes_per_tick,
)
