-- ===== src/Random.antt =====
-- The random number generator that payload construction is handed: the trait `rand::Rng` of the
-- `rand` crate, over the generator's state.
use lading.Prelude.{ℕ, ◌≤◌, ◌<◌, Outcome, done, panicked, ltb, if◌then◌else◌, u64_max}

-- `gen_range(lo..hi)` draws from the half-open range where that is not empty; `gen` draws a `usize`.
pub record Rng : Type 1 where
  pub State : Type 0
  pub draw_range : ℕ → ℕ → State → ℕ × State
  pub draw : State → ℕ × State
  pub in_range :
      (lo hi : ℕ) (s : State)
      → lo < hi
      → (lo ≤ (draw_range lo hi s).0) × ((draw_range lo hi s).0 < hi)
  pub in_word : (s : State) → (draw s).0 ≤ u64_max

-- `gen_range` panics on an empty range.
abbrev pub gen_range : (g : Rng) → ℕ → ℕ → g.State → Outcome (ℕ × g.State)
gen_range g lo hi s = if ltb lo hi then done (g.draw_range lo hi s) else panicked
