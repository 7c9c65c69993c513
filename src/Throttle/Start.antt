-- ===== src/Throttle/Start.antt =====
-- The throttle of lib.rs, from its construction on.
use lading.Prelude.{ℕ, suc, ◌≤◌, ◌≡◌, refl, Option, some, List, [], ◌∷◌, arith}
use lading.Throttle.Valve.{Valve, Result, ok, new}
use lading.Throttle.Budget.{new-IsValid}
use lading.Throttle.Stable.{Clock, Waited}
use lading.Throttle.Wait.{Keeps, Granted, wait_for-Granted}
use lading.Throttle.{Config, Throttle, new_with_config, wait_for, lift_waited}

module _ (c : Clock) where
  open c use {World, ticks_elapsed}

  -- The throttle admits every request up to `maximum`, now and after each admitted request.
  abbrev pub Fit : ℕ → Throttle → World → Type 0
  Fit maximum (Throttle.stable v) w = Keeps c v w × (v.maximum_capacity ≡ maximum)
  Fit maximum Throttle.all_out w = Unit {0}

  abbrev pub Admitted : ℕ → Option (Throttle × Result (Unit {0}) × World) → Type 0
  Admitted maximum out = (t : Throttle) × (w : World) × (out ≡ some (t, ok tt, w)) × Fit maximum t w

  pub new-Fit :
      (config : Config) (maximum : ℕ) (w : World) → Fit maximum (new_with_config config maximum) w
  unfolding new_with_config new
  new-Fit Config.stable maximum w =
      (record { valid = new-IsValid maximum; behind = omega arith }, refl)
  new-Fit Config.all_out maximum w = tt

  lift_Admitted :
      (maximum : ℕ) (v : Valve) (out : Option (Waited c))
      → v.maximum_capacity ≡ maximum
      → Granted c v out
      → Admitted maximum (lift_waited c out)
  unfolding lift_waited
  lift_Admitted maximum v out e (v', w', o, k, m) = (Throttle.stable v', w', rw o, (k, omega arith))

  pub wait_for-Admitted :
      (fuel maximum : ℕ) (t : Throttle) (r : ℕ) (w : World)
      → Fit maximum t w
      → r ≤ maximum
      → Admitted maximum (wait_for c (suc (suc fuel)) t r w)
  unfolding wait_for
  wait_for-Admitted fuel maximum (Throttle.stable v) r w f h =
      lift_Admitted maximum v _ f.1 (wait_for-Granted c fuel v r w f.0 (omega arith))
  wait_for-Admitted fuel maximum Throttle.all_out r w f h = (Throttle.all_out, w, refl, tt)

  -- Every request of a list in turn, the next one when the one before it has been admitted.
  abbrev pub AllAdmitted : ℕ → ℕ → Throttle → World → List ℕ → Type 0
  AllAdmitted fuel maximum t w [] = Unit {0}
  AllAdmitted fuel maximum t w (r ∷ rs) =
      (t' : Throttle) × (w' : World) × (wait_for c fuel t r w ≡ some (t', ok tt, w'))
      × AllAdmitted fuel maximum t' w' rs

  abbrev pub AtMost : ℕ → List ℕ → Type 0
  AtMost maximum [] = Unit {0}
  AtMost maximum (r ∷ rs) = (r ≤ maximum) × AtMost maximum rs

  all_Admitted :
      (maximum : ℕ) (t : Throttle) (w : World) (rs : List ℕ)
      → Fit maximum t w
      → AtMost maximum rs
      → AllAdmitted 2 maximum t w rs
  all_Admitted maximum t w [] f h = tt
  all_Admitted maximum t w (r ∷ rs) f h =
      let (t', w', e, f') = wait_for-Admitted 0 maximum t r w f h.0 in
      (t', w', e, all_Admitted maximum t' w' rs f' h.1)

  -- A new throttle of either configuration, used from any moment of any clock on, admits each of a
  -- list of requests that are at most the maximum capacity, and each within two rounds of the
  -- waiting loop.
  pub new_with_config-AllAdmitted :
      (config : Config) (maximum : ℕ) (w : World) (rs : List ℕ)
      → AtMost maximum rs
      → AllAdmitted 2 maximum (new_with_config config maximum) w rs
  new_with_config-AllAdmitted config maximum w rs h =
      all_Admitted maximum (new_with_config config maximum) w rs (new-Fit config maximum w) h
