-- ===== src/Procfs/StoreBypass.antt =====
-- procfs.rs: `SpeculationStoreBypass`.
use lading.Prelude.{ℕ, [], ◌∷◌, Text, codes}
use lading.Procfs.Numbers.{Standard, Draw, choice}

pub data SpeculationStoreBypass : Type 0 where
  unknown : SpeculationStoreBypass
  not_vulnerable : SpeculationStoreBypass
  thread_force_mitigated : SpeculationStoreBypass
  thread_mitigated : SpeculationStoreBypass
  thread_vulnerable : SpeculationStoreBypass
  globally_mitigated : SpeculationStoreBypass
  vulnerable : SpeculationStoreBypass

-- `Display` of `SpeculationStoreBypass`
unfoldable pub store_bypass_text : SpeculationStoreBypass → Text
store_bypass_text unknown = codes "unknown"
store_bypass_text not_vulnerable = codes "not vulnerable"
store_bypass_text thread_force_mitigated = codes "thread force mitigated"
store_bypass_text thread_mitigated = codes "thread mitigated"
store_bypass_text thread_vulnerable = codes "thread vulnerable"
store_bypass_text globally_mitigated = codes "globally mitigated"
store_bypass_text vulnerable = codes "vulnerable"

-- the value of a number; a number past the last value is never drawn
unfoldable pub store_bypass_of : ℕ → SpeculationStoreBypass
unfolding choice
store_bypass_of = choice vulnerable (
    unknown ∷ not_vulnerable ∷ thread_force_mitigated ∷ thread_mitigated ∷ thread_vulnerable
    ∷ globally_mitigated ∷ [])

-- `sample` of `SpeculationStoreBypass`
unfoldable pub sample_store_bypass : (r : Standard) → Draw r.rng.State SpeculationStoreBypass
unfolding store_bypass_of choice
sample_store_bypass r s = let (n, s') = r.range_32 0 7 s in (store_bypass_of n, s')
