-- ===== src/Procfs/IndirectBranch.antt =====
-- procfs.rs: `SpeculationIndirectBranch`.
use lading.Prelude.{ℕ, [], ◌∷◌, Text, codes}
use lading.Procfs.Numbers.{Standard, Draw, choice}

pub data SpeculationIndirectBranch : Type 0 where
  unsupported : SpeculationIndirectBranch
  not_affected : SpeculationIndirectBranch
  conditional_force_disabled : SpeculationIndirectBranch
  conditional_disabled : SpeculationIndirectBranch
  conditional_enabled : SpeculationIndirectBranch
  always_enabled : SpeculationIndirectBranch
  always_disabled : SpeculationIndirectBranch
  unknown : SpeculationIndirectBranch

-- `Display` of `SpeculationIndirectBranch`
unfoldable pub indirect_branch_text : SpeculationIndirectBranch → Text
indirect_branch_text unsupported = codes "unsupported"
indirect_branch_text not_affected = codes "not affected"
indirect_branch_text conditional_force_disabled = codes "conditional force disabled"
indirect_branch_text conditional_disabled = codes "conditional disabled"
indirect_branch_text conditional_enabled = codes "conditional enabled"
indirect_branch_text always_enabled = codes "always enabled"
indirect_branch_text always_disabled = codes "always disabled"
indirect_branch_text unknown = codes "unknown"

-- the value of a number; a number past the last value is never drawn
unfoldable pub indirect_branch_of : ℕ → SpeculationIndirectBranch
unfolding choice
indirect_branch_of = choice unknown (
    unsupported ∷ not_affected ∷ conditional_force_disabled ∷ conditional_disabled
    ∷ conditional_enabled ∷ always_enabled ∷ always_disabled ∷ [])

-- `sample` of `SpeculationIndirectBranch`
unfoldable pub sample_indirect_branch : (r : Standard) → Draw r.rng.State SpeculationIndirectBranch
unfolding indirect_branch_of choice
sample_indirect_branch r s = let (n, s') = r.range_32 0 8 s in (indirect_branch_of n, s')
