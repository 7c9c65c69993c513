-- ===== src/Procfs/Plausible.antt =====
-- What the generators of a stat and of a status file draw.
use lading.Prelude.{
  ℕ, zero, suc, ◌-◌, ◌^◌, ◌≤◌, ◌<◌, ◌≡◌, refl, [], ◌∷◌, arith, Text, u64_max, length,
}
use lading.Procfs.Numbers.{ℤ, pos, negsuc, difference, Standard, pid_max_limit}
use lading.Procfs.Stat
use lading.Procfs.Stat.{Stat, normal, StatGenerator}
use lading.Procfs.Masks.{SeccompMode, disabled, strict, filter, range_inclusive}
use lading.Procfs.Status.{Status}
use lading.Procfs.StatusGenerator
use lading.Procfs.StatusGenerator.{StatusGenerator, sample_groups, sample_filters}

-- An integer is a number of a range, the upper end of which is left out.
abbrev pub Within : ℕ → ℕ → ℤ → Type 0
Within lo hi (pos n) = (lo ≤ n) × (n < hi)
Within lo hi (negsuc n) = ⊥

-- The assumptions under which a `Stat` is drawn.
abbrev pub IsStatOf : ℤ → Text → Stat → Type 0
IsStatOf pid comm stat =
    (stat.pid ≡ pid)
    × (stat.pgrp ≡ pid)
    × (stat.session ≡ pid)
    × (stat.comm ≡ comm)
    × (stat.policy ≡ normal)
    × (stat.rt_priority ≡ 0)
    × ((priority : ℕ) × (stat.priority ≡ pos priority)
        × (priority < 40)
        × (stat.nice ≡ difference priority 20))
    × Within 1 33 stat.num_threads
    × Within 0 8 stat.processor
    × Within 1 (2 ^ 63 - 1) stat.rss
    × Within 1 pid_max_limit stat.ppid
    × (stat.utime ≤ u64_max)
    × (stat.stime ≤ u64_max)

-- A process has filters just in the mode for them.
abbrev pub FiltersOf : SeccompMode → ℤ → Type 0
FiltersOf disabled filters = filters ≡ pos 0
FiltersOf strict filters = filters ≡ pos 0
FiltersOf filter filters = Within 1 6553 filters

-- The assumptions under which a `Status` is drawn.
abbrev pub IsStatusOf : ℤ → Text → Status → Type 0
IsStatusOf pid name status =
    (status.name ≡ name)
    × (status.pid ≡ pid)
    × (status.tgid ≡ pid)
    × (status.ns_pid ≡ pid ∷ [])
    × (status.tracer_pid ≡ pos 0)
    × (status.euid ≡ status.ruid)
    × (status.rgid ≡ status.ruid)
    × (length status.groups ≤ 32)
    × FiltersOf status.seccomp status.seccomp_filters
    × Within 1 33 status.threads
    × (status.umask < 4096)
    × (status.cpus_allowed ≡ 255 ∷ [])
    × (status.cpus_allowed_list ≡ range_inclusive 0 7 ∷ [])

module _ (r : Standard) where
  open r use {rng, in_u64, in_range_32}
  open rng use {State, in_range}

  -- A drawn `Stat` has the process ID and the command it is drawn for, and is in its own process group
  -- and session; it has the policy that is not of real time, a priority below 40 and the nice value 20
  -- below it, one to 32 threads, a processor below eight and a resident set that is not empty.
  pub generate-IsStatOf :
      (self : StatGenerator) (s : State) → IsStatOf self.pid self.comm (Stat.generate r self s).0
  unfolding Stat.generate
  generate-IsStatOf self s = (
    refl,
    refl,
    refl,
    refl,
    refl,
    refl,
    (_, refl, (in_range 0 40 s (omega arith)).1, refl),
    in_range 1 33 _ (omega arith),
    in_range_32 0 8 _ (omega arith),
    in_range 1 (2 ^ 63 - 1) _ (omega arith),
    in_range_32 1 pid_max_limit _ (omega arith),
    in_u64 _,
    in_u64 _,
  )

  length-sample_groups : (ngroups : ℕ) (s : State) → length (sample_groups r ngroups s).0 ≡ ngroups
  unfolding sample_groups
  length-sample_groups zero s = refl
  length-sample_groups (suc ngroups) s = omega (arith, length-sample_groups ngroups (r.gen_u32 s).1)

  groups-le :
      (s : State)
      → length (sample_groups r (rng.draw_range 0 33 s).0 (rng.draw_range 0 33 s).1).0 ≤ 32
  groups-le s =
      let drawn : ℕ × State = rng.draw_range 0 33 s in
      omega (arith, length-sample_groups drawn.0 drawn.1, (in_range 0 33 s (omega arith)).1)

  sample_filters-FiltersOf :
      (mode : SeccompMode) (s : State) → FiltersOf mode (sample_filters r mode s).0
  unfolding sample_filters
  sample_filters-FiltersOf disabled s = refl
  sample_filters-FiltersOf strict s = refl
  sample_filters-FiltersOf filter s = in_range_32 1 6553 s (omega arith)

  -- A drawn `Status` has the name and the process ID it is drawn for, no tracer, all user and group
  -- IDs the same, at most 32 groups, filters just in the mode for them, one to 32 threads, a mask of
  -- twelve bits, and the eight processors both as a mask and as a range.
  pub generate-IsStatusOf :
      (self : StatusGenerator) (s : State)
      → IsStatusOf self.pid self.name (StatusGenerator.generate r self s).0
  unfolding StatusGenerator.generate
  generate-IsStatusOf self s = (
    refl,
    refl,
    refl,
    refl,
    refl,
    refl,
    refl,
    groups-le _,
    sample_filters-FiltersOf _ _,
    in_range_32 1 33 _ (omega arith),
    (in_range_32 0 4096 _ (omega arith)).1,
    refl,
    refl,
  )
