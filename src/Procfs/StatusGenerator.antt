-- ===== src/Procfs/StatusGenerator.antt =====
-- procfs.rs: `StatusGenerator`. A random number of groups is drawn by as many rounds.
use lading.Prelude.{
  ℕ, zero, suc, ◌+◌, ◌-◌, ◌^◌, List, [], ◌∷◌, Outcome, done, panicked, leb, if◌then◌else◌, Text,
  length,
}
use lading.Procfs.Numbers.{ℤ, pos, Standard, Draw, ◌>>=◌, pure, sample_pid, sample_umask}
use lading.Procfs.Proc.{sample_state}
use lading.Procfs.Stat.{assumed_nproc, assumed_thread_max}
use lading.Procfs.Masks.{
  SeccompMode, disabled, strict, filter, sample_seccomp, single, range_inclusive,
}
use lading.Procfs.StoreBypass.{sample_store_bypass}
use lading.Procfs.IndirectBranch.{sample_indirect_branch}
use lading.Procfs.Status.{Status}

-- `TASK_NAME_LEN`
abbrev pub task_name_len : ℕ
task_name_len = 64

-- `SECCOMP_FILTER_MAX`
abbrev pub seccomp_filter_max : ℕ
seccomp_filter_max = 6553

-- `ASSUMED_NGROUPS_MAX`
abbrev pub assumed_ngroups_max : ℕ
assumed_ngroups_max = 32

pub record StatusGenerator : Type 0 where
  pub pid : ℤ
  pub name : Text

-- `StatusGenerator::new`
unfoldable pub new : ℤ → Text → Outcome StatusGenerator
new pid name =
    if leb (length name) task_name_len then done (record { pid = pid; name = name }) else panicked

-- the mask of the processors from one on, each of a bit of its own
unfoldable pub cpu_mask : ℕ → ℕ → ℕ
cpu_mask zero i = 0
cpu_mask (suc n) i = 2 ^ i + cpu_mask n (i + 1)

module _ (r : Standard) where
  open r use {rng}
  open rng use {State}

  -- the number of filters of a mode
  unfoldable pub sample_filters : SeccompMode → Draw State ℤ
  sample_filters filter s =
      let (filters, s') = r.range_32 1 seccomp_filter_max s in (pos filters, s')
  sample_filters disabled s = (pos 0, s)
  sample_filters strict s = (pos 0, s)

  -- the loop over the groups
  unfoldable pub sample_groups : ℕ → Draw State (List ℕ)
  sample_groups zero s = ([], s)
  sample_groups (suc ngroups) s =
      let (group, s') = r.gen_u32 s in
      let (groups, s'') = sample_groups ngroups s' in (group ∷ groups, s'')

  -- `StatusGenerator::generate`; that 32 groups are no more than `NGROUPS_MAX` is asserted of constants
  unfoldable pub generate : StatusGenerator → Draw State Status
  unfolding sample_filters sample_groups cpu_mask sample_pid sample_umask sample_state
      sample_seccomp sample_store_bypass sample_indirect_branch
  generate self = do
    uid ← r.gen_u32
    seccomp ← sample_seccomp r
    seccomp_filters ← sample_filters seccomp
    ngroups ← rng.draw_range 0 (assumed_ngroups_max + 1)
    groups ← sample_groups ngroups
    umask ← sample_umask r
    state ← sample_state r
    ppid ← sample_pid r
    fd_size ← r.gen_u64
    vm_peak ← r.gen_u64
    vm_size ← r.gen_u64
    vm_lck ← r.gen_u64
    vm_pin ← r.gen_u64
    vm_hwm ← r.gen_u64
    vm_rss ← r.gen_u64
    rss_anon ← r.gen_u64
    rss_file ← r.gen_u64
    rss_shmem ← r.gen_u64
    vm_data ← r.gen_u64
    vm_stk ← r.gen_u64
    vm_exe ← r.gen_u64
    vm_lib ← r.gen_u64
    vm_pte ← r.gen_u64
    vm_swap ← r.gen_u64
    huge_tlb_pages ← r.gen_u64
    core_dumping ← r.gen_bool
    thp_enabled ← r.gen_bool
    threads ← r.range_32 1 (assumed_thread_max + 1)
    signals_queued ← r.gen_u32
    max_number_for_queue ← r.gen_u64
    sig_pnd ← r.gen_u64
    shd_pnd ← r.gen_u64
    sig_blk ← r.gen_u64
    sig_ign ← r.gen_u64
    sig_cgt ← r.gen_u64
    cap_inh ← r.gen_u64
    cap_prm ← r.gen_u64
    cap_eff ← r.gen_u64
    cap_bnd ← r.gen_u64
    cap_amb ← r.gen_u64
    no_new_privs ← r.gen_bool
    speculation_store_bypass ← sample_store_bypass r
    speculation_indirect_branch ← sample_indirect_branch r
    voluntary_ctxt_switches ← r.gen_u64
    nonvoluntary_ctxt_switches ← r.gen_u64
    pure (record {
      name = self.name;
      umask = umask;
      state = state;
      tgid = self.pid;
      ngid = self.pid;
      pid = self.pid;
      ppid = ppid;
      tracer_pid = pos 0;
      ruid = uid;
      euid = uid;
      suid = uid;
      fuid = uid;
      rgid = uid;
      egid = uid;
      sgid = uid;
      fgid = uid;
      fd_size = fd_size;
      groups = groups;
      ns_tgid = self.pid ∷ [];
      ns_pid = self.pid ∷ [];
      ns_pgid = self.pid ∷ [];
      ns_sid = self.pid ∷ [];
      vm_peak = vm_peak;
      vm_size = vm_size;
      vm_lck = vm_lck;
      vm_pin = vm_pin;
      vm_hwm = vm_hwm;
      vm_rss = vm_rss;
      rss_anon = rss_anon;
      rss_file = rss_file;
      rss_shmem = rss_shmem;
      vm_data = vm_data;
      vm_stk = vm_stk;
      vm_exe = vm_exe;
      vm_lib = vm_lib;
      vm_pte = vm_pte;
      vm_swap = vm_swap;
      huge_tlb_pages = huge_tlb_pages;
      core_dumping = core_dumping;
      thp_enabled = thp_enabled;
      threads = pos threads;
      sigq = record {
        signals_queued = signals_queued;
        max_number_for_queue = max_number_for_queue;
      };
      sig_pnd = sig_pnd;
      shd_pnd = shd_pnd;
      sig_blk = sig_blk;
      sig_ign = sig_ign;
      sig_cgt = sig_cgt;
      cap_inh = cap_inh;
      cap_prm = cap_prm;
      cap_eff = cap_eff;
      cap_bnd = cap_bnd;
      cap_amb = cap_amb;
      no_new_privs = no_new_privs;
      seccomp = seccomp;
      seccomp_filters = seccomp_filters;
      speculation_store_bypass = speculation_store_bypass;
      speculation_indirect_branch = speculation_indirect_branch;
      cpus_allowed = cpu_mask assumed_nproc 0 ∷ [];
      cpus_allowed_list = range_inclusive 0 (assumed_nproc - 1) ∷ [];
      mems_allowed = 0 ∷ [];
      mems_allowed_list = single 0 ∷ [];
      voluntary_ctxt_switches = voluntary_ctxt_switches;
      nonvoluntary_ctxt_switches = nonvoluntary_ctxt_switches;
    })
