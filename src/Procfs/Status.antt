-- ===== src/Procfs/Status.antt =====
-- procfs.rs: `Status` and its text.
use lading.Prelude.{ℕ, List, [], ◌∷◌, ◌++◌, Bool, Text, codes, decimal}
use lading.Procfs.Numbers.{ℤ, signed, umask_text, concat}
use lading.Procfs.Proc.{State, as_status_code}
use lading.Procfs.Masks.{
  SigQ, SeccompMode, ListEntry, groups_text, hierarchy_text, mem_size_text, boolean_text, sigq_text,
  mask_text, seccomp_text, mask_collection_text, list_collection_text,
}
use lading.Procfs.StoreBypass.{SpeculationStoreBypass, store_bypass_text}
use lading.Procfs.IndirectBranch.{SpeculationIndirectBranch, indirect_branch_text}

pub record Status : Type 0 where
  pub name : Text
  pub umask : ℕ
  pub state : State
  pub tgid : ℤ
  pub ngid : ℤ
  pub pid : ℤ
  pub ppid : ℤ
  pub tracer_pid : ℤ
  pub ruid : ℕ
  pub euid : ℕ
  pub suid : ℕ
  pub fuid : ℕ
  pub rgid : ℕ
  pub egid : ℕ
  pub sgid : ℕ
  pub fgid : ℕ
  pub fd_size : ℕ
  pub groups : List ℕ
  pub ns_tgid : List ℤ
  pub ns_pid : List ℤ
  pub ns_pgid : List ℤ
  pub ns_sid : List ℤ
  pub vm_peak : ℕ
  pub vm_size : ℕ
  pub vm_lck : ℕ
  pub vm_pin : ℕ
  pub vm_hwm : ℕ
  pub vm_rss : ℕ
  pub rss_anon : ℕ
  pub rss_file : ℕ
  pub rss_shmem : ℕ
  pub vm_data : ℕ
  pub vm_stk : ℕ
  pub vm_exe : ℕ
  pub vm_lib : ℕ
  pub vm_pte : ℕ
  pub vm_swap : ℕ
  pub huge_tlb_pages : ℕ
  pub core_dumping : Bool
  pub thp_enabled : Bool
  pub threads : ℤ
  pub sigq : SigQ
  pub sig_pnd : ℕ
  pub shd_pnd : ℕ
  pub sig_blk : ℕ
  pub sig_ign : ℕ
  pub sig_cgt : ℕ
  pub cap_inh : ℕ
  pub cap_prm : ℕ
  pub cap_eff : ℕ
  pub cap_bnd : ℕ
  pub cap_amb : ℕ
  pub no_new_privs : Bool
  pub seccomp : SeccompMode
  pub seccomp_filters : ℤ
  pub speculation_store_bypass : SpeculationStoreBypass
  pub speculation_indirect_branch : SpeculationIndirectBranch
  pub cpus_allowed : List ℕ
  pub cpus_allowed_list : List ListEntry
  pub mems_allowed : List ℕ
  pub mems_allowed_list : List ListEntry
  pub voluntary_ctxt_switches : ℕ
  pub nonvoluntary_ctxt_switches : ℕ

-- the values of a line, each behind a tabulator
unfoldable pub tabbed : List Text → Text
tabbed [] = []
tabbed (value ∷ values) = 9 ∷ value ++ tabbed values

-- a line of the file: its name, a colon, its values and the end of the line
unfoldable pub line : Text → List Text → Text
unfolding tabbed
line name values = name ++ b':' ∷ tabbed values ++ 10 ∷ []

-- `Display` of `Status`, line by line
unfoldable pub lines : Status → List Text
unfolding line
lines status =
    line (codes "Name") (status.name ∷ [])
    ∷ line (codes "Umask") (umask_text status.umask ∷ [])
    ∷ line (codes "State") (as_status_code status.state ∷ [])
    ∷ line (codes "Tgid") (signed status.tgid ∷ [])
    ∷ line (codes "Ngid") (signed status.ngid ∷ [])
    ∷ line (codes "Pid") (signed status.pid ∷ [])
    ∷ line (codes "PPid") (signed status.ppid ∷ [])
    ∷ line (codes "TracerPid") (signed status.tracer_pid ∷ [])
    ∷ line (codes "Uid")
        (decimal status.ruid ∷ decimal status.euid ∷ decimal status.suid ∷ decimal status.fuid ∷ [])
    ∷ line (codes "Gid")
        (decimal status.rgid ∷ decimal status.egid ∷ decimal status.sgid ∷ decimal status.fgid ∷ [])
    ∷ line (codes "FDSize") (decimal status.fd_size ∷ [])
    ∷ line (codes "Groups") (groups_text status.groups ∷ [])
    ∷ line (codes "NStgid") (hierarchy_text status.ns_tgid ∷ [])
    ∷ line (codes "NSpid") (hierarchy_text status.ns_pid ∷ [])
    ∷ line (codes "NSpgid") (hierarchy_text status.ns_pgid ∷ [])
    ∷ line (codes "NSsid") (hierarchy_text status.ns_sid ∷ [])
    ∷ line (codes "VmPeak") (mem_size_text status.vm_peak ∷ [])
    ∷ line (codes "VmSize") (mem_size_text status.vm_size ∷ [])
    ∷ line (codes "VmLck") (mem_size_text status.vm_lck ∷ [])
    ∷ line (codes "VmPin") (mem_size_text status.vm_pin ∷ [])
    ∷ line (codes "VmHWM") (mem_size_text status.vm_hwm ∷ [])
    ∷ line (codes "VmRSS") (mem_size_text status.vm_rss ∷ [])
    ∷ line (codes "RssAnon") (mem_size_text status.rss_anon ∷ [])
    ∷ line (codes "RssFile") (mem_size_text status.rss_file ∷ [])
    ∷ line (codes "RssShmem") (mem_size_text status.rss_shmem ∷ [])
    ∷ line (codes "VmData") (mem_size_text status.vm_data ∷ [])
    ∷ line (codes "VmStk") (mem_size_text status.vm_stk ∷ [])
    ∷ line (codes "VmExe") (mem_size_text status.vm_exe ∷ [])
    ∷ line (codes "VmLib") (mem_size_text status.vm_lib ∷ [])
    ∷ line (codes "VmPTE") (mem_size_text status.vm_pte ∷ [])
    ∷ line (codes "VmSwap") (mem_size_text status.vm_swap ∷ [])
    ∷ line (codes "HugetlbPages") (mem_size_text status.huge_tlb_pages ∷ [])
    ∷ line (codes "CoreDumping") (boolean_text status.core_dumping ∷ [])
    ∷ line (codes "THP_enabled") (boolean_text status.thp_enabled ∷ [])
    ∷ line (codes "Threads") (signed status.threads ∷ [])
    ∷ line (codes "SigQ") (sigq_text status.sigq ∷ [])
    ∷ line (codes "SigPnd") (mask_text status.sig_pnd ∷ [])
    ∷ line (codes "ShdPnd") (mask_text status.shd_pnd ∷ [])
    ∷ line (codes "SigBlk") (mask_text status.sig_blk ∷ [])
    ∷ line (codes "SigIgn") (mask_text status.sig_ign ∷ [])
    ∷ line (codes "SigCgt") (mask_text status.sig_cgt ∷ [])
    ∷ line (codes "CapInh") (mask_text status.cap_inh ∷ [])
    ∷ line (codes "CapPrm") (mask_text status.cap_prm ∷ [])
    ∷ line (codes "CapEff") (mask_text status.cap_eff ∷ [])
    ∷ line (codes "CapBnd") (mask_text status.cap_bnd ∷ [])
    ∷ line (codes "CapAmb") (mask_text status.cap_amb ∷ [])
    ∷ line (codes "NoNewPrivs") (boolean_text status.no_new_privs ∷ [])
    ∷ line (codes "Seccomp") (seccomp_text status.seccomp ∷ [])
    ∷ line (codes "Seccomp_filters") (signed status.seccomp_filters ∷ [])
    ∷ line (codes "Speculation_Store_Bypass")
        (store_bypass_text status.speculation_store_bypass ∷ [])
    ∷ line (codes "SpeculationIndirectBranch")
        (indirect_branch_text status.speculation_indirect_branch ∷ [])
    ∷ line (codes "Cpus_allowed") (mask_collection_text status.cpus_allowed ∷ [])
    ∷ line (codes "Cpus_allowed_list") (list_collection_text status.cpus_allowed_list ∷ [])
    ∷ line (codes "Mems_allowed") (mask_collection_text status.mems_allowed ∷ [])
    ∷ line (codes "Mems_allowed_list") (list_collection_text status.mems_allowed_list ∷ [])
    ∷ line (codes "voluntary_ctxt_switches") (decimal status.voluntary_ctxt_switches ∷ [])
    ∷ line (codes "nonvoluntary_ctxt_switches") (decimal status.nonvoluntary_ctxt_switches ∷ [])
    ∷ []

-- `Display` of `Status`
unfoldable pub display : Status → Text
unfolding lines concat
display status = concat (lines status)
