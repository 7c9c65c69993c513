-- ===== src/Procfs/Process.antt =====
-- procfs.rs: `Process`, `ProcessGenerator` and `fixed`.
use lading.Prelude.{
  ℕ, zero, suc, ◌+◌, List, [], ◌∷◌, Option, some, none, Outcome, done, ◌>>=◌, min, length, slice,
  Text,
}
use lading.Random.{gen_range}
use lading.Payload.Strings.{Pool, with_size, of_size}
use lading.Procfs.Numbers.{ℤ, pos, Standard, pid_max_limit}
use lading.Procfs.Proc.{Io, Statm, sample_io, sample_statm}
use lading.Procfs.Stat
use lading.Procfs.Stat.{Stat, task_comm_len}
use lading.Procfs.Status.{Status}
use lading.Procfs.StatusGenerator
use lading.Procfs.StatusGenerator.{task_name_len}

-- `NAME_MAX`
abbrev pub name_max : ℕ
name_max = 254

pub record Process : Type 0 where
  pub cmdline : Text
  pub comm : Text
  pub io : Io
  pub stat : Stat
  pub statm : Statm
  pub status : Status
  pub pid : ℤ

pub record ProcessGenerator : Type 0 where
  pub str_pool : Pool

-- the element and the others, where all are there
unfoldable pub collect : Option Process → Option (List Process) → Option (List Process)
collect none others = none
collect (some process) none = none
collect (some process) (some processes) = some (process ∷ processes)

module _ (r : Standard) where
  open r use {rng}
  open rng use {State}

  -- `ProcessGenerator::new`
  unfoldable pub new : State → Outcome (ProcessGenerator × State)
  new s = do (str_pool, s') ← with_size rng 1000000 s; done (record { str_pool = str_pool }, s')

  -- `ProcessGenerator::generate` once the command line has been asked for; none is an error
  unfoldable pub from_cmdline : Option Text → State → Outcome (Option Process × State)
  unfolding sample_io sample_statm
  from_cmdline none s = done (none, s)
  from_cmdline (some cmdline) s = do
    comm ← slice cmdline 0 (min task_comm_len (length cmdline))
    name ← slice cmdline 0 (min task_name_len (length cmdline))
    let (io, s1) = sample_io r s
    let (statm, s2) = sample_statm r s1
    let (pid, s3) = r.range_32 1 pid_max_limit s2
    stat_gen ← Stat.new (pos pid) comm
    let (stat, s4) = Stat.generate r stat_gen s3
    status_gen ← StatusGenerator.new (pos pid) name
    let (status, s5) = StatusGenerator.generate r status_gen s4
    done (
      some (record {
        cmdline = cmdline;
        comm = comm;
        io = io;
        stat = stat;
        statm = statm;
        status = status;
        pid = pos pid;
      }),
      s5,
    )

  -- `ProcessGenerator::generate`
  unfoldable pub generate : ProcessGenerator → State → Outcome (Option Process × State)
  unfolding from_cmdline
  generate self s = do
    (cmdline_size, s') ← gen_range rng 1 (name_max + 1) s
    (cmdline, s'') ← of_size rng self.str_pool cmdline_size s'
    from_cmdline cmdline s''

  -- the loop of `fixed` over the processes to go, and what is collected of them
  unfoldable pub generate_all :
      ProcessGenerator → ℕ → State → Outcome (Option (List Process) × State)
  unfolding generate collect
  generate_all gen zero s = done (some [], s)
  generate_all gen (suc total) s = do
    (process, s') ← generate gen s
    (processes, s'') ← generate_all gen total s'
    done (collect process processes, s'')

  -- `fixed`
  unfoldable pub fixed : ℕ → State → Outcome (Option (List Process) × State)
  unfolding new generate_all
  fixed total s = do (gen, s') ← new s; generate_all gen total s'
