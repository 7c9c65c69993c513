-- ===== src/Procfs/Stat.antt =====
-- procfs.rs: `Stat`, its text and its generator.
use lading.Prelude.{
  ℕ, ◌+◌, ◌-◌, ◌^◌, List, [], ◌∷◌, ◌++◌, Outcome, done, panicked, leb, if◌then◌else◌, Text, decimal,
  length,
}
use lading.Procfs.Numbers.{
  ℤ, pos, signed, difference, concat, Standard, Draw, ◌>>=◌, pure, sample_pid, sample_device,
}
use lading.Procfs.Proc.{State, as_stat_code, sample_state}

-- `TASK_COMM_LEN`
abbrev pub task_comm_len : ℕ
task_comm_len = 16

-- `ASSUMED_NPROC`
abbrev pub assumed_nproc : ℕ
assumed_nproc = 8

-- `ASSUMED_THREAD_MAX`
abbrev pub assumed_thread_max : ℕ
assumed_thread_max = 32

pub data SchedulingPolicy : Type 0 where
  normal : SchedulingPolicy
  fifo : SchedulingPolicy
  round_robin : SchedulingPolicy
  batch : SchedulingPolicy
  idle : SchedulingPolicy
  deadline : SchedulingPolicy

-- `Display` of `SchedulingPolicy`
unfoldable pub policy_text : SchedulingPolicy → Text
unfolding decimal
policy_text normal = decimal 0
policy_text fifo = decimal 1
policy_text round_robin = decimal 2
policy_text batch = decimal 3
policy_text idle = decimal 5
policy_text deadline = decimal 6

pub record Stat : Type 0 where
  pub pid : ℤ
  pub comm : Text
  pub state : State
  pub ppid : ℤ
  pub pgrp : ℤ
  pub session : ℤ
  pub tty_nr : ℤ
  pub tpgid : ℤ
  pub flags : ℕ
  pub minflt : ℕ
  pub cminflt : ℕ
  pub majflt : ℕ
  pub cmajflt : ℕ
  pub utime : ℕ
  pub stime : ℕ
  pub cutime : ℤ
  pub cstime : ℤ
  pub priority : ℤ
  pub nice : ℤ
  pub num_threads : ℤ
  pub itrealvalue : ℤ
  pub starttime : ℕ
  pub vsize : ℕ
  pub rss : ℤ
  pub rsslim : ℕ
  pub startcode : ℕ
  pub endcode : ℕ
  pub startstack : ℕ
  pub kstkesp : ℕ
  pub kstkeip : ℕ
  pub signal : ℕ
  pub blocked : ℕ
  pub sigignore : ℕ
  pub sigcatch : ℕ
  pub wchan : ℕ
  pub nswap : ℕ
  pub cnswap : ℕ
  pub exit_signal : ℤ
  pub processor : ℤ
  pub rt_priority : ℕ
  pub policy : SchedulingPolicy
  pub delayacct_blkio_ticks : ℕ
  pub guest_time : ℕ
  pub cguest_time : ℕ
  pub start_data : ℕ
  pub end_data : ℕ
  pub start_brk : ℕ
  pub arg_start : ℕ
  pub arg_end : ℕ
  pub env_start : ℕ
  pub env_end : ℕ
  pub exit_code : ℤ

-- some fields, each with the space behind it
unfoldable pub row : List Text → Text
row [] = []
row (field ∷ fields) = field ++ b' ' ∷ row fields

-- `Display` of `Stat`, from its state on
unfoldable pub after_comm : Stat → Text
unfolding concat row
after_comm stat = concat (
    row (as_stat_code stat.state ∷ signed stat.ppid ∷ signed stat.pgrp ∷ [])
    ∷ row (
        signed stat.session
        ∷ signed stat.tty_nr
        ∷ signed stat.tpgid
        ∷ decimal stat.flags
        ∷ decimal stat.minflt
        ∷ [])
    ∷ row (
        decimal stat.cminflt
        ∷ decimal stat.majflt
        ∷ decimal stat.cmajflt
        ∷ decimal stat.utime
        ∷ decimal stat.stime
        ∷ [])
    ∷ row (
        signed stat.cutime
        ∷ signed stat.cstime
        ∷ signed stat.priority
        ∷ signed stat.nice
        ∷ signed stat.num_threads
        ∷ [])
    ∷ row (
        signed stat.itrealvalue
        ∷ decimal stat.starttime
        ∷ decimal stat.vsize
        ∷ signed stat.rss
        ∷ decimal stat.rsslim
        ∷ [])
    ∷ row (
        decimal stat.startcode
        ∷ decimal stat.endcode
        ∷ decimal stat.startstack
        ∷ decimal stat.kstkesp
        ∷ decimal stat.kstkeip
        ∷ [])
    ∷ row (
        decimal stat.signal
        ∷ decimal stat.blocked
        ∷ decimal stat.sigignore
        ∷ decimal stat.sigcatch
        ∷ decimal stat.wchan
        ∷ [])
    ∷ row (
        decimal stat.nswap
        ∷ decimal stat.cnswap
        ∷ signed stat.exit_signal
        ∷ signed stat.processor
        ∷ decimal stat.rt_priority
        ∷ [])
    ∷ row (
        policy_text stat.policy
        ∷ decimal stat.delayacct_blkio_ticks
        ∷ decimal stat.guest_time
        ∷ decimal stat.cguest_time
        ∷ [])
    ∷ decimal stat.start_data
    ∷ row (
        decimal stat.end_data
        ∷ decimal stat.start_brk
        ∷ decimal stat.arg_start
        ∷ decimal stat.arg_end
        ∷ decimal stat.env_start
        ∷ [])
    ∷ row (decimal stat.env_end ∷ [])
    ∷ signed stat.exit_code
    ∷ [])

-- `Display` of `Stat`: in its last row but one there is no space behind `start_data`
unfoldable pub display : Stat → Text
unfolding after_comm
display stat =
    (signed stat.pid ++ b' ' ∷ []) ++ (b'(' ∷ (stat.comm ++ (b')' ∷ b' ' ∷ after_comm stat)))

pub record StatGenerator : Type 0 where
  pub pid : ℤ
  pub comm : Text

-- `StatGenerator::new`
unfoldable pub new : ℤ → Text → Outcome StatGenerator
new pid comm =
    if leb (length comm) task_comm_len then done (record { pid = pid; comm = comm }) else panicked

module _ (r : Standard) where
  open r use {rng}
  open rng use {State}

  -- `StatGenerator::generate`
  unfoldable pub generate : StatGenerator → Draw State Stat
  unfolding sample_pid sample_device sample_state difference
  generate self = do
    priority ← rng.draw_range 0 40
    state ← sample_state r
    ppid ← sample_pid r
    tty_nr ← sample_device r
    tpgid ← sample_pid r
    flags ← r.gen_u32
    minflt ← r.gen_u64
    cminflt ← r.gen_u64
    majflt ← r.gen_u64
    cmajflt ← r.gen_u64
    utime ← r.gen_u64
    stime ← r.gen_u64
    cutime ← r.gen_i64
    cstime ← r.gen_i64
    num_threads ← rng.draw_range 1 (assumed_thread_max + 1)
    starttime ← r.gen_u64
    vsize ← r.gen_u64
    rss ← rng.draw_range 1 (2 ^ 63 - 1)
    rsslim ← r.gen_u64
    startcode ← r.gen_u64
    endcode ← r.gen_u64
    startstack ← r.gen_u64
    signal ← r.gen_u64
    blocked ← r.gen_u64
    sigignore ← r.gen_u64
    sigcatch ← r.gen_u64
    wchan ← r.gen_u64
    exit_signal ← r.gen_i32
    processor ← r.range_32 0 assumed_nproc
    delayacct_blkio_ticks ← r.gen_u64
    guest_time ← r.gen_u64
    cguest_time ← r.gen_u64
    start_data ← r.gen_u64
    end_data ← r.gen_u64
    start_brk ← r.gen_u64
    arg_start ← r.gen_u64
    arg_end ← r.gen_u64
    env_start ← r.gen_u64
    env_end ← r.gen_u64
    exit_code ← r.gen_i32
    pure (record {
      pid = self.pid;
      comm = self.comm;
      state = state;
      ppid = ppid;
      pgrp = self.pid;
      session = self.pid;
      tty_nr = tty_nr;
      tpgid = tpgid;
      flags = flags;
      minflt = minflt;
      cminflt = cminflt;
      majflt = majflt;
      cmajflt = cmajflt;
      utime = utime;
      stime = stime;
      cutime = cutime;
      cstime = cstime;
      priority = pos priority;
      nice = difference priority 20;
      num_threads = pos num_threads;
      itrealvalue = pos 0;
      starttime = starttime;
      vsize = vsize;
      rss = pos rss;
      rsslim = rsslim;
      startcode = startcode;
      endcode = endcode;
      startstack = startstack;
      kstkesp = 0;
      kstkeip = 0;
      signal = signal;
      blocked = blocked;
      sigignore = sigignore;
      sigcatch = sigcatch;
      wchan = wchan;
      nswap = 0;
      cnswap = 0;
      exit_signal = exit_signal;
      processor = pos processor;
      rt_priority = 0;
      policy = normal;
      delayacct_blkio_ticks = delayacct_blkio_ticks;
      guest_time = guest_time;
      cguest_time = cguest_time;
      start_data = start_data;
      end_data = end_data;
      start_brk = start_brk;
      arg_start = arg_start;
      arg_end = arg_end;
      env_start = env_start;
      env_end = env_end;
      exit_code = exit_code;
    })
