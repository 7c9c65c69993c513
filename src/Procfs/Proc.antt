-- ===== src/Procfs/Proc.antt =====
-- procfs/proc.rs: `Io` and `State`; procfs.rs: `Statm`.
use lading.Prelude.{ℕ, [], ◌∷◌, ◌++◌, Text, codes, decimal}
use lading.Procfs.Numbers.{Standard, Draw, ◌>>=◌, pure, choice}

pub record Io : Type 0 where
  pub rchar : ℕ
  pub wchar : ℕ
  pub syscr : ℕ
  pub syscw : ℕ
  pub read_bytes : ℕ
  pub write_bytes : ℕ
  pub cancelled_write_bytes : ℕ

-- `Display` of `Io`
unfoldable pub io_text : Io → Text
unfolding decimal
io_text io =
    codes "rchar: "
    ++ decimal io.rchar
    ++ codes "\nwchar: "
    ++ decimal io.wchar
    ++ codes "\nsyscr: "
    ++ decimal io.syscr
    ++ codes "\nsyscw: "
    ++ decimal io.syscw
    ++ codes "\nread_bytes: "
    ++ decimal io.read_bytes
    ++ codes "\nwrite_bytes: "
    ++ decimal io.write_bytes
    ++ codes "\ncancelled_write_bytes: "
    ++ decimal io.cancelled_write_bytes

pub data State : Type 0 where
  running : State
  sleeping : State
  disk_sleep : State
  stopped : State
  tracing_stop : State
  dead : State
  zombie : State
  parked : State
  idle : State

-- `State::as_status_code`
unfoldable pub as_status_code : State → Text
as_status_code running = codes "R (running)"
as_status_code sleeping = codes "S (sleeping)"
as_status_code disk_sleep = codes "D (disk sleep)"
as_status_code stopped = codes "T (stopped)"
as_status_code tracing_stop = codes "t (tracing stop)"
as_status_code dead = codes "X (dead)"
as_status_code zombie = codes "Z (zombie)"
as_status_code parked = codes "P (parked)"
as_status_code idle = codes "I (idle)"

-- `State::as_stat_code`
unfoldable pub as_stat_code : State → Text
as_stat_code running = codes "R"
as_stat_code sleeping = codes "S"
as_stat_code disk_sleep = codes "D"
as_stat_code stopped = codes "T"
as_stat_code tracing_stop = codes "t"
as_stat_code dead = codes "X"
as_stat_code zombie = codes "Z"
as_stat_code parked = codes "P"
as_stat_code idle = codes "I"

-- the state of a number; a number past the last state is never drawn
unfoldable pub state_of : ℕ → State
unfolding choice
state_of =
    choice idle
      (running ∷ sleeping ∷ disk_sleep ∷ stopped ∷ tracing_stop ∷ dead ∷ zombie ∷ parked ∷ [])

pub record Statm : Type 0 where
  pub size : ℕ
  pub resident : ℕ
  pub shared : ℕ
  pub trs : ℕ
  pub lrs : ℕ
  pub drs : ℕ
  pub dt : ℕ

-- `Display` of `Statm`
unfoldable pub statm_text : Statm → Text
unfolding decimal
statm_text statm =
    decimal statm.size
    ++ b' ' ∷ decimal statm.resident
    ++ b' ' ∷ decimal statm.shared
    ++ b' ' ∷ decimal statm.trs
    ++ b' ' ∷ decimal statm.lrs
    ++ b' ' ∷ decimal statm.drs
    ++ b' ' ∷ decimal statm.dt

module _ (r : Standard) where
  -- `sample` of `Io`
  unfoldable pub sample_io : Draw r.rng.State Io
  sample_io = do
    rchar ← r.gen_u64
    wchar ← r.gen_u64
    syscr ← r.gen_u64
    syscw ← r.gen_u64
    read_bytes ← r.gen_u64
    write_bytes ← r.gen_u64
    cancelled_write_bytes ← r.gen_u64
    pure (record {
      rchar = rchar;
      wchar = wchar;
      syscr = syscr;
      syscw = syscw;
      read_bytes = read_bytes;
      write_bytes = write_bytes;
      cancelled_write_bytes = cancelled_write_bytes;
    })

  -- `sample` of `State`
  unfoldable pub sample_state : Draw r.rng.State State
  unfolding state_of
  sample_state s = let (n, s') = r.range_32 0 9 s in (state_of n, s')

  -- `sample` of `Statm`
  unfoldable pub sample_statm : Draw r.rng.State Statm
  sample_statm = do
    size ← r.gen_u64
    resident ← r.gen_u64
    shared ← r.gen_u64
    trs ← r.gen_u64
    drs ← r.gen_u64
    pure (record {
      size = size;
      resident = resident;
      shared = shared;
      trs = trs;
      lrs = 0;
      drs = drs;
      dt = 0;
    })
