-- ===== src/Logrotate/File.antt =====
-- model.rs: `File` and its methods. Ticks and bytes are `u64` and saturate where the source does;
-- the count of open handles is taken not to overflow.
use lading.Prelude.{
  ℕ, ◌+◌, ◌-◌, Bool, true, false, ◌||◌, Option, none, some, Outcome, done, ◌>>◌, assert, ltb, leb,
  if◌then◌else◌, sat_add, sat_mul, u8_max, u64_max,
}

pub record File : Type 0 where
  pub parent : ℕ
  pub bytes_written : ℕ
  pub bytes_read : ℕ
  pub created_tick : ℕ
  pub access_tick : ℕ
  pub modified_tick : ℕ
  pub status_tick : ℕ
  pub bytes_per_tick : ℕ
  pub read_only : Bool
  pub read_only_since : Option ℕ
  pub peer : Option ℕ
  pub ordinal : ℕ
  pub group_id : ℕ
  pub open_handles : ℕ
  pub unlinked : Bool
  pub max_offset_observed : ℕ

unfoldable pub new : ℕ → ℕ → ℕ → ℕ → Option ℕ → File
new parent group_id bytes_per_tick now peer = record {
  parent = parent;
  bytes_written = 0;
  bytes_read = 0;
  created_tick = now;
  access_tick = now;
  modified_tick = now;
  status_tick = now;
  bytes_per_tick = bytes_per_tick;
  read_only = false;
  read_only_since = none;
  peer = peer;
  ordinal = 0;
  group_id = group_id;
  open_handles = 0;
  unlinked = false;
  max_offset_observed = 0;
}

unfoldable pub advance_time : File → ℕ → File
advance_time f now = if leb now f.modified_tick || f.read_only then f else record f {
  bytes_written =
      sat_add u64_max f.bytes_written (sat_mul u64_max (now - f.modified_tick) f.bytes_per_tick);
  modified_tick = now;
  status_tick = now;
}

-- the update of the access time, which opening and reading share
unfoldable pub access : File → ℕ → File
access f now =
    if ltb f.access_tick now then record f { access_tick = now; status_tick = now } else f

unfoldable pub open_handle : File → ℕ → File
unfolding advance_time access
open_handle f now =
    let g = access (advance_time f now) now in record g { open_handles = g.open_handles + 1 }

unfoldable pub close : File → ℕ → Outcome File
unfolding advance_time
close f now = do
  let g = advance_time f now
  assert (ltb 0 g.open_handles)
  done (record g { open_handles = g.open_handles - 1 })

unfoldable pub unlink : File → ℕ → File
unfolding advance_time
unlink f now = record (advance_time f now) { unlinked = true }

unfoldable pub read : File → ℕ → ℕ → File
unfolding advance_time access
read f request now =
    let g = access (advance_time f now) now in
    record g { bytes_read = sat_add u64_max g.bytes_read request }

unfoldable pub set_read_only : File → ℕ → File
set_read_only f now = record f { read_only = true; read_only_since = some now }

unfoldable pub incr_ordinal : File → File
incr_ordinal f = record f { ordinal = sat_add u8_max f.ordinal 1 }
