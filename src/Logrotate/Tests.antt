-- ===== src/Logrotate/Tests.antt =====
-- Tests and witnesses of the rotating filesystem.
use lading.Prelude.{ℕ, ◌≡◌, refl, inl, arith, List, [], ◌∷◌, none, Outcome, done, panicked}
use lading.Prelude.{true, some}
use lading.Prelude.{false}
use lading.Prelude.Map.{Map, get, insert, alter, map_values, keep, keys}
use lading.Logrotate.File
use lading.Logrotate.File.{File}
use lading.Logrotate.State.{Node, file, directory, State, constant}
use lading.Logrotate.Advance.{process, advance_time}
use lading.Logrotate.Every.{Ensures}
use lading.Logrotate.Sound.{AllSound}
use lading.Block.Seek.{IsValid}
use lading.Logrotate.Chain.{HasFile, Chain}
use lading.Logrotate.Turnover.{Turned, is_full, process-Turned}
use lading.Logrotate.Handles.{handle_is_valid, read}
use lading.Logrotate.Served.{Served, read-Served}
use lading.Logrotate.Growth.{advance_time-advance_time}
use lading.Logrotate.Operations.{open_at, wait_until, read_from, run, run-AllSound}

-- A file of the root directory, which grows by ten bytes a tick.
abbrev log : File
log = File.new 1 0 10 0 none

-- Files are rotated from fifteen bytes on, and two rotated ones are kept.
abbrev fresh : State
fresh = record {
  nodes =
      (1, directory (47 ∷ []) (record { children = 2 ∷ []; parent = none })) ∷ (2, file log) ∷ [];
  root_inode = 1;
  now = 0;
  initial_tick = 0;
  block_cache = record {
    idx = 0;
    blocks = record { total_bytes = 2; bytes = 7 ∷ 8 ∷ [] } ∷ [];
    total_cycle_size = 2;
  };
  max_bytes_per_file = 15;
  max_rotations = 2;
  group_names = ((97 ∷ []) ∷ (98 ∷ []) ∷ (99 ∷ []) ∷ []) ∷ [];
  next_inode = 3;
  next_file_handle = 0;
  load_profile = constant 10;
  valid_file_handles = [];
}

log-grows : (File.advance_time log 3).bytes_written ≡ 30
unfolding File.advance_time File.new
log-grows = refl

advance_time-advance_time_example :
    File.advance_time (File.advance_time log 2) 5 ≡ File.advance_time log 5
advance_time-advance_time_example = advance_time-advance_time log 2 5 (omega arith)

-- what is to be seen of the nodes: the inodes of the files with their ordinal and size
abbrev view : Node → List (ℕ × (ℕ × ℕ))
view (file f) = (f.parent, (f.ordinal, f.bytes_written)) ∷ []
view (directory name d) = []

abbrev views : Map Node → Map (List (ℕ × (ℕ × ℕ)))
views [] = []
views (entry ∷ nodes) = (entry.0, view entry.1) ∷ views nodes

abbrev outcome_views : Outcome State → Outcome (Map (List (ℕ × (ℕ × ℕ))))
outcome_views panicked = panicked
outcome_views (done s) = done (views s.nodes)

-- After two ticks the file has been rotated, and a new one has its place.
advance_time-rotates :
    outcome_views (advance_time keys fresh 2)
    ≡ done ((1, []) ∷ (2, (1, (1, 20)) ∷ []) ∷ (3, (1, (0, 10)) ∷ []) ∷ [])
unfolding advance_time File.new File.advance_time File.set_read_only File.incr_ordinal File.unlink
    get insert alter map_values keep keys
advance_time-rotates = refl

-- After six ticks the first files have fallen off the end, and are collected.
advance_time-falls_off :
    outcome_views (advance_time keys fresh 6)
    ≡ done ((1, []) ∷ (5, (1, (2, 20)) ∷ []) ∷ (6, (1, (1, 20)) ∷ []) ∷ (7, (1, (0, 10)) ∷ []) ∷ [])
unfolding advance_time File.new File.advance_time File.set_read_only File.incr_ordinal File.unlink
    get insert alter map_values keep keys
advance_time-falls_off = refl

fresh-AllSound : AllSound fresh
unfolding File.new
fresh-AllSound =
    (tt, (record { status = inl refl; observed = omega arith; word = omega arith }, tt))

run-AllSound_example : Ensures AllSound (
    run keys
      (open_at 1 2 ∷ wait_until 6 ∷ read_from 7 (record { id = 0; inode = 2 }) 3 4 ∷ [])
      fresh)
run-AllSound_example =
    run-AllSound keys
      (open_at 1 2 ∷ wait_until 6 ∷ read_from 7 (record { id = 0; inode = 2 }) 3 4 ∷ []) fresh
      fresh-AllSound

fresh-Chain : Chain fresh.nodes 0 (2 ∷ [])
unfolding get File.new
fresh-Chain =
    (record { found = log; is_there = refl; ordinal = refl; next = refl; linked = refl }, tt)

log-ordinal : log.ordinal ≡ 0
unfolding File.new
log-ordinal = refl

-- The file has been opened, and one tick later it has ten bytes.
abbrev opened : State
opened = record fresh { valid_file_handles = (0, 2) ∷ [] }

abbrev grown_log : File
grown_log = record log { bytes_written = 10; modified_tick = 1; status_tick = 1 }

abbrev grown : State
grown = record opened {
  nodes =
      (1, directory (47 ∷ []) (record { children = 2 ∷ []; parent = none }))
      ∷ (2, file grown_log)
      ∷ [];
  now = 1;
}

opened-grown : advance_time keys opened 1 ≡ done grown
unfolding advance_time File.new File.advance_time get insert alter map_values keep keys
opened-grown = refl

grown-handle : handle_is_valid grown (record { id = 0; inode = 2 }) ≡ true
unfolding handle_is_valid get
grown-handle = refl

grown-file : get grown.nodes 2 ≡ some (file grown_log)
unfolding get
grown-file = refl

cache-IsValid : IsValid grown.block_cache
cache-IsValid = record { blocks_valid = ((refl, omega arith), tt); total_size = refl }

read-Served_example :
    Served grown 3 4 grown_log (read keys opened (record { id = 0; inode = 2 }) 3 4 1)
read-Served_example =
    read-Served keys opened grown (record { id = 0; inode = 2 }) 3 4 1 grown_log opened-grown
      grown-handle grown-file cache-IsValid (omega arith) (omega arith)

fresh-file : get fresh.nodes 2 ≡ some (file log)
unfolding get
fresh-file = refl

fresh-HasFile : HasFile fresh.nodes 2 0 none
unfolding get File.new
fresh-HasFile = record { found = log; is_there = refl; ordinal = refl; next = refl; linked = refl }

log-is_written : fresh-HasFile.found.read_only ≡ false
unfolding fresh-HasFile File.new
log-is_written = refl

-- At the second tick the file has come to its size.
process-Turned_example :
    Turned fresh (is_full fresh 2 fresh-HasFile.found) 2 [] (process fresh 2 10 2)
process-Turned_example =
    process-Turned fresh 2 10 2 [] fresh-HasFile log-is_written tt (omega arith) (omega arith)
      ((omega arith, tt), (tt, tt))
