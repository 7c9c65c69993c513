-- ===== src/FileGen/Disk.antt =====
-- The files of a directory, by what logrotate.rs does with `tokio::fs`; that an operation of the
-- operating system fails is left out. A file's bytes include those that a `BufWriter` still holds.
use lading.Prelude.{ℕ, ◌+◌, [], ◌++◌, some, none, Text, take, drop, length}
use lading.Prelude.Names.{Names, lookup, put, unset}

abbrev pub Disk : Type 0
Disk = Names Text

-- `remove_file`, where `try_exists` finds the file
unfoldable pub remove_existing : Disk → Text → Disk
remove_existing disk path = elim (lookup disk path) [ none ↦ disk | some bytes ↦ unset disk path ]

-- `rename`, where `try_exists` finds the file that is renamed; a file of the new name is replaced
unfoldable pub rename_existing : Disk → Text → Text → Disk
rename_existing disk from to = elim (lookup disk from) [
  | none ↦ disk
  | some bytes ↦ put (unset disk from) to bytes
]

-- `OpenOptions` with `create` and `write`, and with `truncate` too
unfoldable pub open_truncated : Disk → Text → Disk
open_truncated disk path = put disk path []

unfoldable pub open_kept : Disk → Text → Disk
open_kept disk path = elim (lookup disk path) [ none ↦ put disk path [] | some bytes ↦ disk ]

-- bytes written from a position on, over those that are there
unfoldable pub write_over : Text → ℕ → Text → Text
write_over content position bytes =
    take position content ++ (bytes ++ drop (position + length bytes) content)

-- `write_all` to the file that was opened by a name
unfoldable pub write_at : Disk → Text → ℕ → Text → Disk
write_at disk path position bytes = elim (lookup disk path) [
  | none ↦ disk
  | some content ↦ put disk path (write_over content position bytes)
]
