-- ===== src/FileGen/Child.antt =====
-- logrotate.rs: `Child` and `write_bytes`. All names of a child are in one directory, and stand for
-- their last component.
use lading.Prelude.{
  ℕ, zero, suc, ◌+◌, List, [], ◌∷◌, ◌++◌, Outcome, done, panicked, Text, decimal, ltb, length,
  if◌then◌else◌,
}
use lading.Block.Cache.{Block}
use lading.FileGen.Disk.{
  Disk, remove_existing, rename_existing, open_truncated, open_kept, write_at,
}

-- the names of the rotated files from an index on
unfoldable pub rotated_from : Text → ℕ → ℕ → List Text
rotated_from original_file_name i zero = []
rotated_from original_file_name i (suc n) =
    (original_file_name ++ (b'.' ∷ decimal i)) ∷ rotated_from original_file_name (i + 1) n

-- the names that `Child::new` makes; it is `new_child` that tests the capacity for them
unfoldable pub names_of : Text → ℕ → List Text
unfolding rotated_from
names_of original_file_name total_rotations =
    original_file_name ∷ rotated_from original_file_name 0 total_rotations

-- the variables of `spin`: the files, how far `fp` has written the first of them, and how many bytes
-- have been counted
pub record Writing : Type 0 where
  pub disk : Disk
  pub position : ℕ
  pub total_bytes_written : ℕ

-- the last of some names
unfoldable pub last_of : Text → List Text → Text
last_of name [] = name
last_of name (next ∷ names) = last_of next names

-- the loop over the indices in reverse: each file that exists gets the next name
unfoldable pub shift : List Text → Disk → Disk
unfolding rename_existing
shift [] disk = disk
shift (name ∷ []) disk = disk
shift (name ∷ next ∷ names) disk = rename_existing (shift (next ∷ names) disk) name next

-- the rotation once the file is full
unfoldable pub rotate : Text → List Text → Writing → Writing
unfolding remove_existing last_of shift open_kept
rotate name names w = record {
  disk = open_kept (shift (name ∷ names) (remove_existing w.disk (last_of name names))) name;
  position = 0;
  total_bytes_written = 0;
}

-- the block at the end of the file that `fp` writes
unfoldable pub append_block : Text → Block → Writing → Writing
unfolding write_at
append_block name blk w = record {
  disk = write_at w.disk name w.position blk.bytes;
  position = w.position + length blk.bytes;
  total_bytes_written = w.total_bytes_written + blk.total_bytes;
}

-- `write_bytes`, for a first name and the names after it
unfoldable pub write_bytes : Text → List Text → ℕ → Block → Writing → Writing
unfolding append_block rotate
write_bytes name names maximum_bytes_per_log blk w =
    let w' = append_block name blk w in
    if ltb maximum_bytes_per_log w'.total_bytes_written then rotate name names w' else w'

unfoldable pub write_blocks : Text → List Text → ℕ → List Block → Writing → Writing
unfolding write_bytes
write_blocks name names maximum_bytes_per_log [] w = w
write_blocks name names maximum_bytes_per_log (blk ∷ blks) w =
    write_blocks name names maximum_bytes_per_log blks
      (write_bytes name names maximum_bytes_per_log blk w)

-- `spin`, for the blocks that are written before the shutdown
unfoldable pub spin : List Text → ℕ → Disk → List Block → Outcome Writing
unfolding open_truncated write_blocks
spin [] maximum_bytes_per_log disk blks = panicked
spin (name ∷ names) maximum_bytes_per_log disk blks = done (
    write_blocks name names maximum_bytes_per_log blks
      (record { disk = open_truncated disk name; position = 0; total_bytes_written = 0 }))
