-- ===== src/Logrotate/Handles.antt =====
-- model.rs: `open_file`, `close_file`, `lookup`, `getattr` and `read` of `State`. All of them first
-- advance time. File handle identifiers wrap at 64 bits.
use lading.Prelude.{
  ℕ, suc, ◌+◌, ◌-◌, ◌%◌, ◌^◌, min, max, List, [], Bool, false, Option, none, some, Outcome, done,
  panicked, ◌>>=◌, ◌>>◌, assert, leb, ◌==◌, if◌then◌else◌, length, expect,
}
use lading.Prelude.Map.{Map, get, insert, remove}
use lading.Block.Read.{read_at}
use lading.Logrotate.File
use lading.Logrotate.File.{File}
use lading.Logrotate.State.{Node, file, directory, State, find_child, NodeAttributes, attributes}
use lading.Logrotate.Advance.{advance_time}

pub record FileHandle : Type 0 where
  pub id : ℕ
  pub inode : ℕ

-- the part of `open_file` after the advance of time, by the node that the inode has
unfoldable pub open_node : State → ℕ → ℕ → Option Node → Option FileHandle × State
open_node s now inode none = (none, s)
open_node s now inode (some (directory name d)) = (none, s)
open_node s now inode (some (file f)) = (
  some (record { id = s.next_file_handle; inode = inode }),
  record s {
    nodes = insert s.nodes inode (file (File.open_handle f now));
    next_file_handle = (s.next_file_handle + 1) % 2 ^ 64;
    valid_file_handles = insert s.valid_file_handles s.next_file_handle inode;
  },
)

-- the part of `close_file` after the advance of time
unfoldable pub close_node : State → ℕ → FileHandle → Option Node → Outcome State
close_node s now handle none = panicked
close_node s now handle (some (directory name d)) = panicked
close_node s now handle (some (file f)) = do
  g ← File.close f now
  done (record s {
    nodes = insert s.nodes handle.inode (file g);
    valid_file_handles = remove s.valid_file_handles handle.id;
  })

-- the part of `lookup` after the advance of time
unfoldable pub lookup_node : State → List ℕ → Option Node → Outcome (Option ℕ)
unfolding find_child
lookup_node s name none = done none
lookup_node s name (some (file f)) = done none
lookup_node s name (some (directory own d)) = find_child s d.children name

-- whether a handle is still valid and for the inode that it names
unfoldable pub handle_is_valid : State → FileHandle → Bool
handle_is_valid s handle = elim (get s.valid_file_handles handle.id) [
  | none ↦ false
  | some inode ↦ inode == handle.inode
]

-- The file after a read, and the bytes of the block cache, which the source asserts to be as many as
-- were asked for. The fuel of `read_at` is one round more than there are bytes to read.
unfoldable pub read_file : State → ℕ → ℕ → ℕ → File → ℕ → Outcome (Option (List ℕ) × State)
read_file s inode offset size f now =
    if leb f.bytes_written offset
    then done (some [], s)
    else (let to_read = min (f.bytes_written - offset) size in
        let seen = record f {
          max_offset_observed = max f.max_offset_observed (offset + to_read);
        } in
        do
          read ← read_at (suc to_read) s.block_cache offset to_read
          bytes ← expect read
          assert (length bytes == to_read)
          done (
            some bytes,
            record s { nodes = insert s.nodes inode (file (File.read seen to_read now)) },
          ))

-- the part of `read` after the check of the handle
unfoldable pub read_node : State → ℕ → ℕ → ℕ → Option Node → ℕ → Outcome (Option (List ℕ) × State)
unfolding read_file
read_node s inode offset size none now = done (none, s)
read_node s inode offset size (some (directory name d)) now = done (none, s)
read_node s inode offset size (some (file f)) now = read_file s inode offset size f now

module _ (order : Map Node → List ℕ) where
  -- `open_file`
  unfoldable pub open_file : State → ℕ → ℕ → Outcome (Option FileHandle × State)
  unfolding open_node
  open_file s now inode = do
    s' ← advance_time order s now
    done (open_node s' now inode (get s'.nodes inode))

  -- `close_file`
  unfoldable pub close_file : State → ℕ → FileHandle → Outcome State
  unfolding close_node
  close_file s now handle = do
    s' ← advance_time order s now
    close_node s' now handle (get s'.nodes handle.inode)

  -- `lookup`
  unfoldable pub lookup : State → ℕ → ℕ → List ℕ → Outcome (Option ℕ × State)
  unfolding lookup_node
  lookup s now parent_inode name = do
    s' ← advance_time order s now
    found ← lookup_node s' name (get s'.nodes parent_inode)
    done (found, s')

  -- `getattr`
  unfoldable pub getattr : State → ℕ → ℕ → Outcome (Option NodeAttributes × State)
  getattr s now inode = do
    s' ← advance_time order s now
    let node = get s'.nodes inode
    done (elim node [ none ↦ none | some n ↦ some (attributes s' inode n) ], s')

  -- `read`
  unfoldable pub read : State → FileHandle → ℕ → ℕ → ℕ → Outcome (Option (List ℕ) × State)
  unfolding handle_is_valid read_node
  read s handle offset size now = do
    s' ← advance_time order s now
    (if handle_is_valid s' handle
        then read_node s' handle.inode offset size (get s'.nodes handle.inode) now
        else done (none, s'))
