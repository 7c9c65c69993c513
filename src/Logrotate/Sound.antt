-- ===== src/Logrotate/Sound.antt =====
-- What holds of every file after any sequence of filesystem operations.
use lading.Prelude.{
  ℕ, suc, ◌+◌, ◌-◌, ◌≤◌, ◌≡◌, refl, ◌⊎◌, inl, min, max, false, ltb, leb, ◌==◌, u64_max, arith,
  expect, Option, some, none, length,
}
use lading.Block.Read.{read_at}
use lading.Logrotate.File
use lading.Logrotate.File.{File}
use lading.Logrotate.State.{Node, file, directory, State}
use lading.Logrotate.Every.{
  Ensures, Ensures-bind, Ensures-assert, Ensures-test, Ensures-any, FoundHas, Every, Closed,
  Every-insert,
}
use lading.Logrotate.Handles.{FileHandle, open_node, close_node, read_file, read_node}

-- The status tick is the modified tick or the access tick, and no offset past the bytes that have
-- been written has been read.
pub record IsSound (f : File) : Type 0 where
  pub status : (f.status_tick ≡ f.modified_tick) ⊎ (f.status_tick ≡ f.access_tick)
  pub observed : f.max_offset_observed ≤ f.bytes_written
  pub word : f.bytes_written ≤ u64_max

pub advance-IsSound : (f : File) (now : ℕ) → IsSound f → IsSound (File.advance_time f now)
unfolding File.advance_time
advance-IsSound f now h = ground arith

access-IsSound : (f : File) (now : ℕ) → IsSound f → IsSound (File.access f now)
unfolding File.access
access-IsSound f now h = ground arith

pub IsSound-closed : Closed IsSound
unfolding File.unlink File.incr_ordinal File.set_read_only File.new
IsSound-closed = record {
  advances = advance-IsSound;
  unlinks = λ f now h.
      let g = advance-IsSound f now h in
      record { status = g.status; observed = g.observed; word = g.word };
  rises = λ f h. record { status = h.status; observed = h.observed; word = h.word };
  freezes = λ f now h. record { status = h.status; observed = h.observed; word = h.word };
  loses_peer = λ f h. record { status = h.status; observed = h.observed; word = h.word };
  rated = λ f r h. record { status = h.status; observed = h.observed; word = h.word };
  begins = λ parent group r now p. record {
    status = inl refl;
    observed = omega arith;
    word = omega arith;
  };
}

open_handle-IsSound : (f : File) (now : ℕ) → IsSound f → IsSound (File.open_handle f now)
unfolding File.open_handle
open_handle-IsSound f now h =
    let g = access-IsSound (File.advance_time f now) now (advance-IsSound f now h) in
    record { status = g.status; observed = g.observed; word = g.word }

close-IsSound : (f : File) (now : ℕ) → IsSound f → Ensures IsSound (File.close f now)
unfolding File.close
close-IsSound f now h =
    let g = advance-IsSound f now h in
    Ensures-assert IsSound (ltb 0 (File.advance_time f now).open_handles) _
      (record { status = g.status; observed = g.observed; word = g.word })

read-IsSound : (f : File) (request now : ℕ) → IsSound f → IsSound (File.read f request now)
unfolding File.read
read-IsSound f request now h =
    let g = access-IsSound (File.advance_time f now) now (advance-IsSound f now h) in
    record { status = g.status; observed = g.observed; word = g.word }

abbrev pub AllSound : State → Type 0
AllSound s = Every IsSound s.nodes

pub open_node-AllSound :
    (s : State) (now inode : ℕ) (o : Option Node)
    → AllSound s
    → FoundHas IsSound o
    → AllSound (open_node s now inode o).1
unfolding open_node
open_node-AllSound s now inode none h k = h
open_node-AllSound s now inode (some (directory name d)) h k = h
open_node-AllSound s now inode (some (file f)) h k =
    Every-insert IsSound s.nodes inode (file (File.open_handle f now)) h
      (open_handle-IsSound f now k)

pub close_node-AllSound :
    (s : State) (now : ℕ) (handle : FileHandle) (o : Option Node)
    → AllSound s
    → FoundHas IsSound o
    → Ensures AllSound (close_node s now handle o)
unfolding close_node
close_node-AllSound s now handle none h k = tt
close_node-AllSound s now handle (some (directory name d)) h k = tt
close_node-AllSound s now handle (some (file f)) h k =
    Ensures-bind IsSound AllSound (File.close f now) _ (close-IsSound f now k)
      (λ g l. Every-insert IsSound s.nodes handle.inode (file g) h l)

-- the file of a read, with the offset that has been seen
seen-IsSound :
    (f : File) (offset size : ℕ)
    → leb f.bytes_written offset ≡ false
    → IsSound f
    → IsSound (record f {
      max_offset_observed =
          max f.max_offset_observed (offset + min (f.bytes_written - offset) size);
    })
seen-IsSound f offset size e h = record {
  status = h.status;
  observed = within f.bytes_written f.max_offset_observed e h.observed;
  word = h.word;
}
  where
    within : (w m : ℕ) → leb w offset ≡ false → m ≤ w → max m (offset + min (w - offset) size) ≤ w
    within w m e k = ground arith

abbrev pub SoundAfter : {A : Type 0} → A × State → Type 0
SoundAfter r = AllSound r.1

read_file-AllSound :
    (s : State) (inode offset size : ℕ) (f : File) (now : ℕ)
    → AllSound s
    → IsSound f
    → Ensures SoundAfter (read_file s inode offset size f now)
unfolding read_file
read_file-AllSound s inode offset size f now h k =
    let to_read = min (f.bytes_written - offset) size in
    let seen = record f { max_offset_observed = max f.max_offset_observed (offset + to_read) } in
    Ensures-test SoundAfter (leb f.bytes_written offset) _ _ (λ e. h)
      λ e.
        Ensures-bind (λ _. Unit {0}) SoundAfter (read_at (suc to_read) s.block_cache offset to_read)
          _ (Ensures-any _)
          λ r _.
            Ensures-bind (λ _. Unit {0}) SoundAfter (expect r) _ (Ensures-any _)
              λ bytes _. Ensures-assert SoundAfter (length bytes == to_read) _ (
                Every-insert IsSound s.nodes inode (file (File.read seen to_read now)) h
                  (read-IsSound seen to_read now (seen-IsSound f offset size e k)))

pub read_node-AllSound :
    (s : State) (inode offset size : ℕ) (o : Option Node) (now : ℕ)
    → AllSound s
    → FoundHas IsSound o
    → Ensures SoundAfter (read_node s inode offset size o now)
unfolding read_node
read_node-AllSound s inode offset size none now h k = h
read_node-AllSound s inode offset size (some (directory name d)) now h k = h
read_node-AllSound s inode offset size (some (file f)) now h k =
    read_file-AllSound s inode offset size f now h k
