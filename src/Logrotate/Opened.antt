-- ===== src/Logrotate/Opened.antt =====
-- File handles and the files that garbage collection keeps.
use lading.Prelude.{
  assert-true, ℕ, ◌+◌, ◌-◌, ◌%◌, ◌^◌, ◌≡◌, refl, ◌∙◌, List, [], ◌∷◌, Bool, true, false, ltb, leb,
  if◌then◌else◌, arith, done, Option, some, none,
}
use lading.Prelude.Map.{Map, get, insert, remove, keep, Distinct, get-insert, get-remove}
use lading.Logrotate.File
use lading.Logrotate.File.{File}
use lading.Logrotate.State.{Node, file, State}
use lading.Logrotate.Advance.{ticks, advance_time, survives, gc}
use lading.Logrotate.Handles.{
  FileHandle, open_node, close_node, handle_is_valid, open_file, close_file,
}

-- what is found where only some values are kept
abbrev pub kept {ℓ} : {V : Type ℓ} → (V → Bool) → Option V → Option V
kept test none = none
kept test (some v) = if test v then some v else none

get-keep :
    (m : Map Node) (test : Node → Bool) (i : ℕ)
    → Distinct m
    → get (keep m test) i ≡ kept test (get m i)
unfolding get keep
get-keep [] test i d = refl
get-keep (entry ∷ m) test i d = ground (arith, get-keep m test i d.1, d.0)

minus_self : (a : ℕ) → a - a ≡ 0
minus_self a = omega arith

leb_self : (a : ℕ) → leb a a ≡ true
leb_self a = ground arith

advance_time-now : (order : Map Node → List ℕ) (s : State) → advance_time order s s.now ≡ done s
unfolding advance_time ticks
advance_time-now order s = rw (leb_self s.now, minus_self s.now) refl

-- A file with a handle that has been opened and closed again.
pub record OpenedAndClosed (order : Map Node → List ℕ) (s : State) (inode : ℕ) (f : File)
    : Type 0 where
  pub handle : FileHandle
  pub while_open : State
  pub after : State
  pub g : File
  pub opens : open_file order s s.now inode ≡ done (some handle, while_open)
  pub is_valid : handle_is_valid while_open handle ≡ true
  pub closes : close_file order while_open s.now handle ≡ done after
  pub is_not_valid : handle_is_valid after handle ≡ false
  pub found : get after.nodes inode ≡ some (file g)
  pub open_handles : g.open_handles ≡ f.open_handles

advance_time-open_handles :
    (f : File) (now : ℕ) → (File.advance_time f now).open_handles ≡ f.open_handles
unfolding File.advance_time
advance_time-open_handles f now = ground arith

open_handle-open_handles :
    (f : File) (now : ℕ) → (File.open_handle f now).open_handles ≡ f.open_handles + 1
unfolding File.open_handle File.access
open_handle-open_handles f now = ground (arith, advance_time-open_handles f now)

close-done :
    (f : File) (now n : ℕ)
    → f.open_handles ≡ n + 1
    → (g : File) × (File.close f now ≡ done g) × (g.open_handles ≡ n)
unfolding File.close
close-done f now n e =
    let h : (File.advance_time f now).open_handles ≡ n + 1 = advance_time-open_handles f now ∙ e in
    (
      record (File.advance_time f now) {
        open_handles = (File.advance_time f now).open_handles - 1;
      },
      assert-true (ltb 0 (File.advance_time f now).open_handles) _ (ground (arith, h)),
      omega (arith, h),
    )

-- Opening a file and closing the handle at the same tick, from any state: neither panics, the handle
-- is valid in between and not afterwards, and the file is left with as many handles as it had.
pub open_file-close_file :
    (order : Map Node → List ℕ) (s : State) (inode : ℕ) (f : File)
    → get s.nodes inode ≡ some (file f)
    → OpenedAndClosed order s inode f
unfolding open_file close_file open_node close_node handle_is_valid
open_file-close_file order s inode f e =
    let opened : File = File.open_handle f s.now in
    let handle : FileHandle = record { id = s.next_file_handle; inode = inode } in
    let between : State = record s {
      nodes = insert s.nodes inode (file opened);
      next_file_handle = (s.next_file_handle + 1) % 2 ^ 64;
      valid_file_handles = insert s.valid_file_handles s.next_file_handle inode;
    } in
    let (g, c, h) = close-done opened s.now f.open_handles (open_handle-open_handles f s.now) in
    let after : State = record between {
      nodes = insert between.nodes inode (file g);
      valid_file_handles = remove between.valid_file_handles handle.id;
    } in
    let there : get between.nodes inode ≡ some (file opened) =
      ground (arith, get-insert inode s.nodes inode (file opened)) in
    record {
      handle = handle;
      while_open = between;
      after = after;
      g = g;
      opens = rw (advance_time-now order s) (rw e refl);
      is_valid =
          ground
            (arith, get-insert s.next_file_handle s.valid_file_handles s.next_file_handle inode);
      closes = rw (advance_time-now order between) (rw there (rw c refl));
      is_not_valid =
          ground
            (arith, get-remove s.next_file_handle between.valid_file_handles s.next_file_handle);
      found = ground (arith, get-insert inode between.nodes inode (file g));
      open_handles = h;
    }

-- Garbage collection, with every inode in the map once: a node is there afterwards if it was there and
-- is a directory, or a file that is linked or has an open handle; nothing else changes.
pub get-gc :
    (s : State) (i : ℕ) → Distinct s.nodes → get (gc s).nodes i ≡ kept survives (get s.nodes i)
unfolding gc
get-gc s i d = get-keep s.nodes survives i d
