-- ===== src/Logrotate/Served.antt =====
-- What a read through a file handle returns.
use lading.Prelude.{
  leb→le, not-leb→lt, ℕ, ◌+◌, ◌-◌, ◌≤◌, ◌<◌, ◌≡◌, refl, min, max, List, [], true, Bool-cases, inl,
  inr, leb, ◌==◌, arith, length, Outcome, done, Option, some, u64_max,
}
use lading.Prelude.Map.{Map, get, insert}
use lading.Block.Seek.{IsValid, one_cycle}
use lading.Block.Cycle.{Repeats, read_at-Repeats}
use lading.Logrotate.File
use lading.Logrotate.File.{File}
use lading.Logrotate.State.{Node, file, State}
use lading.Logrotate.Advance.{advance_time}
use lading.Logrotate.Handles.{FileHandle, handle_is_valid, read_file, read_node, read}

-- A read returns the bytes of the endless repetition of the block cache from the offset on, up to the
-- end of the file.
abbrev pub Served : State → ℕ → ℕ → File → Outcome (Option (List ℕ) × State) → Type 0
Served s offset size f r =
    (bytes : List ℕ) × (s' : State) × (r ≡ done (some bytes, s'))
    × Repeats (one_cycle s.block_cache.blocks) offset (min (f.bytes_written - offset) size) bytes

eq_self : (a b : ℕ) → a ≡ b → (a == b) ≡ true
eq_self a b e = ground (arith, e)

read_file-Served :
    (s : State) (inode offset size : ℕ) (f : File) (now : ℕ)
    → IsValid s.block_cache
    → 0 < s.block_cache.total_cycle_size
    → f.bytes_written ≤ u64_max
    → Served s offset size f (read_file s inode offset size f now)
unfolding read_file
read_file-Served s inode offset size f now v p h = elim (Bool-cases (leb f.bytes_written offset)) [
  | inl past ↦
      let k : f.bytes_written ≤ offset = leb→le f.bytes_written offset past in
      ([], s, rw past refl, (omega (arith, k), λ i l. absurd (omega (arith, k, l))))
  | inr inside ↦
      let k : offset < f.bytes_written = not-leb→lt f.bytes_written offset inside in
      let to_read = min (f.bytes_written - offset) size in
      let (out, e, o) = read_at-Repeats s.block_cache offset to_read v p (omega (arith, h, k)) in
      (
        out,
        record s {
          nodes = insert s.nodes inode (
              file (
                File.read
                  (record f { max_offset_observed = max f.max_offset_observed (offset + to_read) })
                  to_read now));
        },
        rw inside (rw e (rw (eq_self (length out) to_read o.0) refl)),
        o,
      )
]

-- A read through a valid handle of a file, from a valid block cache of at least one byte, once time
-- has been advanced: it does not panic, and it returns the bytes of the endless repetition of the
-- cache from the offset on, as many as were asked for or as the file still has there.
pub read-Served :
    (order : Map Node → List ℕ) (s s' : State) (handle : FileHandle) (offset size now : ℕ)
    (f : File)
    → advance_time order s now ≡ done s'
    → handle_is_valid s' handle ≡ true
    → get s'.nodes handle.inode ≡ some (file f)
    → IsValid s'.block_cache
    → 0 < s'.block_cache.total_cycle_size
    → f.bytes_written ≤ u64_max
    → Served s' offset size f (read order s handle offset size now)
unfolding read read_node
read-Served order s s' handle offset size now f a w e v p h =
    rw a (rw w (rw e (read_file-Served s' handle.inode offset size f now v p h)))
