-- ===== src/Logrotate/Turnover.antt =====
-- What a tick does to the first file of a group, the one that is written.
use lading.Prelude.{
  assert-true, if-false, if-true, ℕ, ◌≤◌, ◌<◌, ◌≡◌, refl, ◌∙◌, List, ◌∷◌, Bool, true, false,
  Bool-cases, inl, inr, ltb, leb, ◌==◌, if◌then◌else◌, arith, length, take, Outcome, done, Option,
  some,
}
use lading.Prelude.Map.{Map, get, insert, get-insert}
use lading.Logrotate.File
use lading.Logrotate.File.{File}
use lading.Logrotate.State.{Node, file, State}
use lading.Logrotate.Advance.{rotate, process_file, process_node, process}
use lading.Logrotate.Chain.{HasFile, Chain, Unique, Keeps, head, insert-Keeps, insert-Chain}
use lading.Logrotate.Rotation.{
  rotate-Rotated, advance_time-ordinal, advance_time-peer, advance_time-unlinked,
}

set_read_only-ordinal : (f : File) (now : ℕ) → (File.set_read_only f now).ordinal ≡ f.ordinal
unfolding File.set_read_only
set_read_only-ordinal f now = refl

set_read_only-peer : (f : File) (now : ℕ) → (File.set_read_only f now).peer ≡ f.peer
unfolding File.set_read_only
set_read_only-peer f now = refl

set_read_only-unlinked : (f : File) (now : ℕ) → (File.set_read_only f now).unlinked ≡ f.unlinked
unfolding File.set_read_only
set_read_only-unlinked f now = refl

-- a file with the place in a chain that another has
same_place-HasFile :
    (nodes : Map Node) (i o : ℕ) (p : Option ℕ) (h : HasFile nodes i o p) (g : File)
    → g.ordinal ≡ h.found.ordinal
    → g.peer ≡ h.found.peer
    → g.unlinked ≡ h.found.unlinked
    → HasFile (insert nodes i (file g)) i o p
same_place-HasFile nodes i o p h g e f u = record {
  found = g;
  is_there = ground (arith, get-insert i nodes i (file g));
  ordinal = e ∙ h.ordinal;
  next = f ∙ h.next;
  linked = u ∙ h.linked;
}

-- A group after a tick: as it was, or rotated.
pub record Turned (s : State) (full : Bool) (i : ℕ) (is : List ℕ) (r : Outcome State) : Type 0 where
  pub after : State
  pub result : r ≡ done after
  pub chain :
      Chain after.nodes 0 (if full then s.next_inode ∷ take s.max_rotations (i ∷ is) else i ∷ is)
  pub keeps : Keeps (s.next_inode ∷ i ∷ is) s.nodes after.nodes

-- whether a file has come to its size by a tick
abbrev pub is_full : State → ℕ → File → Bool
is_full s now f = leb s.max_bytes_per_file (File.advance_time f now).bytes_written

rotated :
    (s : State) (now r i : ℕ) (is : List ℕ) (g : File)
    → s.max_rotations < 255
    → length is ≤ s.max_rotations
    → Unique (s.next_inode ∷ i ∷ is)
    → g.ordinal ≡ 0
    → Chain (insert s.nodes i (file g)) 0 (i ∷ is)
    → Turned s true i is (rotate (record s { nodes = insert s.nodes i (file g) }) now r i g)
rotated s now r i is g m l u e c =
    let t =
      rotate-Rotated (record s { nodes = insert s.nodes i (file g) }) now r i is g e m l u c in
    record {
      after = t.after;
      result = t.result;
      chain = t.chain;
      keeps = λ j f a k. t.keeps j f a (insert-Keeps s.nodes i (file g) j f (a.1.0, tt) k);
    }

process_grows :
    (s : State) (now r i : ℕ) (f : File)
    → get s.nodes i ≡ some (file f)
    → f.read_only ≡ false
    → ltb (File.advance_time f now).bytes_written s.max_bytes_per_file ≡ true
    → process s now r i
      ≡ done (record s { nodes = insert s.nodes i (file (File.advance_time f now)) })
unfolding process process_node process_file
process_grows s now r i f e w b = rw e (
    if-false f.read_only _ _ w
    ∙ if-true (ltb (File.advance_time f now).bytes_written s.max_bytes_per_file) _ _ b)

process_rotates :
    (s : State) (now r i : ℕ) (f : File)
    → get s.nodes i ≡ some (file f)
    → f.read_only ≡ false
    → ltb (File.advance_time f now).bytes_written s.max_bytes_per_file ≡ false
    → (File.advance_time f now).ordinal ≡ 0
    → process s now r i
      ≡ rotate
          (record s {
            nodes = insert s.nodes i (file (File.set_read_only (File.advance_time f now) now));
          })
          now
          r
          i
          (File.set_read_only (File.advance_time f now) now)
unfolding process process_node process_file
process_rotates s now r i f e w b o = rw e (
    if-false f.read_only _ _ w
    ∙ if-false (ltb (File.advance_time f now).bytes_written s.max_bytes_per_file) _ _ b
    ∙ assert-true ((File.advance_time f now).ordinal == 0) _ (ground (arith, o)))

ltb-leb : (a b : ℕ) → ltb a b ≡ true → leb b a ≡ false
ltb-leb a b h = ground arith

not-ltb-leb : (a b : ℕ) → ltb a b ≡ false → leb b a ≡ true
not-ltb-leb a b h = ground arith

-- The step of a tick for the first file of a group, which is written, of which there are at most one
-- more than are kept, for fewer than 255 kept files and with an inode for the new file that is none of
-- the group's: it does not panic. While the file is below its size the group remains; when it has
-- come to its size, the new file is the first of the group and as many of the old files follow as are
-- kept. Each has the ordinal of its place, its name, and the next as its peer; all files outside of
-- the group are what they were.
pub process-Turned :
    (s : State) (now r i : ℕ) (is : List ℕ) (h : HasFile s.nodes i 0 (head is))
    → h.found.read_only ≡ false
    → Chain s.nodes 1 is
    → s.max_rotations < 255
    → length is ≤ s.max_rotations
    → Unique (s.next_inode ∷ i ∷ is)
    → Turned s (is_full s now h.found) i is (process s now r i)
process-Turned s now r i is h w c m l u =
    let f : File = h.found in
    let g : File = File.advance_time f now in
    let k : File = File.set_read_only g now in
    elim (Bool-cases (ltb g.bytes_written s.max_bytes_per_file)) [
      | inl under ↦ rw (ltb-leb g.bytes_written s.max_bytes_per_file under) (record {
        after = record s { nodes = insert s.nodes i (file g) };
        result = process_grows s now r i f h.is_there w under;
        chain = (
          same_place-HasFile s.nodes i 0 (head is) h g (advance_time-ordinal f now)
              (advance_time-peer f now) (advance_time-unlinked f now),
          insert-Chain s.nodes i (file g) 1 is u.1.0 c,
        );
        keeps = λ j f' a e. insert-Keeps s.nodes i (file g) j f' (a.1.0, tt) e;
      })
      | inr over ↦
          let o : g.ordinal ≡ 0 = advance_time-ordinal f now ∙ h.ordinal in
          let t = rotated s now r i is k m l u (set_read_only-ordinal g now ∙ o) (
            same_place-HasFile s.nodes i 0 (head is) h k
                (set_read_only-ordinal g now ∙ advance_time-ordinal f now)
                (set_read_only-peer g now ∙ advance_time-peer f now)
                (set_read_only-unlinked g now ∙ advance_time-unlinked f now),
            insert-Chain s.nodes i (file k) 1 is u.1.0 c,
          ) in
          rw (not-ltb-leb g.bytes_written s.max_bytes_per_file over) (record {
            after = t.after;
            result = process_rotates s now r i f h.is_there w over o ∙ t.result;
            chain = t.chain;
            keeps = t.keeps;
          })
    ]
