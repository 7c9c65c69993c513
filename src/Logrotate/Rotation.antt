-- ===== src/Logrotate/Rotation.antt =====
-- What a rotation does to the group of the rotated file.
use lading.Prelude.{
  assert-true, ℕ, ◌+◌, ◌-◌, ◌≤◌, ◌<◌, ◌≡◌, refl, ◌∙◌, List, [], ◌∷◌, ◌==◌, arith, length, take,
  Outcome, done, some, sat_add, u64_max,
}
use lading.Prelude.Map.{Map, insert, alter, get-insert}
use lading.Logrotate.File
use lading.Logrotate.File.{File}
use lading.Logrotate.State.{Node, file, State, insert_child}
use lading.Logrotate.Advance.{on_children, rotate}
use lading.Logrotate.Chain.{
  HasFile, Chain, Unique, Keeps, head, insert-Keeps, insert-Chain, Keeps-HasFile, alter_child-Keeps,
}
use lading.Logrotate.Shift.{shift-Shifted}

pub advance_time-ordinal : (f : File) (now : ℕ) → (File.advance_time f now).ordinal ≡ f.ordinal
unfolding File.advance_time
advance_time-ordinal f now = ground arith

pub advance_time-peer : (f : File) (now : ℕ) → (File.advance_time f now).peer ≡ f.peer
unfolding File.advance_time
advance_time-peer f now = ground arith

pub advance_time-unlinked : (f : File) (now : ℕ) → (File.advance_time f now).unlinked ≡ f.unlinked
unfolding File.advance_time
advance_time-unlinked f now = ground arith

-- the first file of a group after a rotation
new_file-HasFile :
    (nodes : Map Node) (i parent group_id r begun now rotated : ℕ)
    → HasFile
        (insert nodes i
          (file (File.advance_time (File.new parent group_id r begun (some rotated)) now)))
        i
        0
        (some rotated)
unfolding File.new
new_file-HasFile nodes i parent group_id r begun now rotated =
    let f = File.advance_time (File.new parent group_id r begun (some rotated)) now in
    record {
      found = f;
      is_there = ground (arith, get-insert i nodes i (file f));
      ordinal = advance_time-ordinal (File.new parent group_id r begun (some rotated)) now;
      next = advance_time-peer (File.new parent group_id r begun (some rotated)) now;
      linked = advance_time-unlinked (File.new parent group_id r begun (some rotated)) now;
    }

alter_child-Chain :
    (nodes : Map Node) (parent : ℕ) (g : List ℕ → List ℕ) (o : ℕ) (is : List ℕ)
    → Chain nodes o is
    → Chain (alter nodes parent (on_children g)) o is
alter_child-Chain nodes parent g o [] c = tt
alter_child-Chain nodes parent g o (i ∷ is) c = (
  Keeps-HasFile [] nodes (alter nodes parent (on_children g)) i o (head is)
      (alter_child-Keeps nodes parent g) tt c.0,
  alter_child-Chain nodes parent g (o + 1) is c.1,
)

minus_zero : (m : ℕ) → m - 0 ≡ m
minus_zero m = omega arith

whole-Chain :
    (nodes : Map Node) (m i : ℕ) (is : List ℕ)
    → Chain nodes 0 (i ∷ take (m - 0) is)
    → Chain nodes 0 (i ∷ take m is)
whole-Chain nodes m i is c = rw (minus_zero m) at c

-- A group after a rotation, and what the rest of the filesystem is.
pub record Rotated (s : State) (is : List ℕ) (r : Outcome State) : Type 0 where
  pub after : State
  pub result : r ≡ done after
  pub chain : Chain after.nodes 0 (s.next_inode ∷ take s.max_rotations is)
  pub keeps : Keeps (s.next_inode ∷ is) s.nodes after.nodes
  pub fresh : after.next_inode ≡ sat_add u64_max s.next_inode 1

-- The rotation of the first file of a group, of which there are at most one more than are kept, for
-- fewer than 255 kept files and with an inode for the new file that is none of the group's: it does
-- not panic. Then the new file is the first of the group, as many of the old files follow as are
-- kept, each with the ordinal of its place, its name, and the next as its peer, and all files outside
-- of the group are what they were.
pub rotate-Rotated :
    (s : State) (now r rotated : ℕ) (is : List ℕ) (f : File)
    → f.ordinal ≡ 0
    → s.max_rotations < 255
    → length is ≤ s.max_rotations
    → Unique (s.next_inode ∷ rotated ∷ is)
    → Chain s.nodes 0 (rotated ∷ is)
    → Rotated s (rotated ∷ is) (rotate s now r rotated f)
unfolding rotate
rotate-Rotated s now r rotated is f e m l u c =
    let new_file =
      File.advance_time (File.new f.parent f.group_id r (s.now - 1) (some rotated)) now in
    let nodes = insert s.nodes s.next_inode (file new_file) in
    let nodes' = alter nodes f.parent (on_children (insert_child s.next_inode)) in
    let first =
      new_file-HasFile s.nodes s.next_inode f.parent f.group_id r (s.now - 1) now rotated in
    let first' =
      Keeps-HasFile [] nodes nodes' s.next_inode 0 (some rotated)
        (alter_child-Keeps nodes f.parent (insert_child s.next_inode)) tt first in
    let others =
      alter_child-Chain nodes f.parent (insert_child s.next_inode) 0 (rotated ∷ is)
        (insert-Chain s.nodes s.next_inode (file new_file) 0 (rotated ∷ is) u.0 c) in
    let t =
      shift-Shifted (257 + length nodes') nodes' now s.max_rotations f.parent s.next_inode 0 rotated
        is (omega (arith, l, m)) (omega (arith, l)) m u first' others in
    record {
      after = record s { nodes = t.nodes'; next_inode = sat_add u64_max s.next_inode 1 };
      result = assert-true (f.ordinal == 0) _ (ground (arith, e)) ∙ rw t.result refl;
      chain = whole-Chain t.nodes' s.max_rotations s.next_inode (rotated ∷ is) t.chain;
      keeps = λ j g a h. t.keeps j g a (
          alter_child-Keeps nodes f.parent (insert_child s.next_inode) j g tt
            (insert-Keeps s.nodes s.next_inode (file new_file) j g (a.0, tt) h));
      fresh = refl;
    }
