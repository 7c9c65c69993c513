-- ===== src/Logrotate/Passing.antt =====
-- The passing of time keeps a property of every file.
use lading.Prelude.{
  ℕ, zero, suc, ◌+◌, ◌-◌, List, [], ◌∷◌, ltb, leb, ◌==◌, arith, Outcome, done, expect, Option, some,
  none, length,
}
use lading.Prelude.Map.{Map, get, insert, alter, map_values}
use lading.Logrotate.File
use lading.Logrotate.File.{File}
use lading.Logrotate.State.{Node, file, directory, State, insert_child, remove_child}
use lading.Logrotate.Advance.{
  set_rate, on_file, on_children, is_none, cut, follow, shift, rotate, process_file, process_node,
  process, process_all, survives, gc, rate_at, advance_time_inner, ticks, advance_time,
}
use lading.Logrotate.Every.{
  Ensures, Ensures-bind, Ensures-assert, Ensures-if, NodeHas, Every, Closed, Every-insert,
  Every-alter, Every-map_values, Every-keep, Every-get, on_file-NodeHas, on_children-NodeHas,
  expect-NodeHas, as_file-has,
}

module _ (P : File → Type 0) (c : Closed P) where
  abbrev pub EveryFile : State → Type 0
  EveryFile s = Every P s.nodes

  expect-get :
      (nodes : Map Node) (i : ℕ) → Every P nodes → Ensures (NodeHas P) (expect (get nodes i))
  expect-get nodes i h = expect-NodeHas P (get nodes i) (Every-get P nodes i h)

  cut-Every :
      (nodes : Map Node) (now parent current prev : ℕ)
      → Every P nodes
      → Ensures (Every P) (cut nodes now parent current prev)
  unfolding cut
  cut-Every nodes now parent current prev h =
      let left =
        Every-alter P nodes parent (on_children (remove_child current)) h
          (λ n k. on_children-NodeHas P (remove_child current) n k) in
      let unlinked =
        Every-alter P _ current (on_file (λ f. File.unlink f now)) left
          (λ n k. on_file-NodeHas P (λ f. File.unlink f now) n (λ f. c.unlinks f now) k) in
      Ensures-bind (NodeHas P) (Every P) _ _ (expect-get _ prev unlinked) (λ n k.
        Every-insert P _ prev _ unlinked
          (on_file-NodeHas P (λ f. record f { peer = none }) n c.loses_peer k))

  follow-Every :
      (again : ℕ → Outcome (Map Node)) (nodes : Map Node)
      (now max_rotations parent current prev : ℕ) (f : File)
      → ((p : ℕ) → Ensures (Every P) (again p))
      → Every P nodes
      → Ensures (Every P) (follow again nodes now max_rotations parent current prev f)
  unfolding follow
  follow-Every again nodes now m parent current prev f ih h =
      Ensures-if (Every P) (ltb m f.ordinal) _ _
        (Ensures-assert (Every P) (is_none f.peer) _ (cut-Every nodes now parent current prev h))
        (last f.peer)
    where
      last : (o : Option ℕ) → Ensures (Every P) (elim o [ none ↦ done nodes | some p ↦ again p ])
      last none = h
      last (some p) = ih p

  shift-Every :
      (fuel : ℕ) (nodes : Map Node) (now max_rotations parent current prev : ℕ)
      → Every P nodes
      → Ensures (Every P) (shift fuel nodes now max_rotations parent current prev)
  unfolding shift
  shift-Every zero nodes now m parent current prev h = tt
  shift-Every (suc fuel) nodes now m parent current prev h =
      Ensures-bind (NodeHas P) (Every P) _ _ (expect-get nodes current h) λ n k.
        Ensures-bind P (Every P) _ _ (as_file-has P n k) λ f l.
          let nodes' = insert nodes current (file (File.incr_ordinal f)) in
          let h' = Every-insert P nodes current (file (File.incr_ordinal f)) h (c.rises f l) in
          follow-Every _ nodes' now m parent current prev (File.incr_ordinal f)
            (λ p. shift-Every fuel nodes' now m parent p current h') h'

  rotate-EveryFile :
      (s : State) (now r rotated : ℕ) (f : File)
      → EveryFile s
      → Ensures EveryFile (rotate s now r rotated f)
  unfolding rotate
  rotate-EveryFile s now r rotated f h =
      let new_file =
        File.advance_time (File.new f.parent f.group_id r (s.now - 1) (some rotated)) now in
      let joined_nodes =
        alter (insert s.nodes s.next_inode (file new_file)) f.parent
          (on_children (insert_child s.next_inode)) in
      let inserted =
        Every-insert P s.nodes s.next_inode (file new_file) h
          (c.advances _ now (c.begins f.parent f.group_id r (s.now - 1) (some rotated))) in
      let joined =
        Every-alter P _ f.parent (on_children (insert_child s.next_inode)) inserted
          (λ n k. on_children-NodeHas P (insert_child s.next_inode) n k) in
      Ensures-assert EveryFile (f.ordinal == 0) _ (
        Ensures-bind (Every P) EveryFile _ _
          (shift-Every (257 + length joined_nodes) joined_nodes now s.max_rotations f.parent rotated
            s.next_inode joined)
          (λ nodes k. k))

  process_file-EveryFile :
      (s : State) (now r inode : ℕ) (f : File)
      → EveryFile s
      → P f
      → Ensures EveryFile (process_file s now r inode f)
  unfolding process_file
  process_file-EveryFile s now r inode f h k =
      let g = File.advance_time f now in
      let grown : P g = c.advances f now k in
      Ensures-if EveryFile f.read_only _ _ h (
        Ensures-if EveryFile (ltb g.bytes_written s.max_bytes_per_file) _ _
          (Every-insert P s.nodes inode (file g) h grown)
          (Ensures-assert EveryFile (g.ordinal == 0) _ (
            rotate-EveryFile _ now r inode (File.set_read_only g now) (
              Every-insert P s.nodes inode (file (File.set_read_only g now)) h
                (c.freezes g now grown)))))

  process_node-EveryFile :
      (s : State) (now r inode : ℕ) (n : Node)
      → EveryFile s
      → NodeHas P n
      → Ensures EveryFile (process_node s now r inode n)
  unfolding process_node
  process_node-EveryFile s now r inode (file f) h k = process_file-EveryFile s now r inode f h k
  process_node-EveryFile s now r inode (directory name d) h k = h

  process_all-EveryFile :
      (inodes : List ℕ) (s : State) (now r : ℕ)
      → EveryFile s
      → Ensures EveryFile (process_all s now r inodes)
  unfolding process_all process
  process_all-EveryFile [] s now r h = h
  process_all-EveryFile (inode ∷ inodes) s now r h =
      Ensures-bind EveryFile EveryFile (process s now r inode) (λ s'. process_all s' now r inodes)
        (Ensures-bind (NodeHas P) EveryFile (expect (get s.nodes inode)) _
          (expect-get s.nodes inode h) (λ n k. process_node-EveryFile s now r inode n h k))
        (λ s' k. process_all-EveryFile inodes s' now r k)

  set_rate-NodeHas : (r : ℕ) (n : Node) → NodeHas P n → NodeHas P (set_rate r n)
  unfolding set_rate
  set_rate-NodeHas r (directory name d) h = tt
  set_rate-NodeHas r (file f) h = ground (arith, c.rated f r h)

  module _ (order : Map Node → List ℕ) where
    advance_time_inner-EveryFile :
        (s : State) (now : ℕ) → EveryFile s → Ensures EveryFile (advance_time_inner order s now)
    unfolding advance_time_inner gc
    advance_time_inner-EveryFile s now h =
        let r = rate_at s.load_profile s.initial_tick now in
        let rated = Every-map_values P s.nodes (set_rate r) h (set_rate-NodeHas r) in
        Ensures-assert EveryFile (leb s.now now) _ (
          Ensures-bind EveryFile EveryFile
            (process_all _ now r (order (map_values s.nodes (set_rate r)))) (λ s'. done (gc s'))
            (process_all-EveryFile (order (map_values s.nodes (set_rate r))) _ now r rated)
            (λ s' k. Every-keep P s'.nodes survives k))

    ticks-EveryFile : (n : ℕ) (s : State) → EveryFile s → Ensures EveryFile (ticks order n s)
    unfolding ticks
    ticks-EveryFile zero s h = h
    ticks-EveryFile (suc n) s h =
        Ensures-bind EveryFile EveryFile _ (λ s'. ticks order n s')
          (advance_time_inner-EveryFile (record s { now = s.now + 1 }) (s.now + 1) h)
          (λ s' k. ticks-EveryFile n s' k)

    -- `advance_time`, where it does not panic, keeps every property of files that the changes of a
    -- single file keep and that a new file has.
    pub advance_time-EveryFile :
        (s : State) (now : ℕ) → EveryFile s → Ensures EveryFile (advance_time order s now)
    unfolding advance_time
    advance_time-EveryFile s now h =
        Ensures-assert EveryFile (leb s.now now) _ (ticks-EveryFile (now - s.now) s h)
