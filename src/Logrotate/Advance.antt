-- ===== src/Logrotate/Advance.antt =====
-- model.rs: `advance_time`, `advance_time_inner` and `gc`.
use lading.Prelude.{
  ℕ, zero, suc, ◌+◌, ◌-◌, List, [], ◌∷◌, Bool, true, false, not, ◌&&◌, Option, none, some, Outcome,
  done, panicked, ◌>>=◌, ◌>>◌, assert, expect, ltb, leb, ◌==◌, if◌then◌else◌, sat_add, sat_mul,
  u64_max, length,
}
use lading.Prelude.Map.{Map, get, insert, alter, map_values, keep}
use lading.Logrotate.File
use lading.Logrotate.File.{File}
use lading.Logrotate.State.{
  Node, file, directory, LoadProfile, constant, linear, State, insert_child, remove_child,
}

-- the bytes per tick of the whole filesystem, at the tick before `now`
unfoldable pub rate_at : LoadProfile → ℕ → ℕ → ℕ
rate_at (constant bytes) initial_tick now = bytes
rate_at (linear start rate) initial_tick now =
    sat_add u64_max start (sat_mul u64_max rate (now - initial_tick - 1))

-- the update of one node's rate
unfoldable pub set_rate : ℕ → Node → Node
set_rate bytes_per_tick (directory name d) = directory name d
set_rate bytes_per_tick (file f) =
    if not f.read_only && not f.unlinked
    then file (record f { bytes_per_tick = bytes_per_tick })
    else file f

-- what the source does to a file, or to a directory, through `if let` on a node
unfoldable pub on_file : (File → File) → Node → Node
on_file g (file f) = file (g f)
on_file g (directory name d) = directory name d

unfoldable pub on_children : (List ℕ → List ℕ) → Node → Node
on_children g (file f) = file f
on_children g (directory name d) = directory name (record d { children = g d.children })

-- `panic!` on a directory
unfoldable pub as_file : Node → Outcome File
as_file (file f) = done f
as_file (directory name d) = panicked

unfoldable pub is_none : Option ℕ → Bool
is_none none = true
is_none (some p) = false

-- The file at the end of a full peer chain loses its name: it leaves its directory, is unlinked, and
-- its predecessor has no peer any more.
unfoldable pub cut : Map Node → ℕ → ℕ → ℕ → ℕ → Outcome (Map Node)
unfolding on_file on_children
cut nodes now parent current prev = do
  let nodes' = alter nodes parent (on_children (remove_child current))
  let nodes'' = alter nodes' current (on_file (λ f. File.unlink f now))
  prev_node ← expect (get nodes'' prev)
  done (insert nodes'' prev (on_file (λ f. record f { peer = none }) prev_node))

-- One round of the loop along the peers, once the ordinal of the current file has gone up: the file
-- falls off the end, or is the last, or the next peer follows.
unfoldable pub follow :
    (ℕ → Outcome (Map Node)) → Map Node → ℕ → ℕ → ℕ → ℕ → ℕ → File → Outcome (Map Node)
unfolding is_none cut
follow again nodes now max_rotations parent current prev f =
    if ltb max_rotations f.ordinal
    then (do assert (is_none f.peer); cut nodes now parent current prev)
    else elim f.peer [ none ↦ done nodes | some next_peer ↦ again next_peer ]

-- The loop along the peers. That the fuel, a bound on its rounds, runs out counts as a panic.
unfoldable pub shift : ℕ → Map Node → ℕ → ℕ → ℕ → ℕ → ℕ → Outcome (Map Node)
unfolding as_file follow
shift zero nodes now max_rotations parent current prev = panicked
shift (suc fuel) nodes now max_rotations parent current prev = do
  node ← expect (get nodes current)
  f ← as_file node
  let f' = File.incr_ordinal f
  let nodes' = insert nodes current (file f')
  follow (λ next_peer. shift fuel nodes' now max_rotations parent next_peer current) nodes' now
      max_rotations parent current prev f'

-- The rotation of the file `rotated`, which has been set read-only: a new file takes its place as the
-- first of the group. The loop along the peers has fuel for more rounds than there are nodes, and for
-- the longest chain that ends where an ordinal does not saturate.
unfoldable pub rotate : State → ℕ → ℕ → ℕ → File → Outcome State
unfolding on_children shift
rotate s now bytes_per_tick rotated f = do
  let new_inode = s.next_inode
  let new_file =
      File.advance_time (File.new f.parent f.group_id bytes_per_tick (s.now - 1) (some rotated)) now
  let nodes = insert s.nodes new_inode (file new_file)
  let nodes' = alter nodes f.parent (on_children (insert_child new_inode))
  assert (f.ordinal == 0)
  nodes'' ← shift (257 + length nodes') nodes' now s.max_rotations f.parent rotated new_inode
  done (record s { nodes = nodes''; next_inode = sat_add u64_max s.next_inode 1 })

-- The body of the loop over the inodes, for a file.
unfoldable pub process_file : State → ℕ → ℕ → ℕ → File → Outcome State
unfolding rotate
process_file s now bytes_per_tick inode f =
    if f.read_only
    then done s
    else (let g = File.advance_time f now in
        if ltb g.bytes_written s.max_bytes_per_file
        then done (record s { nodes = insert s.nodes inode (file g) })
        else do
          assert (g.ordinal == 0)
          let h = File.set_read_only g now
          rotate (record s { nodes = insert s.nodes inode (file h) }) now bytes_per_tick inode h)

unfoldable pub process_node : State → ℕ → ℕ → ℕ → Node → Outcome State
unfolding process_file
process_node s now bytes_per_tick inode (file f) = process_file s now bytes_per_tick inode f
process_node s now bytes_per_tick inode (directory name d) = done s

unfoldable pub process : State → ℕ → ℕ → ℕ → Outcome State
unfolding process_node
process s now bytes_per_tick inode = do
  node ← expect (get s.nodes inode)
  process_node s now bytes_per_tick inode node

-- the loop over `inode_scratch`
unfoldable pub process_all : State → ℕ → ℕ → List ℕ → Outcome State
unfolding process
process_all s now bytes_per_tick [] = done s
process_all s now bytes_per_tick (inode ∷ inodes) = do
  s' ← process s now bytes_per_tick inode
  process_all s' now bytes_per_tick inodes

-- whether `gc` leaves a node
unfoldable pub survives : Node → Bool
survives (file f) = not (f.unlinked && f.open_handles == 0)
survives (directory name d) = true

-- `gc`
unfoldable pub gc : State → State
unfolding survives
gc s = record s { nodes = keep s.nodes survives }

-- The order in which a `FxHashMap` yields its keys is a parameter.
module _ (order : Map Node → List ℕ) where
  -- `advance_time_inner`, called with `now` equal to the state's own
  unfoldable pub advance_time_inner : State → ℕ → Outcome State
  unfolding rate_at set_rate process_all gc
  advance_time_inner s now = do
    assert (leb s.now now)
    let bytes_per_tick = rate_at s.load_profile s.initial_tick now
    let nodes = map_values s.nodes (set_rate bytes_per_tick)
    s' ← process_all (record s { nodes = nodes }) now bytes_per_tick (order nodes)
    done (gc s')

  -- the `while` loop of `advance_time`, for as many ticks as there are to go
  unfoldable pub ticks : ℕ → State → Outcome State
  unfolding advance_time_inner
  ticks zero s = done s
  ticks (suc n) s = do
    s' ← advance_time_inner (record s { now = s.now + 1 }) (s.now + 1)
    ticks n s'

  -- `advance_time`
  unfoldable pub advance_time : State → ℕ → Outcome State
  unfolding ticks
  advance_time s now = do assert (leb s.now now); ticks (now - s.now) s
