-- ===== src/Logrotate/Setup.antt =====
-- model.rs: `State::new`. A random character is a parameter; a name is the list of its bytes.
use lading.Prelude.{
  ℕ, zero, suc, ◌+◌, List, [], ◌∷◌, ◌++◌, Option, some, none, ◌==◌, if◌then◌else◌, Outcome, done,
  panicked, ◌>>=◌, decimal,
}
use lading.Prelude.Map.{Map, get, insert, alter}
use lading.Random.{Rng, gen_range}
use lading.Block.Cache.{Cache}
use lading.Logrotate.File
use lading.Logrotate.State.{Node, file, directory, LoadProfile, State, insert_child, name_eq}
use lading.Logrotate.Advance.{on_children}

-- the name of a group's file that is written
unfoldable pub base_name : List ℕ → ℕ → List ℕ
unfolding decimal
base_name base group_id = base ++ b'_' ∷ decimal group_id ++ b'.' ∷ b'l' ∷ b'o' ∷ b'g' ∷ []

-- the names of the rotated files from an ordinal on
unfoldable pub rotated_names : List ℕ → ℕ → ℕ → List (List ℕ)
unfolding decimal
rotated_names name ordinal zero = []
rotated_names name ordinal (suc n) =
    (name ++ b'.' ∷ decimal ordinal) ∷ rotated_names name (suc ordinal) n

unfoldable pub group_of_names : List ℕ → ℕ → ℕ → List (List ℕ)
unfolding base_name rotated_names
group_of_names base group_id max_rotations =
    base_name base group_id ∷ rotated_names (base_name base group_id) 1 max_rotations

-- the search for a directory of a name among some children
unfoldable pub find_directory : Map Node → List ℕ → List ℕ → Option ℕ
unfolding name_eq
find_directory nodes [] dir_name = none
find_directory nodes (child ∷ children) dir_name =
    let others = find_directory nodes children dir_name in
    elim (get nodes child) [
      | none ↦ others
      | some (file f) ↦ others
      | some (directory name d) ↦ if name_eq name dir_name then some child else others
    ]

-- the creation of a directory or a file below a directory
unfoldable pub add_node : State → ℕ → Node → State
unfolding insert_child on_children
add_node s current node = record s {
  nodes =
      alter (insert s.nodes s.next_inode node) current (on_children (insert_child s.next_inode));
  next_inode = s.next_inode + 1;
}

-- the directory that is entered: the one that has the name, or a new one
unfoldable pub enter_found : State → ℕ → List ℕ → Option ℕ → ℕ × State
unfolding add_node
enter_found s current dir_name (some inode) = (inode, s)
enter_found s current dir_name none = (
  s.next_inode,
  add_node s current (directory dir_name (record { children = []; parent = some current })),
)

unfoldable pub enter_node : State → ℕ → List ℕ → Option Node → Outcome (ℕ × State)
unfolding find_directory enter_found
enter_node s current dir_name none = panicked
enter_node s current dir_name (some (file f)) = panicked
enter_node s current dir_name (some (directory name d)) =
    done (enter_found s current dir_name (find_directory s.nodes d.children dir_name))

-- one level of a directory path; what is not a directory panics
unfoldable pub enter_directory : State → ℕ → List ℕ → Outcome (ℕ × State)
unfolding enter_node
enter_directory s current dir_name = enter_node s current dir_name (get s.nodes current)

-- the file of a group, in its directory
unfoldable pub place_file : State → ℕ → ℕ → State
unfolding add_node
place_file s current group_id = add_node s current (file (File.new current group_id 0 s.now none))

unfoldable pub add_names : State → List (List ℕ) → State
add_names s names = record s { group_names = s.group_names ++ names ∷ [] }

-- the state with a root directory only
abbrev pub empty_state : ℕ → ℕ → ℕ → Cache → LoadProfile → State
empty_state initial_tick max_rotations max_bytes_per_file block_cache load_profile = record {
  nodes = (1, directory (b'/' ∷ []) (record { children = []; parent = none })) ∷ [];
  root_inode = 1;
  now = initial_tick;
  initial_tick = initial_tick;
  block_cache = block_cache;
  max_bytes_per_file = max_bytes_per_file;
  max_rotations = max_rotations;
  group_names = [];
  next_inode = 2;
  next_file_handle = 0;
  load_profile = load_profile;
  valid_file_handles = [];
}

module _ (g : Rng) (sample : g.State → ℕ × g.State) where
  -- some random characters
  unfoldable pub random_name : ℕ → g.State → List ℕ × g.State
  random_name zero r = ([], r)
  random_name (suc n) r =
      let (c, r') = sample r in let (cs, r'') = random_name n r' in (c ∷ cs, r'')

  -- the directory path of a group
  unfoldable pub build_path : ℕ → State → ℕ → g.State → Outcome ((ℕ × State) × g.State)
  unfolding random_name enter_directory
  build_path zero s current r = done ((current, s), r)
  build_path (suc depth) s current r =
      let (dir_name, r') = random_name 8 r in
      do (inode, s') ← enter_directory s current dir_name; build_path depth s' inode r'

  unfoldable pub path_depth : ℕ → g.State → Outcome (ℕ × g.State)
  path_depth max_depth r = if max_depth == 0 then done (0, r) else gen_range g 1 (max_depth + 1) r

  -- a group of logs: its names, its directories and its file
  unfoldable pub add_group : ℕ → ℕ → State → g.State → Outcome (State × g.State)
  unfolding random_name group_of_names add_names path_depth build_path place_file
  add_group max_depth group_id s r =
      let (base, r') = random_name 8 r in
      let named = add_names s (group_of_names base group_id s.max_rotations) in
      do
        (depth, r'') ← path_depth max_depth r'
        ((current, built), r3) ← build_path depth named named.root_inode r''
        done (place_file built current group_id, r3)

  -- the groups from an id on
  unfoldable pub add_groups : ℕ → ℕ → ℕ → State → g.State → Outcome (State × g.State)
  unfolding add_group
  add_groups zero max_depth group_id s r = done (s, r)
  add_groups (suc n) max_depth group_id s r = do
    (s', r') ← add_group max_depth group_id s r
    add_groups n max_depth (suc group_id) s' r'

  -- `State::new`
  unfoldable pub new : ℕ → ℕ → ℕ → Cache → ℕ → ℕ → LoadProfile → g.State → Outcome (State × g.State)
  unfolding add_groups
  new initial_tick max_rotations max_bytes_per_file block_cache max_depth concurrent_logs
        load_profile r =
      add_groups concurrent_logs max_depth 0
        (empty_state initial_tick max_rotations max_bytes_per_file block_cache load_profile) r
