-- ===== src/Logrotate/State.antt =====
-- model.rs: `Directory`, `Node`, `LoadProfile`, `State`, and the methods of `State` that only look.
-- A directory's set of children is a list in rising order. A name is the list of its bytes.
use lading.Prelude.{
  ℕ, suc, ◌+◌, List, [], ◌∷◌, Bool, true, false, Option, none, some, ltb, ◌==◌, if◌then◌else◌,
  Outcome, done, ◌>>=◌, index,
}
use lading.Prelude.Map.{Map, get}
use lading.Block.Cache.{Cache}
use lading.Logrotate.File.{File}

pub record Directory : Type 0 where
  pub children : List ℕ
  pub parent : Option ℕ

pub data Node : Type 0 where
  file : File → Node
  directory : List ℕ → Directory → Node

pub data LoadProfile : Type 0 where
  constant : ℕ → LoadProfile
  linear : ℕ → ℕ → LoadProfile

pub record State : Type 0 where
  pub nodes : Map Node
  pub root_inode : ℕ
  pub now : ℕ
  pub initial_tick : ℕ
  pub block_cache : Cache
  pub max_bytes_per_file : ℕ
  pub max_rotations : ℕ
  pub group_names : List (List (List ℕ))
  pub next_inode : ℕ
  pub next_file_handle : ℕ
  pub load_profile : LoadProfile
  pub valid_file_handles : Map ℕ

-- `BTreeSet::insert` and `BTreeSet::remove`
unfoldable pub insert_child : ℕ → List ℕ → List ℕ
insert_child i [] = i ∷ []
insert_child i (j ∷ js) =
    if i == j then j ∷ js else if ltb i j then i ∷ j ∷ js else j ∷ insert_child i js

unfoldable pub remove_child : ℕ → List ℕ → List ℕ
remove_child i [] = []
remove_child i (j ∷ js) = if i == j then js else j ∷ remove_child i js

-- the name of a node; an index out of bounds panics
unfoldable pub name_of : State → Node → Outcome (List ℕ)
name_of s (file f) = do names ← index s.group_names f.group_id; index names f.ordinal
name_of s (directory name d) = done name

-- `get_name`
unfoldable pub get_name : State → ℕ → Outcome (Option (List ℕ))
unfolding name_of
get_name s inode = elim (get s.nodes inode) [
  | none ↦ done none
  | some node ↦ (name_of s node >>= λ name. done (some name))
]

unfoldable pub name_eq : List ℕ → List ℕ → Bool
name_eq [] [] = true
name_eq [] (y ∷ ys) = false
name_eq (x ∷ xs) [] = false
name_eq (x ∷ xs) (y ∷ ys) = let rest = name_eq xs ys in if x == y then rest else false

-- the loop of `lookup` over the children of a directory
unfoldable pub find_child : State → List ℕ → List ℕ → Outcome (Option ℕ)
unfolding name_of name_eq
find_child s [] name = done none
find_child s (child ∷ children) name =
    let rest = find_child s children name in
    elim (get s.nodes child) [
      | none ↦ rest
      | some node ↦
          (name_of s node >>= λ child_name.
          if name_eq child_name name then done (some child) else rest)
    ]

-- `readdir`
unfoldable pub readdir : State → ℕ → Option (List ℕ)
readdir s inode = elim (get s.nodes inode) [
  | none ↦ none
  | some (file f) ↦ none
  | some (directory name d) ↦ some d.children
]

-- `NodeType`, and fuser's type of a file
pub data NodeType : Type 0 where
  file directory : NodeType

-- `NodeAttributes`
pub record NodeAttributes : Type 0 where
  pub inode : ℕ
  pub kind : NodeType
  pub size : ℕ
  pub access_tick : ℕ
  pub modified_tick : ℕ
  pub status_tick : ℕ
  pub created_tick : ℕ

unfoldable pub attributes : State → ℕ → Node → NodeAttributes
attributes s inode (file f) = record {
  inode = inode;
  kind = NodeType.file;
  size = f.bytes_written;
  access_tick = f.access_tick;
  modified_tick = f.modified_tick;
  status_tick = f.status_tick;
  created_tick = f.created_tick;
}
attributes s inode (directory name d) = record {
  inode = inode;
  kind = NodeType.directory;
  size = 0;
  access_tick = s.now;
  modified_tick = s.now;
  status_tick = s.now;
  created_tick = s.now;
}

-- `get_file_type`
unfoldable pub get_file_type : State → ℕ → Option NodeType
get_file_type s inode = elim (get s.nodes inode) [
  | none ↦ none
  | some (file f) ↦ some NodeType.file
  | some (directory name d) ↦ some NodeType.directory
]

-- `get_parent_inode`
unfoldable pub get_parent_inode : State → ℕ → Option ℕ
get_parent_inode s inode =
    if inode == s.root_inode then some s.root_inode else elim (get s.nodes inode) [
      | none ↦ none
      | some (file f) ↦ some f.parent
      | some (directory name d) ↦ elim d.parent [ none ↦ some s.root_inode | some p ↦ some p ]
    ]

-- the number of children that are directories
unfoldable pub subdirectory_count : State → List ℕ → ℕ
subdirectory_count s [] = 0
subdirectory_count s (child ∷ children) =
    let rest = subdirectory_count s children in
    elim (get s.nodes child) [
      | none ↦ rest
      | some (file f) ↦ rest
      | some (directory name d) ↦ suc rest
    ]

-- `nlink`
unfoldable pub nlink : State → ℕ → ℕ
unfolding subdirectory_count
nlink s inode = elim (get s.nodes inode) [
  | none ↦ 1
  | some (file f) ↦ 1
  | some (directory name d) ↦ 2 + subdirectory_count s d.children
]
