-- ===== src/Logrotate/Built.antt =====
-- The filesystem that `State::new` builds.
use lading.Prelude.{
  ℕ, ◌+◌, ◌≤◌, ◌<◌, ◌≡◌, ◌≢◌, refl, ap, ◌∙◌, List, some, none, ◌==◌, if◌then◌else◌, Bool, true,
  false, Bool-cases, inl, inr, Option-cases, arith,
}
use lading.Prelude.Map.{Map, get, insert, alter, get-insert, get-alter, map_option}
use lading.Logrotate.File
use lading.Logrotate.File.{File}
use lading.Logrotate.State.{Node, file, directory, Directory, State, insert_child}
use lading.Logrotate.Advance.{on_children}
use lading.Logrotate.Every.{NodeHas, Every-insert, Every-alter, on_children-NodeHas}
use lading.Logrotate.Sound.{IsSound, IsSound-closed, AllSound}
use lading.Logrotate.Setup.{add_node, place_file}

abbrev pub IsDirectory : Map Node → ℕ → Type 0
IsDirectory nodes i = (name : List ℕ) × (d : Directory) × (get nodes i ≡ some (directory name d))

-- What the construction keeps: inodes are below the next one, the root is a directory, and all files
-- are sound.
pub record IsGood (s : State) : Type 0 where
  pub fresh : (j : ℕ) (n : Node) → get s.nodes j ≡ some n → j < s.next_inode
  pub root : IsDirectory s.nodes s.root_inode
  pub sound : AllSound s

-- What is there remains: files as they are, and directories.
pub record Grows (s s' : State) : Type 0 where
  pub files : (j : ℕ) (f : File) → get s.nodes j ≡ some (file f) → get s'.nodes j ≡ some (file f)
  pub directories : (j : ℕ) → IsDirectory s.nodes j → IsDirectory s'.nodes j
  pub inodes : s.next_inode ≤ s'.next_inode
  pub same_root : s'.root_inode ≡ s.root_inode
  pub same_names : s'.group_names ≡ s.group_names
  pub same_rotations : s'.max_rotations ≡ s.max_rotations

pub Grows-refl : (s : State) → Grows s s
Grows-refl s = record {
  files = λ j f e. e;
  directories = λ j h. h;
  inodes = omega arith;
  same_root = refl;
  same_names = refl;
  same_rotations = refl;
}

pub Grows-trans : (s t u : State) → Grows s t → Grows t u → Grows s u
Grows-trans s t u h k = record {
  files = λ j f e. k.files j f (h.files j f e);
  directories = λ j d. k.directories j (h.directories j d);
  inodes = omega (arith, h.inodes, k.inodes);
  same_root = k.same_root ∙ h.same_root;
  same_names = k.same_names ∙ h.same_names;
  same_rotations = k.same_rotations ∙ h.same_rotations;
}

-- the nodes after a node has been added below another
abbrev added : Map Node → ℕ → ℕ → Node → Map Node
added nodes inode current n =
    alter (insert nodes inode n) current (on_children (insert_child inode))

get-added :
    (nodes : Map Node) (inode current j : ℕ) (n m : Node)
    → (if inode == j then some n else get nodes j) ≡ some m
    → get (added nodes inode current n) j
      ≡ some (if current == j then on_children (insert_child inode) m else m)
get-added nodes inode current j n m h =
    get-alter j (insert nodes inode n) current (on_children (insert_child inode))
    ∙ rw (get-insert j nodes inode n ∙ h) (go (current == j))
  where
    go :
        (b : Bool)
        → (if b then map_option (on_children (insert_child inode)) (some m) else some m)
          ≡ some (if b then on_children (insert_child inode) m else m)
    go true = refl
    go false = refl

same_file :
    (b : Bool) (g : List ℕ → List ℕ) (f : File)
    → (if b then on_children g (file f) else file f) ≡ file f
unfolding on_children
same_file true g f = refl
same_file false g f = refl

added_file :
    (nodes : Map Node) (inode current j : ℕ) (n : Node) (f : File)
    → (if inode == j then some n else get nodes j) ≡ some (file f)
    → get (added nodes inode current n) j ≡ some (file f)
added_file nodes inode current j n f h =
    get-added nodes inode current j n (file f) h
    ∙ ap (λ (m : Node). some m) (same_file (current == j) (insert_child inode) f)

still_directory :
    (b : Bool) (g : List ℕ → List ℕ) (name : List ℕ) (d : Directory)
    → (d' : Directory) × ((if b then on_children g (directory name d) else directory name d)
        ≡ directory name d')
unfolding on_children
still_directory true g name d = (record d { children = g d.children }, refl)
still_directory false g name d = (d, refl)

added_directory :
    (nodes : Map Node) (inode current j : ℕ) (n : Node) (name : List ℕ) (d : Directory)
    → (if inode == j then some n else get nodes j) ≡ some (directory name d)
    → IsDirectory (added nodes inode current n) j
added_directory nodes inode current j n name d h =
    let (d', e) = still_directory (current == j) (insert_child inode) name d in
    (name, d', get-added nodes inode current j n (directory name d) h ∙ ap (λ (m : Node). some m) e)

-- nothing else is there
added-none :
    (nodes : Map Node) (inode current j : ℕ) (n : Node)
    → inode ≢ j
    → get nodes j ≡ none
    → get (added nodes inode current n) j ≡ none
added-none nodes inode current j n h e = ground (
  arith,
  get-alter j (insert nodes inode n) current (on_children (insert_child inode)),
  get-insert j nodes inode n,
  e,
  h,
)

older : {A : Type 0} (inode j : ℕ) (a b : A) → j < inode → (if inode == j then a else b) ≡ b
older inode j a b h = ground (arith, h)

newest : {A : Type 0} (inode : ℕ) (a b : A) → (if inode == inode then a else b) ≡ a
newest inode a b = ground arith

module _ (s : State) (current : ℕ) (n : Node) (h : IsGood s) where
  add_node-fresh :
      (j : ℕ) (m : Node) → get (add_node s current n).nodes j ≡ some m → j < s.next_inode + 1
  unfolding add_node
  add_node-fresh j m e = elim (Option-cases (get s.nodes j)) [
    | inr (k, f) ↦ omega (arith, h.fresh j k f)
    | inl f ↦ elim (Bool-cases (s.next_inode == j)) [
      | inl same ↦ ground (arith, same)
      | inr other ↦
          absurd (
            ground
              (arith, e, added-none s.nodes s.next_inode current j n (ground (arith, other)) f))
    ]
  ]

  pub add_node-Grows : Grows s (add_node s current n)
  unfolding add_node
  add_node-Grows = record {
    files = λ j f e.
        added_file s.nodes s.next_inode current j n f
          (older s.next_inode j (some n) (get s.nodes j) (h.fresh j (file f) e) ∙ e);
    directories = λ j d.
        added_directory s.nodes s.next_inode current j n d.0 d.1
          (older s.next_inode j (some n) (get s.nodes j) (h.fresh j (directory d.0 d.1) d.2) ∙ d.2);
    inodes = omega arith;
    same_root = refl;
    same_names = refl;
    same_rotations = refl;
  }

  add_node-AllSound : NodeHas IsSound n → AllSound (add_node s current n)
  unfolding add_node
  add_node-AllSound k =
      Every-alter IsSound (insert s.nodes s.next_inode n) current
        (on_children (insert_child s.next_inode))
        (Every-insert IsSound s.nodes s.next_inode n h.sound k)
        (λ m l. on_children-NodeHas IsSound (insert_child s.next_inode) m l)

  pub add_node-IsGood : NodeHas IsSound n → IsGood (add_node s current n)
  unfolding add_node
  add_node-IsGood k = record {
    fresh = add_node-fresh;
    root = add_node-Grows.directories s.root_inode h.root;
    sound = add_node-AllSound k;
  }

-- A file of a group that has just been placed.
pub record GroupFile (s : State) (group_id i : ℕ) : Type 0 where
  pub found : File
  pub is_there : get s.nodes i ≡ some (file found)
  pub below : i < s.next_inode
  pub group : found.group_id ≡ group_id
  pub ordinal : found.ordinal ≡ 0
  pub no_peer : found.peer ≡ none
  pub writable : found.read_only ≡ false
  pub linked : found.unlinked ≡ false

pub Grows-GroupFile :
    (s s' : State) (group_id i : ℕ) → Grows s s' → GroupFile s group_id i → GroupFile s' group_id i
Grows-GroupFile s s' group_id i g h = record {
  found = h.found;
  is_there = g.files i h.found h.is_there;
  below = omega (arith, h.below, g.inodes);
  group = h.group;
  ordinal = h.ordinal;
  no_peer = h.no_peer;
  writable = h.writable;
  linked = h.linked;
}

pub add_node-directory :
    (s : State) (current : ℕ) (name : List ℕ) (d : Directory)
    → IsDirectory (add_node s current (directory name d)).nodes s.next_inode
unfolding add_node
add_node-directory s current name d =
    added_directory s.nodes s.next_inode current s.next_inode (directory name d) name d
      (newest s.next_inode (some (directory name d)) (get s.nodes s.next_inode))

pub place_file-GroupFile :
    (s : State) (current group_id : ℕ)
    → GroupFile (place_file s current group_id) group_id s.next_inode
unfolding place_file add_node File.new
place_file-GroupFile s current group_id =
    let f = File.new current group_id 0 s.now none in
    record {
      found = f;
      is_there =
          added_file s.nodes s.next_inode current s.next_inode (file f) f
            (newest s.next_inode (some (file f)) (get s.nodes s.next_inode));
      below = omega arith;
      group = refl;
      ordinal = refl;
      no_peer = refl;
      writable = refl;
      linked = refl;
    }

pub place_file-IsGood :
    (s : State) (current group_id : ℕ) → IsGood s → IsGood (place_file s current group_id)
unfolding place_file
place_file-IsGood s current group_id h =
    add_node-IsGood s current (file (File.new current group_id 0 s.now none)) h
      (IsSound-closed.begins current group_id 0 s.now none)

pub place_file-Grows :
    (s : State) (current group_id : ℕ) → IsGood s → Grows s (place_file s current group_id)
unfolding place_file
place_file-Grows s current group_id h =
    add_node-Grows s current (file (File.new current group_id 0 s.now none)) h
