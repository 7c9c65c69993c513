-- ===== src/Logrotate/Paths.antt =====
-- The directories and groups that `State::new` builds.
use lading.Prelude.{
  lt→ltb, ℕ, zero, suc, ◌+◌, ◌≤◌, ◌≡◌, refl, ◌∙◌, List, [], ◌∷◌, ◌++◌, Option, some, none, ltb,
  ◌==◌, if◌then◌else◌, if-true, if-false, Outcome, done, Bool, true, false, arith, length,
}
use lading.Prelude.Map.{Map, get}
use lading.Random.{Rng}
use lading.Logrotate.State.{Node, file, directory, Directory, State, name_eq}
use lading.Logrotate.Setup.{
  base_name, rotated_names, group_of_names, find_directory, add_node, enter_found, enter_node,
  enter_directory, place_file, add_names, random_name, build_path, path_depth, add_group,
}
use lading.Logrotate.Built.{
  IsDirectory, IsGood, Grows, Grows-refl, Grows-trans, GroupFile, Grows-GroupFile, add_node-IsGood,
  add_node-Grows, add_node-directory, place_file-IsGood, place_file-GroupFile, place_file-Grows,
}

-- A directory that has been entered.
record Entered (s : State) (r : Outcome (ℕ × State)) : Type 0 where
  inode : ℕ
  after : State
  result : r ≡ done (inode, after)
  good : IsGood after
  grown : Grows s after
  there : IsDirectory after.nodes inode

found_child :
    (nodes : Map Node) (child i : ℕ) (name n : List ℕ) (d : Directory) (others : Option ℕ)
    (b : Bool)
    → get nodes child ≡ some (directory n d)
    → (others ≡ some i → IsDirectory nodes i)
    → (if b then some child else others) ≡ some i
    → IsDirectory nodes i
found_child nodes child i name n d others true e h k =
    let same : child ≡ i = ground (arith, k) in (n, d, rw same at e)
found_child nodes child i name n d others false e h k = h k

find_directory-IsDirectory :
    (nodes : Map Node) (children : List ℕ) (name : List ℕ) (i : ℕ)
    → find_directory nodes children name ≡ some i
    → IsDirectory nodes i
unfolding find_directory
find_directory-IsDirectory nodes [] name i h = absurd (ground (arith, h))
find_directory-IsDirectory nodes (child ∷ children) name i h =
    go (find_directory nodes children name) (get nodes child) refl
      (λ e. find_directory-IsDirectory nodes children name i e) h
  where
    go :
        (others : Option ℕ) (o : Option Node)
        → get nodes child ≡ o
        → (others ≡ some i → IsDirectory nodes i)
        → (elim o [
          | none ↦ others
          | some (file f) ↦ others
          | some (directory n d) ↦ if name_eq n name then some child else others
        ])
          ≡ some i
        → IsDirectory nodes i
    go others none e l k = l k
    go others (some (file f)) e l k = l k
    go others (some (directory n d)) e l k =
        found_child nodes child i name n d others (name_eq n name) e l k

enter_found-Entered :
    (s : State) (current : ℕ) (name : List ℕ) (o : Option ℕ)
    → IsGood s
    → ((i : ℕ) → o ≡ some i → IsDirectory s.nodes i)
    → Entered s (done (enter_found s current name o))
unfolding enter_found
enter_found-Entered s current name (some i) h d = record {
  inode = i;
  after = s;
  result = refl;
  good = h;
  grown = Grows-refl s;
  there = d i refl;
}
enter_found-Entered s current name none h d =
    let new_dir : Directory = record { children = []; parent = some current } in
    record {
      inode = s.next_inode;
      after = add_node s current (directory name new_dir);
      result = refl;
      good = add_node-IsGood s current (directory name new_dir) h tt;
      grown = add_node-Grows s current (directory name new_dir) h;
      there = add_node-directory s current name new_dir;
    }

enter_directory-Entered :
    (s : State) (current : ℕ) (name : List ℕ)
    → IsGood s
    → IsDirectory s.nodes current
    → Entered s (enter_directory s current name)
unfolding enter_directory enter_node
enter_directory-Entered s current name h (n, d, e) = rw e (
    enter_found-Entered s current name (find_directory s.nodes d.children name) h
      (λ i k. find_directory-IsDirectory s.nodes d.children name i k))

length-rotated_names : (name : List ℕ) (ordinal n : ℕ) → length (rotated_names name ordinal n) ≡ n
unfolding rotated_names
length-rotated_names name ordinal zero = refl
length-rotated_names name ordinal (suc n) = omega (arith, length-rotated_names name (suc ordinal) n)

length-group_of_names :
    (base : List ℕ) (group_id n : ℕ) → length (group_of_names base group_id n) ≡ n + 1
unfolding group_of_names
length-group_of_names base group_id n =
    omega (arith, length-rotated_names (base_name base group_id) 1 n)

module _ (g : Rng) (sample : g.State → ℕ × g.State) where
  record PathBuilt (s : State) (r : Outcome ((ℕ × State) × g.State)) : Type 0 where
    inode : ℕ
    after : State
    generator : g.State
    result : r ≡ done ((inode, after), generator)
    good : IsGood after
    grown : Grows s after

  build_path-PathBuilt :
      (depth : ℕ) (s : State) (current : ℕ) (r : g.State)
      → IsGood s
      → IsDirectory s.nodes current
      → PathBuilt s (build_path g sample depth s current r)
  unfolding build_path
  build_path-PathBuilt zero s current r h d = record {
    inode = current;
    after = s;
    generator = r;
    result = refl;
    good = h;
    grown = Grows-refl s;
  }
  build_path-PathBuilt (suc depth) s current r h d =
      let e = enter_directory-Entered s current (random_name g sample 8 r).0 h d in
      let p =
        build_path-PathBuilt depth e.after e.inode (random_name g sample 8 r).1 e.good e.there in
      record {
        inode = p.inode;
        after = p.after;
        generator = p.generator;
        result = rw e.result p.result;
        good = p.good;
        grown = Grows-trans s e.after p.after e.grown p.grown;
      }

  path_depth-done :
      (max_depth : ℕ) (r : g.State)
      → (depth : ℕ) × (r' : g.State) × (path_depth g sample max_depth r ≡ done (depth, r'))
  unfolding path_depth
  path_depth-done zero r = (0, r, refl)
  path_depth-done (suc n) r = (
    (g.draw_range 1 (suc n + 1) r).0,
    (g.draw_range 1 (suc n + 1) r).1,
    if-false (suc n == 0) _ _ (ground arith)
        ∙ if-true (ltb 1 (suc n + 1)) _ _ (lt→ltb 1 (suc n + 1) (omega arith)),
  )

  -- A group that has been added.
  pub record GroupAdded (s : State) (group_id : ℕ) (r : Outcome (State × g.State)) : Type 0 where
    pub after : State
    pub generator : g.State
    pub result : r ≡ done (after, generator)
    pub good : IsGood after
    pub inode : ℕ
    pub placed : GroupFile after group_id inode
    pub above : s.next_inode ≤ inode
    pub keeps : (k i : ℕ) → GroupFile s k i → GroupFile after k i
    pub names : List (List ℕ)
    pub named : after.group_names ≡ s.group_names ++ names ∷ []
    pub as_many : length names ≡ s.max_rotations + 1
    pub same_rotations : after.max_rotations ≡ s.max_rotations

  add_names-GroupFile :
      (s : State) (names : List (List ℕ)) (k i : ℕ)
      → GroupFile s k i
      → GroupFile (add_names s names) k i
  unfolding add_names
  add_names-GroupFile s names k i h = record {
    found = h.found;
    is_there = h.is_there;
    below = h.below;
    group = h.group;
    ordinal = h.ordinal;
    no_peer = h.no_peer;
    writable = h.writable;
    linked = h.linked;
  }

  add_names-IsGood : (s : State) (names : List (List ℕ)) → IsGood s → IsGood (add_names s names)
  unfolding add_names
  add_names-IsGood s names h = record { fresh = h.fresh; root = h.root; sound = h.sound }

  pub add_group-GroupAdded :
      (max_depth group_id : ℕ) (s : State) (r : g.State)
      → IsGood s
      → GroupAdded s group_id (add_group g sample max_depth group_id s r)
  unfolding add_group add_names
  add_group-GroupAdded max_depth group_id s r h =
      let names = group_of_names (random_name g sample 8 r).0 group_id s.max_rotations in
      let named : State = add_names s names in
      let good = add_names-IsGood s names h in
      let (depth, r', e) = path_depth-done max_depth (random_name g sample 8 r).1 in
      let p = build_path-PathBuilt depth named named.root_inode r' good good.root in
      let grown =
        Grows-trans named p.after (place_file p.after p.inode group_id) p.grown
          (place_file-Grows p.after p.inode group_id p.good) in
      record {
        after = place_file p.after p.inode group_id;
        generator = p.generator;
        result = rw e (rw p.result refl);
        good = place_file-IsGood p.after p.inode group_id p.good;
        inode = p.after.next_inode;
        placed = place_file-GroupFile p.after p.inode group_id;
        above = p.grown.inodes;
        keeps = λ k i f.
            Grows-GroupFile named (place_file p.after p.inode group_id) k i grown
              (add_names-GroupFile s names k i f);
        names = names;
        named = grown.same_names;
        as_many = length-group_of_names (random_name g sample 8 r).0 group_id s.max_rotations;
        same_rotations = grown.same_rotations;
      }
