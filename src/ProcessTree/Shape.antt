-- ===== src/ProcessTree/Shape.antt =====
-- The tree that `generate_tree` comes to.
use lading.Prelude.{
  Text, Bool, ℕ, zero, suc, ◌+◌, ◌≡◌, true, false, refl, List, [], ◌∷◌, map, Option, some, none,
  ltb, if-true, if-false, le→not-ltb, lt→ltb, arith,
}
use lading.Random.{Rng}
use lading.ProcessTree.Tree.{
  Executable, Config, Exec, Process, new, push_children, before, leaf_round, exec_new, tree_loop,
  generate_tree,
}

abbrev pub repeat {ℓ} : {A : Type ℓ} → ℕ → (A → A) → A → A
repeat zero f x = x
repeat (suc n) f x = f (repeat n f x)

-- a node: its depth, and whether it has a command
abbrev pub Node : Type 0
Node = ℕ × Bool

abbrev pub has_exec : Option Exec → Bool
has_exec none = false
has_exec (some exec) = true

abbrev pub node : Process → Node
node p = (p.depth, has_exec p.exec)

-- The nodes of a full tree with so many levels below its root, before others: from the root down,
-- each subtree whole before the next. Each of the lowest processes has a node with a command below it,
-- and no other node has one.
abbrev pub depths : ℕ → ℕ → ℕ → List Node → List Node
depths children zero depth others = (depth, false) ∷ (depth + 1, true) ∷ others
depths children (suc levels) depth others =
    (depth, false) ∷ repeat children (depths children levels (depth + 1)) others

-- the number of processes in it, without the commands, and others
abbrev pub processes : ℕ → ℕ → ℕ → ℕ
processes children zero others = suc others
processes children (suc levels) others = suc (repeat children (processes children levels) others)

-- A list of the given nodes, with no error.
abbrev pub Shaped : List Node → Option (Option (List Process)) → Type 0
Shaped l r = (nodes : List Process) × (r ≡ some (some nodes)) × (map node nodes ≡ l)

module _ (g : Rng) (rnd_str : ℕ → g.State → Text × g.State)
    (choose : List Executable → g.State → Option Executable × g.State) (config : Config) where
  open g use {State}

  before-Shaped :
      (l : List Node) (p : Process) (r : Option (Option (List Process)))
      → Shaped l r
      → Shaped (node p ∷ l) (before g rnd_str choose (p ∷ []) r)
  unfolding before
  before-Shaped l p r (more, e, f) = (p ∷ more, rw e refl, rw f refl)

  before_two-Shaped :
      (l : List Node) (p q : Process) (r : Option (Option (List Process)))
      → Shaped l r
      → Shaped (node p ∷ node q ∷ l) (before g rnd_str choose (p ∷ q ∷ []) r)
  unfolding before
  before_two-Shaped l p q r (more, e, f) = (p ∷ q ∷ more, rw e refl, rw f refl)

  -- There is always an executable.
  abbrev pub HasExec : Type 0
  HasExec = (s : State) → (e : Exec) × ((exec_new g rnd_str choose config s).0 ≡ some e)

  -- The loop on a stack comes to the given nodes.
  abbrev LoopShaped : ℕ → List Node → List Process → Type 0
  LoopShaped fuel l stack = (s : State) → Shaped l (tree_loop g rnd_str choose fuel config stack s)

  leaf_round-Shaped :
      (again : State → Option (Option (List Process))) (depth : ℕ) (l : List Node)
      (r : Option Exec × State) (e : Exec)
      → r.0 ≡ some e
      → ((s : State) → Shaped l (again s))
      → Shaped
          ((depth, false) ∷ (depth + 1, true) ∷ l)
          (leaf_round g rnd_str choose again (new depth none) r)
  unfolding leaf_round new
  leaf_round-Shaped again depth l (none, s) e h k = absurd (ground (arith, h))
  leaf_round-Shaped again depth l (some exec, s) e h k =
      before_two-Shaped l (new depth none) (new (depth + 1) (some exec)) (again s) (k s)

  push_children-LoopShaped :
      (n fuel depth : ℕ) (stack : List Process) (l : List Node) (rounds : ℕ → ℕ)
      (d : List Node → List Node)
      → ((f : ℕ) (m : List Node) (others : List Process)
          → LoopShaped f m others
          → LoopShaped (rounds f) (d m) (new depth none ∷ others))
      → LoopShaped fuel l stack
      → LoopShaped (repeat n rounds fuel) (repeat n d l) (push_children n depth stack)
  unfolding push_children
  push_children-LoopShaped zero fuel depth stack l rounds d one h = h
  push_children-LoopShaped (suc n) fuel depth stack l rounds d one h =
      one (repeat n rounds fuel) (repeat n d l) (push_children n depth stack)
        (push_children-LoopShaped n fuel depth stack l rounds d one h)

  tree_loop-leaf :
      (fuel : ℕ) (process : Process) (stack : List Process) (s : State)
      → ltb config.max_depth (process.depth + 1) ≡ true
      → tree_loop g rnd_str choose (suc fuel) config (process ∷ stack) s
        ≡ leaf_round g rnd_str choose
            (λ t. tree_loop g rnd_str choose fuel config stack t)
            process
            (exec_new g rnd_str choose config s)
  unfolding tree_loop
  tree_loop-leaf fuel process stack s h = if-true (ltb config.max_depth (process.depth + 1)) _ _ h

  tree_loop-children :
      (fuel : ℕ) (process : Process) (stack : List Process) (s : State)
      → ltb config.max_depth (process.depth + 1) ≡ false
      → tree_loop g rnd_str choose (suc fuel) config (process ∷ stack) s
        ≡ before g rnd_str choose (process ∷ []) (
            tree_loop g rnd_str choose fuel config
              (push_children config.max_children (process.depth + 1) stack)
              s)
  unfolding tree_loop
  tree_loop-children fuel process stack s h =
      if-false (ltb config.max_depth (process.depth + 1)) _ _ h

  tree_loop-nothing :
      (fuel : ℕ) (s : State) → tree_loop g rnd_str choose fuel config [] s ≡ some (some [])
  unfolding tree_loop
  tree_loop-nothing zero s = refl
  tree_loop-nothing (suc fuel) s = refl

  tree_loop-LoopShaped :
      (levels depth fuel : ℕ) (l : List Node) (stack : List Process)
      → HasExec
      → config.max_depth ≡ depth + levels
      → LoopShaped fuel l stack
      → LoopShaped
          (processes config.max_children levels fuel)
          (depths config.max_children levels depth l)
          (new depth none ∷ stack)
  unfolding new
  tree_loop-LoopShaped zero depth fuel l stack x e h s =
      rw
        (tree_loop-leaf fuel (new depth none) stack s
          (lt→ltb config.max_depth (depth + 1) (omega (arith, e))))
        (leaf_round-Shaped (λ t. tree_loop g rnd_str choose fuel config stack t) depth l
          (exec_new g rnd_str choose config s) (x s).0 (x s).1 h)
  tree_loop-LoopShaped (suc levels) depth fuel l stack x e h s =
      rw
        (tree_loop-children (repeat config.max_children (processes config.max_children levels) fuel)
          (new depth none) stack s (le→not-ltb config.max_depth (depth + 1) (omega (arith, e))))
        (before-Shaped
          (repeat config.max_children (depths config.max_children levels (depth + 1)) l)
          (new depth none)
          (tree_loop g rnd_str choose
            (repeat config.max_children (processes config.max_children levels) fuel) config
            (push_children config.max_children (depth + 1) stack) s)
          (push_children-LoopShaped config.max_children fuel (depth + 1) stack l
            (processes config.max_children levels) (depths config.max_children levels (depth + 1))
            (λ f m others k.
              tree_loop-LoopShaped levels (depth + 1) f m others x (omega (arith, e)) k)
            h s))

  -- With a positive `max_depth` and executables to choose from, `generate_tree` ends within as many
  -- rounds as there are processes, or any number more, without an error, and its nodes have the depths
  -- of the full tree of `max_depth` levels, each process with `max_children` below it; below each of
  -- the lowest ones is a node with a command, and no other node has one.
  pub generate_tree-Shaped :
      (levels fuel : ℕ) (s : State)
      → HasExec
      → config.max_depth ≡ 1 + levels
      → Shaped
          (depths config.max_children levels 1 [])
          (generate_tree g rnd_str choose (processes config.max_children levels fuel) config s)
  unfolding generate_tree
  generate_tree-Shaped levels fuel s x e = tree_loop-LoopShaped levels 1 fuel [] [] x e nothing s
    where
      nothing : LoopShaped fuel [] []
      nothing t = ([], tree_loop-nothing fuel t, refl)
