-- ===== src/ProcessTree/Walk.antt =====
-- process_tree.rs: `goto_next_sibling` and `spawn_tree`. A fork is taken to succeed, a command to start
-- and to exit with a code, and a process to wait for its children; what is modelled is which commands
-- are run.
use lading.Prelude.{ℕ, zero, suc, List, [], ◌∷◌, ◌++◌, Option, some, none, ◌==◌, if◌then◌else◌}
use lading.ProcessTree.Tree.{Exec, Process}

-- `goto_next_sibling`: the nodes from the next one of a depth on
unfoldable pub goto_next_sibling : ℕ → List Process → List Process
goto_next_sibling depth [] = []
goto_next_sibling depth (child ∷ nodes) =
    let rest = goto_next_sibling depth nodes in if child.depth == depth then child ∷ nodes else rest

-- the commands of a forked child and of its parent, none where the fuel has run out
unfoldable pub both : Option (List Exec) → Option (List Exec) → Option (List Exec)
both none parent = none
both (some execs) none = none
both (some execs) (some others) = some (execs ++ others)

-- The round of the loop on a node: run its command and exit, or fork.
unfoldable pub at_node : Option Exec → Option (List Exec) → Option (List Exec) → Option (List Exec)
unfolding both
at_node (some exec) child parent = some (exec ∷ [])
at_node none child parent = both child parent

-- `spawn_tree`: the commands that a process and those that it forks run, from the nodes that it has
-- left. The child goes on with the next node, the parent with the next sibling.
unfoldable pub spawn_tree : ℕ → List Process → Option (List Exec)
unfolding goto_next_sibling at_node
spawn_tree fuel [] = some []
spawn_tree zero (process ∷ nodes) = none
spawn_tree (suc fuel) (process ∷ nodes) =
    at_node process.exec (spawn_tree fuel nodes)
      (spawn_tree fuel (goto_next_sibling process.depth nodes))
