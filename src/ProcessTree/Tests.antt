-- ===== src/ProcessTree/Tests.antt =====
-- Tests and witnesses of the process tree.
use lading.Prelude.{
  Text, ℕ, ◌+◌, ◌≡◌, ◌≢◌, refl, arith, List, [], ◌∷◌, Option, some, none, true, false,
}
use lading.Payload.Tests.{lowest}
use lading.ProcessTree.Tree.{
  Args, Envs, Executable, Config, Exec, Process, to_map, new, exec_new, generate_tree,
}
use lading.ProcessTree.Walk.{spawn_tree}
use lading.ProcessTree.Walked.{leaves, spawn_tree-leaves}
use lading.ProcessTree.Shape.{Shaped, HasExec, generate_tree-Shaped}

-- a random string of one letter, and the first of some executables
abbrev letter : ℕ → ℕ → Text × ℕ
letter len s = (97 ∷ [], s + 1)

abbrev first_executable : List Executable → ℕ → Option Executable × ℕ
first_executable [] s = (none, s)
first_executable (e ∷ executables) s = (some e, s)

-- `sleep 1` with `a=b` and `c` in its environment
abbrev sleep : Executable
sleep = record {
  executable = (b's' ∷ b'l' ∷ b'e' ∷ b'e' ∷ b'p' ∷ []);
  args = Args.static ((b'1' ∷ []) ∷ []);
  envs = Envs.static ((b'a' ∷ b'=' ∷ b'b' ∷ []) ∷ (b'c' ∷ []) ∷ []);
}

abbrev config : Config
config = record { max_depth = 2; max_children = 2; executables = sleep ∷ [] }

abbrev slept : Exec
slept = record {
  executable = (b's' ∷ b'l' ∷ b'e' ∷ b'e' ∷ b'p' ∷ []);
  args = (b'1' ∷ []) ∷ [];
  envs = ((b'a' ∷ []), (b'b' ∷ [])) ∷ ((b'c' ∷ []), []) ∷ [];
}

to_map-last :
    to_map [] (
      (b'a' ∷ b'=' ∷ b'1' ∷ [])
      ∷ (b'b' ∷ b'=' ∷ b'2' ∷ [])
      ∷ (b'a' ∷ b'=' ∷ b'3' ∷ b'=' ∷ b'4' ∷ [])
      ∷ [])
    ≡ ((b'a' ∷ []), (b'3' ∷ b'=' ∷ b'4' ∷ [])) ∷ ((b'b' ∷ []), (b'2' ∷ [])) ∷ []
unfolding to_map
to_map-last = refl

exec_new-sleep : exec_new lowest letter first_executable config 4 ≡ (some slept, 4)
unfolding exec_new
exec_new-sleep = refl

abbrev tree : List Process
tree = new 1 none ∷ new 2 none ∷ new 3 (some slept) ∷ new 2 none ∷ new 3 (some slept) ∷ []

generate_tree-config : generate_tree lowest letter first_executable 3 config 0 ≡ some (some tree)
unfolding generate_tree new
generate_tree-config = refl

config-HasExec : HasExec lowest letter first_executable config
unfolding exec_new
config-HasExec s = (slept, refl)

generate_tree-Shaped_example :
    Shaped
      ((1, false) ∷ (2, false) ∷ (3, true) ∷ (2, false) ∷ (3, true) ∷ [])
      (generate_tree lowest letter first_executable 8 config 0)
generate_tree-Shaped_example =
    generate_tree-Shaped lowest letter first_executable config 1 5 0 config-HasExec refl

two-below : (new 2 none).depth ≢ 3
unfolding new
two-below = omega arith

-- Two processes with two commands each, walked by the first one's parent: four commands for its two.
spawn_tree-leaves_example :
    spawn_tree 9 (leaves 3 2 slept (new 2 none ∷ leaves 3 2 slept []))
    ≡ some (slept ∷ slept ∷ slept ∷ slept ∷ [])
spawn_tree-leaves_example =
    spawn_tree-leaves 9 3 1 2 slept slept (new 2 none) two-below (omega arith)
