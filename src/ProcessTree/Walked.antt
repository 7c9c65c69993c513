-- ===== src/ProcessTree/Walked.antt =====
-- Which commands the processes of a tree run.
use lading.Prelude.{
  ℕ, zero, suc, ◌+◌, ◌≤◌, ◌≡◌, ◌≢◌, refl, ap, ◌∙◌, List, [], ◌∷◌, ◌++◌, Option, some, none, length,
  arith,
}
use lading.ProcessTree.Tree.{Exec, Process, new}
use lading.ProcessTree.Walk.{goto_next_sibling, both, at_node, spawn_tree}

goto_next_sibling-le :
    (depth : ℕ) (nodes : List Process) → length (goto_next_sibling depth nodes) ≤ length nodes
unfolding goto_next_sibling
goto_next_sibling-le depth [] = omega arith
goto_next_sibling-le depth (child ∷ nodes) = ground (arith, goto_next_sibling-le depth nodes)

-- A walk that has ended with its commands.
abbrev Ends : Option (List Exec) → Type 0
Ends r = (execs : List Exec) × (r ≡ some execs)

at_node-Ends :
    (e : Option Exec) (child parent : Option (List Exec))
    → Ends child
    → Ends parent
    → Ends (at_node e child parent)
unfolding at_node both
at_node-Ends (some e) child parent h k = (e ∷ [], refl)
at_node-Ends none child parent h k = (h.0 ++ k.0, rw (h.1, k.1) refl)

-- The walk of all processes ends, within as many rounds of the longest of them as there are nodes.
spawn_tree-Ends :
    (fuel : ℕ) (nodes : List Process)
    → length nodes ≤ fuel
    → (execs : List Exec) × (spawn_tree fuel nodes ≡ some execs)
unfolding spawn_tree
spawn_tree-Ends fuel [] h = ([], refl)
spawn_tree-Ends zero (process ∷ nodes) h = absurd (omega arith)
spawn_tree-Ends (suc fuel) (process ∷ nodes) h =
    at_node-Ends process.exec (spawn_tree fuel nodes)
      (spawn_tree fuel (goto_next_sibling process.depth nodes))
      (spawn_tree-Ends fuel nodes (omega arith))
      (spawn_tree-Ends fuel (goto_next_sibling process.depth nodes)
        (omega (arith, goto_next_sibling-le process.depth nodes)))

-- `n` processes of a depth, each with a command below it, before other nodes
abbrev pub leaves : ℕ → ℕ → Exec → List Process → List Process
leaves depth zero exec rest = rest
leaves depth (suc n) exec rest =
    new depth none ∷ new (depth + 1) (some exec) ∷ leaves depth n exec rest

abbrev pub copies : ℕ → Exec → List Exec
copies zero exec = []
copies (suc n) exec = exec ∷ copies n exec

goto_leaves :
    (d n : ℕ) (e : Exec) (x : Process)
    → x.depth ≢ d
    → goto_next_sibling d (x ∷ leaves d n e []) ≡ leaves d n e []
unfolding goto_next_sibling new
goto_leaves d zero e x h = ground arith
goto_leaves d (suc n) e x h = ground arith

goto_over :
    (d n : ℕ) (e : Exec) (x b : Process)
    → x.depth ≢ d
    → b.depth ≢ d
    → goto_next_sibling d (x ∷ b ∷ leaves d n e []) ≡ leaves d n e []
unfolding goto_next_sibling
goto_over d n e x b h k = ground (arith, goto_leaves d n e b k)

goto_more :
    (d n : ℕ) (e : Exec) (x : Process) (rest : List Process)
    → x.depth ≢ d
    → goto_next_sibling d (x ∷ leaves d (suc n) e rest) ≡ leaves d (suc n) e rest
unfolding goto_next_sibling new
goto_more d n e x rest h = ground arith

deeper : (d : ℕ) (e : Exec) → (new (d + 1) (some e)).depth ≢ d
unfolding new
deeper d e = omega arith

-- the walk from a process above a command
walk_leaf :
    (fuel d : ℕ) (e : Exec) (nodes after : List Process) (execs : List Exec)
    → goto_next_sibling d (new (d + 1) (some e) ∷ nodes) ≡ after
    → spawn_tree (suc fuel) after ≡ some execs
    → spawn_tree (suc (suc fuel)) (new d none ∷ new (d + 1) (some e) ∷ nodes) ≡ some (e ∷ execs)
unfolding spawn_tree at_node both new
walk_leaf fuel d e nodes after execs h k =
    rw (ap (λ (ns : List Process). spawn_tree (suc fuel) ns) h ∙ k) refl

spawn_nothing : (fuel : ℕ) → spawn_tree fuel [] ≡ some []
unfolding spawn_tree
spawn_nothing zero = refl
spawn_nothing (suc fuel) = refl

spawn_leaves :
    (fuel d n : ℕ) (e : Exec)
    → length (leaves d n e []) ≤ fuel
    → spawn_tree fuel (leaves d n e []) ≡ some (copies n e)
spawn_leaves fuel d zero e h = spawn_nothing fuel
spawn_leaves zero d (suc n) e h = absurd (omega arith)
spawn_leaves (suc zero) d (suc n) e h = absurd (omega arith)
spawn_leaves (suc (suc fuel)) d (suc n) e h =
    walk_leaf fuel d e (leaves d n e []) (leaves d n e []) (copies n e)
      (goto_leaves d n e (new (d + 1) (some e)) (deeper d e))
      (spawn_leaves (suc fuel) d n e (omega (arith, h)))

-- A process with `n + 1` processes below it that each run a command, whose sibling has `m` such: its
-- own walk goes on over the nodes of the sibling, and it runs all `n + 1 + m` commands.
pub spawn_tree-leaves :
    (fuel d n m : ℕ) (e e' : Exec) (sibling : Process)
    → sibling.depth ≢ d
    → length (leaves d (suc n) e (sibling ∷ leaves d m e' [])) ≤ fuel
    → spawn_tree fuel (leaves d (suc n) e (sibling ∷ leaves d m e' []))
      ≡ some (copies (suc n) e ++ copies m e')
spawn_tree-leaves zero d n m e e' b k h = absurd (omega arith)
spawn_tree-leaves (suc zero) d n m e e' b k h = absurd (omega arith)
spawn_tree-leaves (suc (suc fuel)) d zero m e e' b k h =
    walk_leaf fuel d e (b ∷ leaves d m e' []) (leaves d m e' []) (copies m e')
      (goto_over d m e' (new (d + 1) (some e)) b (deeper d e) k)
      (spawn_leaves (suc fuel) d m e' (omega (arith, h)))
spawn_tree-leaves (suc (suc fuel)) d (suc n) m e e' b k h =
    walk_leaf fuel d e (leaves d (suc n) e (b ∷ leaves d m e' []))
      (leaves d (suc n) e (b ∷ leaves d m e' [])) (copies (suc n) e ++ copies m e')
      (goto_more d n e (new (d + 1) (some e)) (b ∷ leaves d m e' []) (deeper d e))
      (spawn_tree-leaves (suc fuel) d n m e e' b k (omega (arith, h)))
