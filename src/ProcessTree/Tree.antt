-- ===== src/ProcessTree/Tree.antt =====
-- process_tree.rs: the configuration, `Exec`, `Process` and `generate_tree`.
use lading.Prelude.{
  ℕ, zero, suc, ◌+◌, ◌-◌, ◌/◌, List, [], ◌∷◌, ◌++◌, Option, some, none, ltb, ◌==◌, if◌then◌else◌,
  Text, text_eq,
}
use lading.Random.{Rng}

pub data Args : Type 0 where
  static : List Text → Args
  generate : ℕ → ℕ → Args

pub data Envs : Type 0 where
  static : List Text → Envs
  generate : ℕ → ℕ → Envs

pub record Executable : Type 0 where
  pub executable : Text
  pub args : Args
  pub envs : Envs

pub record Config : Type 0 where
  pub max_depth : ℕ
  pub max_children : ℕ
  pub executables : List Executable

pub record Exec : Type 0 where
  pub executable : Text
  pub args : List Text
  pub envs : List (Text × Text)

pub record Process : Type 0 where
  pub depth : ℕ
  pub exec : Option Exec

-- `FxHashMap::insert`
unfoldable pub insert_env : List (Text × Text) → Text → Text → List (Text × Text)
unfolding text_eq
insert_env [] key value = (key, value) ∷ []
insert_env (entry ∷ envs) key value =
    let rest = insert_env envs key value in
    if text_eq entry.0 key then (key, value) ∷ envs else entry ∷ rest

-- `split_once('=')`; without the character there is no value
unfoldable pub split_env : Text → Text × Text
split_env [] = ([], [])
split_env (c ∷ cs) =
    let (key, value) = split_env cs in if c == b'=' then ([], cs) else (c ∷ key, value)

-- `StaticEnvs::to_map`
unfoldable pub to_map : List (Text × Text) → List Text → List (Text × Text)
unfolding split_env insert_env
to_map envs [] = envs
to_map envs (value ∷ values) = let (k, v) = split_env value in to_map (insert_env envs k v) values

-- `Process::new`
unfoldable pub new : ℕ → Option Exec → Process
new depth exec = record { depth = depth; exec = exec }

-- the children that are pushed on the stack, whose top is the head of the list
unfoldable pub push_children : ℕ → ℕ → List Process → List Process
unfolding new
push_children zero depth stack = stack
push_children (suc n) depth stack = new depth none ∷ push_children n depth stack

module _ (g : Rng) (rnd_str : ℕ → g.State → Text × g.State)
    (choose : List Executable → g.State → Option Executable × g.State) where
  open g use {State}

  unfoldable pub gen_rnd_args : ℕ → ℕ → State → List Text × State
  gen_rnd_args len zero s = ([], s)
  gen_rnd_args len (suc max) s =
      let (arg, s') = rnd_str len s in
      let (args, s'') = gen_rnd_args len max s' in (arg ∷ args, s'')

  -- the loop of `gen_rnd_envs`
  unfoldable pub gen_rnd_envs_from : List (Text × Text) → ℕ → ℕ → State → List (Text × Text) × State
  unfolding insert_env
  gen_rnd_envs_from envs len zero s = (envs, s)
  gen_rnd_envs_from envs len (suc max) s =
      let (key, s') = rnd_str (len / 2) s in
      let (value, s'') = rnd_str (len - len / 2) s' in
      gen_rnd_envs_from (insert_env envs key value) len max s''

  unfoldable pub gen_rnd_envs : ℕ → ℕ → State → List (Text × Text) × State
  unfolding gen_rnd_envs_from
  gen_rnd_envs len max s = gen_rnd_envs_from [] len max s

  unfoldable pub exec_args : Args → State → List Text × State
  unfolding gen_rnd_args
  exec_args (Args.static values) s = (values, s)
  exec_args (Args.generate length count) s = gen_rnd_args length count s

  unfoldable pub exec_envs : Envs → State → List (Text × Text) × State
  unfolding to_map gen_rnd_envs
  exec_envs (Envs.static values) s = (to_map [] values, s)
  exec_envs (Envs.generate length count) s = gen_rnd_envs length count s

  unfoldable pub exec_of : Option Executable → State → Option Exec × State
  unfolding exec_args exec_envs
  exec_of none s = (none, s)
  exec_of (some e) s =
      let (args, s') = exec_args e.args s in
      let (envs, s'') = exec_envs e.envs s' in
      (some (record { executable = e.executable; args = args; envs = envs }), s'')

  -- `Exec::new`; none is the error of an empty list of executables
  unfoldable pub exec_new : Config → State → Option Exec × State
  unfolding exec_of
  exec_new config s = let (chosen, s') = choose config.executables s in exec_of chosen s'

  -- what the nodes of a round are put before: the nodes of the rounds after it, or their error
  unfoldable pub before :
      List Process → Option (Option (List Process)) → Option (Option (List Process))
  before nodes none = none
  before nodes (some none) = some none
  before nodes (some (some rest)) = some (some (nodes ++ rest))

  -- the round for a process below which there is a command to run
  unfoldable pub leaf_round :
      (State → Option (Option (List Process)))
      → Process
      → Option Exec × State
      → Option (Option (List Process))
  unfolding before new
  leaf_round again process (none, s) = some none
  leaf_round again process (some exec, s) =
      before (process ∷ new (process.depth + 1) (some exec) ∷ []) (again s)

  -- The loop over the stack: none where its fuel has run out, and within it none for an error.
  unfoldable pub tree_loop : ℕ → Config → List Process → State → Option (Option (List Process))
  unfolding exec_new push_children leaf_round
  tree_loop fuel config [] s = some (some [])
  tree_loop zero config (process ∷ stack) s = none
  tree_loop (suc fuel) config (process ∷ stack) s =
      if ltb config.max_depth (process.depth + 1)
      then leaf_round (λ s'. tree_loop fuel config stack s') process (exec_new config s)
      else before (process ∷ [])
          (tree_loop fuel config (push_children config.max_children (process.depth + 1) stack) s)

  -- `generate_tree`
  unfoldable pub generate_tree : ℕ → Config → State → Option (Option (List Process))
  unfolding tree_loop
  generate_tree fuel config s = tree_loop fuel config (new 1 none ∷ []) s
