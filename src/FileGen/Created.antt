-- ===== src/FileGen/Created.antt =====
-- What `Server::new` makes of a configuration.
use lading.Prelude.{
  ℕ, zero, suc, ◌+◌, ◌%◌, ◌^◌, ◌<◌, ◌≡◌, ◌≢◌, refl, ap, ◌∙◌, List, [], ◌∷◌, ◌++◌, Option, some,
  Outcome, done, panicked, ◌>>=◌, false, All, arith, Text, length, if-false, ◌==◌, lt→ltb,
  le→not-ltb, decimal, codes,
}
use lading.Block.Cache.{Cache}
use lading.Procfs.Numbers.{Standard}
use lading.FileGen.Child.{names_of}
use lading.FileGen.Named.{length-rotated_from}
use lading.FileGen.Server.{
  new_child, Config, Child, Created, created, add_child, push_directories, with_cache,
  spawn_children, new,
}

-- A size is not zero as a `u32`.
abbrev pub IsNonzero : ℕ → Type 0
IsNonzero bytes = bytes % 2 ^ 32 ≢ 0

-- A child is in fewer directories than the depth says, and has a name for the log and for each
-- rotation.
abbrev pub IsChildOf : Config → Child → Type 0
IsChildOf config child =
    (length child.directories < config.max_depth)
    × (length child.names ≡ config.total_rotations + 1)
    × (child.maximum_bytes_per_log ≡ config.maximum_bytes_per_log % 2 ^ 32)

length-names_of : (base : Text) (n : ℕ) → length (names_of base n) ≡ n + 1
unfolding names_of
length-names_of base n = omega (arith, length-rotated_from base 0 n)

nonzero : (n : ℕ) → n ≢ 0 → (n == 0) ≡ false
nonzero n h = ground (arith, h)

module _ (r : Standard) (fixed : r.rng.State → Outcome (Option Cache × r.rng.State)) where
  open r use {rng}
  open rng use {State}

  -- The construction of the blocks succeeds.
  abbrev pub AlwaysFixed : Type 0
  AlwaysFixed = (s : State) → (cache : Cache) × (s' : State) × (fixed s ≡ done (some cache, s'))

  length-push_directories :
      (depth : ℕ) (s : State) → length (push_directories r fixed depth s).0 ≡ depth
  unfolding push_directories
  length-push_directories zero s = refl
  length-push_directories (suc depth) s =
      omega (arith, length-push_directories depth (r.gen_u16 s).1)

  spawn_step :
      (config : Config) (n : ℕ) (s s' : State) (cache : Cache)
      → IsNonzero config.maximum_prebuild_cache_size_bytes
      → fixed s ≡ done (some cache, s')
      → spawn_children r fixed config (suc n) s
        ≡ with_cache r fixed (λ s''. spawn_children r fixed config n s'') config (some cache) s'
  unfolding spawn_children
  spawn_step config n s s' cache h e =
      if-false (config.maximum_prebuild_cache_size_bytes % 2 ^ 32 == 0) (done Created.zero_error) _
        (nonzero (config.maximum_prebuild_cache_size_bytes % 2 ^ 32) h)
      ∙ ap
          (λ (o : Outcome (Option Cache × State)). o >>= λ x.
            with_cache r fixed (λ s''. spawn_children r fixed config n s'') config x.0 x.1)
          e

  -- the names and the directories of a child, and the generator after them
  abbrev drawn_depth : Config → State → ℕ × State
  drawn_depth config s = rng.draw_range 0 config.max_depth s

  abbrev drawn_path : Config → State → List Text × State
  drawn_path config s = push_directories r fixed (drawn_depth config s).0 (drawn_depth config s).1

  abbrev drawn_name : Config → State → ℕ × State
  drawn_name config s = r.gen_u64 (drawn_path config s).1

  abbrev drawn_child : Config → Cache → State → Child
  drawn_child config cache s = record {
    directories = (drawn_path config s).0;
    names = names_of (decimal (drawn_name config s).0 ++ codes ".log") config.total_rotations;
    maximum_bytes_per_log = config.maximum_bytes_per_log % 2 ^ 32;
    block_cache = cache;
  }

  with_cache-some :
      (again : State → Outcome Created) (config : Config) (cache : Cache) (s : State)
      → 0 < config.max_depth
      → config.total_rotations < 255
      → with_cache r fixed again config (some cache) s ≡ (
          again (drawn_name config s).1 >>= λ rest.
          done (add_child (drawn_child config cache s) rest))
  unfolding with_cache new_child
  with_cache-some again config cache s h k =
      rw (lt→ltb 0 config.max_depth h, lt→ltb (config.total_rotations + 1) 256 (omega (arith, k)))
        refl

  with_cache-empty :
      (again : State → Outcome Created) (config : Config) (cache : Cache) (s : State)
      → config.max_depth ≡ 0
      → with_cache r fixed again config (some cache) s ≡ panicked
  unfolding with_cache
  with_cache-empty again config cache s h =
      rw (le→not-ltb 0 config.max_depth (omega (arith, h))) refl

  spawn_children-Created :
      (config : Config) (n : ℕ) (s : State)
      → IsNonzero config.maximum_prebuild_cache_size_bytes
      → 0 < config.max_depth
      → config.total_rotations < 255
      → AlwaysFixed
      → (children : List Child) × (spawn_children r fixed config n s ≡ done (created children))
        × (length children ≡ n)
        × All (IsChildOf config) children
  unfolding spawn_children add_child
  spawn_children-Created config zero s h k v f = ([], refl, refl, tt)
  spawn_children-Created config (suc n) s h k v f =
      let (cache, s', e) = f s in
      let again = λ (s'' : State). spawn_children r fixed config n s'' in
      let (children, p, l, c) = spawn_children-Created config n (drawn_name config s').1 h k v f in
      let child : Child = drawn_child config cache s' in
      (
        child ∷ children,
        spawn_step config n s s' cache h e
            ∙ with_cache-some again config cache s' k v
            ∙ ap (λ (o : Outcome Created). o >>= λ rest. done (add_child child rest)) p,
        omega (arith, l),
        (
          (
            omega (
              arith,
              length-push_directories (drawn_depth config s').0 (drawn_depth config s').1,
              (rng.in_range 0 config.max_depth s' k).1,
            ),
            length-names_of (decimal (drawn_name config s').0 ++ codes ".log")
                config.total_rotations,
            refl,
          ),
          c,
        ),
      )

  new_step :
      (config : Config) (s : State)
      → IsNonzero config.bytes_per_second
      → IsNonzero config.maximum_bytes_per_log
      → new r fixed config s ≡ spawn_children r fixed config config.concurrent_logs s
  unfolding new
  new_step config s h k =
      if-false (config.bytes_per_second % 2 ^ 32 == 0) panicked _
        (nonzero (config.bytes_per_second % 2 ^ 32) h)
      ∙ if-false (config.maximum_bytes_per_log % 2 ^ 32 == 0) (done Created.zero_error) _
          (nonzero (config.maximum_bytes_per_log % 2 ^ 32) k)

  -- With sizes that are not zero as 32-bit numbers, a depth of one at least, fewer than 255 rotations and
  -- caches that are always built, `new` neither panics nor fails, and spawns just `concurrent_logs` children. Each is in
  -- fewer directories than `max_depth` and has one name more than there are rotations.
  pub new-Created :
      (config : Config) (s : State)
      → IsNonzero config.bytes_per_second
      → IsNonzero config.maximum_bytes_per_log
      → IsNonzero config.maximum_prebuild_cache_size_bytes
      → 0 < config.max_depth
      → config.total_rotations < 255
      → AlwaysFixed
      → (children : List Child) × (new r fixed config s ≡ done (created children))
        × (length children ≡ config.concurrent_logs)
        × All (IsChildOf config) children
  new-Created config s h k l d v f =
      let (children, p, n, c) = spawn_children-Created config config.concurrent_logs s l d v f in
      (children, new_step config s h k ∙ p, n, c)

  -- With a `max_depth` of zero, for which the configuration promises all files in the root path, `new`
  -- panics on sizes that are not zero as 32-bit numbers as soon as there is a log and the cache of the
  -- first one is built.
  pub new-no_depth :
      (config : Config) (n : ℕ) (s s' : State) (cache : Cache)
      → IsNonzero config.bytes_per_second
      → IsNonzero config.maximum_bytes_per_log
      → IsNonzero config.maximum_prebuild_cache_size_bytes
      → config.concurrent_logs ≡ suc n
      → config.max_depth ≡ 0
      → fixed s ≡ done (some cache, s')
      → new r fixed config s ≡ panicked
  new-no_depth config n s s' cache h k l m d e =
      new_step config s h k
      ∙ ap (λ (logs : ℕ). spawn_children r fixed config logs s) m
      ∙ spawn_step config n s s' cache l e
      ∙ with_cache-empty (λ (s'' : State). spawn_children r fixed config n s'') config cache s' d
