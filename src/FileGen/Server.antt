-- ===== src/FileGen/Server.antt =====
-- logrotate.rs: `Server::new`. A path below the root is the list of its directories and a file name.
use lading.Prelude.{
  ℕ, zero, suc, ◌+◌, ◌%◌, ◌^◌, List, [], ◌∷◌, ◌++◌, Option, some, none, Outcome, done, panicked,
  ◌>>=◌, Text, decimal, codes, ◌==◌, ltb, if◌then◌else◌,
}
use lading.Random.{gen_range}
use lading.Block.Cache.{Cache}
use lading.Procfs.Numbers.{Standard}
use lading.FileGen.Child.{names_of}

-- sizes in bytes
pub record Config : Type 0 where
  pub concurrent_logs : ℕ
  pub maximum_bytes_per_log : ℕ
  pub total_rotations : ℕ
  pub max_depth : ℕ
  pub bytes_per_second : ℕ
  pub maximum_prebuild_cache_size_bytes : ℕ

pub record Child : Type 0 where
  pub directories : List Text
  pub names : List Text
  pub maximum_bytes_per_log : ℕ
  pub block_cache : Cache

-- what `new` returns: the children that it spawns, or an error
pub data Created : Type 0 where
  created : List Child → Created
  zero_error : Created
  block_error : Created

-- a child before those that follow it, unless they end in an error
unfoldable pub add_child : Child → Created → Created
add_child child (created children) = created (child ∷ children)
add_child child zero_error = zero_error
add_child child block_error = block_error

-- `Child::new`; the capacity for the names, `total_rotations + 1`, is a `u8` and panics where it overflows
unfoldable pub new_child : Text → ℕ → ℕ → Cache → List Text → Outcome Child
unfolding names_of
new_child file_name total_rotations maximum_bytes_per_log block_cache directories =
    if ltb (total_rotations + 1) 256
    then done (record {
      directories = directories;
      names = names_of file_name total_rotations;
      maximum_bytes_per_log = maximum_bytes_per_log;
      block_cache = block_cache;
    })
    else panicked

-- the construction of the blocks is `Cache::fixed` with the options of the configuration
module _ (r : Standard) (fixed : r.rng.State → Outcome (Option Cache × r.rng.State)) where
  open r use {rng, gen_u16, gen_u64}
  open rng use {State}

  -- the directories of a path, so many levels deep
  unfoldable pub push_directories : ℕ → State → List Text × State
  push_directories zero s = ([], s)
  push_directories (suc depth) s =
      let (n, s') = gen_u16 s in
      let (dirs, s'') = push_directories depth s' in (decimal n ∷ dirs, s'')

  -- the child of a cache, if there is one, and then the children after it
  unfoldable pub with_cache :
      (State → Outcome Created) → Config → Option Cache → State → Outcome Created
  unfolding push_directories add_child new_child
  with_cache again config none s = done block_error
  with_cache again config (some cache) s = do
    (depth, s1) ← gen_range rng 0 config.max_depth s
    let (dirs, s2) = push_directories depth s1
    let (n, s3) = gen_u64 s2
    child ←
        new_child (decimal n ++ codes ".log") config.total_rotations
          (config.maximum_bytes_per_log % 2 ^ 32) cache dirs
    rest ← again s3
    done (add_child child rest)

  -- the loop over the logs to go
  unfoldable pub spawn_children : Config → ℕ → State → Outcome Created
  unfolding with_cache
  spawn_children config zero s = done (created [])
  spawn_children config (suc n) s =
      if config.maximum_prebuild_cache_size_bytes % 2 ^ 32 == 0 then done zero_error else (do
        (cache, s') ← fixed s
        with_cache (λ s''. spawn_children config n s'') config cache s')

  -- `Server::new`
  unfoldable pub new : Config → State → Outcome Created
  unfolding spawn_children
  new config s =
      if config.bytes_per_second % 2 ^ 32 == 0
      then panicked
      else if config.maximum_bytes_per_log % 2 ^ 32 == 0
      then done zero_error
      else spawn_children config config.concurrent_logs s
