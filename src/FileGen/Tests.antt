-- ===== src/FileGen/Tests.antt =====
-- Tests and witnesses of the writer of rotated files.
use lading.Prelude.{
  ℕ, ◌+◌, false, none, ◌≡◌, refl, arith, List, [], ◌∷◌, Option, some, Outcome, done, panicked,
  codes, decimal, text_eq,
}
use lading.Block.Cache.{Block, Cache}
use lading.Prelude.Names.{lookup, put, unset}
use lading.Block.Construct
use lading.Block.Construct.{Fixed, cache, error, no_fuel}
use lading.Block.Tests.{rotated, zeros}
use lading.Payload.Tests.{lowest-range}
use lading.Procfs.Numbers.{Standard, pos}
use lading.FileGen.Disk.{write_over}
use lading.FileGen.Child.{names_of, rotated_from, Writing, spin}
use lading.FileGen.Server.{Config, new}
use lading.FileGen.Shift.{contents}
use lading.FileGen.History.{History, latest, all_bytes, bytes_of, IsBounded}
use lading.FileGen.Named.{spin-Latest}
use lading.FileGen.Created.{new-no_depth}

abbrev blocks : List Block
blocks =
    record { total_bytes = 2; bytes = codes "ab" }
    ∷ record { total_bytes = 2; bytes = codes "cd" }
    ∷ record { total_bytes = 2; bytes = codes "ef" }
    ∷ []

names_of-two : names_of (codes "a.log") 2 ≡ codes "a.log" ∷ codes "a.log.0" ∷ codes "a.log.1" ∷ []
unfolding names_of decimal
names_of-two = refl

-- A log is closed when it has more bytes than its maximum.
spin-rotates :
    (w : Writing) × (spin (codes "a" ∷ codes "a.0" ∷ []) 3 [] blocks ≡ done w)
    × (contents w.disk (codes "a" ∷ codes "a.0" ∷ [])
        ≡ some (codes "ef") ∷ some (codes "abcd") ∷ [])
unfolding spin lookup put unset text_eq write_over
spin-rotates = (_, refl, refl)

spin-Latest_example :
    (w : Writing) × (logs : History) × (spin (names_of (codes "a.log") 2) 3 [] blocks ≡ done w)
    × (contents w.disk (names_of (codes "a.log") 2) ≡ some logs.current ∷ latest 2 logs.closed)
    × IsBounded 3 2 logs
    × (all_bytes (logs.current ∷ logs.closed) ≡ bytes_of blocks)
unfolding lookup rotated_from
spin-Latest_example =
    spin-Latest (codes "a.log") 2 3 2 [] blocks (omega arith) (refl, (refl, (refl, tt)))
      (omega arith, (omega arith, (omega arith, tt))) refl

-- The blocks that `Cache::fixed` constructs, and what `new` sees of them. The numbers of a range are
-- drawn in turn, four of them for the blocks, and the lowest ones otherwise.
abbrev rotated_standard : Standard
rotated_standard = record {
  rng = rotated;
  gen_u64 = λ s. (0, s + 1);
  gen_u32 = λ s. (0, s + 1);
  gen_u16 = λ s. (0, s + 1);
  gen_i64 = λ s. (pos 0, s + 1);
  gen_i32 = λ s. (pos 0, s + 1);
  gen_bool = λ s. (false, s + 1);
  range_32 = λ lo hi s. (lo, s + 1);
  in_u64 = λ s. omega arith;
  in_u32 = λ s. omega arith;
  in_u16 = λ s. omega arith;
  in_i64 = λ s. omega arith;
  in_i32 = λ s. omega arith;
  in_range_32 = lowest-range;
}

abbrev cache_or_error : ℕ → Fixed → Outcome (Option Cache × ℕ)
cache_or_error s (cache c) = done (some c, s)
cache_or_error s (error e) = done (none, s)
cache_or_error s Fixed.panicked = panicked
cache_or_error s no_fuel = panicked

abbrev fixed_cache : ℕ → Outcome (Option Cache × ℕ)
fixed_cache s = cache_or_error (s + 4) (Construct.fixed rotated zeros 13 s 6 4)

-- Blocks of one, two and three bytes.
abbrev constructed : Cache
constructed = record {
  idx = 0;
  blocks =
      record { total_bytes = 1; bytes = 0 ∷ [] }
      ∷ record { total_bytes = 2; bytes = 0 ∷ 0 ∷ [] }
      ∷ record { total_bytes = 3; bytes = 0 ∷ 0 ∷ 0 ∷ [] }
      ∷ [];
  total_cycle_size = 6;
}

fixed_cache-constructed : fixed_cache 0 ≡ done (some constructed, 4)
unfolding Construct.fixed
fixed_cache-constructed = refl

-- two logs, so many levels deep
abbrev config : ℕ → Config
config depth = record {
  concurrent_logs = 2;
  maximum_bytes_per_log = 10;
  total_rotations = 3;
  max_depth = depth;
  bytes_per_second = 5;
  maximum_prebuild_cache_size_bytes = 6;
}

new-no_depth_example : new rotated_standard fixed_cache (config 0) 0 ≡ panicked
new-no_depth_example =
    new-no_depth rotated_standard fixed_cache (config 0) 1 0 4 constructed (omega arith)
      (omega arith) (omega arith) refl refl fixed_cache-constructed
