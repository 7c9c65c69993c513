-- ===== src/Procfs/Tests.antt =====
-- Tests and witnesses of the files of a process.
use lading.Prelude.{ℕ, ◌+◌, ◌≡◌, refl, arith, List, [], ◌∷◌, some, done, All, codes, false, length}
use lading.Payload.Tests.{lowest, lowest-range}
use lading.Observer.Stat.{split_words, parse}
use lading.Procfs.Numbers.{pos, negsuc, signed, umask_text, Standard}
use lading.Procfs.Stat
use lading.Procfs.Stat.{Stat, StatGenerator, after_comm, display}
use lading.Procfs.Masks.{mask_text, mem_size_text, list_collection_text, range_inclusive, single}
use lading.Procfs.Status.{line}
use lading.Procfs.Process.{Process, fixed}
use lading.Procfs.Fields.{words, split_words-after_comm, parse-display}
use lading.Procfs.Generated.{IsConsistent, fixed-IsConsistent}

-- what is drawn is the lowest value there is
abbrev pub lowest_standard : Standard
lowest_standard = record {
  rng = lowest;
  gen_u64 = λ s. (0, s + 1);
  gen_u32 = λ s. (0, s + 1);
  gen_u16 = λ s. (0, s + 1);
  gen_i64 = λ s. (pos 0, s + 1);
  gen_i32 = λ s. (pos 0, s + 1);
  gen_bool = λ s. (false, s + 1);
  range_32 = λ lo hi s. (lo, s + 1);
  in_u64 = λ s. omega arith;
  in_u32 = λ s. omega arith;
  in_u16 = λ s. omega arith;
  in_i64 = λ s. omega arith;
  in_i32 = λ s. omega arith;
  in_range_32 = lowest-range;
}

-- a command with a parenthesis and a space
abbrev drawn : Stat
drawn = (Stat.generate lowest_standard (record { pid = pos 17; comm = codes "a) b" }) 0).0

signed-minus : signed (negsuc 19) ≡ codes "-20"
unfolding signed
signed-minus = refl

umask_text-octal : umask_text 18 ≡ codes "0022"
unfolding umask_text
umask_text-octal = refl

-- The two characters of the prefix count among the sixteen.
mask_text-padded : mask_text 255 ≡ codes "0x000000000000ff"
unfolding mask_text
mask_text-padded = refl

mem_size_text-padded : mem_size_text 2047 ≡ codes "       1 kB"
unfolding mem_size_text
mem_size_text-padded = refl

list_collection_text-range :
    list_collection_text (range_inclusive 0 7 ∷ single 9 ∷ []) ≡ codes "0-7,9"
unfolding list_collection_text
list_collection_text-range = refl

line-umask : line (codes "Umask") (codes "0022" ∷ []) ≡ codes "Umask:\t0022\n"
unfolding line
line-umask = refl

parse-display_example :
    parse (display drawn) ≡ done (some (record { negative = false; size = 17 }, 0, 0))
unfolding Stat.generate
parse-display_example = parse-display drawn (omega arith, omega arith, omega arith)

split_words-after_comm_example : split_words [] (after_comm drawn) ≡ words drawn
split_words-after_comm_example = split_words-after_comm drawn

-- It has 49 words from the state on, which are 51 with the process ID and the command.
words-count : length (words drawn) ≡ 49
words-count = refl

fixed-IsConsistent_example :
    (ps : List Process) × (s' : ℕ) × (fixed lowest_standard 2 0 ≡ done (some ps, s'))
    × (length ps ≡ 2)
    × All IsConsistent ps
fixed-IsConsistent_example = fixed-IsConsistent lowest_standard 2 0
