-- ===== src/Observer/Smaps.antt =====
-- smaps.rs: `Region`, its parser, and the aggregation by pathname. Sums of values are taken not to
-- overflow.
use lading.Prelude.{ℕ, ◌+◌, List, [], ◌∷◌, Option, some, none, if◌then◌else◌, Text, text_eq}

-- `BYTES_PER_KIBIBYTE`
abbrev pub bytes_per_kibibyte : ℕ
bytes_per_kibibyte = 1024

-- the values that every region has, and those that it may have
pub data Required : Type 0 where
  size pss swap rss : Required

pub data Optional : Type 0 where
  pss_dirty shared_clean shared_dirty private_clean private_dirty referenced anonymous lazy_free
        anon_huge_pages shmem_pmd_mapped file_pmd_mapped shared_hugetlb private_hugetlb swap_pss
        locked :
      Optional

-- `AggrMeasure`, the fields of a region other than its pathname
pub record AggrMeasure : Type 0 where
  pub size : ℕ
  pub pss : ℕ
  pub swap : ℕ
  pub rss : ℕ
  pub pss_dirty : Option ℕ
  pub shared_clean : Option ℕ
  pub shared_dirty : Option ℕ
  pub private_clean : Option ℕ
  pub private_dirty : Option ℕ
  pub referenced : Option ℕ
  pub anonymous : Option ℕ
  pub lazy_free : Option ℕ
  pub anon_huge_pages : Option ℕ
  pub shmem_pmd_mapped : Option ℕ
  pub file_pmd_mapped : Option ℕ
  pub shared_hugetlb : Option ℕ
  pub private_hugetlb : Option ℕ
  pub swap_pss : Option ℕ
  pub locked : Option ℕ

pub record Region : Type 0 where
  pub pathname : Text
  pub measure : AggrMeasure

-- the values of a region whose lines are being read
pub record Values : Type 0 where
  pub size : Option ℕ
  pub pss : Option ℕ
  pub swap : Option ℕ
  pub rss : Option ℕ
  pub pss_dirty : Option ℕ
  pub shared_clean : Option ℕ
  pub shared_dirty : Option ℕ
  pub private_clean : Option ℕ
  pub private_dirty : Option ℕ
  pub referenced : Option ℕ
  pub anonymous : Option ℕ
  pub lazy_free : Option ℕ
  pub anon_huge_pages : Option ℕ
  pub shmem_pmd_mapped : Option ℕ
  pub file_pmd_mapped : Option ℕ
  pub shared_hugetlb : Option ℕ
  pub private_hugetlb : Option ℕ
  pub swap_pss : Option ℕ
  pub locked : Option ℕ

unfoldable pub no_values : Values
no_values = record {
  size = none;
  pss = none;
  swap = none;
  rss = none;
  pss_dirty = none;
  shared_clean = none;
  shared_dirty = none;
  private_clean = none;
  private_dirty = none;
  referenced = none;
  anonymous = none;
  lazy_free = none;
  anon_huge_pages = none;
  shmem_pmd_mapped = none;
  file_pmd_mapped = none;
  shared_hugetlb = none;
  private_hugetlb = none;
  swap_pss = none;
  locked = none;
}

-- the value of a field after its line
unfoldable pub set_value : Required → ℕ → Values → Values
set_value Required.size n v = record v { size = some n }
set_value Required.pss n v = record v { pss = some n }
set_value Required.swap n v = record v { swap = some n }
set_value Required.rss n v = record v { rss = some n }

unfoldable pub set_optional : Optional → ℕ → Values → Values
set_optional Optional.pss_dirty n v = record v { pss_dirty = some n }
set_optional Optional.shared_clean n v = record v { shared_clean = some n }
set_optional Optional.shared_dirty n v = record v { shared_dirty = some n }
set_optional Optional.private_clean n v = record v { private_clean = some n }
set_optional Optional.private_dirty n v = record v { private_dirty = some n }
set_optional Optional.referenced n v = record v { referenced = some n }
set_optional Optional.anonymous n v = record v { anonymous = some n }
set_optional Optional.lazy_free n v = record v { lazy_free = some n }
set_optional Optional.anon_huge_pages n v = record v { anon_huge_pages = some n }
set_optional Optional.shmem_pmd_mapped n v = record v { shmem_pmd_mapped = some n }
set_optional Optional.file_pmd_mapped n v = record v { file_pmd_mapped = some n }
set_optional Optional.shared_hugetlb n v = record v { shared_hugetlb = some n }
set_optional Optional.private_hugetlb n v = record v { private_hugetlb = some n }
set_optional Optional.swap_pss n v = record v { swap_pss = some n }
set_optional Optional.locked n v = record v { locked = some n }

-- the values with a name in the file
abbrev pub required_names : List (Text × Required)
required_names =
    ((b'S' ∷ b'i' ∷ b'z' ∷ b'e' ∷ b':' ∷ []), Required.size)
    ∷ ((b'P' ∷ b's' ∷ b's' ∷ b':' ∷ []), Required.pss)
    ∷ ((b'S' ∷ b'w' ∷ b'a' ∷ b'p' ∷ b':' ∷ []), Required.swap)
    ∷ ((b'R' ∷ b's' ∷ b's' ∷ b':' ∷ []), Required.rss)
    ∷ []

abbrev pub optional_names : List (Text × Optional)
optional_names =
    ((b'P' ∷ b's' ∷ b's' ∷ b'_' ∷ b'D' ∷ b'i' ∷ b'r' ∷ b't' ∷ b'y' ∷ b':' ∷ []), Optional.pss_dirty)
    ∷ (
      (b'S' ∷ b'h' ∷ b'a' ∷ b'r' ∷ b'e' ∷ b'd' ∷ b'_' ∷ b'C' ∷ b'l' ∷ b'e' ∷ b'a' ∷ b'n' ∷ b':'
          ∷ []),
      Optional.shared_clean,
    )
    ∷ (
      (b'S' ∷ b'h' ∷ b'a' ∷ b'r' ∷ b'e' ∷ b'd' ∷ b'_' ∷ b'D' ∷ b'i' ∷ b'r' ∷ b't' ∷ b'y' ∷ b':'
          ∷ []),
      Optional.shared_dirty,
    )
    ∷ (
      (b'P' ∷ b'r' ∷ b'i' ∷ b'v' ∷ b'a' ∷ b't' ∷ b'e' ∷ b'_' ∷ b'C' ∷ b'l' ∷ b'e' ∷ b'a' ∷ b'n'
          ∷ b':' ∷ []),
      Optional.private_clean,
    )
    ∷ (
      (b'P' ∷ b'r' ∷ b'i' ∷ b'v' ∷ b'a' ∷ b't' ∷ b'e' ∷ b'_' ∷ b'D' ∷ b'i' ∷ b'r' ∷ b't' ∷ b'y'
          ∷ b':' ∷ []),
      Optional.private_dirty,
    )
    ∷ (
      (b'R' ∷ b'e' ∷ b'f' ∷ b'e' ∷ b'r' ∷ b'e' ∷ b'n' ∷ b'c' ∷ b'e' ∷ b'd' ∷ b':' ∷ []),
      Optional.referenced,
    )
    ∷ (
      (b'A' ∷ b'n' ∷ b'o' ∷ b'n' ∷ b'y' ∷ b'm' ∷ b'o' ∷ b'u' ∷ b's' ∷ b':' ∷ []),
      Optional.anonymous,
    )
    ∷ ((b'L' ∷ b'a' ∷ b'z' ∷ b'y' ∷ b'F' ∷ b'r' ∷ b'e' ∷ b'e' ∷ b':' ∷ []), Optional.lazy_free)
    ∷ (
      (b'A' ∷ b'n' ∷ b'o' ∷ b'n' ∷ b'H' ∷ b'u' ∷ b'g' ∷ b'e' ∷ b'P' ∷ b'a' ∷ b'g' ∷ b'e' ∷ b's'
          ∷ b':' ∷ []),
      Optional.anon_huge_pages,
    )
    ∷ (
      (b'S' ∷ b'h' ∷ b'm' ∷ b'e' ∷ b'm' ∷ b'P' ∷ b'm' ∷ b'd' ∷ b'M' ∷ b'a' ∷ b'p' ∷ b'p' ∷ b'e'
          ∷ b'd' ∷ b':' ∷ []),
      Optional.shmem_pmd_mapped,
    )
    ∷ (
      (b'F' ∷ b'i' ∷ b'l' ∷ b'e' ∷ b'P' ∷ b'm' ∷ b'd' ∷ b'M' ∷ b'a' ∷ b'p' ∷ b'p' ∷ b'e' ∷ b'd'
          ∷ b':' ∷ []),
      Optional.file_pmd_mapped,
    )
    ∷ (
      (b'S' ∷ b'h' ∷ b'a' ∷ b'r' ∷ b'e' ∷ b'd' ∷ b'_' ∷ b'H' ∷ b'u' ∷ b'g' ∷ b'e' ∷ b't' ∷ b'l'
          ∷ b'b' ∷ b':' ∷ []),
      Optional.shared_hugetlb,
    )
    ∷ (
      (b'P' ∷ b'r' ∷ b'i' ∷ b'v' ∷ b'a' ∷ b't' ∷ b'e' ∷ b'_' ∷ b'H' ∷ b'u' ∷ b'g' ∷ b'e' ∷ b't'
          ∷ b'l' ∷ b'b' ∷ b':' ∷ []),
      Optional.private_hugetlb,
    )
    ∷ ((b'S' ∷ b'w' ∷ b'a' ∷ b'p' ∷ b'P' ∷ b's' ∷ b's' ∷ b':' ∷ []), Optional.swap_pss)
    ∷ ((b'L' ∷ b'o' ∷ b'c' ∷ b'k' ∷ b'e' ∷ b'd' ∷ b':' ∷ []), Optional.locked)
    ∷ []

-- `AggrMeasure::default`
unfoldable pub no_measure : AggrMeasure
no_measure = record {
  size = 0;
  pss = 0;
  swap = 0;
  rss = 0;
  pss_dirty = none;
  shared_clean = none;
  shared_dirty = none;
  private_clean = none;
  private_dirty = none;
  referenced = none;
  anonymous = none;
  lazy_free = none;
  anon_huge_pages = none;
  shmem_pmd_mapped = none;
  file_pmd_mapped = none;
  shared_hugetlb = none;
  private_hugetlb = none;
  swap_pss = none;
  locked = none;
}

-- `aggregate_option`
unfoldable pub aggregate_option : Option ℕ → Option ℕ → Option ℕ
aggregate_option aggregate none = aggregate
aggregate_option none (some v) = some v
aggregate_option (some a) (some v) = some (a + v)

-- an entry with the values of a region added
unfoldable pub add_measure : AggrMeasure → AggrMeasure → AggrMeasure
unfolding aggregate_option
add_measure entry region = record {
  size = entry.size + region.size;
  pss = entry.pss + region.pss;
  swap = entry.swap + region.swap;
  rss = entry.rss + region.rss;
  pss_dirty = aggregate_option entry.pss_dirty region.pss_dirty;
  shared_clean = aggregate_option entry.shared_clean region.shared_clean;
  shared_dirty = aggregate_option entry.shared_dirty region.shared_dirty;
  private_clean = aggregate_option entry.private_clean region.private_clean;
  private_dirty = aggregate_option entry.private_dirty region.private_dirty;
  referenced = aggregate_option entry.referenced region.referenced;
  anonymous = aggregate_option entry.anonymous region.anonymous;
  lazy_free = aggregate_option entry.lazy_free region.lazy_free;
  anon_huge_pages = aggregate_option entry.anon_huge_pages region.anon_huge_pages;
  shmem_pmd_mapped = aggregate_option entry.shmem_pmd_mapped region.shmem_pmd_mapped;
  file_pmd_mapped = aggregate_option entry.file_pmd_mapped region.file_pmd_mapped;
  shared_hugetlb = aggregate_option entry.shared_hugetlb region.shared_hugetlb;
  private_hugetlb = aggregate_option entry.private_hugetlb region.private_hugetlb;
  swap_pss = aggregate_option entry.swap_pss region.swap_pss;
  locked = aggregate_option entry.locked region.locked;
}

-- the entry of a pathname, or a new one, with the values of a region added
unfoldable pub add_region : List (Text × AggrMeasure) → Region → List (Text × AggrMeasure)
unfolding add_measure no_measure
add_region [] region = (region.pathname, add_measure no_measure region.measure) ∷ []
add_region (entry ∷ entries) region =
    let rest = add_region entries region in
    if text_eq entry.0 region.pathname
    then (entry.0, add_measure entry.1 region.measure) ∷ entries
    else entry ∷ rest

unfoldable pub add_regions : List (Text × AggrMeasure) → List Region → List (Text × AggrMeasure)
unfolding add_region
add_regions entries [] = entries
add_regions entries (region ∷ regions) = add_regions (add_region entries region) regions

-- `aggregate_by_pathname`, with the entries in the order of their first regions
unfoldable pub aggregate_by_pathname : List Region → List (Text × AggrMeasure)
unfolding add_regions
aggregate_by_pathname regions = add_regions [] regions
