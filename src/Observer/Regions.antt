-- ===== src/Observer/Regions.antt =====
-- smaps.rs: `Region::from_str` and `Regions::from_str`; none is an error. A value in kibibytes is taken
-- not to overflow.
use lading.Prelude.{
  ℕ, ◌*◌, List, [], ◌∷◌, ◌++◌, Bool, true, false, ◌&&◌, Option, some, none, ◌==◌, if◌then◌else◌,
  Text, text_eq,
}
use lading.Observer.Tokens.{next_token, lines, from_str_radix, digit}
use lading.Observer.Smaps.{
  bytes_per_kibibyte, Required, Optional, Region, Values, no_values, set_value, set_optional,
  required_names, optional_names,
}

-- the question mark of Rust
infixl 20 ◌>>=◌
abbrev ◌>>=◌ : {A B : Type 0} → Option A → (A → Option B) → Option B
none >>= f = none
some a >>= f = f a

-- a text before and after its first dash
unfoldable pub split_dash : Text → Option (Text × Text)
split_dash [] = none
split_dash (c ∷ cs) =
    if c == b'-'
    then some ([], cs)
    else elim (split_dash cs) [ none ↦ none | some (before, after) ↦ some (c ∷ before, after) ]

-- the addresses of a region: two numbers with a dash between them
unfoldable pub parse_addresses : Text → Option (ℕ × ℕ)
unfolding split_dash from_str_radix
parse_addresses token = do
  (start_str, end_str) ← split_dash token
  start ← from_str_radix 16 start_str
  end ← from_str_radix 16 end_str
  some (start, end)

-- the tokens of the metadata line from one on, each with the test that it must pass
unfoldable pub read_tokens : List (Text → Bool) → Text → Option Text
unfolding next_token
read_tokens [] line = elim (next_token line) [ none ↦ some [] | some (token, rest) ↦ some token ]
read_tokens (test ∷ tests) line = elim (next_token line) [
  | none ↦ some []
  | some (token, rest) ↦ if test token then read_tokens tests rest else none
]

unfoldable pub is_some : {A : Type 0} → Option A → Bool
is_some none = false
is_some (some a) = true

-- the tests on addresses, permissions, offset, device and inode
unfoldable pub metadata_tests : List (Text → Bool)
unfolding is_some parse_addresses from_str_radix
metadata_tests =
    (λ token. is_some (parse_addresses token))
    ∷ (λ token. true)
    ∷ (λ token. is_some (from_str_radix 16 token))
    ∷ (λ token. true)
    ∷ (λ token. is_some (from_str_radix 10 token))
    ∷ []

-- the pathname of the metadata line, which may be missing
unfoldable pub read_pathname : Text → Option Text
unfolding read_tokens metadata_tests
read_pathname metadata_line = read_tokens metadata_tests metadata_line

-- `value_in_kibibytes`
unfoldable pub value_in_kibibytes : Text → Option ℕ
unfolding next_token from_str_radix
value_in_kibibytes line = do
  (value_token, after_value) ← next_token line
  (unit, rest) ← next_token after_value
  numeric ← from_str_radix 10 value_token
  if text_eq unit (b'k' ∷ b'B' ∷ []) then some (numeric * bytes_per_kibibyte) else none

unfoldable pub find_name : {A : Type 0} → List (Text × A) → Text → Option A
find_name [] name = none
find_name (entry ∷ names) name =
    let others = find_name names name in if text_eq entry.0 name then some entry.1 else others

-- what a line with a name and a value does
unfoldable pub read_value : Option Required → Option Optional → Text → Values → Option Values
unfolding value_in_kibibytes set_value set_optional
read_value (some field) optional line v = do n ← value_in_kibibytes line; some (set_value field n v)
read_value none (some field) line v = do n ← value_in_kibibytes line; some (set_optional field n v)
read_value none none line v = some v

unfoldable pub read_line : Text → Values → Option Values
unfolding next_token find_name read_value
read_line line v = elim (next_token line) [
  | none ↦ some v
  | some (name, rest) ↦
      read_value (find_name required_names name) (find_name optional_names name) rest v
]

unfoldable pub read_lines : List Text → Values → Option Values
unfolding read_line
read_lines [] v = some v
read_lines (line ∷ more) v = do v' ← read_line line v; read_lines more v'

-- the region, where all values are there that a region has
unfoldable pub region_of : Text → Values → Option Region
region_of pathname v = do
  size ← v.size
  pss ← v.pss
  rss ← v.rss
  swap ← v.swap
  some (record {
    pathname = pathname;
    measure = record {
      size = size;
      pss = pss;
      swap = swap;
      rss = rss;
      pss_dirty = v.pss_dirty;
      shared_clean = v.shared_clean;
      shared_dirty = v.shared_dirty;
      private_clean = v.private_clean;
      private_dirty = v.private_dirty;
      referenced = v.referenced;
      anonymous = v.anonymous;
      lazy_free = v.lazy_free;
      anon_huge_pages = v.anon_huge_pages;
      shmem_pmd_mapped = v.shmem_pmd_mapped;
      file_pmd_mapped = v.file_pmd_mapped;
      shared_hugetlb = v.shared_hugetlb;
      private_hugetlb = v.private_hugetlb;
      swap_pss = v.swap_pss;
      locked = v.locked;
    };
  })

unfoldable pub read_region : List Text → Option Region
unfolding read_pathname read_lines region_of no_values
read_region [] = none
read_region (metadata_line ∷ more) = do
  pathname ← read_pathname metadata_line
  v ← read_lines more no_values
  region_of pathname v

-- `Region::from_str`
unfoldable pub region_from_str : Text → Option Region
unfolding lines read_region
region_from_str contents = read_region (lines contents)

-- the regular expression for the start of a region, once it has met a digit or not
unfoldable pub region_start : Bool → Text → Bool
unfolding is_some digit
region_start met [] = false
region_start met (c ∷ []) = false
region_start met (c ∷ d ∷ cs) =
    let rest = region_start true (d ∷ cs) in
    if is_some (digit 16 c) then rest else met && c == b'-' && is_some (digit 16 d)

-- the region that ends where another starts
unfoldable pub close_region : Option Text → List Text
close_region none = []
close_region (some region) = region ∷ []

unfoldable pub extend_region : Option Text → ℕ → Option Text
extend_region none c = none
extend_region (some region) c = some (region ++ c ∷ [])

-- `into_region_strs`, from a place that is the start of a line or is not
unfoldable pub split_regions : Option Text → Bool → Text → List Text
unfolding region_start close_region extend_region
split_regions region line_start [] = close_region region
split_regions region line_start (c ∷ cs) =
    let again = split_regions (some (c ∷ [])) (c == 10) cs in
    let more = split_regions (extend_region region c) (c == 10) cs in
    if line_start && region_start false (c ∷ cs) then close_region region ++ again else more

unfoldable pub into_region_strs : Text → List Text
unfolding split_regions
into_region_strs contents = split_regions none true contents

unfoldable pub read_regions : List Text → Option (List Region)
unfolding region_from_str
read_regions [] = some []
read_regions (contents ∷ others) = do
  region ← region_from_str contents
  regions ← read_regions others
  some (region ∷ regions)

-- `Regions::from_str`
unfoldable pub from_str : Text → Option (List Region)
unfolding into_region_strs read_regions
from_str contents = read_regions (into_region_strs contents)
