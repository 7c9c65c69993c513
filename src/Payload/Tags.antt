-- ===== src/Payload/Tags.antt =====
-- lading_payload/src/dogstatsd/common/tags.rs, and `ConfRange` of dogstatsd.rs over unsigned numbers.
-- A tag is a list of bytes. Floats, the generator that a seed yields and `choose` are parameters.
use lading.Prelude.{
  ℕ, zero, suc, ◌+◌, ◌-◌, List, [], ◌∷◌, ◌++◌, Bool, Option, some, none, Outcome, done, panicked,
  ◌>>=◌, ◌>>◌, assert, ltb, leb, ◌&&◌, not, All, if◌then◌else◌,
}
use lading.Random.{Rng, gen_range}
use lading.Payload.Strings.{Pool, Handle, of_size_with_handle, using_handle}

-- `ConfRange`
pub data ConfRange : Type 0 where
  constant : ℕ → ConfRange
  inclusive : ℕ → ℕ → ConfRange

unfoldable pub valid : ConfRange → Bool
valid (constant c) = Bool.true
valid (inclusive min max) = ltb min max

unfoldable pub start : ConfRange → ℕ
start (constant c) = c
start (inclusive min max) = min

unfoldable pub end_of : ConfRange → ℕ
end_of (constant c) = c
end_of (inclusive min max) = max

unfoldable pub sample : (g : Rng) → ConfRange → g.State → Outcome (ℕ × g.State)
sample g (constant c) r = done (c, r)
sample g (inclusive min max) r = gen_range g min (max + 1) r

-- `MIN_TAG_LENGTH`
abbrev pub min_tag_length : ℕ
min_tag_length = 3

-- What is used of `f32`: the order, and numbers by their hundredths.
pub record Floats : Type 1 where
  pub Float : Type 0
  pub gt : Float → Float → Bool
  pub le : Float → Float → Bool
  pub hundredths : ℕ → Float

abbrev pub Among : (Handle × Handle → Type 0) → Option (Handle × Handle) → Type 0
Among P none = Unit {0}
Among P (some handles) = P handles

-- The random generators, and what is drawn from them beside numbers; `choose` picks an item.
pub record Draws : Type 1 where
  pub rng : Rng
  pub floats : Floats
  pub seed_from_u64 : ℕ → rng.State
  pub open_closed01 : rng.State → floats.Float × rng.State
  pub choose : List (Handle × Handle) → rng.State → Option (Handle × Handle) × rng.State
  pub picks :
      (P : Handle × Handle → Type 0) (handles : List (Handle × Handle)) (r : rng.State)
      → All P handles
      → Among P (choose handles r).0

module _ (draws : Draws) where
  open draws use {rng, floats, seed_from_u64, open_closed01, choose}

  -- `Generator`
  pub record Generator : Type 0 where
    pub seed : ℕ
    pub internal_rng : rng.State
    pub tagsets_produced : ℕ
    pub num_tagsets : ℕ
    pub tags_per_msg : ConfRange
    pub tag_length : ConfRange
    pub str_pool : Pool
    pub unique_tag_probability : floats.Float
    pub unique_tags : List (Handle × Handle)

  -- `Generator::new`; none is the error of an invalid construction
  unfoldable pub new : ℕ → ConfRange → ConfRange → ℕ → Pool → floats.Float → Option Generator
  unfolding valid start
  new seed tags_per_msg tag_length num_tagsets str_pool unique_tag_probability =
      if not (valid tag_length)
      then none
      else if ltb (start tag_length) min_tag_length
      then none
      else if not (
          floats.le (floats.hundredths 1) unique_tag_probability
          && floats.le unique_tag_probability (floats.hundredths 100))
      then none
      else some (record {
        seed = seed;
        internal_rng = seed_from_u64 seed;
        tagsets_produced = 0;
        num_tagsets = num_tagsets;
        tags_per_msg = tags_per_msg;
        tag_length = tag_length;
        str_pool = str_pool;
        unique_tag_probability = unique_tag_probability;
        unique_tags = [];
      })

  -- the text of a tag, where both of its parts are there
  unfoldable pub format_tag : Option (List ℕ) → Option (List ℕ) → Option (List ℕ)
  format_tag (some key) (some value) = some (key ++ b':' ∷ value)
  format_tag (some key) none = none
  format_tag none value = none

  unfoldable pub using_handles : Pool → Option (Handle × Handle) → Outcome (Option (List ℕ))
  unfolding format_tag
  using_handles pool none = done none
  using_handles pool (some (key_handle, value_handle)) = do
    key ← using_handle pool key_handle
    value ← using_handle pool value_handle
    done (format_tag key value)

  -- `get_existing_tag`
  unfoldable pub get_existing_tag :
      Pool → List (Handle × Handle) → rng.State → Outcome (Option (List ℕ) × rng.State)
  unfolding using_handles
  get_existing_tag pool unique_tags r =
      let (handles, r') = choose unique_tags r in
      do tag ← using_handles pool handles; done (tag, r')

  -- A tag, the unique tags and the generator after it.
  abbrev pub Tagged : Type 0
  Tagged = List ℕ × List (Handle × Handle) × rng.State

  -- the parts of a new tag put together; that one is missing panics
  unfoldable pub join_tag :
      List (Handle × Handle)
      → Option (List ℕ × Handle)
      → Option (List ℕ × Handle)
      → rng.State
      → Outcome Tagged
  join_tag unique_tags (some (key, key_handle)) (some (value, value_handle)) r =
      done (key ++ b':' ∷ value, unique_tags ++ (key_handle, value_handle) ∷ [], r)
  join_tag unique_tags (some key) none r = panicked
  join_tag unique_tags none value r = panicked

  unfoldable pub new_tag : Pool → ConfRange → List (Handle × Handle) → rng.State → Outcome Tagged
  unfolding sample join_tag
  new_tag pool tag_length unique_tags r = do
    (size, r1) ← sample rng tag_length r
    assert (leb 1 size)
    (key_size, r2) ← gen_range rng 1 (size - 1) r1
    (key, r3) ← of_size_with_handle rng pool key_size r2
    (value, r4) ← of_size_with_handle rng pool (size - 1 - key_size) r3
    join_tag unique_tags key value r4

  -- a tag from the existing ones, or else a new one
  unfoldable pub or_new_tag :
      Pool → ConfRange → List (Handle × Handle) → Option (List ℕ) × rng.State → Outcome Tagged
  unfolding new_tag
  or_new_tag pool tag_length unique_tags (some tag, r) = done (tag, unique_tags, r)
  or_new_tag pool tag_length unique_tags (none, r) = new_tag pool tag_length unique_tags r

  -- a round of the loop in `generate`
  unfoldable pub next_tag : Generator → List (Handle × Handle) → rng.State → Outcome Tagged
  unfolding get_existing_tag or_new_tag
  next_tag gen unique_tags r =
      let (choose_existing_prob, r') = open_closed01 r in
      do
        attempted ←
            if floats.gt choose_existing_prob gen.unique_tag_probability
            then get_existing_tag gen.str_pool unique_tags r'
            else done (none, r')
        or_new_tag gen.str_pool gen.tag_length unique_tags attempted

  -- the loop in `generate`: the tags of a tagset
  unfoldable pub next_tags :
      ℕ
      → Generator
      → List (Handle × Handle)
      → rng.State
      → Outcome (List (List ℕ) × List (Handle × Handle) × rng.State)
  unfolding next_tag
  next_tags zero gen unique_tags r = done ([], unique_tags, r)
  next_tags (suc n) gen unique_tags r = do
    (tag, unique_tags', r') ← next_tag gen unique_tags r
    (tags, unique_tags'', r'') ← next_tags n gen unique_tags' r'
    done (tag ∷ tags, unique_tags'', r'')

  -- the generator at the beginning of `generate`: with its seed again, once it has produced its tagsets
  unfoldable pub reseeded : Generator → Generator
  reseeded gen =
      if leb gen.num_tagsets gen.tagsets_produced
      then record gen { internal_rng = seed_from_u64 gen.seed; tagsets_produced = 0 }
      else gen

  unfoldable pub produce : Generator → Outcome (List (List ℕ) × Generator)
  unfolding sample next_tags
  produce gen = do
    (tags_count, r) ← sample rng gen.tags_per_msg gen.internal_rng
    (tagset, unique_tags, r') ← next_tags tags_count gen gen.unique_tags r
    done (
      tagset,
      record gen {
        internal_rng = r';
        unique_tags = unique_tags;
        tagsets_produced = gen.tagsets_produced + 1;
      },
    )

  -- `generate`
  unfoldable pub generate : Generator → Outcome (List (List ℕ) × Generator)
  unfolding reseeded produce
  generate gen = produce (reseeded gen)
