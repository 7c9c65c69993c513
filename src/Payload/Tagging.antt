-- ===== src/Payload/Tagging.antt =====
-- The tags that a generator of dogstatsd tags makes.
use lading.Prelude.{
  ℕ, zero, suc, ◌+◌, ◌-◌, ◌≤◌, ◌<◌, ◌≡◌, refl, sym, List, [], ◌∷◌, ◌++◌, Bool-cases, inl, inr,
  Option, some, none, Outcome, done, panicked, ◌>>=◌, ltb, le→leb, lt→ltb, if-true, arith, length,
  All, All-append,
}
use lading.Random.{Rng}
use lading.Payload.Strings.{Pool, Handle, using_handle}
use lading.Payload.Pool.{using_handle-of_size_with_handle}
use lading.Payload.Tags.{
  ConfRange, constant, inclusive, start, end_of, sample, Draws, Among, Generator, format_tag,
  using_handles, get_existing_tag, Tagged, join_tag, new_tag, or_new_tag, next_tag, next_tags,
  produce,
}

abbrev pub IsOrdered : ConfRange → Type 0
IsOrdered range = start range ≤ end_of range

abbrev pub IsIn : ConfRange → ℕ → Type 0
IsIn range n = (start range ≤ n) × (n ≤ end_of range)

sample-IsIn :
    (g : Rng) (range : ConfRange) (r : g.State)
    → IsOrdered range
    → (n : ℕ) × (r' : g.State) × (sample g range r ≡ done (n, r')) × IsIn range n
unfolding sample start end_of
sample-IsIn g (constant c) r h = (c, r, refl, (omega arith, omega arith))
sample-IsIn g (inclusive min max) r h =
    let k = g.in_range min (max + 1) r (omega (arith, h)) in
    (
      (g.draw_range min (max + 1) r).0,
      (g.draw_range min (max + 1) r).1,
      if-true (ltb min (max + 1)) _ _ (lt→ltb min (max + 1) (omega (arith, h))),
      (k.0, omega (arith, k.1)),
    )

-- Two texts, neither empty, that make a tag of a length in the range with the character between them.
abbrev pub AreParts : ConfRange → List ℕ → List ℕ → Type 0
AreParts range key value =
    (0 < length key) × (0 < length value) × IsIn range (length key + 1 + length value)

abbrev pub IsTag : ConfRange → List ℕ → Type 0
IsTag range tag =
    (key : List ℕ) × (value : List ℕ) × (tag ≡ key ++ b':' ∷ value) × AreParts range key value

-- Handles of the parts of a tag.
abbrev pub AreHandles : Pool → ConfRange → Handle × Handle → Type 0
AreHandles pool range handles =
    (key : List ℕ) × (value : List ℕ) × (using_handle pool handles.0 ≡ done (some key))
    × (using_handle pool handles.1 ≡ done (some value))
    × AreParts range key value

-- A tag, with handles for all unique tags.
abbrev IsTagged :
    {S : Type 0} → Pool → ConfRange → Outcome (List ℕ × List (Handle × Handle) × S) → Type 0
IsTagged pool range panicked = ⊥
IsTagged pool range (done (tag, unique_tags, r)) =
    IsTag range tag × All (AreHandles pool range) unique_tags

abbrev AreTagged :
    {S : Type 0}
    → ℕ
    → Pool
    → ConfRange
    → Outcome (List (List ℕ) × List (Handle × Handle) × S)
    → Type 0
AreTagged n pool range panicked = ⊥
AreTagged n pool range (done (tags, unique_tags, r)) =
    (length tags ≡ n) × All (IsTag range) tags × All (AreHandles pool range) unique_tags

-- A tag from existing handles, if any.
abbrev IsExisting : ConfRange → Outcome (Option (List ℕ)) → Type 0
IsExisting range panicked = ⊥
IsExisting range (done none) = Unit {0}
IsExisting range (done (some tag)) = IsTag range tag

module _ (draws : Draws) where
  open draws use {rng, floats, seed_from_u64, open_closed01, choose}

  new_tag-IsTagged :
      (pool : Pool) (range : ConfRange) (unique_tags : List (Handle × Handle)) (r : rng.State)
      → 3 ≤ start range
      → IsOrdered range
      → end_of range < length pool.inner
      → All (AreHandles pool range) unique_tags
      → IsTagged pool range (new_tag draws pool range unique_tags r)
  unfolding new_tag join_tag
  new_tag-IsTagged pool range unique_tags r h o l a =
      let (size, r1, e, i) = sample-IsIn rng range r o in
      let k = rng.in_range 1 (size - 1) r1 (omega (arith, h, i.0)) in
      let key_size : ℕ = (rng.draw_range 1 (size - 1) r1).0 in
      let r2 = (rng.draw_range 1 (size - 1) r1).1 in
      let (key, key_handle, r3, e3, u3, o3, l3) =
        using_handle-of_size_with_handle rng pool key_size r2 (omega (arith, k.1, i.1, l)) in
      let (value, value_handle, r4, e4, u4, o4, l4) =
        using_handle-of_size_with_handle rng pool (size - 1 - key_size) r3
          (omega (arith, k.1, i.1, l)) in
      let parts : AreParts range key value = (
        omega (arith, k.0, l3),
        omega (arith, k.1, l3, l4),
        (omega (arith, k.1, l3, l4, i.0), omega (arith, k.1, l3, l4, i.1)),
      ) in
      rw e (
        rw (le→leb 1 size (omega (arith, h, i.0))) (
          rw (lt→ltb 1 (size - 1) (omega (arith, h, i.0))) (
            rw e3 (
              rw e4 (
                (key, value, refl, parts),
                All-append (AreHandles pool range) unique_tags ((key_handle, value_handle) ∷ []) a
                    ((key, value, u3, u4, parts), tt),
              )))))

  using_handles-IsExisting :
      (pool : Pool) (range : ConfRange) (o : Option (Handle × Handle))
      → Among (AreHandles pool range) o
      → IsExisting range (using_handles draws pool o)
  unfolding using_handles format_tag
  using_handles-IsExisting pool range none h = tt
  using_handles-IsExisting pool range (some (k, v)) (key, value, e, f, parts) =
      rw e (rw f (key, value, refl, parts))

  -- What a generator has at all times: ranges that are not empty, tags of at least three characters, a
  -- pool that is longer than a tag, and handles of tags.
  pub record IsValid (gen : Generator draws) : Type 0 where
    pub counts : IsOrdered gen.tags_per_msg
    pub lengths : IsOrdered gen.tag_length
    pub long : 3 ≤ start gen.tag_length
    pub pool : end_of gen.tag_length < length gen.str_pool.inner
    pub handles : All (AreHandles gen.str_pool gen.tag_length) gen.unique_tags

  module _ (gen : Generator draws) (v : IsValid gen) where
    abbrev GenTagged : Outcome (Tagged draws) → Type 0
    GenTagged m = IsTagged gen.str_pool gen.tag_length m

    tag_or_new :
        (unique_tags : List (Handle × Handle)) (o : Outcome (Option (List ℕ))) (r : rng.State)
        → All (AreHandles gen.str_pool gen.tag_length) unique_tags
        → IsExisting gen.tag_length o
        → GenTagged (
            (o >>= λ tag. done (tag, r)) >>= λ attempted.
            or_new_tag draws gen.str_pool gen.tag_length unique_tags attempted)
    unfolding or_new_tag
    tag_or_new unique_tags panicked r a h = h
    tag_or_new unique_tags (done (some tag)) r a h = (h, a)
    tag_or_new unique_tags (done none) r a h =
        new_tag-IsTagged gen.str_pool gen.tag_length unique_tags r v.long v.lengths v.pool a

    next_tag-IsTagged :
        (unique_tags : List (Handle × Handle)) (r : rng.State)
        → All (AreHandles gen.str_pool gen.tag_length) unique_tags
        → GenTagged (next_tag draws gen unique_tags r)
    unfolding next_tag get_existing_tag
    next_tag-IsTagged unique_tags r a =
        let r' = (open_closed01 r).1 in
        elim (Bool-cases (floats.gt (open_closed01 r).0 gen.unique_tag_probability)) [
          | inl existing ↦ rw existing (
              let handles = choose unique_tags r' in
              tag_or_new unique_tags (using_handles draws gen.str_pool handles.0) handles.1 a (
                using_handles-IsExisting gen.str_pool gen.tag_length handles.0
                  (draws.picks (AreHandles gen.str_pool gen.tag_length) unique_tags r' a)))
          | inr fresh ↦ rw fresh (tag_or_new unique_tags (done none) r' a tt)
        ]

    more_tags :
        (n : ℕ) (m : Outcome (Tagged draws))
        → GenTagged m
        → ((u : List (Handle × Handle)) (r : rng.State)
            → All (AreHandles gen.str_pool gen.tag_length) u
            → AreTagged n gen.str_pool gen.tag_length (next_tags draws n gen u r))
        → AreTagged
            (suc n)
            gen.str_pool
            gen.tag_length
            (m >>= λ t. next_tags draws n gen t.1 t.2 >>= λ ts. done (t.0 ∷ ts.0, ts.1, ts.2))
    more_tags n panicked h k = h
    more_tags n (done (tag, u, r)) h k = go (next_tags draws n gen u r) (k u r h.1)
      where
        go :
            (m : Outcome (List (List ℕ) × List (Handle × Handle) × rng.State))
            → AreTagged n gen.str_pool gen.tag_length m
            → AreTagged
                (suc n)
                gen.str_pool
                gen.tag_length
                (m >>= λ ts. done (tag ∷ ts.0, ts.1, ts.2))
        go panicked l = l
        go (done (tags, u', r')) l = (omega (arith, l.0), (h.0, l.1), l.2)

    next_tags-AreTagged :
        (n : ℕ) (unique_tags : List (Handle × Handle)) (r : rng.State)
        → All (AreHandles gen.str_pool gen.tag_length) unique_tags
        → AreTagged n gen.str_pool gen.tag_length (next_tags draws n gen unique_tags r)
    unfolding next_tags
    next_tags-AreTagged zero unique_tags r a = (refl, tt, a)
    next_tags-AreTagged (suc n) unique_tags r a =
        more_tags n (next_tag draws gen unique_tags r) (next_tag-IsTagged unique_tags r a)
          (λ u t b. next_tags-AreTagged n u t b)

  -- A generator that has gone on: with its configuration, and with a count of the tagsets.
  abbrev pub Continues : ℕ → Generator draws → Generator draws → Type 0
  Continues count gen after = after ≡ record gen {
    internal_rng = after.internal_rng;
    unique_tags = after.unique_tags;
    tagsets_produced = count;
  }

  -- A tagset of the generator, and a generator that is valid after it and counts one more.
  abbrev pub Produced : Generator draws → Outcome (List (List ℕ) × Generator draws) → Type 0
  Produced gen panicked = ⊥
  Produced gen (done (tagset, after)) =
      IsIn gen.tags_per_msg (length tagset)
      × All (IsTag gen.tag_length) tagset
      × IsValid after
      × Continues (gen.tagsets_produced + 1) gen after

  produced :
      (gen : Generator draws) (n : ℕ)
      (m : Outcome (List (List ℕ) × List (Handle × Handle) × rng.State))
      → IsValid gen
      → IsIn gen.tags_per_msg n
      → AreTagged n gen.str_pool gen.tag_length m
      → Produced gen (
          m >>= λ t. done (
            t.0,
            record gen {
              internal_rng = t.2;
              unique_tags = t.1;
              tagsets_produced = gen.tagsets_produced + 1;
            },
          ))
  produced gen n panicked v i h = h
  produced gen n (done (tagset, u, r)) v i h = (
    rw (sym h.0) at i,
    h.1,
    record { counts = v.counts; lengths = v.lengths; long = v.long; pool = v.pool; handles = h.2 },
    refl,
  )

  pub produce-Produced : (gen : Generator draws) → IsValid gen → Produced gen (produce draws gen)
  unfolding produce
  produce-Produced gen v =
      let (n, r, e, i) = sample-IsIn rng gen.tags_per_msg gen.internal_rng v.counts in
      rw e (
        produced gen n (next_tags draws n gen gen.unique_tags r) v i
          (next_tags-AreTagged gen v n gen.unique_tags r v.handles))
