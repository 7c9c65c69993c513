-- ===== src/Payload/Repeats.antt =====
-- The tagsets repeat where all tags are new.
use lading.Prelude.{
  ℕ, zero, suc, ◌+◌, ◌-◌, ◌≡◌, refl, sym, ap, subst, List, [], ◌∷◌, Bool, true, false, Bool-cases,
  inl, inr, Option, some, none, Outcome, done, panicked, ◌>>=◌, ◌>>◌, assert, leb,
}
use lading.Random.{gen_range}
use lading.Payload.Strings.{Pool, Handle, of_size_with_handle}
use lading.Payload.Tags.{
  ConfRange, sample, Draws, Generator, join_tag, new_tag, or_new_tag, next_tag, next_tags, reseeded,
  produce, generate,
}
use lading.Payload.Tagsets.{generates}

-- The same, whatever the unique tags are.
abbrev Same : {A U S : Type 0} → Outcome (A × U × S) → Outcome (A × U × S) → Type 0
Same panicked panicked = Unit {0}
Same panicked (done y) = ⊥
Same (done x) panicked = ⊥
Same (done x) (done y) = (x.0 ≡ y.0) × (x.2 ≡ y.2)

Same-bind :
    {B A U S : Type 0} (m : Outcome B) (f f' : B → Outcome (A × U × S))
    → ((b : B) → Same (f b) (f' b))
    → Same (m >>= f) (m >>= f')
Same-bind panicked f f' h = tt
Same-bind (done b) f f' h = h b

Same-assert :
    {A U S : Type 0} (b : Bool) (m m' : Outcome (A × U × S))
    → Same m m'
    → Same (assert b >> m) (assert b >> m')
Same-assert true m m' h = h
Same-assert false m m' h = tt

Same-then :
    {A U S B : Type 0} (m m' : Outcome (A × U × S)) (f f' : A → U → S → Outcome (B × U × S))
    → Same m m'
    → ((a : A) (u u' : U) (s : S) → Same (f a u s) (f' a u' s))
    → Same (m >>= λ x. f x.0 x.1 x.2) (m' >>= λ x. f' x.0 x.1 x.2)
Same-then panicked panicked f f' h k = tt
Same-then panicked (done y) f f' h k = absurd h
Same-then (done x) panicked f f' h k = absurd h
Same-then (done x) (done y) f f' h k =
    subst (λ a. Same (f x.0 x.1 x.2) (f' a y.1 y.2)) h.0
      (subst (λ s. Same (f x.0 x.1 x.2) (f' x.0 y.1 s)) h.1 (k x.0 x.1 y.1 x.2))

module _ (draws : Draws) where
  open draws use {rng, floats, seed_from_u64, open_closed01}

  join_tag-Same :
      (u u' : List (Handle × Handle)) (key value : Option (List ℕ × Handle)) (r : rng.State)
      → Same (join_tag draws u key value r) (join_tag draws u' key value r)
  unfolding join_tag
  join_tag-Same u u' (some (key, k)) (some (value, v)) r = (refl, refl)
  join_tag-Same u u' (some (key, k)) none r = tt
  join_tag-Same u u' none value r = tt

  new_tag-Same :
      (pool : Pool) (range : ConfRange) (u u' : List (Handle × Handle)) (r : rng.State)
      → Same (new_tag draws pool range u r) (new_tag draws pool range u' r)
  unfolding new_tag
  new_tag-Same pool range u u' r = Same-bind (sample rng range r) _ _ (λ a.
      Same-assert (leb 1 a.0) _ _ (
        Same-bind (gen_range rng 1 (a.0 - 1) a.1) _ _ (λ b.
          Same-bind (of_size_with_handle rng pool b.0 b.1) _ _ (λ c.
            Same-bind (of_size_with_handle rng pool (a.0 - 1 - b.0) c.1) _ _
              (λ d. join_tag-Same u u' c.0 d.0 d.1)))))

  -- No number that is drawn is above the probability, so that all tags are new.
  abbrev pub AllNew : floats.Float → Type 0
  AllNew p = (r : rng.State) → floats.gt (open_closed01 r).0 p ≡ false

  -- a generator with other unique tags
  abbrev pub with_tags : Generator draws → List (Handle × Handle) → Generator draws
  with_tags gen w = record gen { unique_tags = w }

  next_tag-Same :
      (gen : Generator draws) (w u u' : List (Handle × Handle)) (r : rng.State)
      → AllNew gen.unique_tag_probability
      → Same (next_tag draws gen u r) (next_tag draws (with_tags gen w) u' r)
  unfolding next_tag or_new_tag
  next_tag-Same gen w u u' r h =
      rw (h r) (new_tag-Same gen.str_pool gen.tag_length u u' (open_closed01 r).1)

  next_tags-Same :
      (n : ℕ) (gen : Generator draws) (w u u' : List (Handle × Handle)) (r : rng.State)
      → AllNew gen.unique_tag_probability
      → Same (next_tags draws n gen u r) (next_tags draws n (with_tags gen w) u' r)
  unfolding next_tags
  next_tags-Same zero gen w u u' r h = (refl, refl)
  next_tags-Same (suc n) gen w u u' r h =
      Same-then (next_tag draws gen u r) (next_tag draws (with_tags gen w) u' r)
        (λ tag v s. next_tags draws n gen v s >>= λ ts. done (tag ∷ ts.0, ts.1, ts.2))
        (λ tag v s. next_tags draws n (with_tags gen w) v s >>= λ ts. done (tag ∷ ts.0, ts.1, ts.2))
        (next_tag-Same gen w u u' r h)
        (λ tag v v' s.
          Same-then (next_tags draws n gen v s) (next_tags draws n (with_tags gen w) v' s)
            (λ tags z t. done (tag ∷ tags, z, t)) (λ tags z t. done (tag ∷ tags, z, t))
            (next_tags-Same n gen w v v' s h) (λ tags z z' t. (refl, refl)))

  -- The same tagsets, and generators with a probability that differ in their unique tags only.
  abbrev pub SameMade :
      {A : Type 0}
      → floats.Float
      → Outcome (A × Generator draws)
      → Outcome (A × Generator draws)
      → Type 0
  SameMade p panicked panicked = Unit {0}
  SameMade p panicked (done y) = ⊥
  SameMade p (done x) panicked = ⊥
  SameMade p (done x) (done y) =
      (x.0 ≡ y.0) × (with_tags x.1 [] ≡ with_tags y.1 []) × (x.1.unique_tag_probability ≡ p)

  made :
      (gen : Generator draws) (w : List (Handle × Handle))
      (m m' : Outcome (List (List ℕ) × List (Handle × Handle) × rng.State))
      → Same m m'
      → SameMade gen.unique_tag_probability
          (m >>= λ t. done (
            t.0,
            record gen {
              internal_rng = t.2;
              unique_tags = t.1;
              tagsets_produced = gen.tagsets_produced + 1;
            },
          ))
          (m' >>= λ t. done (
            t.0,
            record gen {
              internal_rng = t.2;
              unique_tags = t.1;
              tagsets_produced = gen.tagsets_produced + 1;
            },
          ))
  made gen w panicked panicked h = h
  made gen w panicked (done y) h = h
  made gen w (done x) panicked h = h
  made gen w (done x) (done y) h = (
    h.0,
    ap
        (λ (r : rng.State). record gen {
          internal_rng = r;
          unique_tags = [];
          tagsets_produced = gen.tagsets_produced + 1;
        })
        h.1,
    refl,
  )

  SameMade-bind :
      {B A : Type 0} (p : floats.Float) (m : Outcome B) (f f' : B → Outcome (A × Generator draws))
      → ((b : B) → SameMade p (f b) (f' b))
      → SameMade p (m >>= f) (m >>= f')
  SameMade-bind p panicked f f' h = tt
  SameMade-bind p (done b) f f' h = h b

  produce-SameMade :
      (gen : Generator draws) (w : List (Handle × Handle))
      → AllNew gen.unique_tag_probability
      → SameMade gen.unique_tag_probability (produce draws gen) (produce draws (with_tags gen w))
  unfolding produce
  produce-SameMade gen w h =
      SameMade-bind gen.unique_tag_probability (sample rng gen.tags_per_msg gen.internal_rng) _ _
        (λ c.
          made gen w (next_tags draws c.0 gen gen.unique_tags c.1)
            (next_tags draws c.0 (with_tags gen w) w c.1)
            (next_tags-Same c.0 gen w gen.unique_tags w c.1 h))

  reseeded-with_tags :
      (gen : Generator draws) (w : List (Handle × Handle))
      → reseeded draws (with_tags gen w) ≡ with_tags (reseeded draws gen) w
  unfolding reseeded
  reseeded-with_tags gen w = elim (Bool-cases (leb gen.num_tagsets gen.tagsets_produced)) [
    | inl again ↦ rw again refl
    | inr more ↦ rw more refl
  ]

  reseeded-probability :
      (gen : Generator draws)
      → (reseeded draws gen).unique_tag_probability ≡ gen.unique_tag_probability
  unfolding reseeded
  reseeded-probability gen = elim (Bool-cases (leb gen.num_tagsets gen.tagsets_produced)) [
    | inl again ↦ rw again refl
    | inr more ↦ rw more refl
  ]

  generate-SameMade :
      (gen : Generator draws) (w : List (Handle × Handle))
      → AllNew gen.unique_tag_probability
      → SameMade gen.unique_tag_probability (generate draws gen) (generate draws (with_tags gen w))
  unfolding generate
  generate-SameMade gen w h =
      let e = reseeded-probability gen in
      subst
        (λ (x : Generator draws).
          SameMade gen.unique_tag_probability (produce draws (reseeded draws gen))
            (produce draws x))
        (sym (reseeded-with_tags gen w))
        (subst
          (λ (p : floats.Float).
            SameMade p (produce draws (reseeded draws gen))
              (produce draws (with_tags (reseeded draws gen) w)))
          e (produce-SameMade (reseeded draws gen) w (subst (λ p. AllNew p) (sym e) h)))

  then_same :
      {A B : Type 0} (p : floats.Float) (m m' : Outcome (A × Generator draws))
      (f f' : A → Generator draws → Outcome (B × Generator draws))
      → SameMade p m m'
      → ((a : A) (g : Generator draws) (w : List (Handle × Handle))
          → g.unique_tag_probability ≡ p
          → SameMade p (f a g) (f' a (with_tags g w)))
      → SameMade p (m >>= λ x. f x.0 x.1) (m' >>= λ x. f' x.0 x.1)
  then_same p panicked panicked f f' h k = tt
  then_same p panicked (done y) f f' h k = absurd h
  then_same p (done x) panicked f f' h k = absurd h
  then_same p (done x) (done y) f f' h k =
      subst (λ a. SameMade p (f x.0 x.1) (f' a y.1)) h.0
        (subst (λ g. SameMade p (f x.0 x.1) (f' x.0 g))
          (ap (λ (g : Generator draws). with_tags g y.1.unique_tags) h.1)
          (k x.0 x.1 y.1.unique_tags h.2))

  pub generates-SameMade :
      (n : ℕ) (gen : Generator draws) (w : List (Handle × Handle)) (p : floats.Float)
      → gen.unique_tag_probability ≡ p
      → AllNew p
      → SameMade p (generates draws n gen) (generates draws n (with_tags gen w))
  generates-SameMade zero gen w p e h = (refl, refl, e)
  generates-SameMade (suc n) gen w p e h =
      then_same p (generate draws gen) (generate draws (with_tags gen w))
        (λ tagset g. generates draws n g >>= λ rs. done (tagset ∷ rs.0, rs.1))
        (λ tagset g. generates draws n g >>= λ rs. done (tagset ∷ rs.0, rs.1))
        (subst
          (λ (q : floats.Float). SameMade q (generate draws gen) (generate draws (with_tags gen w)))
          e (generate-SameMade gen w (subst (λ q. AllNew q) (sym e) h)))
        (λ tagset g v l.
          then_same p (generates draws n g) (generates draws n (with_tags g v))
            (λ tagsets x. done (tagset ∷ tagsets, x)) (λ tagsets x. done (tagset ∷ tagsets, x))
            (generates-SameMade n g v p l h) (λ tagsets x z q. (refl, refl, q)))
