-- ===== src/Logrotate/Groups.antt =====
-- The groups of a new filesystem.
use lading.Prelude.{
  ℕ, zero, suc, ◌+◌, ◌≤◌, ◌≡◌, refl, sym, ap, ◌∙◌, List, [], ◌∷◌, ◌++◌, none, Outcome, done, arith,
  length, All,
}
use lading.Prelude.Map.{get}
use lading.Random.{Rng}
use lading.Block.Cache.{Cache}
use lading.Logrotate.State.{LoadProfile, State}
use lading.Logrotate.Sound.{AllSound}
use lading.Logrotate.Setup.{empty_state, add_groups, new}
use lading.Logrotate.Built.{IsGood, GroupFile}
use lading.Logrotate.Paths.{add_group-GroupAdded}

-- Inodes that rise, from one on.
abbrev pub Rising : ℕ → List ℕ → Type 0
Rising from [] = Unit {0}
Rising from (i ∷ is) = (from ≤ i) × Rising (i + 1) is

-- The files of the groups from an id on, one for each inode.
abbrev pub GroupFiles : State → ℕ → List ℕ → Type 0
GroupFiles s group_id [] = Unit {0}
GroupFiles s group_id (i ∷ is) = GroupFile s group_id i × GroupFiles s (suc group_id) is

-- A filesystem to which groups have been added: each has one file, which is written, and the names of
-- that and of the rotated ones.
pub record Added {ℓ} {S : Type ℓ} (s : State) (n group_id : ℕ) (r : Outcome (State × S))
    : Type ℓ where
  pub after : State
  pub generator : S
  pub result : r ≡ done (after, generator)
  pub good : IsGood after
  pub inodes : List ℕ
  pub as_many : length inodes ≡ n
  pub rising : Rising s.next_inode inodes
  pub placed : GroupFiles after group_id inodes
  pub keeps : (k i : ℕ) → GroupFile s k i → GroupFile after k i
  pub names : List (List (List ℕ))
  pub named : after.group_names ≡ s.group_names ++ names
  pub named_groups : length names ≡ n
  pub named_files : All (λ (group : List (List ℕ)). length group ≡ s.max_rotations + 1) names
  pub same_rotations : after.max_rotations ≡ s.max_rotations

Rising-above : (a b : ℕ) (is : List ℕ) → a ≤ b → Rising b is → Rising a is
Rising-above a b [] h k = tt
Rising-above a b (i ∷ is) h k = (omega (arith, h, k.0), k.1)

rotations-All :
    (a b : ℕ) (names : List (List (List ℕ)))
    → a ≡ b
    → All (λ (group : List (List ℕ)). length group ≡ a + 1) names
    → All (λ (group : List (List ℕ)). length group ≡ b + 1) names
rotations-All a b names e h = rw e at h

append_nothing : {A : Type 0} (xs : List A) → xs ++ [] ≡ xs
append_nothing [] = refl
append_nothing (x ∷ xs) = ap (λ (ys : List _). x ∷ ys) (append_nothing xs)

append_one : {A : Type 0} (xs : List A) (x : A) (ys : List A) → (xs ++ x ∷ []) ++ ys ≡ xs ++ x ∷ ys
append_one [] x ys = refl
append_one (z ∷ xs) x ys = ap (λ (zs : List _). z ∷ zs) (append_one xs x ys)

empty_state-IsGood :
    (initial_tick max_rotations max_bytes_per_file : ℕ) (block_cache : Cache)
    (load_profile : LoadProfile)
    → IsGood (empty_state initial_tick max_rotations max_bytes_per_file block_cache load_profile)
unfolding get
empty_state-IsGood initial_tick max_rotations max_bytes_per_file block_cache load_profile = record {
  fresh = λ j m e. ground (arith, e);
  root = (b'/' ∷ [], record { children = []; parent = none }, refl);
  sound = (tt, tt);
}

module _ (g : Rng) (sample : g.State → ℕ × g.State) where
  add_groups-Added :
      (n max_depth group_id : ℕ) (s : State) (r : g.State)
      → IsGood s
      → Added s n group_id (add_groups g sample n max_depth group_id s r)
  unfolding add_groups
  add_groups-Added zero max_depth group_id s r h = record {
    after = s;
    generator = r;
    result = refl;
    good = h;
    inodes = [];
    as_many = refl;
    rising = tt;
    placed = tt;
    keeps = λ k i f. f;
    names = [];
    named = sym (append_nothing s.group_names);
    named_groups = refl;
    named_files = tt;
    same_rotations = refl;
  }
  add_groups-Added (suc n) max_depth group_id s r h =
      let a = add_group-GroupAdded g sample max_depth group_id s r h in
      let m = add_groups-Added n max_depth (suc group_id) a.after a.generator a.good in
      record {
        after = m.after;
        generator = m.generator;
        result = rw a.result m.result;
        good = m.good;
        inodes = a.inode ∷ m.inodes;
        as_many = omega (arith, m.as_many);
        rising = (
          a.above,
          Rising-above (a.inode + 1) a.after.next_inode m.inodes (omega (arith, a.placed.below))
              m.rising,
        );
        placed = (m.keeps group_id a.inode a.placed, m.placed);
        keeps = λ k i f. m.keeps k i (a.keeps k i f);
        names = a.names ∷ m.names;
        named = m.named ∙ rw a.named (append_one s.group_names a.names m.names);
        named_groups = omega (arith, m.named_groups);
        named_files = (
          a.as_many,
          rotations-All a.after.max_rotations s.max_rotations m.names a.same_rotations
              m.named_files,
        );
        same_rotations = m.same_rotations ∙ a.same_rotations;
      }

  -- A new filesystem, on every generator of random numbers and characters: its construction does not
  -- panic. Its files are sound, and it has as many groups as were asked for. The file of each is one of
  -- its own: it has the group's id, ordinal 0 and no peer, is not read-only and not unlinked. Each group
  -- has a name for that file and one for each rotated file that is kept.
  pub new-Built :
      (initial_tick max_rotations max_bytes_per_file : ℕ) (block_cache : Cache)
      (max_depth concurrent_logs : ℕ) (load_profile : LoadProfile) (r : g.State)
      → (s : State) × (r' : g.State) × (inodes : List ℕ) × (new g sample initial_tick max_rotations
            max_bytes_per_file block_cache max_depth concurrent_logs load_profile r
          ≡ done (s, r'))
        × AllSound s
        × (length inodes ≡ concurrent_logs)
        × Rising 2 inodes
        × GroupFiles s 0 inodes
        × (length s.group_names ≡ concurrent_logs)
        × All (λ (group : List (List ℕ)). length group ≡ max_rotations + 1) s.group_names
  unfolding new
  new-Built initial_tick max_rotations max_bytes_per_file block_cache max_depth concurrent_logs
        load_profile r =
      let start : State =
        empty_state initial_tick max_rotations max_bytes_per_file block_cache load_profile in
      let a = add_groups-Added concurrent_logs max_depth 0 start r (
        empty_state-IsGood initial_tick max_rotations max_bytes_per_file block_cache
          load_profile) in
      (
        a.after,
        a.generator,
        a.inodes,
        a.result,
        a.good.sound,
        a.as_many,
        a.rising,
        a.placed,
        rw a.named a.named_groups,
        rw a.named a.named_files,
      )
