-- ===== src/Logrotate/Setups.antt =====
-- Tests and witnesses of the construction of the rotating filesystem.
use lading.Prelude.{ℕ, ◌+◌, ◌≡◌, refl, List, [], ◌∷◌, done, All, length}
use lading.Payload.Tests.{lowest}
use lading.Block.Cache.{Cache}
use lading.Logrotate.State.{State, constant}
use lading.Logrotate.Sound.{AllSound}
use lading.Logrotate.Setup.{group_of_names, new}
use lading.Logrotate.Groups.{Rising, GroupFiles, new-Built}

-- a random character that is always the same
abbrev letter : ℕ → ℕ × ℕ
letter s = (97, s + 1)

abbrev cache : Cache
cache = record {
  idx = 0;
  blocks = record { total_bytes = 2; bytes = 7 ∷ 8 ∷ [] } ∷ [];
  total_cycle_size = 2;
}

-- `a_12.log`, `a_12.log.1`
group_of_names-log :
    group_of_names (b'a' ∷ []) 12 1
    ≡ (b'a' ∷ b'_' ∷ b'1' ∷ b'2' ∷ b'.' ∷ b'l' ∷ b'o' ∷ b'g' ∷ [])
      ∷ (b'a' ∷ b'_' ∷ b'1' ∷ b'2' ∷ b'.' ∷ b'l' ∷ b'o' ∷ b'g' ∷ b'.' ∷ b'1' ∷ [])
      ∷ []
unfolding group_of_names
group_of_names-log = refl

new-Built_example :
    (s : State) × (r' : ℕ) × (inodes : List ℕ) × (new lowest letter 0 3 100 cache 2 2
        (constant 10)
        0
      ≡ done (s, r'))
    × AllSound s
    × (length inodes ≡ 2)
    × Rising 2 inodes
    × GroupFiles s 0 inodes
    × (length s.group_names ≡ 2)
    × All (λ (group : List (List ℕ)). length group ≡ 3 + 1) s.group_names
new-Built_example = new-Built lowest letter 0 3 100 cache 2 2 (constant 10) 0
