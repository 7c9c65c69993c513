-- ===== src/FileGen/Named.antt =====
-- The names of a child are distinct, so that its files hold the latest logs.
use lading.Prelude.{
  ℕ, zero, suc, ◌+◌, ◌≤◌, ◌<◌, ◌≡◌, ◌≢◌, refl, sym, ap, ◌∙◌, List, [], ◌∷◌, ◌++◌, some, done, false,
  arith, Text, length, Bool-cases, inl, inr, text_eq, text_eq→eq, decimal, u64_max,
}
use lading.Block.Cache.{Block}
use lading.Observer.Tokens.{from_str_radix}
use lading.Procfs.Digits.{from_str_radix-decimal}
use lading.FileGen.Disk.{Disk}
use lading.FileGen.Child.{rotated_from, names_of, Writing, spin}
use lading.FileGen.Shift.{AreDistinct, NotIn, contents}
use lading.FileGen.History.{
  History, record_blocks, latest, no_history, all_bytes, bytes_of, AreSmall, IsBounded,
  record_blocks-IsBounded, record_blocks-all_bytes,
}
use lading.FileGen.Written.{AreExact, spin-Represents}

text_eq-append : (base s t : Text) → text_eq (base ++ s) (base ++ t) ≡ text_eq s t
unfolding text_eq
text_eq-append [] s t = refl
text_eq-append (c ∷ base) s t = ground (arith, text_eq-append base s t)

text_eq-longer : (base : Text) (c : ℕ) (t : Text) → text_eq base (base ++ (c ∷ t)) ≡ false
unfolding text_eq
text_eq-longer [] c t = refl
text_eq-longer (d ∷ base) c t = ground (arith, text_eq-longer base c t)

text_eq-dot : (s t : Text) → text_eq (b'.' ∷ s) (b'.' ∷ t) ≡ text_eq s t
unfolding text_eq
text_eq-dot s t = refl

some_injective : (m n : ℕ) → some m ≡ some n → m ≡ n
some_injective m n h = cc h

text_eq-decimal :
    (i j : ℕ) → i ≤ u64_max → j ≤ u64_max → i ≢ j → text_eq (decimal i) (decimal j) ≡ false
text_eq-decimal i j h k d = elim (Bool-cases (text_eq (decimal i) (decimal j))) [
  | inl e ↦ absurd (
      d (
        some_injective i j (
          sym (from_str_radix-decimal i h)
          ∙ ap (from_str_radix 10) (text_eq→eq (decimal i) (decimal j) e)
          ∙ from_str_radix-decimal j k)))
  | inr e ↦ e
]

rotated_from-NotIn :
    (base : Text) (i j n : ℕ)
    → i < j
    → j + n ≤ u64_max
    → NotIn (base ++ (b'.' ∷ decimal i)) (rotated_from base j n)
unfolding rotated_from
rotated_from-NotIn base i j zero h k = tt
rotated_from-NotIn base i j (suc n) h k = (
  text_eq-append base (b'.' ∷ decimal i) (b'.' ∷ decimal j)
      ∙ text_eq-dot (decimal i) (decimal j)
      ∙ text_eq-decimal i j (omega (arith, h, k)) (omega (arith, k)) (omega (arith, h)),
  rotated_from-NotIn base i (j + 1) n (omega (arith, h)) (omega (arith, k)),
)

base-NotIn : (base : Text) (i n : ℕ) → NotIn base (rotated_from base i n)
unfolding rotated_from
base-NotIn base i zero = tt
base-NotIn base i (suc n) = (text_eq-longer base b'.' (decimal i), base-NotIn base (i + 1) n)

rotated_from-AreDistinct :
    (base : Text) (i n : ℕ) → i + n ≤ u64_max → AreDistinct (rotated_from base i n)
unfolding rotated_from
rotated_from-AreDistinct base i zero h = tt
rotated_from-AreDistinct base i (suc n) h = (
  rotated_from-NotIn base i (i + 1) n (omega arith) (omega (arith, h)),
  rotated_from-AreDistinct base (i + 1) n (omega (arith, h)),
)

pub length-rotated_from : (base : Text) (i n : ℕ) → length (rotated_from base i n) ≡ n
unfolding rotated_from
length-rotated_from base i zero = refl
length-rotated_from base i (suc n) = omega (arith, length-rotated_from base (i + 1) n)

-- For a child with up to 255 rotations of which there is no rotated file yet, and blocks that count
-- just the bytes that they have, each at most `block`: `spin` does not panic, and when it has written
-- the blocks the names have the log that is being written and the latest `total_rotations` of those
-- that were closed. Each closed log has more bytes than the maximum, but by at most `block`, and the
-- one that is being written has at most the maximum; all of them together are the bytes of the blocks
-- in their order.
pub spin-Latest :
    (base : Text) (total_rotations maximum block : ℕ) (disk : Disk) (blks : List Block)
    → total_rotations ≤ 255
    → AreExact blks
    → AreSmall block blks
    → contents disk (rotated_from base 0 total_rotations) ≡ latest total_rotations []
    → (w : Writing) × (logs : History) × (spin (names_of base total_rotations) maximum disk blks
        ≡ done w)
      × (contents w.disk (names_of base total_rotations)
          ≡ some logs.current ∷ latest total_rotations logs.closed)
      × IsBounded maximum block logs
      × (all_bytes (logs.current ∷ logs.closed) ≡ bytes_of blks)
unfolding names_of
spin-Latest base n maximum block disk blks h e s c =
    let l : length (rotated_from base 0 n) ≡ n = length-rotated_from base 0 n in
    let (w, p, r) =
      spin-Represents base (rotated_from base 0 n) maximum disk [] blks
        (base-NotIn base 0 n, rotated_from-AreDistinct base 0 n (omega (arith, h))) e
        (c ∙ ap (λ (k : ℕ). latest k []) (sym l)) in
    (
      w,
      record_blocks maximum blks no_history,
      p,
      r.0
          ∙ ap
              (λ (k : ℕ).
                some (record_blocks maximum blks no_history).current
                ∷ latest k (record_blocks maximum blks no_history).closed)
              l,
      record_blocks-IsBounded maximum block blks no_history s (omega arith, tt),
      record_blocks-all_bytes maximum blks no_history,
    )
