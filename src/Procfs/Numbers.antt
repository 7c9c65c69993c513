-- ===== src/Procfs/Numbers.antt =====
-- Signed numbers, what the `rand` crate draws of the primitive types, and how the newtypes of
-- procfs.rs are drawn and written.
use lading.Prelude.{
  ℕ, zero, suc, ◌+◌, ◌-◌, ◌*◌, ◌^◌, ◌≤◌, ◌<◌, List, [], ◌∷◌, ◌++◌, Bool, u64_max, ltb,
  if◌then◌else◌, Text, decimal, digits, digit_char, length,
}
use lading.Random.{Rng}

-- An integer: a number, or the negative of a number's successor.
pub data ℤ : Type 0 where
  pos : ℕ → ℤ
  negsuc : ℕ → ℤ

-- a signed number as `format!` writes it
unfoldable pub signed : ℤ → Text
unfolding decimal
signed (pos n) = decimal n
signed (negsuc n) = b'-' ∷ decimal (suc n)

-- the difference of two numbers
unfoldable pub difference : ℕ → ℕ → ℤ
difference a b = if ltb a b then negsuc (b - a - 1) else pos (a - b)

-- An integer of a width with a sign.
abbrev pub Fits : ℕ → ℤ → Type 0
Fits limit (pos n) = n < limit
Fits limit (negsuc n) = n < limit

-- What is drawn by `gen`, and by `gen_range` of 32 bits, over the generator of `usize`.
pub record Standard : Type 1 where
  pub rng : Rng
  pub gen_u64 : rng.State → ℕ × rng.State
  pub gen_u32 : rng.State → ℕ × rng.State
  pub gen_u16 : rng.State → ℕ × rng.State
  pub gen_i64 : rng.State → ℤ × rng.State
  pub gen_i32 : rng.State → ℤ × rng.State
  pub gen_bool : rng.State → Bool × rng.State
  pub range_32 : ℕ → ℕ → rng.State → ℕ × rng.State
  pub in_u64 : (s : rng.State) → (gen_u64 s).0 ≤ u64_max
  pub in_u32 : (s : rng.State) → (gen_u32 s).0 < 2 ^ 32
  pub in_u16 : (s : rng.State) → (gen_u16 s).0 < 2 ^ 16
  pub in_i64 : (s : rng.State) → Fits (2 ^ 63) (gen_i64 s).0
  pub in_i32 : (s : rng.State) → Fits (2 ^ 31) (gen_i32 s).0
  pub in_range_32 :
      (lo hi : ℕ) (s : rng.State)
      → lo < hi
      → (lo ≤ (range_32 lo hi s).0) × ((range_32 lo hi s).0 < hi)

-- A value that is drawn, and what is drawn after it.
abbrev pub Draw : Type 0 → Type 0 → Type 0
Draw S A = S → A × S

infixl 20 ◌>>=◌
abbrev pub ◌>>=◌ : {S A B : Type 0} → Draw S A → (A → Draw S B) → Draw S B
(draw >>= next) s = let (a, s') = draw s in next a s'

abbrev pub pure : {S A : Type 0} → A → Draw S A
pure a s = (a, s)

-- the value of a number in a `match`, with the last one for all others
unfoldable pub choice : {A : Type 0} → A → List A → ℕ → A
choice last [] n = last
choice last (a ∷ others) zero = a
choice last (a ∷ others) (suc n) = choice last others n

-- `PID_MAX_LIMIT`
abbrev pub pid_max_limit : ℕ
pid_max_limit = 4194304

-- `UMASK_MAX`
abbrev pub umask_max : ℕ
umask_max = 4096

unfoldable pub concat : List Text → Text
concat [] = []
concat (text ∷ texts) = text ++ concat texts

unfoldable pub repeat : ℕ → ℕ → Text
repeat zero c = []
repeat (suc n) c = c ∷ repeat n c

-- a text after so many of a character as bring it to a width
unfoldable pub pad : ℕ → ℕ → Text → Text
unfolding repeat
pad width c text = repeat (width - length text) c ++ text

-- `Display` of `Umask`: four octal digits at least
unfoldable pub umask_text : ℕ → Text
unfolding pad digits digit_char
umask_text mask = pad 4 b'0' (digits 8 (suc mask) mask)

module _ (r : Standard) where
  open r use {rng}
  open rng use {State}

  -- `sample` of `Umask`
  unfoldable pub sample_umask : Draw State ℕ
  sample_umask = r.range_32 0 umask_max

  -- `sample` of `Pid`
  unfoldable pub sample_pid : Draw State ℤ
  sample_pid s = let (pid, s') = r.range_32 1 pid_max_limit s in (pos pid, s')

  -- the bits of a device from an index on, added to a mask that has none of them
  unfoldable pub device_bits : ℕ → ℕ → ℕ → Draw State ℕ
  device_bits zero index mask s = (mask, s)
  device_bits (suc n) index mask s =
      let (bit, s') = r.range_32 0 2 s in device_bits n (index + 1) (mask + bit * 2 ^ index) s'

  -- `sample` of `DeviceMask`: bits 0 to 15 and 20 to 31, the last of them the sign
  unfoldable pub sample_device : Draw State ℤ
  unfolding device_bits
  sample_device = do
    low ← device_bits 16 0 0
    mask ← device_bits 12 20 low
    pure (if ltb mask (2 ^ 31) then pos mask else negsuc (2 ^ 32 - 1 - mask))
