-- ===== src/Procfs/Digits.antt =====
-- What `format!` writes of a number is read back by the parsers of the observer.
use lading.Prelude.{
  ℕ, ◌-◌, zero, suc, ◌+◌, ◌*◌, ◌/◌, ◌%◌, ◌^◌, ◌≤◌, ◌<◌, ◌≡◌, refl, sym, ◌∙◌, ap, subst, [], ◌∷◌,
  ◌++◌, some, none, Bool, true, false, All, All-append, arith, append_assoc, append_nil, ltb, leb,
  Text, digits, digit_char, decimal, u64_max, Bool-cases, inl, inr, ltb→lt, not-ltb→le, le→leb,
  if-true, if-false, ◌==◌,
}
use lading.Observer.Stat.{Signed, bounded, parse_i32}
use lading.Procfs.Numbers.{ℤ, pos, negsuc, signed, Fits}
use lading.Observer.Tokens.{parse_digits, parse_unsigned, from_str_radix}

-- A character is a decimal digit.
abbrev pub IsDigit : ℕ → Type 0
IsDigit c = (48 ≤ c) × (c ≤ 57)

digit_char-IsDigit : (d : ℕ) → d < 10 → IsDigit (digit_char d)
unfolding digit_char
digit_char-IsDigit d h = ground (arith, h)

-- The digits of a number of one digit, and of more.
digits_small : (fuel n : ℕ) → ltb n 10 ≡ true → digits 10 (suc fuel) n ≡ digit_char n ∷ []
unfolding digits
digits_small fuel n e = if-true (ltb n 10) (digit_char n ∷ []) _ e

digits_large :
    (fuel n : ℕ)
    → ltb n 10 ≡ false
    → digits 10 (suc fuel) n ≡ digits 10 fuel (n / 10) ++ digit_char (n % 10) ∷ []
unfolding digits
digits_large fuel n e = if-false (ltb n 10) (digit_char n ∷ []) _ e

digits-zero : (n : ℕ) → digits 10 0 n ≡ []
unfolding digits
digits-zero n = refl

pub digits-IsDigit : (fuel n : ℕ) → All IsDigit (digits 10 fuel n)
digits-IsDigit zero n = subst (λ (t : Text). All IsDigit t) (sym (digits-zero n)) tt
digits-IsDigit (suc fuel) n = elim (Bool-cases (ltb n 10)) [
  | inl e ↦
      subst (λ (t : Text). All IsDigit t) (sym (digits_small fuel n e))
        (digit_char-IsDigit n (ltb→lt n 10 e), tt)
  | inr e ↦
      subst (λ (t : Text). All IsDigit t) (sym (digits_large fuel n e))
        (All-append IsDigit (digits 10 fuel (n / 10)) (digit_char (n % 10) ∷ [])
          (digits-IsDigit fuel (n / 10)) (digit_char-IsDigit (n % 10) (omega arith), tt))
]

parse_digits-step :
    (acc d : ℕ) (rest : Text)
    → d < 10
    → acc * 10 + d ≤ u64_max
    → parse_digits 10 acc (digit_char d ∷ rest) ≡ parse_digits 10 (acc * 10 + d) rest
unfolding parse_digits digit_char
parse_digits-step acc d rest h k = ground (arith, h, k)

parse_digits-digits :
    (fuel n : ℕ) (rest : Text)
    → n < fuel
    → n ≤ u64_max
    → parse_digits 10 0 (digits 10 fuel n ++ rest) ≡ parse_digits 10 n rest
parse_digits-digits zero n rest h k = absurd (omega (arith, h))
parse_digits-digits (suc fuel) n rest h k = elim (Bool-cases (ltb n 10)) [
  | inl e ↦
      ap (λ (t : Text). parse_digits 10 0 (t ++ rest)) (digits_small fuel n e)
      ∙ parse_digits-step 0 n rest (ltb→lt n 10 e) (omega arith)
      ∙ ap (λ (m : ℕ). parse_digits 10 m rest) (omega arith)
  | inr e ↦
      let l : 10 ≤ n = not-ltb→le n 10 e in
      let q : (n / 10) * 10 + n % 10 ≡ n = omega arith in
      ap (λ (t : Text). parse_digits 10 0 (t ++ rest)) (digits_large fuel n e)
      ∙ ap (λ (t : Text). parse_digits 10 0 t)
          (append_assoc (digits 10 fuel (n / 10)) (digit_char (n % 10) ∷ []) rest)
      ∙ parse_digits-digits fuel (n / 10) (digit_char (n % 10) ∷ rest) (omega arith) (omega arith)
      ∙ parse_digits-step (n / 10) (n % 10) rest (omega arith) (omega arith)
      ∙ ap (λ (m : ℕ). parse_digits 10 m rest) q
]

-- A text that is not empty.
abbrev pub IsFull : Text → Type 0
IsFull [] = ⊥
IsFull (c ∷ cs) = Unit

pub append-IsFull : (a : Text) (c : ℕ) (b : Text) → IsFull (a ++ c ∷ b)
append-IsFull [] c b = tt
append-IsFull (x ∷ a) c b = tt

pub decimal-IsFull : (n : ℕ) → IsFull (decimal n)
unfolding decimal
decimal-IsFull n = elim (Bool-cases (ltb n 10)) [
  | inl e ↦ subst (λ (t : Text). IsFull t) (sym (digits_small n n e)) tt
  | inr e ↦
      subst (λ (t : Text). IsFull t) (sym (digits_large n n e))
        (append-IsFull (digits 10 n (n / 10)) (digit_char (n % 10)) [])
]

pub decimal-IsDigit : (n : ℕ) → All IsDigit (decimal n)
unfolding decimal
decimal-IsDigit n = digits-IsDigit (suc n) n

parse_digits-decimal : (n : ℕ) → n ≤ u64_max → parse_digits 10 0 (decimal n) ≡ some n
unfolding decimal parse_digits
parse_digits-decimal n h =
    ap (λ (t : Text). parse_digits 10 0 t) (sym (append_nil (digits 10 (suc n) n)))
    ∙ parse_digits-digits (suc n) n [] (omega arith) h

parse_unsigned-full : (t : Text) → IsFull t → parse_unsigned 10 t ≡ parse_digits 10 0 t
unfolding parse_unsigned
parse_unsigned-full [] h = absurd h
parse_unsigned-full (c ∷ t) h = refl

from_str_radix-full :
    (t : Text) → IsFull t → All IsDigit t → from_str_radix 10 t ≡ parse_unsigned 10 t
unfolding from_str_radix
from_str_radix-full [] h k = absurd h
from_str_radix-full (c ∷ t) h k =
    if-false (c == b'+') (parse_unsigned 10 t) _ (ground (arith, k.0.0))

parse_i32-full :
    (t : Text)
    → IsFull t
    → All IsDigit t
    → parse_i32 t ≡ bounded false (2 ^ 31 - 1) (from_str_radix 10 t)
unfolding parse_i32
parse_i32-full [] h k = absurd h
parse_i32-full (c ∷ t) h k =
    if-false (c == b'-') (bounded true (2 ^ 31) (parse_unsigned 10 t)) _ (ground (arith, k.0.0))

parse_i32-minus : (t : Text) → parse_i32 (b'-' ∷ t) ≡ bounded true (2 ^ 31) (parse_unsigned 10 t)
unfolding parse_i32
parse_i32-minus t = refl

parse_unsigned-decimal : (n : ℕ) → n ≤ u64_max → parse_unsigned 10 (decimal n) ≡ some n
parse_unsigned-decimal n h =
    parse_unsigned-full (decimal n) (decimal-IsFull n) ∙ parse_digits-decimal n h

-- A number that a `u64` holds is what `from_str_radix` reads of the number's decimal text.
pub from_str_radix-decimal : (n : ℕ) → n ≤ u64_max → from_str_radix 10 (decimal n) ≡ some n
from_str_radix-decimal n h =
    from_str_radix-full (decimal n) (decimal-IsFull n) (decimal-IsDigit n)
    ∙ parse_unsigned-decimal n h

-- an `i32` as the parser has it
abbrev pub as_i32 : ℤ → Signed
as_i32 (pos n) = record { negative = false; size = n }
as_i32 (negsuc n) = record { negative = true; size = suc n }

bounded-some :
    (negative : Bool) (limit n : ℕ)
    → n ≤ limit
    → bounded negative limit (some n) ≡ some (record { negative = negative; size = n })
unfolding bounded
bounded-some negative limit n h = if-true (leb n limit) _ none (le→leb n limit h)

pub parse_i32-signed : (z : ℤ) → Fits (2 ^ 31) z → parse_i32 (signed z) ≡ some (as_i32 z)
unfolding signed
parse_i32-signed (pos n) h =
    parse_i32-full (decimal n) (decimal-IsFull n) (decimal-IsDigit n)
    ∙ ap (bounded false (2 ^ 31 - 1)) (from_str_radix-decimal n (omega (arith, h)))
    ∙ bounded-some false (2 ^ 31 - 1) n (omega (arith, h))
parse_i32-signed (negsuc n) h =
    parse_i32-minus (decimal (suc n))
    ∙ ap (bounded true (2 ^ 31)) (parse_unsigned-decimal (suc n) (omega (arith, h)))
    ∙ bounded-some true (2 ^ 31) (suc n) (omega (arith, h))
