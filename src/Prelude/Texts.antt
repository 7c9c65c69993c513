-- ===== src/Prelude/Texts.antt =====
-- Texts as lists of bytes, and the test whether two are the same.
use Prim.Native.Nat.{ℕ, zero, suc, ◌+◌, ◌/◌, ◌%◌}
use Prim.Native.Char.{code}
use Prim.Native.String.{String}
use mathlib.Core.Path.{◌≡◌, refl}
use mathlib.Core.Bool.{Bool, true, false}
use mathlib.Core.List.{List, [], ◌∷◌, ◌++◌}
use native.Mathlib.Omega.{arith}
use lading.Prelude.Tests.{◌==◌, ltb, if◌then◌else◌}

abbrev pub Text : Type 0
Text = List ℕ

-- the bytes of a literal
abbrev pub codes : String → Text
codes String.[] = []
codes (String.◌∷◌ c s) = code c ∷ codes s

-- the character of a digit
unfoldable pub digit_char : ℕ → ℕ
digit_char d = if ltb d 10 then 48 + d else 87 + d

-- the digits of a number in a radix, for as many rounds as it has digits at least
unfoldable pub digits : ℕ → ℕ → ℕ → Text
digits radix zero n = []
digits radix (suc fuel) n =
    if ltb n radix
    then digit_char n ∷ []
    else digits radix fuel (n / radix) ++ digit_char (n % radix) ∷ []

-- a number as `format!` writes it
unfoldable pub decimal : ℕ → Text
unfolding digits digit_char
decimal n = digits 10 (suc n) n

unfoldable pub text_eq : Text → Text → Bool
text_eq [] [] = true
text_eq [] (c ∷ d) = false
text_eq (c ∷ d) [] = false
text_eq (x ∷ xs) (y ∷ ys) = let rest = text_eq xs ys in if x == y then rest else false

pub text_eq_self : (text : Text) → text_eq text text ≡ true
unfolding text_eq
text_eq_self [] = refl
text_eq_self (c ∷ text) = ground (arith, text_eq_self text)

pub text_eq→eq : (a b : Text) → text_eq a b ≡ true → a ≡ b
unfolding text_eq
text_eq→eq [] [] h = refl
text_eq→eq [] (y ∷ ys) h = absurd (ground (arith, h))
text_eq→eq (x ∷ xs) [] h = absurd (ground (arith, h))
text_eq→eq (x ∷ xs) (y ∷ ys) h = ground (arith, h, text_eq→eq xs ys)
