-- ===== src/Procfs/Words.antt =====
-- The texts of the fields of a stat file are words, which `split_whitespace` takes apart again.
use lading.Prelude.{
  ℕ, suc, ◌≤◌, ◌≡◌, ◌≢◌, refl, sym, ◌∙◌, ap, List, [], ◌∷◌, ◌++◌, false, All, All-append, arith,
  append_assoc, append_nil, Text, decimal, if-false,
}
use lading.Observer.Tokens.{is_whitespace}
use lading.Observer.Stat.{close_word, split_words}
use lading.Procfs.Numbers.{ℤ, pos, negsuc, signed}
use lading.Procfs.Proc.{
  State, running, sleeping, disk_sleep, stopped, tracing_stop, dead, zombie, parked, idle,
  as_stat_code,
}
use lading.Procfs.Stat.{
  SchedulingPolicy, normal, fifo, round_robin, batch, deadline, policy_text, row,
}
use lading.Procfs.Stat
use lading.Procfs.Digits.{IsDigit, IsFull, decimal-IsFull, decimal-IsDigit}

-- A character is neither white space nor a parenthesis.
abbrev pub IsPlain : ℕ → Type 0
IsPlain c = (is_whitespace c ≡ false) × (c ≢ b'(') × (c ≢ b')')

-- A text of one character at least, all of them plain.
abbrev pub IsWord : Text → Type 0
IsWord t = IsFull t × All IsPlain t

digit-IsPlain : (c : ℕ) → IsDigit c → IsPlain c
unfolding is_whitespace
digit-IsPlain c h = (ground (arith, h.0, h.1), omega (arith, h.0, h.1), omega (arith, h.0, h.1))

minus-IsPlain : IsPlain b'-'
unfolding is_whitespace
minus-IsPlain = (refl, omega arith, omega arith)

digits-IsPlain : (t : Text) → All IsDigit t → All IsPlain t
digits-IsPlain [] h = tt
digits-IsPlain (c ∷ t) h = (digit-IsPlain c h.0, digits-IsPlain t h.1)

pub decimal-IsWord : (n : ℕ) → IsWord (decimal n)
decimal-IsWord n = (decimal-IsFull n, digits-IsPlain (decimal n) (decimal-IsDigit n))

pub signed-IsWord : (z : ℤ) → IsWord (signed z)
unfolding signed
signed-IsWord (pos n) = decimal-IsWord n
signed-IsWord (negsuc n) = (tt, (minus-IsPlain, (decimal-IsWord (suc n)).1))

pub policy_text-IsWord : (policy : SchedulingPolicy) → IsWord (policy_text policy)
unfolding policy_text
policy_text-IsWord normal = decimal-IsWord 0
policy_text-IsWord fifo = decimal-IsWord 1
policy_text-IsWord round_robin = decimal-IsWord 2
policy_text-IsWord batch = decimal-IsWord 3
policy_text-IsWord Stat.idle = decimal-IsWord 5
policy_text-IsWord deadline = decimal-IsWord 6

letter-IsWord : (c : ℕ) → 65 ≤ c → IsWord (c ∷ [])
unfolding is_whitespace
letter-IsWord c h = (tt, ((ground (arith, h), omega (arith, h), omega (arith, h)), tt))

pub as_stat_code-IsWord : (state : State) → IsWord (as_stat_code state)
unfolding as_stat_code
as_stat_code-IsWord running = letter-IsWord b'R' (omega arith)
as_stat_code-IsWord sleeping = letter-IsWord b'S' (omega arith)
as_stat_code-IsWord disk_sleep = letter-IsWord b'D' (omega arith)
as_stat_code-IsWord stopped = letter-IsWord b'T' (omega arith)
as_stat_code-IsWord tracing_stop = letter-IsWord b't' (omega arith)
as_stat_code-IsWord dead = letter-IsWord b'X' (omega arith)
as_stat_code-IsWord zombie = letter-IsWord b'Z' (omega arith)
as_stat_code-IsWord parked = letter-IsWord b'P' (omega arith)
as_stat_code-IsWord idle = letter-IsWord b'I' (omega arith)

pub append-IsWord : (a b : Text) → IsWord a → IsWord b → IsWord (a ++ b)
append-IsWord [] b h k = absurd h.0
append-IsWord (c ∷ a) b h k = (tt, (h.1.0, All-append IsPlain a b h.1.1 k.1))

-- A word that ends in a space is closed there.
split_words-space :
    (word w rest : Text)
    → All IsPlain w
    → split_words word (w ++ b' ' ∷ rest) ≡ close_word (word ++ w) ++ split_words [] rest
unfolding split_words
split_words-space word [] rest h =
    ap (λ (t : Text). close_word t ++ split_words [] rest) (sym (append_nil word))
split_words-space word (c ∷ w) rest h =
    if-false (is_whitespace c) (close_word word ++ split_words [] (w ++ b' ' ∷ rest)) _ h.0.0
    ∙ split_words-space (word ++ c ∷ []) w rest h.1
    ∙ ap (λ (t : Text). close_word t ++ split_words [] rest) (append_assoc word (c ∷ []) w)

split_words-last : (word w : Text) → All IsPlain w → split_words word w ≡ close_word (word ++ w)
unfolding split_words
split_words-last word [] h = ap close_word (sym (append_nil word))
split_words-last word (c ∷ w) h =
    if-false (is_whitespace c) (close_word word ++ split_words [] w) _ h.0.0
    ∙ split_words-last (word ++ c ∷ []) w h.1
    ∙ ap close_word (append_assoc word (c ∷ []) w)

close_word-IsWord : (w : Text) → IsWord w → close_word w ≡ w ∷ []
unfolding close_word
close_word-IsWord [] h = absurd h.0
close_word-IsWord (c ∷ w) h = refl

pub split_word : (w : Text) → IsWord w → split_words [] w ≡ w ∷ []
split_word w h = split_words-last [] w h.1 ∙ close_word-IsWord w h

pub split_row :
    (ws : List Text) (rest : Text)
    → All IsWord ws
    → split_words [] (row ws ++ rest) ≡ ws ++ split_words [] rest
unfolding row
split_row [] rest h = refl
split_row (w ∷ ws) rest h =
    ap (λ (t : Text). split_words [] t) (append_assoc w (b' ' ∷ row ws) rest)
    ∙ split_words-space [] w (row ws ++ rest) h.0.1
    ∙ ap (λ (l : List Text). l ++ split_words [] (row ws ++ rest)) (close_word-IsWord w h.0)
    ∙ ap (λ (l : List Text). w ∷ l) (split_row ws rest h.1)

row_one : (w : Text) → w ++ b' ' ∷ [] ≡ row (w ∷ []) ++ []
unfolding row
row_one w = sym (append_nil (w ++ b' ' ∷ []))

pub split_before : (w : Text) → IsWord w → split_words [] (w ++ b' ' ∷ []) ≡ w ∷ []
unfolding split_words
split_before w h = ap (split_words []) (row_one w) ∙ split_row (w ∷ []) [] (h, tt)
