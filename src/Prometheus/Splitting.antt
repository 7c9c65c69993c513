-- ===== src/Prometheus/Splitting.antt =====
-- How a text that was put together is taken apart.
use lading.Prelude.{
  ℕ, ◌≡◌, refl, ap, ◌∙◌, [], ◌∷◌, ◌++◌, Bool, true, false, ◌&&◌, some, ◌==◌, if◌then◌else◌, All,
  arith, Text, if-true, if-false, ==_refl,
}
use lading.Observer.Command.{Lacks}
use lading.Prometheus.Strings.{
  is_empty, trim_end, trim_start, trim_matches, trim_end_matches, contains, push_first, split_by,
  split_inclusive, split_once,
}

-- A test does not hold of any character of a text.
abbrev pub Fails : (ℕ → Bool) → Text → Type 0
Fails test text = All (λ (c : ℕ). test c ≡ false) text

pub Lacks-Fails : (mark : ℕ) (text : Text) → Lacks mark text → Fails (λ c. c == mark) text
Lacks-Fails mark [] h = tt
Lacks-Fails mark (c ∷ text) h = (ground (arith, h.0), Lacks-Fails mark text h.1)

pub contains-append : (mark : ℕ) (a b : Text) → contains mark (a ++ (mark ∷ b)) ≡ true
unfolding contains
contains-append mark [] b = ground arith
contains-append mark (c ∷ a) b = ground (arith, contains-append mark a b)

pub contains-Lacks : (mark : ℕ) (a : Text) → Lacks mark a → contains mark a ≡ false
unfolding contains
contains-Lacks mark [] h = refl
contains-Lacks mark (c ∷ a) h = ground (arith, h.0, contains-Lacks mark a h.1)

pub split_once-append :
    (mark : ℕ) (a b : Text) → Lacks mark a → split_once mark (a ++ (mark ∷ b)) ≡ some (a, b)
unfolding split_once
split_once-append mark [] b h = ground arith
split_once-append mark (c ∷ a) b h = ground (arith, h.0, split_once-append mark a b h.1)

pub split_inclusive-append :
    (mark : ℕ) (a b : Text)
    → Lacks mark a
    → split_inclusive mark (a ++ (mark ∷ b)) ≡ (a ++ mark ∷ []) ∷ split_inclusive mark b
unfolding split_inclusive
split_inclusive-append mark [] b h = ground arith
split_inclusive-append mark (c ∷ a) b h = ground (arith, h.0, split_inclusive-append mark a b h.1)

pub split_inclusive-last :
    (mark c : ℕ) (a : Text) → Lacks mark (c ∷ a) → split_inclusive mark (c ∷ a) ≡ (c ∷ a) ∷ []
unfolding split_inclusive
split_inclusive-last mark c [] h = ground (arith, h.0)
split_inclusive-last mark c (d ∷ a) h = ground (arith, h.0, split_inclusive-last mark d a h.1)

pub split_by-append :
    (test : ℕ → Bool) (mark : ℕ) (a b : Text)
    → Fails test a
    → test mark ≡ true
    → split_by test (a ++ (mark ∷ b)) ≡ a ∷ split_by test b
unfolding split_by
split_by-append test mark [] b h k = if-true (test mark) _ _ k
split_by-append test mark (c ∷ a) b h k =
    if-false (test c) _ _ h.0 ∙ ap (push_first c) (split_by-append test mark a b h.1 k)

pub split_by-last : (test : ℕ → Bool) (a : Text) → Fails test a → split_by test a ≡ a ∷ []
unfolding split_by
split_by-last test [] h = refl
split_by-last test (c ∷ a) h =
    if-false (test c) _ _ h.0 ∙ ap (push_first c) (split_by-last test a h.1)

keep : (b : Bool) (a : Text) → (if b && false then [] else a) ≡ a
keep true a = refl
keep false a = refl

pub trim_end-mark :
    (test : ℕ → Bool) (a : Text) (mark : ℕ)
    → Fails test a
    → test mark ≡ true
    → trim_end test (a ++ mark ∷ []) ≡ a
unfolding trim_end
trim_end-mark test [] mark h k = rw k refl
trim_end-mark test (c ∷ a) mark h k =
    rw (trim_end-mark test a mark h.1 k, h.0) (keep (is_empty a) (c ∷ a))

pub trim_end-same : (test : ℕ → Bool) (a : Text) → Fails test a → trim_end test a ≡ a
unfolding trim_end
trim_end-same test [] h = refl
trim_end-same test (c ∷ a) h = rw (trim_end-same test a h.1, h.0) (keep (is_empty a) (c ∷ a))

trim_start-nil : (test : ℕ → Bool) → trim_start test [] ≡ []
unfolding trim_start
trim_start-nil test = refl

trim_start-mark :
    (test : ℕ → Bool) (mark : ℕ) (a : Text)
    → test mark ≡ true
    → trim_start test (mark ∷ a) ≡ trim_start test a
unfolding trim_start
trim_start-mark test mark a k = if-true (test mark) _ _ k

pub trim_start-same :
    (test : ℕ → Bool) (c : ℕ) (a : Text) → test c ≡ false → trim_start test (c ∷ a) ≡ c ∷ a
unfolding trim_start
trim_start-same test c a k = if-false (test c) _ _ k

trim_start-Fails :
    (test : ℕ → Bool) (mark : ℕ) (a : Text)
    → Fails test a
    → test mark ≡ true
    → trim_end test (trim_start test (a ++ mark ∷ [])) ≡ a
unfolding trim_end
trim_start-Fails test mark [] h k =
    ap (trim_end test) (trim_start-mark test mark [] k) ∙ ap (trim_end test) (trim_start-nil test)
trim_start-Fails test mark (c ∷ a) h k =
    ap (trim_end test) (trim_start-same test c (a ++ mark ∷ []) h.0)
    ∙ trim_end-mark test (c ∷ a) mark h k

-- A text between two marks.
pub trim_matches-marks :
    (mark : ℕ) (a : Text) → Lacks mark a → trim_matches mark (mark ∷ (a ++ mark ∷ [])) ≡ a
unfolding trim_matches
trim_matches-marks mark a h =
    let test : ℕ → Bool = λ c. c == mark in
    ap (trim_end test) (trim_start-mark test mark (a ++ mark ∷ []) (==_refl mark))
    ∙ trim_start-Fails test mark a (Lacks-Fails mark a h) (==_refl mark)

pub trim_end_matches-mark :
    (mark : ℕ) (a : Text) → Lacks mark a → trim_end_matches mark (a ++ mark ∷ []) ≡ a
unfolding trim_end_matches
trim_end_matches-mark mark a h =
    trim_end-mark (λ c. c == mark) a mark (Lacks-Fails mark a h) (==_refl mark)

is_empty-append : (a b : Text) → is_empty b ≡ false → is_empty (a ++ b) ≡ false
unfolding is_empty
is_empty-append [] b h = h
is_empty-append (c ∷ a) b h = refl

kept : (b d : Bool) (a : Text) → b ≡ false → (if b && d then [] else a) ≡ a
kept b d a h = rw h refl

-- A text whose end a test fails of is not trimmed there.
pub trim_end-kept :
    (test : ℕ → Bool) (a b : Text)
    → Fails test b
    → is_empty b ≡ false
    → trim_end test (a ++ b) ≡ a ++ b
unfolding trim_end
trim_end-kept test [] b h k = trim_end-same test b h
trim_end-kept test (c ∷ a) b h k =
    rw (trim_end-kept test a b h k)
      (kept (is_empty (a ++ b)) (test c) (c ∷ (a ++ b)) (is_empty-append a b k))
