-- ===== src/Prelude/Names.antt =====
-- Maps whose keys are texts, as association lists in which the first entry of a key counts.
use mathlib.Core.Path.{◌≡◌, refl, sym, ap, ◌∙◌}
use mathlib.Core.Logic.{inl, inr}
use mathlib.Core.Bool.{false}
use mathlib.Core.Option.{Option, none, some}
use mathlib.Core.List.{List, [], ◌∷◌}
use native.Mathlib.Omega.{arith}
use lading.Prelude.Tests.{Bool-cases, if◌then◌else◌, if-true, if-false}
use lading.Prelude.Texts.{Text, text_eq, text_eq_self, text_eq→eq}

pub text_eq-sym : (a b : Text) → text_eq a b ≡ false → text_eq b a ≡ false
text_eq-sym a b h = elim (Bool-cases (text_eq b a)) [
  | inl e ↦ absurd (cc (h, sym (text_eq_self a), ap (λ (t : Text). text_eq a t) (text_eq→eq b a e)))
  | inr e ↦ e
]

abbrev pub Names : Type 0 → Type 0
Names V = List (Text × V)

module _ {V : Type 0} where
  unfoldable pub lookup : Names V → Text → Option V
  lookup [] key = none
  lookup (entry ∷ m) key =
      let rest = lookup m key in if text_eq entry.0 key then some entry.1 else rest

  unfoldable pub put : Names V → Text → V → Names V
  put m key v = (key, v) ∷ m

  unfoldable pub unset : Names V → Text → Names V
  unset [] key = []
  unset (entry ∷ m) key =
      let rest = unset m key in if text_eq entry.0 key then rest else entry ∷ rest

  pub lookup-put_self : (m : Names V) (key : Text) (v : V) → lookup (put m key v) key ≡ some v
  unfolding lookup put
  lookup-put_self m key v = if-true (text_eq key key) _ _ (text_eq_self key)

  pub lookup-put_other :
      (m : Names V) (key other : Text) (v : V)
      → text_eq key other ≡ false
      → lookup (put m key v) other ≡ lookup m other
  unfolding lookup put
  lookup-put_other m key other v h = if-false (text_eq key other) (some v) _ h

  pub lookup-unset_self : (m : Names V) (key : Text) → lookup (unset m key) key ≡ none
  unfolding lookup unset
  lookup-unset_self [] key = refl
  lookup-unset_self (entry ∷ m) key = ground (arith, lookup-unset_self m key)

  pub lookup-unset_other :
      (m : Names V) (key other : Text)
      → text_eq key other ≡ false
      → lookup (unset m key) other ≡ lookup m other
  unfolding lookup unset
  lookup-unset_other [] key other h = refl
  lookup-unset_other (entry ∷ m) key other h = elim (Bool-cases (text_eq entry.0 key)) [
    | inl e ↦
        let same : text_eq entry.0 other ≡ false =
          ap (λ (t : Text). text_eq t other) (text_eq→eq entry.0 key e) ∙ h in
        rw (e, same) (lookup-unset_other m key other h)
    | inr e ↦ rw e (
        ap (λ (rest : Option V). if text_eq entry.0 other then some entry.1 else rest)
          (lookup-unset_other m key other h))
  ]
