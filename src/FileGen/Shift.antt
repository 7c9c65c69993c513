-- ===== src/FileGen/Shift.antt =====
-- The files of some names, before and after a rotation.
use lading.Prelude.{
  ◌≡◌, refl, sym, ap, ◌∙◌, List, [], ◌∷◌, map, false, Option, some, none, All, Text, text_eq, inl,
  inr, Option-cases,
}
use lading.Prelude.Names.{
  text_eq-sym, lookup, put, unset, lookup-put_self, lookup-put_other, lookup-unset_self,
  lookup-unset_other,
}
use lading.FileGen.Disk.{Disk, remove_existing, rename_existing, open_kept}
use lading.FileGen.Child.{last_of, shift}

-- A text is none of some texts.
abbrev pub NotIn : Text → List Text → Type 0
NotIn name names = All (λ (other : Text). text_eq name other ≡ false) names

-- Texts of which no two are the same.
abbrev pub AreDistinct : List Text → Type 0
AreDistinct [] = Unit
AreDistinct (name ∷ names) = NotIn name names × AreDistinct names

-- the files of some names, with none where there is no file
abbrev pub contents : Disk → List Text → List (Option Text)
contents disk names = map (lookup disk) names

-- a list without its last element
abbrev pub drop_last {ℓ} : {A : Type ℓ} → List A → List A
drop_last [] = []
drop_last (x ∷ []) = []
drop_last (x ∷ y ∷ ys) = x ∷ drop_last (y ∷ ys)

-- What a renaming does to the old name, to the new one if it had no file, and to the others.
rename-none : (d : Disk) (a b : Text) → lookup d a ≡ none → rename_existing d a b ≡ d
unfolding rename_existing
rename-none d a b h = rw (h, rename_existing) refl

rename-some :
    (d : Disk) (a b bytes : Text)
    → lookup d a ≡ some bytes
    → rename_existing d a b ≡ put (unset d a) b bytes
unfolding rename_existing
rename-some d a b bytes h = rw (h, rename_existing) refl

lookup-rename_from :
    (d : Disk) (a b : Text) → text_eq b a ≡ false → lookup (rename_existing d a b) a ≡ none
lookup-rename_from d a b h = elim (Option-cases (lookup d a)) [
  | inl e ↦ rw (rename-none d a b e) e
  | inr (bytes, e) ↦
      rw (rename-some d a b bytes e)
        (lookup-put_other (unset d a) b a bytes h ∙ lookup-unset_self d a)
]

lookup-rename_to :
    (d : Disk) (a b : Text) → lookup d b ≡ none → lookup (rename_existing d a b) b ≡ lookup d a
lookup-rename_to d a b k = elim (Option-cases (lookup d a)) [
  | inl e ↦ rw (rename-none d a b e) (k ∙ sym e)
  | inr (bytes, e) ↦ rw (rename-some d a b bytes e) (lookup-put_self (unset d a) b bytes ∙ sym e)
]

lookup-rename_other :
    (d : Disk) (a b c : Text)
    → text_eq a c ≡ false
    → text_eq b c ≡ false
    → lookup (rename_existing d a b) c ≡ lookup d c
lookup-rename_other d a b c h k = elim (Option-cases (lookup d a)) [
  | inl e ↦ ap (λ (x : Disk). lookup x c) (rename-none d a b e)
  | inr (bytes, e) ↦
      ap (λ (x : Disk). lookup x c) (rename-some d a b bytes e)
      ∙ lookup-put_other (unset d a) b c bytes k
      ∙ lookup-unset_other d a c h
]

-- the first of some files, and the others
abbrev pub head : List (Option Text) → Option Text
head [] = none
head (x ∷ xs) = x

abbrev pub tail : List (Option Text) → List (Option Text)
tail [] = []
tail (x ∷ xs) = xs

contents-same :
    (d d' : Disk) (names : List Text)
    → All (λ (name : Text). lookup d' name ≡ lookup d name) names
    → contents d' names ≡ contents d names
contents-same d d' [] h = refl
contents-same d d' (name ∷ names) h = cc (h.0, contents-same d d' names h.1)

rename-same :
    (d : Disk) (a b : Text) (names : List Text)
    → NotIn a names
    → NotIn b names
    → All (λ (name : Text). lookup (rename_existing d a b) name ≡ lookup d name) names
rename-same d a b [] h k = tt
rename-same d a b (name ∷ names) h k =
    (lookup-rename_other d a b name h.0 k.0, rename-same d a b names h.1 k.1)

-- A shift leaves other files as they are.
lookup-shift :
    (d : Disk) (names : List Text) (other : Text)
    → NotIn other names
    → lookup (shift names d) other ≡ lookup d other
unfolding shift
lookup-shift d [] other h = refl
lookup-shift d (name ∷ []) other h = refl
lookup-shift d (name ∷ next ∷ names) other h =
    lookup-rename_other (shift (next ∷ names) d) name next other (text_eq-sym other name h.0)
      (text_eq-sym other next h.1.0)
    ∙ lookup-shift d (next ∷ names) other h.1

shift_step :
    (name next : Text) (names : List Text) (d : Disk)
    → shift (name ∷ next ∷ names) d ≡ rename_existing (shift (next ∷ names) d) name next
unfolding shift
shift_step name next names d = refl

shift_one : (name : Text) (d : Disk) → shift (name ∷ []) d ≡ d
unfolding shift
shift_one name d = refl

-- When the last name has no file, a shift gives each name the file of the one before it.
contents-shift :
    (d : Disk) (name : Text) (names : List Text)
    → AreDistinct (name ∷ names)
    → lookup d (last_of name names) ≡ none
    → contents (shift (name ∷ names) d) (name ∷ names)
      ≡ none ∷ drop_last (contents d (name ∷ names))
unfolding last_of
contents-shift d name [] h k = rw (shift_one name d, k) refl
contents-shift d name (next ∷ names) h k =
    let d1 : Disk = shift (next ∷ names) d in
    let d2 : Disk = rename_existing d1 name next in
    let again = contents-shift d next names h.1 k in
    let vacant : lookup d1 next ≡ none = ap head again in
    let first : lookup d2 name ≡ none =
      lookup-rename_from d1 name next (text_eq-sym name next h.0.0) in
    let second : lookup d2 next ≡ lookup d name =
      lookup-rename_to d1 name next vacant ∙ lookup-shift d (next ∷ names) name h.0 in
    let others : contents d2 names ≡ drop_last (contents d (next ∷ names)) =
      contents-same d1 d2 names (rename-same d1 name next names h.0.1 h.1.0) ∙ ap tail again in
    ap (λ (x : Disk). contents x (name ∷ next ∷ names)) (shift_step name next names d)
    ∙ cc (first, second, others)

last_of-NotIn :
    (other name : Text) (names : List Text)
    → NotIn other (name ∷ names)
    → text_eq other (last_of name names) ≡ false
unfolding last_of
last_of-NotIn other name [] h = h.0
last_of-NotIn other name (next ∷ names) h = last_of-NotIn other next names h.1

remove-none : (d : Disk) (a : Text) → lookup d a ≡ none → remove_existing d a ≡ d
unfolding remove_existing
remove-none d a h = rw (h, remove_existing) refl

remove-some :
    (d : Disk) (a bytes : Text) → lookup d a ≡ some bytes → remove_existing d a ≡ unset d a
unfolding remove_existing
remove-some d a bytes h = rw (h, remove_existing) refl

lookup-remove_self : (d : Disk) (a : Text) → lookup (remove_existing d a) a ≡ none
lookup-remove_self d a = elim (Option-cases (lookup d a)) [
  | inl e ↦ rw (remove-none d a e) e
  | inr (bytes, e) ↦ rw (remove-some d a bytes e) (lookup-unset_self d a)
]

pub lookup-remove_other :
    (d : Disk) (a b : Text) → text_eq a b ≡ false → lookup (remove_existing d a) b ≡ lookup d b
lookup-remove_other d a b h = elim (Option-cases (lookup d a)) [
  | inl e ↦ ap (λ (x : Disk). lookup x b) (remove-none d a e)
  | inr (bytes, e) ↦
      ap (λ (x : Disk). lookup x b) (remove-some d a bytes e) ∙ lookup-unset_other d a b h
]

-- The removal of the last file leaves the others.
drop_last-remove :
    (d : Disk) (name : Text) (names : List Text)
    → AreDistinct (name ∷ names)
    → drop_last (contents (remove_existing d (last_of name names)) (name ∷ names))
      ≡ drop_last (contents d (name ∷ names))
unfolding last_of
drop_last-remove d name [] h = refl
drop_last-remove d name (next ∷ names) h = cc (
  lookup-remove_other d (last_of next names) name
      (text_eq-sym name (last_of next names) (last_of-NotIn name next names h.0)),
  drop_last-remove d next names h.1,
)

open-none : (d : Disk) (a : Text) → lookup d a ≡ none → open_kept d a ≡ put d a []
unfolding open_kept
open-none d a h = rw (h, open_kept) refl

put-same :
    (d : Disk) (a bytes : Text) (names : List Text)
    → NotIn a names
    → All (λ (name : Text). lookup (put d a bytes) name ≡ lookup d name) names
put-same d a bytes [] h = tt
put-same d a bytes (name ∷ names) h =
    (lookup-put_other d a name bytes h.0, put-same d a bytes names h.1)

-- A new file for the first name leaves the others.
pub contents-put :
    (d : Disk) (name bytes : Text) (names : List Text)
    → NotIn name names
    → contents (put d name bytes) (name ∷ names) ≡ some bytes ∷ contents d names
contents-put d name bytes names h = cc (
  lookup-put_self d name bytes,
  contents-same d (put d name bytes) names (put-same d name bytes names h),
)

-- the files after the removal of the last one, the shift and the opening of the first name
abbrev pub rotated : Disk → Text → List Text → Disk
rotated d name names =
    open_kept (shift (name ∷ names) (remove_existing d (last_of name names))) name

-- A rotation gives each name the file of the one before it, drops the last file and leaves an empty
-- file for the first name.
pub contents-rotated :
    (d : Disk) (name : Text) (names : List Text)
    → AreDistinct (name ∷ names)
    → contents (rotated d name names) (name ∷ names)
      ≡ some [] ∷ drop_last (contents d (name ∷ names))
contents-rotated d name names h =
    let d1 : Disk = remove_existing d (last_of name names) in
    let d2 : Disk = shift (name ∷ names) d1 in
    let e = contents-shift d1 name names h (lookup-remove_self d (last_of name names)) in
    ap (λ (x : Disk). contents x (name ∷ names)) (open-none d2 name (ap head e))
    ∙ contents-put d2 name [] names h.0
    ∙ ap (λ (l : List (Option Text)). some [] ∷ l) (ap tail e ∙ drop_last-remove d name names h)
