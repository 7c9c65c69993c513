-- ===== src/Program/Labels.antt =====
-- The labels that come of entries in their order.
use lading.Prelude.{
  ◌≡◌, refl, ap, ◌∙◌, List, [], ◌∷◌, Option, some, none, Text, text_eq, if◌then◌else◌,
}
use lading.Prelude.Names.{Names, lookup, put}
use lading.Program.KeyValues.{insert_all}

-- the last value of a key among some entries
abbrev pub last_value : List (Text × Text) → Text → Option Text → Option Text
last_value [] key found = found
last_value (entry ∷ entries) key found =
    last_value entries key (if text_eq entry.0 key then some entry.1 else found)

lookup-put :
    (labels : Names Text) (key other value : Text)
    → lookup (put labels key value) other
      ≡ (if text_eq key other then some value else lookup labels other)
unfolding lookup put
lookup-put labels key other value = refl

pub lookup-nil : (key : Text) → lookup {V = Text} [] key ≡ none
unfolding lookup
lookup-nil key = refl

pub lookup-insert_all :
    (entries : List (Text × Text)) (labels : Names Text) (key : Text)
    → lookup (insert_all entries labels) key ≡ last_value entries key (lookup labels key)
unfolding insert_all
lookup-insert_all [] labels key = refl
lookup-insert_all ((name, value) ∷ entries) labels key =
    lookup-insert_all entries (put labels name value) key
    ∙ ap (last_value entries key) (lookup-put labels name key value)
