-- ===== src/Ack/Retries.antt =====
-- How long an id stays outstanding.
use lading.Prelude.{
  ℕ, suc, ◌-◌, ◌≡◌, refl, ap, ◌∙◌, List, [], ◌∷◌, Bool, false, ◌||◌, ◌&&◌, Option, some, none, leb,
  ◌==◌, if◌then◌else◌, arith, length, All,
}
use lading.Prelude.Map.{
  Map, get, remove, map_values, get-remove, get-map_values, Distinct, remove-Distinct,
  map_values-Distinct,
}
use lading.Ack.Service.{
  acks, remove_acked, exhausted, remove_all, ack_request, Event, tick, is_empty, spin_loop,
}

-- whether an answer acknowledges an id
abbrev pub acknowledges : List (ℕ × Bool) → ℕ → Bool
acknowledges [] i = false
acknowledges (status ∷ rest) i = (status.0 == i && status.1) || acknowledges rest i

abbrev contains : List ℕ → ℕ → Bool
contains [] i = false
contains (j ∷ js) i = j == i || contains js i

get-remove_acked :
    (m : Map ℕ) (statuses : List (ℕ × Bool)) (i : ℕ)
    → get (remove_acked m statuses) i ≡ (if acknowledges statuses i then none else get m i)
unfolding remove_acked
get-remove_acked m [] i = refl
get-remove_acked m (status ∷ rest) i = ground (
  arith,
  get-remove_acked (if status.1 then remove m status.0 else m) rest i,
  get-remove i m status.0,
)

get-remove_all :
    (m : Map ℕ) (is : List ℕ) (i : ℕ)
    → get (remove_all m is) i ≡ (if contains is i then none else get m i)
unfolding remove_all
get-remove_all m [] i = refl
get-remove_all m (j ∷ js) i = ground (arith, get-remove_all (remove m j) js i, get-remove i m j)

-- whether an id is there with no retries
abbrev at_zero : Option ℕ → Bool
at_zero none = false
at_zero (some r) = r == 0

contains-exhausted : (m : Map ℕ) (i : ℕ) → Distinct m → contains (exhausted m) i ≡ at_zero (get m i)
unfolding exhausted get
contains-exhausted [] i d = refl
contains-exhausted (entry ∷ m) i d = ground (arith, contains-exhausted m i d.1)

-- the retries that are left after one more readable answer
abbrev pub next_retries : Option ℕ → Option ℕ
next_retries none = none
next_retries (some r) = if r == 0 then none else some (r - 1)

remove_acked-Distinct :
    (m : Map ℕ) (statuses : List (ℕ × Bool)) → Distinct m → Distinct (remove_acked m statuses)
unfolding remove_acked
remove_acked-Distinct m [] d = d
remove_acked-Distinct m (status ∷ rest) d =
    remove_acked-Distinct (if status.1 then remove m status.0 else m) rest
      (ground (arith, remove-Distinct m status.0 d))

remove_all-Distinct : (m : Map ℕ) (is : List ℕ) → Distinct m → Distinct (remove_all m is)
unfolding remove_all
remove_all-Distinct m [] d = d
remove_all-Distinct m (i ∷ is) d = remove_all-Distinct (remove m i) is (remove-Distinct m i d)

ack_request-Distinct :
    (m : Map ℕ) (statuses : List (ℕ × Bool)) → Distinct m → Distinct (ack_request m (acks statuses))
unfolding ack_request
ack_request-Distinct m statuses d =
    remove_all-Distinct (map_values (remove_acked m statuses) (λ r. r - 1))
      (exhausted (remove_acked m statuses))
      (map_values-Distinct (remove_acked m statuses) (λ r. r - 1)
        (remove_acked-Distinct m statuses d))

-- A readable answer, from ids that are outstanding once each: an id that it acknowledges is gone,
-- one that had no retries left is gone too, and any other has one retry less.
pub get-ack_request :
    (m : Map ℕ) (statuses : List (ℕ × Bool)) (i : ℕ)
    → Distinct m
    → get (ack_request m (acks statuses)) i
      ≡ (if acknowledges statuses i then none else next_retries (get m i))
unfolding ack_request
get-ack_request m statuses i d = ground (
  arith,
  get-remove_all (map_values (remove_acked m statuses) (λ r. r - 1))
      (exhausted (remove_acked m statuses)) i,
  get-map_values i (remove_acked m statuses) (λ r. r - 1),
  contains-exhausted (remove_acked m statuses) i (remove_acked-Distinct m statuses d),
  get-remove_acked m statuses i,
)

-- the retries that are left after some more readable answers
abbrev pub retries_after : ℕ → Option ℕ → Option ℕ
retries_after answers none = none
retries_after answers (some r) = if leb answers r then some (r - answers) else none

-- the ticks that are answered so
abbrev pub ticks : List (List (ℕ × Bool)) → List Event
ticks [] = []
ticks (statuses ∷ answers) = tick (acks statuses) ∷ ticks answers

retries_after-suc :
    (answers : ℕ) (r : Option ℕ)
    → retries_after answers (next_retries r) ≡ retries_after (suc answers) r
retries_after-suc answers none = refl
retries_after-suc answers (some r) = ground arith

retries_after-zero : (r : Option ℕ) → r ≡ retries_after 0 r
retries_after-zero none = refl
retries_after-zero (some r) = ground arith

-- With `r` retries, an id that the readable answers of the ticks do not acknowledge is outstanding
-- for `r` of them, with one retry less each time, and dropped at the next one. The ids are
-- outstanding once each.
pub get-spin_loop :
    (retries : ℕ) (m : Map ℕ) (answers : List (List (ℕ × Bool))) (i : ℕ)
    → Distinct m
    → All (λ statuses. acknowledges statuses i ≡ false) answers
    → get (spin_loop retries m (ticks answers)) i ≡ retries_after (length answers) (get m i)
unfolding spin_loop is_empty get
get-spin_loop retries m [] i d q = retries_after-zero (get m i)
get-spin_loop retries [] (statuses ∷ answers) i d q = get-spin_loop retries [] answers i d q.1
get-spin_loop retries (entry ∷ m) (statuses ∷ answers) i d q =
    get-spin_loop retries (ack_request (entry ∷ m) (acks statuses)) answers i
      (ack_request-Distinct (entry ∷ m) statuses d) q.1
    ∙ ap (retries_after (length answers)) (get-ack_request (entry ∷ m) statuses i d ∙ rw q.0)
    ∙ retries_after-suc (length answers) (get (entry ∷ m) i)
