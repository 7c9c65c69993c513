-- ===== src/Logrotate/Every.antt =====
-- A property that every file of the filesystem keeps, whatever is done to it.
use lading.Prelude.{
  ℕ, ◌≡◌, refl, List, [], ◌∷◌, Bool, true, false, arith, if◌then◌else◌, Outcome, done, panicked,
  ◌>>=◌, ◌>>◌, assert, expect, Option, some, none,
}
use lading.Prelude.Map.{Map, get, insert, alter, map_values, keep}
use lading.Logrotate.File
use lading.Logrotate.File.{File}
use lading.Logrotate.State.{Node, file, directory}
use lading.Logrotate.Advance.{on_file, on_children, as_file}

-- A property of the value of a computation that does not panic.
abbrev pub Ensures {ℓ κ} : {A : Type ℓ} → (A → Type κ) → Outcome A → Type κ
Ensures P (done a) = P a
Ensures P panicked = Unit

pub Ensures-bind {ℓ κ μ ν} :
    {A : Type ℓ} {B : Type κ} (Q : A → Type μ) (P : B → Type ν) (m : Outcome A) (f : A → Outcome B)
    → Ensures Q m
    → ((a : A) → Q a → Ensures P (f a))
    → Ensures P (m >>= f)
Ensures-bind Q P (done a) f h k = k a h
Ensures-bind Q P panicked f h k = tt

pub Ensures-assert {κ ν} :
    {B : Type κ} (P : B → Type ν) (b : Bool) (m : Outcome B)
    → Ensures P m
    → Ensures P (assert b >> m)
Ensures-assert P true m h = h
Ensures-assert P false m h = tt

pub Ensures-if {κ ν} :
    {B : Type κ} (P : B → Type ν) (b : Bool) (m n : Outcome B)
    → Ensures P m
    → Ensures P n
    → Ensures P (if b then m else n)
Ensures-if P true m n h k = h
Ensures-if P false m n h k = k

-- the same, where the branches may use the test
pub Ensures-test {κ ν} :
    {B : Type κ} (P : B → Type ν) (b : Bool) (m n : Outcome B)
    → (b ≡ true → Ensures P m)
    → (b ≡ false → Ensures P n)
    → Ensures P (if b then m else n)
Ensures-test P true m n h k = h refl
Ensures-test P false m n h k = k refl

pub Ensures-any {κ} : {A : Type κ} (m : Outcome A) → Ensures (λ _. Unit {0}) m
Ensures-any (done a) = tt
Ensures-any panicked = tt

abbrev pub NodeHas : (File → Type 0) → Node → Type 0
NodeHas P (file f) = P f
NodeHas P (directory name d) = Unit

abbrev pub FoundHas : (File → Type 0) → Option Node → Type 0
FoundHas P none = Unit
FoundHas P (some n) = NodeHas P n

-- of every entry of the map
abbrev pub Every : (File → Type 0) → Map Node → Type 0
Every P [] = Unit
Every P (entry ∷ nodes) = NodeHas P entry.1 × Every P nodes

-- What time and rotation do to a file, and a file that is new.
pub record Closed (P : File → Type 0) : Type 0 where
  pub advances : (f : File) (now : ℕ) → P f → P (File.advance_time f now)
  pub unlinks : (f : File) (now : ℕ) → P f → P (File.unlink f now)
  pub rises : (f : File) → P f → P (File.incr_ordinal f)
  pub freezes : (f : File) (now : ℕ) → P f → P (File.set_read_only f now)
  pub loses_peer : (f : File) → P f → P (record f { peer = none })
  pub rated : (f : File) (r : ℕ) → P f → P (record f { bytes_per_tick = r })
  pub begins : (parent group r now : ℕ) (p : Option ℕ) → P (File.new parent group r now p)

module _ (P : File → Type 0) where
  pub Every-insert :
      (nodes : Map Node) (i : ℕ) (n : Node)
      → Every P nodes
      → NodeHas P n
      → Every P (insert nodes i n)
  unfolding insert
  Every-insert [] i n h k = (k, tt)
  Every-insert (entry ∷ nodes) i n h k = ground (arith, Every-insert nodes i n h.1 k)

  pub Every-alter :
      (nodes : Map Node) (i : ℕ) (g : Node → Node)
      → Every P nodes
      → ((n : Node) → NodeHas P n → NodeHas P (g n))
      → Every P (alter nodes i g)
  unfolding alter
  Every-alter [] i g h k = tt
  Every-alter (entry ∷ nodes) i g h k = ground (arith, Every-alter nodes i g h.1 k, k entry.1 h.0)

  pub Every-map_values :
      (nodes : Map Node) (g : Node → Node)
      → Every P nodes
      → ((n : Node) → NodeHas P n → NodeHas P (g n))
      → Every P (map_values nodes g)
  unfolding map_values
  Every-map_values [] g h k = tt
  Every-map_values (entry ∷ nodes) g h k = (k entry.1 h.0, Every-map_values nodes g h.1 k)

  pub Every-keep :
      (nodes : Map Node) (test : Node → Bool) → Every P nodes → Every P (keep nodes test)
  unfolding keep
  Every-keep [] test h = tt
  Every-keep (entry ∷ nodes) test h = ground (arith, Every-keep nodes test h.1)

  pub Every-get : (nodes : Map Node) (i : ℕ) → Every P nodes → FoundHas P (get nodes i)
  unfolding get
  Every-get [] i h = tt
  Every-get (entry ∷ nodes) i h = ground (arith, Every-get nodes i h.1)

  pub on_file-NodeHas :
      (g : File → File) (n : Node)
      → ((f : File) → P f → P (g f))
      → NodeHas P n
      → NodeHas P (on_file g n)
  unfolding on_file
  on_file-NodeHas g (file f) k h = k f h
  on_file-NodeHas g (directory name d) k h = tt

  pub on_children-NodeHas :
      (g : List ℕ → List ℕ) (n : Node) → NodeHas P n → NodeHas P (on_children g n)
  unfolding on_children
  on_children-NodeHas g (file f) h = h
  on_children-NodeHas g (directory name d) h = tt

  pub expect-NodeHas : (o : Option Node) → FoundHas P o → Ensures (NodeHas P) (expect o)
  expect-NodeHas none h = tt
  expect-NodeHas (some n) h = h

  pub as_file-has : (n : Node) → NodeHas P n → Ensures P (as_file n)
  unfolding as_file
  as_file-has (file f) h = h
  as_file-has (directory name d) h = tt
