-- ===== src/Logrotate/Chain.antt =====
-- The peers of a group of files: a chain from the file that is written to its oldest rotation.
use lading.Prelude.{ℕ, ◌+◌, ◌≡◌, ◌≢◌, sym, List, [], ◌∷◌, false, arith, Option, some, none}
use lading.Prelude.Map.{Map, get, insert, alter, get-insert, get-alter}
use lading.Logrotate.File.{File}
use lading.Logrotate.State.{Node, file}
use lading.Logrotate.Advance.{on_children}

abbrev pub head : List ℕ → Option ℕ
head [] = none
head (i ∷ is) = some i

-- An inode is a file that has its name, with an ordinal and a next peer.
pub record HasFile (nodes : Map Node) (i o : ℕ) (peer : Option ℕ) : Type 0 where
  pub found : File
  pub is_there : get nodes i ≡ some (file found)
  pub ordinal : found.ordinal ≡ o
  pub next : found.peer ≡ peer
  pub linked : found.unlinked ≡ false

-- The files of a list of inodes, with rising ordinals and each with the next one as its peer.
abbrev pub Chain : Map Node → ℕ → List ℕ → Type 0
Chain nodes o [] = Unit {0}
Chain nodes o (i ∷ is) = HasFile nodes i o (head is) × Chain nodes (o + 1) is

abbrev pub Apart : ℕ → List ℕ → Type 0
Apart j [] = Unit {0}
Apart j (i ∷ is) = (j ≢ i) × Apart j is

abbrev pub Unique : List ℕ → Type 0
Unique [] = Unit {0}
Unique (i ∷ is) = Apart i is × Unique is

-- The files of all inodes that are not in a list are what they were.
abbrev pub Keeps : List ℕ → Map Node → Map Node → Type 0
Keeps is nodes nodes' =
    (j : ℕ) (f : File) → Apart j is → get nodes j ≡ some (file f) → get nodes' j ≡ some (file f)

pub insert-Keeps : (nodes : Map Node) (i : ℕ) (n : Node) → Keeps (i ∷ []) nodes (insert nodes i n)
insert-Keeps nodes i n j f a e = ground (arith, get-insert j nodes i n)

pub Keeps-HasFile :
    (js : List ℕ) (nodes nodes' : Map Node) (i o : ℕ) (p : Option ℕ)
    → Keeps js nodes nodes'
    → Apart i js
    → HasFile nodes i o p
    → HasFile nodes' i o p
Keeps-HasFile js nodes nodes' i o p k a h = record {
  found = h.found;
  is_there = k i h.found a h.is_there;
  ordinal = h.ordinal;
  next = h.next;
  linked = h.linked;
}

pub insert-Chain :
    (nodes : Map Node) (i : ℕ) (n : Node) (o : ℕ) (is : List ℕ)
    → Apart i is
    → Chain nodes o is
    → Chain (insert nodes i n) o is
insert-Chain nodes i n o [] a c = tt
insert-Chain nodes i n o (j ∷ js) a c = (
  Keeps-HasFile (i ∷ []) nodes (insert nodes i n) j o (head js) (insert-Keeps nodes i n)
      (λ e. a.0 (sym e), tt) c.0,
  insert-Chain nodes i n (o + 1) js a.1 c.1,
)

pub alter_child-Keeps :
    (nodes : Map Node) (parent : ℕ) (g : List ℕ → List ℕ)
    → Keeps [] nodes (alter nodes parent (on_children g))
unfolding on_children
alter_child-Keeps nodes parent g j f a e =
    ground (arith, get-alter j nodes parent (on_children g), e)
