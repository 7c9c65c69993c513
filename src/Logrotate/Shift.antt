-- ===== src/Logrotate/Shift.antt =====
-- The loop along the peers of a rotated file: `shift`, with its rounds and its end.
use lading.Prelude.{
  le→not-ltb, ltb→lt, ℕ, zero, suc, ◌+◌, ◌-◌, ◌≤◌, ◌<◌, ◌≡◌, ◌≢◌, refl, ◌∙◌, List, [], ◌∷◌,
  Bool-cases, inl, inr, ltb, arith, length, take, Outcome, done, Option, some, none, lt→ltb,
  not-ltb→le,
}
use lading.Prelude.Map.{Map, get, insert, alter, get-insert, get-alter}
use lading.Logrotate.File
use lading.Logrotate.File.{File}
use lading.Logrotate.State.{Node, file, remove_child}
use lading.Logrotate.Advance.{on_file, on_children, as_file, is_none, cut, follow, shift}
use lading.Logrotate.Chain.{
  HasFile, Chain, Unique, Keeps, insert-Keeps, insert-Chain, Keeps-HasFile, alter_child-Keeps,
}

cut_lem :
    (nodes : Map Node) (now parent current prev o : ℕ) (p : Option ℕ)
    → prev ≢ current
    → HasFile nodes prev o p
    → (nodes' : Map Node) × (cut nodes now parent current prev ≡ done nodes')
      × HasFile nodes' prev o none
      × Keeps (prev ∷ current ∷ []) nodes nodes'
unfolding cut on_file
cut_lem nodes now parent current prev o p d h =
    let nodes1 = alter nodes parent (on_children (remove_child current)) in
    let nodes2 = alter nodes1 current (on_file (λ f. File.unlink f now)) in
    let e1 : get nodes1 prev ≡ some (file h.found) =
      alter_child-Keeps nodes parent (remove_child current) prev h.found tt h.is_there in
    let e2 : get nodes2 prev ≡ some (file h.found) =
      ground (arith, get-alter prev nodes1 current (on_file (λ f. File.unlink f now)), e1, d) in
    let last : File = record h.found { peer = none } in
    (
      insert nodes2 prev (file last),
      rw e2 refl,
      record {
        found = last;
        is_there = ground (arith, get-insert prev nodes2 prev (file last));
        ordinal = h.ordinal;
        next = refl;
        linked = h.linked;
      },
      λ j f a e. ground (
        arith,
        get-insert j nodes2 prev (file last),
        get-alter j nodes1 current (on_file (λ g. File.unlink g now)),
        alter_child-Keeps nodes parent (remove_child current) j f tt e,
        a,
      ),
    )

-- The loop along the peers of `current`, before which stands `prev`.
pub record Shifted (nodes : Map Node) (m o prev : ℕ) (is : List ℕ) (r : Outcome (Map Node))
    : Type 0 where
  pub nodes' : Map Node
  pub result : r ≡ done nodes'
  pub chain : Chain nodes' o (prev ∷ take (m - o) is)
  pub keeps : Keeps (prev ∷ is) nodes nodes'

incr_ordinal-ordinal :
    (f : File) (o : ℕ) → f.ordinal ≡ o → o < 255 → (File.incr_ordinal f).ordinal ≡ o + 1
unfolding File.incr_ordinal
incr_ordinal-ordinal f o e l = omega (arith, e)

incr_ordinal-peer : (f : File) → (File.incr_ordinal f).peer ≡ f.peer
unfolding File.incr_ordinal
incr_ordinal-peer f = refl

incr_ordinal-unlinked : (f : File) → (File.incr_ordinal f).unlinked ≡ f.unlinked
unfolding File.incr_ordinal
incr_ordinal-unlinked f = refl

-- the file of an inode after its ordinal has gone up
risen :
    (nodes : Map Node) (i o : ℕ) (p : Option ℕ) (h : HasFile nodes i o p)
    → o < 255
    → HasFile (insert nodes i (file (File.incr_ordinal h.found))) i (o + 1) p
risen nodes i o p h l = record {
  found = File.incr_ordinal h.found;
  is_there = ground (arith, get-insert i nodes i (file (File.incr_ordinal h.found)));
  ordinal = incr_ordinal-ordinal h.found o h.ordinal l;
  next = incr_ordinal-peer h.found ∙ h.next;
  linked = incr_ordinal-unlinked h.found ∙ h.linked;
}

-- A round in which the current file falls off the end.
follow-cut :
    (again : ℕ → Outcome (Map Node)) (nodes : Map Node) (now m parent current prev o : ℕ) (f : File)
    (p : Option ℕ)
    → m < f.ordinal
    → f.peer ≡ none
    → m ≤ o
    → prev ≢ current
    → HasFile nodes prev o p
    → Shifted nodes m o prev (current ∷ []) (follow again nodes now m parent current prev f)
unfolding follow is_none
follow-cut again nodes now m parent current prev o f p l e k d h =
    let (nodes', r, g, keeps) = cut_lem nodes now parent current prev o p d h in
    let z : m - o ≡ 0 = omega arith in
    record {
      nodes' = nodes';
      result = rw (lt→ltb m f.ordinal l, e) r;
      chain = rw z (g, tt);
      keeps = keeps;
    }

take_nil : (n : ℕ) → take {A = ℕ} n [] ≡ []
take_nil zero = refl
take_nil (suc n) = refl

follow-last :
    (again : ℕ → Outcome (Map Node)) (nodes : Map Node) (now m parent current prev : ℕ) (f : File)
    → f.ordinal ≤ m
    → f.peer ≡ none
    → follow again nodes now m parent current prev f ≡ done nodes
unfolding follow
follow-last again nodes now m parent current prev f l e = rw (le→not-ltb m f.ordinal l, e) refl

follow-next :
    (again : ℕ → Outcome (Map Node)) (nodes : Map Node) (now m parent current prev next : ℕ)
    (f : File)
    → f.ordinal ≤ m
    → f.peer ≡ some next
    → follow again nodes now m parent current prev f ≡ again next
unfolding follow
follow-next again nodes now m parent current prev next f l e = rw (le→not-ltb m f.ordinal l, e) refl

shift_round :
    (fuel : ℕ) (nodes : Map Node) (now m parent current prev : ℕ) (f : File)
    → get nodes current ≡ some (file f)
    → shift (suc fuel) nodes now m parent current prev
      ≡ follow
          (λ next.
            shift fuel
              (insert nodes current (file (File.incr_ordinal f)))
              now
              m
              parent
              next
              current)
          (insert nodes current (file (File.incr_ordinal f)))
          now
          m
          parent
          current
          prev
          (File.incr_ordinal f)
unfolding shift as_file
shift_round fuel nodes now m parent current prev f e = rw e refl

insert_before :
    (nodes : Map Node) (current : ℕ) (n : Node) (js : List ℕ) (nodes' : Map Node)
    → Keeps (current ∷ js) (insert nodes current n) nodes'
    → Keeps (current ∷ js) nodes nodes'
insert_before nodes current n js nodes' k j f a e =
    k j f a (insert-Keeps nodes current n j f (a.0, tt) e)

-- the loop on the last file of a chain
shift_last :
    (fuel : ℕ) (nodes : Map Node) (now m parent prev o current : ℕ)
    → o ≤ m
    → m < 255
    → prev ≢ current
    → HasFile nodes prev o (some current)
    → HasFile nodes current o none
    → Shifted nodes m o prev (current ∷ []) (shift (suc fuel) nodes now m parent current prev)
shift_last fuel nodes now m parent prev o current l u d before this =
    let f' : File = File.incr_ordinal this.found in
    let nodes1 = insert nodes current (file f') in
    let this' = risen nodes current o none this (omega (arith, l, u)) in
    let up : f'.ordinal ≡ o + 1 =
      incr_ordinal-ordinal this.found o this.ordinal (omega (arith, l, u)) in
    let end : f'.peer ≡ none = incr_ordinal-peer this.found ∙ this.next in
    let before' : HasFile nodes1 prev o (some current) =
      Keeps-HasFile (current ∷ []) nodes nodes1 prev o (some current)
        (insert-Keeps nodes current (file f')) (d, tt) before in
    let again : ℕ → Outcome (Map Node) = λ next. shift fuel nodes1 now m parent next current in
    rw (shift_round fuel nodes now m parent current prev this.found this.is_there)
      (elim (Bool-cases (ltb m (o + 1))) [
        | inl over ↦
            let k : m < o + 1 = ltb→lt m (o + 1) over in
            let s =
              follow-cut again nodes1 now m parent current prev o f' (some current)
                (omega (arith, up, k)) end (omega (arith, k)) d before' in
            record {
              nodes' = s.nodes';
              result = s.result;
              chain = s.chain;
              keeps = λ j f a e. s.keeps j f a (insert-Keeps nodes current (file f') j f a.1 e);
            }
        | inr under ↦
            let k : o + 1 ≤ m = not-ltb→le m (o + 1) under in
            let z : m - o ≡ suc (m - (o + 1)) = omega (arith, k) in
            record {
              nodes' = nodes1;
              result =
                  follow-last again nodes1 now m parent current prev f' (omega (arith, up, k)) end;
              chain = rw z (before', rw (take_nil (m - (o + 1))) (this', tt));
              keeps = λ j f a e. insert-Keeps nodes current (file f') j f a.1 e;
            }
      ])

-- The loop along a chain, each of whose files has the ordinal of its place.
pub shift-Shifted :
    (fuel : ℕ) (nodes : Map Node) (now m parent prev o current : ℕ) (is : List ℕ)
    → length (current ∷ is) ≤ fuel
    → o + length (current ∷ is) ≤ m + 1
    → m < 255
    → Unique (prev ∷ current ∷ is)
    → HasFile nodes prev o (some current)
    → Chain nodes o (current ∷ is)
    → Shifted nodes m o prev (current ∷ is) (shift fuel nodes now m parent current prev)
shift-Shifted zero nodes now m parent prev o current is h l u d before c = absurd (omega (arith, h))
shift-Shifted (suc fuel) nodes now m parent prev o current [] h l u d before c =
    shift_last fuel nodes now m parent prev o current (omega (arith, l)) u d.0.0 before c.0
shift-Shifted (suc fuel) nodes now m parent prev o current (i ∷ is) h l u d before c =
    let this = c.0 in
    let f' : File = File.incr_ordinal this.found in
    let nodes1 = insert nodes current (file f') in
    let this' = risen nodes current o (some i) this (omega (arith, u, l)) in
    let up : f'.ordinal ≡ o + 1 =
      incr_ordinal-ordinal this.found o this.ordinal (omega (arith, u, l)) in
    let next : f'.peer ≡ some i = incr_ordinal-peer this.found ∙ this.next in
    let before' : HasFile nodes1 prev o (some current) =
      Keeps-HasFile (current ∷ []) nodes nodes1 prev o (some current)
        (insert-Keeps nodes current (file f')) (d.0.0, tt) before in
    let s =
      shift-Shifted fuel nodes1 now m parent current (o + 1) i is (omega (arith, h))
        (omega (arith, l)) u d.1 this'
        (insert-Chain nodes current (file f') (o + 1) (i ∷ is) d.1.0 c.1) in
    let z : m - o ≡ suc (m - (o + 1)) = omega (arith, l) in
    record {
      nodes' = s.nodes';
      result =
          shift_round fuel nodes now m parent current prev this.found this.is_there
          ∙ follow-next (λ next. shift fuel nodes1 now m parent next current) nodes1 now m parent
              current prev i f' (omega (arith, up, l)) next
          ∙ s.result;
      chain = rw z (
        Keeps-HasFile (current ∷ i ∷ is) nodes1 s.nodes' prev o (some current) s.keeps d.0 before',
        s.chain,
      );
      keeps = λ j f a e. insert_before nodes current (file f') (i ∷ is) s.nodes' s.keeps j f a.1 e;
    }
