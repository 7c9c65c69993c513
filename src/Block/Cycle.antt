-- ===== src/Block/Cycle.antt =====
-- `read_at` reads the endless repetition of the cache's bytes.
use mathlib.Core.List.{append-nil, append_assoc}
use native.Mathlib.Nat.{mod-add-mod, mod-eq_of_lt, mod-lt}
use lading.Prelude.{
  ℕ, zero, suc, ◌+◌, ◌-◌, ◌%◌, ◌^◌, ◌≤◌, ◌<◌, ◌≡◌, refl, sym, ap, subst, ◌∙◌, List, [], ◌∷◌, ◌++◌,
  ◌&&◌, false, true, Bool-cases, inl, inr, done, leb, ltb, some, arith, length, get_elem?, All,
  length-append, get_elem?-append_left, get_elem?-append_right, lt→ltb, ltb→lt, not-ltb→le,
}
use lading.Block.Cache.{Block, Cache}
use lading.Block.Read.{Walk, seek, read_loop, read_at}
use lading.Block.Seek.{BlockIsValid, sizes, one_cycle, IsValid, WalkIsValid, seek_lem}

-- The list holds `n` bytes of the endless repetition of `xs`, from the place `from` on.
abbrev pub Repeats : List ℕ → ℕ → ℕ → List ℕ → Type 0
Repeats xs from n out =
    (length out ≡ n) × ((i : ℕ) → i < n → get_elem? out i ≡ get_elem? xs ((from + i) % length xs))

length-one_cycle :
    (blocks : List Block) → All BlockIsValid blocks → length (one_cycle blocks) ≡ sizes blocks
length-one_cycle [] v = refl
length-one_cycle (b ∷ blocks) v =
    omega (arith, length-append b.bytes (one_cycle blocks), length-one_cycle blocks v.1, v.0)

-- Within one turn the place moves along with the offset.
mod_within : (from i n : ℕ) → from % n + i < n → (from + i) % n ≡ from % n + i
mod_within from i n h = sym (mod-add-mod from n i) ∙ mod-eq_of_lt h

mod_after : (from k i n : ℕ) → (from + k + i) % n ≡ (from + (k + i)) % n
mod_after from k i n = ap (λ x. x % n) (omega arith)

get_elem?-append {ℓ} :
    {A : Type ℓ} (xs ys : List A) (i : ℕ)
    → length xs ≤ i
    → get_elem? (xs ++ ys) i ≡ get_elem? ys (i - length xs)
get_elem?-append xs ys i h =
    ap (get_elem? (xs ++ ys)) (omega arith) ∙ get_elem?-append_right xs ys (i - length xs)

Repeats-append :
    (xs : List ℕ) (from k n : ℕ) (first rest : List ℕ)
    → Repeats xs from k first
    → Repeats xs (from + k) n rest
    → Repeats xs from (k + n) (first ++ rest)
Repeats-append xs from k n first rest f r = (omega (arith, length-append first rest, f.0, r.0), at)
  where
    at : (i : ℕ) → i < k + n → get_elem? (first ++ rest) i ≡ get_elem? xs ((from + i) % length xs)
    at i l = elim (Bool-cases (ltb i k)) [
      | inl e ↦
          get_elem?-append_left first rest i (omega (arith, ltb→lt i k e, f.0))
          ∙ f.1 i (ltb→lt i k e)
      | inr e ↦
          let past : k ≤ i = not-ltb→le i k e in
          get_elem?-append first rest i (omega (arith, f.0))
          ∙ ap (get_elem? rest) (omega (arith, f.0))
          ∙ r.1 (i - k) (omega arith)
          ∙ ap (λ x. get_elem? xs (x % length xs)) (omega arith)
    ]

no_break : (n total start : ℕ) → start < total → (ltb 0 n && leb total start) ≡ false
no_break n total start h = ground arith

first_bytes :
    (blocks : List Block) (current remaining : ℕ) (w : Walk)
    → All BlockIsValid blocks
    → WalkIsValid (one_cycle blocks) (current % sizes blocks) 0 (0 + sizes blocks) remaining w
    → Repeats (one_cycle blocks) current w.count w.bytes
first_bytes blocks current remaining w v k = rw (length-one_cycle blocks v) (
  k.counted,
  λ i l.
      k.bytes_at i l
      ∙ ap (get_elem? (one_cycle blocks))
          (omega (arith, mod_within current i (sizes blocks) (omega (arith, k.inside)))),
)

abbrev LoopReads : ℕ → List Block → ℕ → ℕ → List ℕ → Type 0
LoopReads fuel blocks remaining current bytes =
    (out : List ℕ) × (read_loop fuel blocks (sizes blocks) remaining current bytes
      ≡ done (some (bytes ++ out)))
    × Repeats (one_cycle blocks) current remaining out

round_lem :
    (fuel : ℕ) (blocks : List Block) (remaining current : ℕ) (bytes out : List ℕ) (w : Walk)
    → ltb 0 remaining ≡ true
    → 0 < sizes blocks
    → seek blocks (current % sizes blocks) 0 remaining ≡ done w
    → w.block_start < sizes blocks
    → (current + w.count) % 2 ^ 64 ≡ current + w.count
    → read_loop fuel blocks
        (sizes blocks)
        (remaining - w.count)
        (current + w.count)
        (bytes ++ w.bytes)
      ≡ done (some ((bytes ++ w.bytes) ++ out))
    → read_loop (suc fuel) blocks (sizes blocks) remaining current bytes
      ≡ done (some (bytes ++ (w.bytes ++ out)))
unfolding read_loop
round_lem fuel blocks remaining current bytes out w e p s before wrap r =
    rw
      (
        e,
        lt→ltb _ _ p,
        s,
        no_break (remaining - w.count) (sizes blocks) w.block_start before,
        wrap,
        r,
      )
      (rw append_assoc)

read_loop_lem :
    (fuel : ℕ) (blocks : List Block) (remaining current : ℕ) (bytes : List ℕ)
    → All BlockIsValid blocks
    → 0 < sizes blocks
    → current + remaining < 2 ^ 64
    → remaining < fuel
    → LoopReads fuel blocks remaining current bytes
unfolding read_loop
read_loop_lem zero blocks remaining current bytes v p h f = absurd (omega arith)
read_loop_lem (suc fuel) blocks remaining current bytes v p h f =
    elim (Bool-cases (ltb 0 remaining)) [
      | inr e ↦ (
        [],
        rw (e, append-nil),
        (omega (arith, not-ltb→le _ _ e), λ i l. absurd (omega (arith, not-ltb→le _ _ e))),
      )
      | inl e ↦
          let (w, s, k) =
            seek_lem blocks (current % sizes blocks) 0 remaining v (omega arith)
              (omega (arith, mod-lt current p)) (ltb→lt _ _ e) in
          let wrap : (current + w.count) % 2 ^ 64 ≡ current + w.count =
            mod-eq_of_lt (omega (arith, k.within)) in
          let (out, r, o) =
            read_loop_lem fuel blocks (remaining - w.count) (current + w.count) (bytes ++ w.bytes) v
              p (omega (arith, k.within)) (omega (arith, k.within, k.progress)) in
          (
            w.bytes ++ out,
            round_lem fuel blocks remaining current bytes out w e p s (omega (arith, k.before)) wrap
                r,
            subst (λ n. Repeats (one_cycle blocks) current n (w.bytes ++ out))
                (omega (arith, k.within))
                (Repeats-append (one_cycle blocks) current w.count (remaining - w.count) w.bytes out
                  (first_bytes blocks current remaining w v k) o),
          )
    ]

-- From a valid cache of at least one byte, a read of any size at any offset, with the offset's end
-- inside a machine word, returns without a panic exactly `size` bytes, with fuel for one round more
-- than bytes; the `i`th of them is byte `offset + i` of the endless repetition of the cache's bytes.
pub read_at-Repeats :
    (c : Cache) (offset size : ℕ)
    → IsValid c
    → 0 < c.total_cycle_size
    → offset + size < 2 ^ 64
    → (out : List ℕ) × (read_at (suc size) c offset size ≡ done (some out))
      × Repeats (one_cycle c.blocks) offset size out
unfolding read_at
read_at-Repeats c offset size v p h = rw v.total_size (
    read_loop_lem (suc size) c.blocks size offset [] v.blocks_valid (omega (arith, v.total_size)) h
      (omega arith))
