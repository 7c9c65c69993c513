-- ===== src/FileGen/Written.antt =====
-- The files of a child hold the latest logs of its history.
use lading.Prelude.{
  ℕ, zero, suc, ◌+◌, ◌≤◌, ◌≡◌, refl, sym, ap, subst, ◌∙◌, List, [], ◌∷◌, ◌++◌, Option, some, none,
  done, All, arith, Text, length, length-append, take, drop, ltb, append_nil, Bool-cases, inl, inr,
  if-true, if-false,
}
use lading.Prelude.Names.{lookup, put}
use lading.Block.Cache.{Block}
use lading.FileGen.Disk.{Disk, open_truncated, write_over, write_at}
use lading.FileGen.Child.{Writing, rotate, append_block, write_bytes, write_blocks, spin}
use lading.FileGen.Shift.{
  AreDistinct, contents, head, tail, drop_last, contents-put, contents-rotated,
}
use lading.FileGen.History.{
  History, record_block, record_blocks, record_block_full, record_block_room, latest,
}

take_all : (xs : Text) → take (length xs) xs ≡ xs
take_all [] = refl
take_all (x ∷ xs) = ap (λ (t : Text). x ∷ t) (take_all xs)

drop_all : (n : ℕ) (xs : Text) → length xs ≤ n → drop n xs ≡ []
drop_all zero [] h = refl
drop_all zero (x ∷ xs) h = absurd (omega (arith, h))
drop_all (suc n) [] h = refl
drop_all (suc n) (x ∷ xs) h = drop_all n xs (omega (arith, h))

-- Bytes at the end of a text are appended.
write_over_end :
    (content bytes : Text) → write_over content (length content) bytes ≡ content ++ bytes
unfolding write_over
write_over_end content bytes =
    ap (λ (t : Text). t ++ (bytes ++ drop (length content + length bytes) content))
      (take_all content)
    ∙ ap (λ (t : Text). content ++ (bytes ++ t))
        (drop_all (length content + length bytes) content (omega arith))
    ∙ ap (λ (t : Text). content ++ t) (append_nil bytes)

-- The latest of some logs without the last one.
drop_last-latest : (n : ℕ) (logs : List Text) → drop_last (latest (suc n) logs) ≡ latest n logs
drop_last-latest zero [] = refl
drop_last-latest zero (log ∷ logs) = refl
drop_last-latest (suc n) [] = ap (λ (l : List (Option Text)). none ∷ l) (drop_last-latest n [])
drop_last-latest (suc n) (log ∷ []) =
    ap (λ (l : List (Option Text)). some log ∷ l) (drop_last-latest n [])
drop_last-latest (suc n) (log ∷ other ∷ logs) =
    ap (λ (l : List (Option Text)). some log ∷ l) (drop_last-latest n (other ∷ logs))

-- Each block counts just the bytes that it has.
abbrev pub AreExact : List Block → Type 0
AreExact blks = All (λ (blk : Block). blk.total_bytes ≡ length blk.bytes) blks

-- What is on the disk is the latest part of a history, the current log of which is written at its end.
abbrev pub Represents : Text → List Text → Writing → History → Type 0
Represents name names w h =
    (contents w.disk (name ∷ names) ≡ some h.current ∷ latest (length names) h.closed)
    × (w.position ≡ length h.current)
    × (w.total_bytes_written ≡ length h.current)

write_at-some :
    (d : Disk) (name content : Text) (position : ℕ) (bytes : Text)
    → lookup d name ≡ some content
    → write_at d name position bytes ≡ put d name (write_over content position bytes)
unfolding write_at
write_at-some d name content position bytes h = rw (h, write_at) refl

append_block-Represents :
    (name : Text) (names : List Text) (blk : Block) (w : Writing) (h : History)
    → AreDistinct (name ∷ names)
    → blk.total_bytes ≡ length blk.bytes
    → Represents name names w h
    → Represents name names
        (append_block name blk w)
        (record { current = h.current ++ blk.bytes; closed = h.closed })
unfolding append_block
append_block-Represents name names blk w h k e r =
    let over : Text = write_over h.current w.position blk.bytes in
    let end : over ≡ h.current ++ blk.bytes =
      ap (λ (n : ℕ). write_over h.current n blk.bytes) r.1 ∙ write_over_end h.current blk.bytes in
    (
      ap (λ (d : Disk). contents d (name ∷ names))
            (write_at-some w.disk name h.current w.position blk.bytes (ap head r.0))
          ∙ contents-put w.disk name over names k.0
          ∙ cc (end, ap tail r.0),
      omega (arith, r.1, length-append h.current blk.bytes),
      omega (arith, r.2, e, length-append h.current blk.bytes),
    )

rotate-Represents :
    (name : Text) (names : List Text) (w : Writing) (h : History)
    → AreDistinct (name ∷ names)
    → Represents name names w h
    → Represents name names
        (rotate name names w)
        (record { current = []; closed = h.current ∷ h.closed })
unfolding rotate
rotate-Represents name names w h k r = (
  contents-rotated w.disk name names k
      ∙ ap (λ (l : List (Option Text)). some [] ∷ drop_last l) r.0
      ∙ ap (λ (l : List (Option Text)). some [] ∷ l)
          (drop_last-latest (length names) (h.current ∷ h.closed)),
  refl,
  refl,
)

write_bytes-Represents :
    (name : Text) (names : List Text) (maximum : ℕ) (blk : Block) (w : Writing) (h : History)
    → AreDistinct (name ∷ names)
    → blk.total_bytes ≡ length blk.bytes
    → Represents name names w h
    → Represents name names
        (write_bytes name names maximum blk w)
        (record_block maximum blk.bytes h)
unfolding write_bytes
write_bytes-Represents name names maximum blk w h k e r =
    let w' : Writing = append_block name blk w in
    let h' : History = record { current = h.current ++ blk.bytes; closed = h.closed } in
    let r' : Represents name names w' h' = append_block-Represents name names blk w h k e r in
    let same : ltb maximum w'.total_bytes_written ≡ ltb maximum (length (h.current ++ blk.bytes)) =
      ap (ltb maximum) r'.2 in
    elim (Bool-cases (ltb maximum (length (h.current ++ blk.bytes)))) [
      | inl e ↦
          subst (λ (x : Writing). Represents name names x (record_block maximum blk.bytes h))
            (sym
              (if-true (ltb maximum w'.total_bytes_written) (rotate name names w') w' (same ∙ e)))
            (subst (λ (x : History). Represents name names (rotate name names w') x)
              (sym (record_block_full maximum blk.bytes h e))
              (rotate-Represents name names w' h' k r'))
      | inr e ↦
          subst (λ (x : Writing). Represents name names x (record_block maximum blk.bytes h))
            (sym
              (if-false (ltb maximum w'.total_bytes_written) (rotate name names w') w' (same ∙ e)))
            (subst (λ (x : History). Represents name names w' x)
              (sym (record_block_room maximum blk.bytes h e)) r')
    ]

write_blocks-Represents :
    (name : Text) (names : List Text) (maximum : ℕ) (blks : List Block) (w : Writing) (h : History)
    → AreDistinct (name ∷ names)
    → AreExact blks
    → Represents name names w h
    → Represents name names (write_blocks name names maximum blks w) (record_blocks maximum blks h)
unfolding write_blocks record_blocks
write_blocks-Represents name names maximum [] w h k e r = r
write_blocks-Represents name names maximum (blk ∷ blks) w h k e r =
    write_blocks-Represents name names maximum blks (write_bytes name names maximum blk w)
      (record_block maximum blk.bytes h) k e.1
      (write_bytes-Represents name names maximum blk w h k e.0 r)

-- From a disk on which the rotated names have some old logs, the latest first, with no gap: `spin`
-- with at least one name does not panic, and after the blocks that it has written the names have the
-- current log and the latest closed logs of the history, old logs included.
pub spin-Represents :
    (name : Text) (names : List Text) (maximum : ℕ) (disk : Disk) (old : List Text)
    (blks : List Block)
    → AreDistinct (name ∷ names)
    → AreExact blks
    → contents disk names ≡ latest (length names) old
    → (w : Writing) × (spin (name ∷ names) maximum disk blks ≡ done w)
      × Represents name names w (record_blocks maximum blks (record { current = []; closed = old }))
unfolding spin open_truncated
spin-Represents name names maximum disk old blks k e c =
    let start : Writing = record {
      disk = put disk name [];
      position = 0;
      total_bytes_written = 0;
    } in
    let h : History = record { current = []; closed = old } in
    let r : Represents name names start h = (
      contents-put disk name [] names k.0 ∙ ap (λ (l : List (Option Text)). some [] ∷ l) c,
      refl,
      refl,
    ) in
    (
      write_blocks name names maximum blks start,
      refl,
      write_blocks-Represents name names maximum blks start h k e r,
    )
