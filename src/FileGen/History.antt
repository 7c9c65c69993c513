-- ===== src/FileGen/History.antt =====
-- The history of a rotated log, of which the files on the disk are the latest part.
use lading.Prelude.{
  ℕ, true, false, zero, suc, ◌+◌, ◌≤◌, ◌<◌, ◌≡◌, sym, ap, ◌∙◌, List, [], ◌∷◌, ◌++◌, Option, some,
  none, All, arith, Text, length, length-append, ltb, if◌then◌else◌, append_assoc, append_nil,
  Bool-cases, inl, inr, if-true, if-false,
}
use lading.Block.Cache.{Block}

-- All logs that were ever written: the one that is written, and those that were closed, the latest
-- one first.
pub record History : Type 0 where
  pub current : Text
  pub closed : List Text

-- The bytes of a block go to the current log, which is closed once it has more than a maximum.
unfoldable pub record_block : ℕ → Text → History → History
record_block maximum bytes h =
    if ltb maximum (length (h.current ++ bytes))
    then record { current = []; closed = (h.current ++ bytes) ∷ h.closed }
    else record { current = h.current ++ bytes; closed = h.closed }

unfoldable pub record_blocks : ℕ → List Block → History → History
unfolding record_block
record_blocks maximum [] h = h
record_blocks maximum (blk ∷ blks) h = record_blocks maximum blks (record_block maximum blk.bytes h)

abbrev pub no_history : History
no_history = record { current = []; closed = [] }

-- the latest so many of some logs, with none where there are not so many
abbrev pub latest : ℕ → List Text → List (Option Text)
latest zero logs = []
latest (suc n) [] = none ∷ latest n []
latest (suc n) (log ∷ logs) = some log ∷ latest n logs

-- all bytes of a history, in the order in which they were written
abbrev pub all_bytes : List Text → Text
all_bytes [] = []
all_bytes (log ∷ logs) = all_bytes logs ++ log

abbrev pub bytes_of : List Block → Text
bytes_of [] = []
bytes_of (blk ∷ blks) = blk.bytes ++ bytes_of blks

-- A closed log has more than the maximum, but by less than a block.
abbrev pub IsClosed : ℕ → ℕ → Text → Type 0
IsClosed maximum block log = (maximum < length log) × (length log ≤ maximum + block)

-- The logs are within the bounds for blocks of at most so many bytes.
abbrev pub IsBounded : ℕ → ℕ → History → Type 0
IsBounded maximum block h = (length h.current ≤ maximum) × All (IsClosed maximum block) h.closed

record_block-IsBounded :
    (maximum block : ℕ) (bytes : Text) (h : History)
    → length bytes ≤ block
    → IsBounded maximum block h
    → IsBounded maximum block (record_block maximum bytes h)
unfolding record_block
record_block-IsBounded maximum block bytes h k b =
    ground (arith, length-append h.current bytes, k, b.0, b.1)

pub record_block_full :
    (maximum : ℕ) (bytes : Text) (h : History)
    → ltb maximum (length (h.current ++ bytes)) ≡ true
    → record_block maximum bytes h
      ≡ record { current = []; closed = (h.current ++ bytes) ∷ h.closed }
unfolding record_block
record_block_full maximum bytes h e = if-true (ltb maximum (length (h.current ++ bytes))) _ _ e

pub record_block_room :
    (maximum : ℕ) (bytes : Text) (h : History)
    → ltb maximum (length (h.current ++ bytes)) ≡ false
    → record_block maximum bytes h ≡ record { current = h.current ++ bytes; closed = h.closed }
unfolding record_block
record_block_room maximum bytes h e = if-false (ltb maximum (length (h.current ++ bytes))) _ _ e

record_block-all_bytes :
    (maximum : ℕ) (bytes : Text) (h : History)
    → all_bytes ((record_block maximum bytes h).current ∷ (record_block maximum bytes h).closed)
      ≡ all_bytes (h.current ∷ h.closed) ++ bytes
record_block-all_bytes maximum bytes h =
    elim (Bool-cases (ltb maximum (length (h.current ++ bytes)))) [
      | inl e ↦
          ap (λ (x : History). all_bytes (x.current ∷ x.closed))
            (record_block_full maximum bytes h e)
          ∙ append_nil (all_bytes h.closed ++ (h.current ++ bytes))
          ∙ sym (append_assoc (all_bytes h.closed) h.current bytes)
      | inr e ↦
          ap (λ (x : History). all_bytes (x.current ∷ x.closed))
            (record_block_room maximum bytes h e)
          ∙ sym (append_assoc (all_bytes h.closed) h.current bytes)
    ]

-- Each block has at most so many bytes.
abbrev pub AreSmall : ℕ → List Block → Type 0
AreSmall block blks = All (λ (blk : Block). length blk.bytes ≤ block) blks

pub record_blocks-IsBounded :
    (maximum block : ℕ) (blks : List Block) (h : History)
    → AreSmall block blks
    → IsBounded maximum block h
    → IsBounded maximum block (record_blocks maximum blks h)
unfolding record_blocks
record_blocks-IsBounded maximum block [] h k b = b
record_blocks-IsBounded maximum block (blk ∷ blks) h k b =
    record_blocks-IsBounded maximum block blks (record_block maximum blk.bytes h) k.1
      (record_block-IsBounded maximum block blk.bytes h k.0 b)

pub record_blocks-all_bytes :
    (maximum : ℕ) (blks : List Block) (h : History)
    → all_bytes ((record_blocks maximum blks h).current ∷ (record_blocks maximum blks h).closed)
      ≡ all_bytes (h.current ∷ h.closed) ++ bytes_of blks
unfolding record_blocks
record_blocks-all_bytes maximum [] h = sym (append_nil (all_bytes (h.current ∷ h.closed)))
record_blocks-all_bytes maximum (blk ∷ blks) h =
    record_blocks-all_bytes maximum blks (record_block maximum blk.bytes h)
    ∙ ap (λ (t : Text). t ++ bytes_of blks) (record_block-all_bytes maximum blk.bytes h)
    ∙ append_assoc (all_bytes (h.current ∷ h.closed)) blk.bytes (bytes_of blks)
