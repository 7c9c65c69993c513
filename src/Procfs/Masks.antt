-- ===== src/Procfs/Masks.antt =====
-- procfs.rs: the types of the fields of `Status`, drawn and written.
use lading.Prelude.{
  ℕ, suc, ◌-◌, ◌/◌, ◌^◌, List, [], ◌∷◌, ◌++◌, Bool, true, false, map, Text, codes, decimal, digits,
  digit_char,
}
use lading.Procfs.Numbers.{ℤ, signed, pad, Standard, Draw, choice}

-- `join` of texts by a separator
unfoldable pub join : ℕ → List Text → Text
join separator [] = []
join separator (text ∷ []) = text
join separator (text ∷ next ∷ texts) = text ++ separator ∷ join separator (next ∷ texts)

-- `Display` of `Groups`
unfoldable pub groups_text : List ℕ → Text
unfolding join decimal
groups_text groups = join b' ' (map decimal groups)

-- `Display` of `NamespaceIdHierarchy`
unfoldable pub hierarchy_text : List ℤ → Text
unfolding join signed
hierarchy_text pids = join b' ' (map signed pids)

-- `Display` of `MemSize`: kibibytes in eight places at least
unfoldable pub mem_size_text : ℕ → Text
unfolding pad decimal
mem_size_text size_in_bytes = pad 8 b' ' (decimal (size_in_bytes / 2 ^ 10)) ++ codes " kB"

-- `Display` of `BooleanField`
unfoldable pub boolean_text : Bool → Text
unfolding decimal
boolean_text false = decimal 0
boolean_text true = decimal 1

pub record SigQ : Type 0 where
  pub signals_queued : ℕ
  pub max_number_for_queue : ℕ

-- `Display` of `SigQ`
unfoldable pub sigq_text : SigQ → Text
unfolding decimal
sigq_text sigq = decimal sigq.signals_queued ++ b'/' ∷ decimal sigq.max_number_for_queue

-- a number in hexadecimal, of lower case
unfoldable pub lower_hex : ℕ → Text
unfolding digits digit_char
lower_hex n = digits 16 (suc n) n

-- `Display` of `SignalMask` and of `CapabilityMask`: the prefix counts among the sixteen places
unfoldable pub mask_text : ℕ → Text
unfolding pad lower_hex
mask_text mask = b'0' ∷ b'x' ∷ pad (16 - 2) b'0' (lower_hex mask)

pub data SeccompMode : Type 0 where
  disabled : SeccompMode
  strict : SeccompMode
  filter : SeccompMode

-- `Display` of `SeccompMode`
unfoldable pub seccomp_text : SeccompMode → Text
unfolding decimal
seccomp_text disabled = decimal 0
seccomp_text strict = decimal 1
seccomp_text filter = decimal 2

-- the mode of a number; a number past the last mode is never drawn
unfoldable pub seccomp_of : ℕ → SeccompMode
unfolding choice
seccomp_of = choice filter (disabled ∷ strict ∷ [])

-- `sample` of `SeccompMode`
unfoldable pub sample_seccomp : (r : Standard) → Draw r.rng.State SeccompMode
unfolding seccomp_of
sample_seccomp r s = let (n, s') = r.range_32 0 3 s in (seccomp_of n, s')

-- `Display` of `MaskCollection`
unfoldable pub mask_collection_text : List ℕ → Text
unfolding join lower_hex
mask_collection_text masks = join b',' (map lower_hex masks)

pub data ListEntry : Type 0 where
  single : ℕ → ListEntry
  range_inclusive : (first last : ℕ) → ListEntry

-- `Display` of `ListEntry`
unfoldable pub list_entry_text : ListEntry → Text
unfolding decimal
list_entry_text (single entry) = decimal entry
list_entry_text (range_inclusive first last) = decimal first ++ b'-' ∷ decimal last

-- `Display` of `ListCollection`
unfoldable pub list_collection_text : List ListEntry → Text
unfolding join list_entry_text
list_collection_text entries = join b',' (map list_entry_text entries)
