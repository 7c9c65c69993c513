-- ===== src/Payload/Examples.antt =====
-- Tests and witnesses of the payloads of members, frames, searches and requests.
use lading.Prelude.{
  ℕ, zero, suc, ◌+◌, ◌*◌, ◌≡◌, ◌≤◌, ◌<◌, refl, ap, ◌∙◌, arith, List, [], ◌∷◌, Option, some, none,
  done, length, sym, sum_by, ltb, Bool-cases, inl, inr, if◌then◌else◌,
}
use lading.Payload.Tests.{lowest}
use lading.Payload.Members.{
  Generate, Encoding, json_to_bytes, apache_common_to_bytes, splunk_hec_to_bytes,
  dogstatsd_to_bytes, syslog_to_bytes,
}
use lading.Payload.Fitting.{Fits, FitsAll, to_bytes-Fits}
use lading.Payload.Frame.{to_bytes_length_prefix_framed}
use lading.Payload.Framing.{
  FramedResult, to_bytes_length_prefix_framed-FramedResult,
  to_bytes_length_prefix_framed_overshoots,
}
use lading.Payload.Halving.{wrote, datadog_logs_to_bytes, fluent_to_bytes}
use lading.Payload.Halved.{FilledWithin}
use lading.Payload.Traces.{trace_agent_to_bytes}
use lading.Payload.Traced.{
  ending, WrittenOr, SomeFails, NoneEmpty, NeverEnds, TooLong, halving-FilledWithin,
  trace_agent_to_bytes-NeverEnds,
}
use lading.Payload.Records.{Source, static_to_bytes, Prost, opentelemetry_to_bytes}
use lading.Payload.Recorded.{
  BytesWithin, ShortMembers, opentelemetry_to_bytes-BytesWithin, Picks, FillsFrom, StaticResult,
  static_to_bytes-StaticResult,
}

-- a member that is generated each time, and the one after the first
abbrev word : Generate lowest
word s = (some (97 ∷ 98 ∷ []), s + 1)

abbrev plain_word : ℕ → List ℕ × ℕ
plain_word s = (97 ∷ 98 ∷ [], s + 1)

json_to_bytes-words :
    json_to_bytes lowest word 7 0 ≡ done (some (97 ∷ 98 ∷ 10 ∷ 97 ∷ 98 ∷ 10 ∷ []), 3)
unfolding json_to_bytes
json_to_bytes-words = refl

to_bytes_length_prefix_framed-words :
    to_bytes_length_prefix_framed lowest word 7 0
    ≡ done (some (6 ∷ 0 ∷ 0 ∷ 0 ∷ 97 ∷ 98 ∷ 10 ∷ 97 ∷ 98 ∷ 10 ∷ []), 3)
unfolding to_bytes_length_prefix_framed
to_bytes_length_prefix_framed-words = refl

to_bytes-Fits_example :
    Fits 10 (json_to_bytes lowest word 10 0)
    × Fits 10 (apache_common_to_bytes lowest word 10 0)
    × Fits 10 (splunk_hec_to_bytes lowest Encoding.text (λ e. word) 10 0)
    × Fits 10 (dogstatsd_to_bytes lowest word 10 0)
    × FitsAll 10 (syslog_to_bytes lowest plain_word 10 0)
to_bytes-Fits_example = to_bytes-Fits lowest word (λ e. word) Encoding.text plain_word 10 0

to_bytes_length_prefix_framed-FramedResult_example :
    FramedResult 10 (to_bytes_length_prefix_framed lowest word 10 0)
to_bytes_length_prefix_framed-FramedResult_example =
    to_bytes_length_prefix_framed-FramedResult lowest word 10 0 (omega arith)

to_bytes_length_prefix_framed_overshoots_example :
    (bytes : List ℕ) × (to_bytes_length_prefix_framed lowest word 5 0 ≡ done (some bytes, 2))
    × (5 < length bytes)
to_bytes_length_prefix_framed_overshoots_example =
    to_bytes_length_prefix_framed_overshoots lowest word 5 0 1 2 (97 ∷ 98 ∷ []) (97 ∷ 98 ∷ [])
      (omega arith) refl refl (omega arith) (omega arith) (omega arith)

-- so many bytes
abbrev bytes_of : ℕ → List ℕ
bytes_of zero = []
bytes_of (suc n) = 0 ∷ bytes_of n

length-bytes_of : (n : ℕ) → length (bytes_of n) ≡ n
length-bytes_of zero = refl
length-bytes_of (suc n) = omega (arith, length-bytes_of n)

-- an encoding of a list of two bytes for the brackets and two for each member
abbrev brackets : {M : Type 0} → List M → Option (List ℕ)
brackets members = some (bytes_of (2 + 2 * length members))

abbrev one : ℕ → Option ℕ × ℕ
one s = (some 1, s + 1)

word-NoneEmpty : NoneEmpty lowest word
word-NoneEmpty s m e = ground (arith, e)

halving-FilledWithin_example :
    FilledWithin 240 (datadog_logs_to_bytes lowest one brackets 240 0).0
    × WrittenOr (SomeFails lowest word) 240 (ending (fluent_to_bytes lowest 242 word 240 0))
halving-FilledWithin_example = halving-FilledWithin lowest one brackets word 240 0 word-NoneEmpty

brackets-TooLong : TooLong lowest {Span = ℕ} 1 brackets
brackets-TooLong members = (
  bytes_of (2 + 2 * length members),
  refl,
  omega (arith, length-bytes_of (2 + 2 * length members)),
)

trace_agent_to_bytes-NeverEnds_example :
    NeverEnds (trace_agent_to_bytes lowest 1000 brackets one 1 0)
trace_agent_to_bytes-NeverEnds_example =
    trace_agent_to_bytes-NeverEnds lowest 1000 brackets one 1 0 brackets-TooLong

-- requests of members that are their lengths
abbrev varint : ℕ → ℕ
varint n = if ltb n 128 then 1 else if ltb n 16384 then 2 else 10

abbrev sized : List ℕ → ℕ
sized members = sum_by (λ m. 1 + varint m + m) members

varint-short : (n : ℕ) → n < 128 → varint n ≡ 1
varint-short n h = ground (arith, h)

varint-medium : (n : ℕ) → n < 16384 → varint n ≤ 2
varint-medium n h = ground (arith, h)

varint-long : (n : ℕ) → varint n ≤ 10
varint-long n = ground arith

abbrev around : ℕ → ℕ
around body = 1 + varint body + body

request_length :
    (members : List ℕ) (body list : ℕ)
    → body ≡ sized members
    → list ≡ 1 + varint body + body
    → length (bytes_of (around (around (sized members)))) ≡ 1 + varint list + list
request_length members body list e f =
    length-bytes_of (around (around (sized members))) ∙ ap around (ap around (sym e) ∙ sym f)

abbrev requests : Prost
requests = record {
  Member = ℕ;
  encoded_len = λ m. m;
  encode_to_vec = λ members. bytes_of (around (around (sized members)));
  varint_len = varint;
  short = varint-short;
  medium = varint-medium;
  long = varint-long;
  request = request_length;
}

abbrev hundred : ℕ → Option ℕ × ℕ
hundred s = (some 100, s + 1)

hundred-ShortMembers : ShortMembers lowest requests hundred
hundred-ShortMembers s m e = ground (arith, e)

opentelemetry_to_bytes-BytesWithin_example :
    BytesWithin 300 (opentelemetry_to_bytes lowest requests hundred 300 0)
opentelemetry_to_bytes-BytesWithin_example =
    opentelemetry_to_bytes-BytesWithin lowest requests hundred 300 0 hundred-ShortMembers

-- the first of some sources, and two files
abbrev first_source : List Source → ℕ → Option Source × ℕ
first_source [] s = (none, s)
first_source (source ∷ sources) s = (some source, s)

first_source-Picks : Picks lowest first_source
first_source-Picks [] s = tt
first_source-Picks (source ∷ sources) s = inl refl

-- A reader that has two bytes of the file in its buffer at first.
abbrev files : ℕ → List ℕ
files path = bytes_of 3

abbrev two_bytes : ℕ → Option (List ℕ)
two_bytes path = if ltb path 1 then some (bytes_of 2) else none

two_bytes-FillsFrom : FillsFrom files two_bytes
two_bytes-FillsFrom path buffer e = elim (Bool-cases (ltb path 1)) [
  | inl k ↦
      let same : some (bytes_of 2) ≡ some buffer = rw k at e in
      let b : bytes_of 2 ≡ buffer = ground (arith, same) in
      rw (sym b) (bytes_of 1, refl, inl (omega arith))
  | inr k ↦ absurd (ground (arith, rw k at e))
]

abbrev small : Source
small = record { byte_size = 3; path = 0 }

abbrev large : Source
large = record { byte_size = 9000; path = 1 }

static_to_bytes-StaticResult_example :
    StaticResult files two_bytes
      (large ∷ small ∷ [])
      10
      (static_to_bytes lowest first_source two_bytes (large ∷ small ∷ []) 10 5).0
static_to_bytes-StaticResult_example =
    static_to_bytes-StaticResult lowest files two_bytes first_source (large ∷ small ∷ []) 10 5
      first_source-Picks two_bytes-FillsFrom

-- Only the two bytes are written.
static_to_bytes-two :
    static_to_bytes lowest first_source two_bytes (large ∷ small ∷ []) 10 5
    ≡ (wrote (bytes_of 2), 5)
unfolding static_to_bytes
static_to_bytes-two = refl
