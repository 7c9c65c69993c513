-- ===== src/Codec/Encoded.antt =====
-- What was encoded is decoded again.
use lading.Prelude.{
  ◌≡◌, refl, sym, ap, ◌∙◌, List, [], ◌∷◌, ◌++◌, ◌==◌, some, All, map, Text, codes, text_eq,
}
use mathlib.Core.Logic.{◌⊎◌, inl, inr}
use lading.Observer.Command.{Lacks}
use lading.Procfs.Masks.{join}
use lading.Prometheus.Strings.{split_by}
use lading.Prometheus.Splitting.{Lacks-Fails, split_by-append, split_by-last}
use lading.Codec.Decode.{
  bytes, Decoders, Decoded, ok, Response, error, read_as, normal, reverse, rsplit, decode_as,
  decode_each, decode,
}

-- the content encodings that are supported
pub data Encoding : Type 0 where
  identity : Encoding
  gzip : Encoding
  deflate : Encoding
  zstd : Encoding

abbrev pub encoding_name : Encoding → Text
encoding_name identity = codes "identity"
encoding_name gzip = codes "gzip"
encoding_name deflate = codes "deflate"
encoding_name zstd = codes "zstd"

-- Encoders that the decoders undo: what the formats promise of a body.
pub record Encoders (decoders : Decoders) : Type 0 where
  pub to_gzip : Text → Text
  pub to_deflate : Text → Text
  pub to_zstd : Text → Text
  pub gzip-to_gzip : (body : Text) → decoders.gzip (to_gzip body) ≡ bytes body
  pub deflate-to_deflate : (body : Text) → decoders.deflate (to_deflate body) ≡ bytes body
  pub zstd-to_zstd : (body : Text) → decoders.zstd (to_zstd body) ≡ bytes body

-- A piece of a header names an encoding, in any case and with white space around it.
abbrev pub IsPieceOf : Text × Encoding → Type 0
IsPieceOf piece = (normal piece.0 ≡ encoding_name piece.1) × Lacks b',' piece.0

-- a header of some pieces
abbrev pub header : List (Text × Encoding) → Text
header pieces = join b',' (map (λ (piece : Text × Encoding). piece.0) pieces)

split_by-header :
    (piece : Text × Encoding) (pieces : List (Text × Encoding))
    → All IsPieceOf (piece ∷ pieces)
    → split_by (λ c. c == b',') (header (piece ∷ pieces))
      ≡ map (λ (p : Text × Encoding). p.0) (piece ∷ pieces)
unfolding join
split_by-header piece [] h = split_by-last (λ c. c == b',') piece.0 (Lacks-Fails b',' piece.0 h.0.1)
split_by-header piece (next ∷ pieces) h =
    split_by-append (λ c. c == b',') b',' piece.0 (header (next ∷ pieces))
      (Lacks-Fails b',' piece.0 h.0.1) refl
    ∙ ap (λ (l : List Text). piece.0 ∷ l) (split_by-header next pieces h.1)

map-append : (f : Text → Text) (xs ys : List Text) → map f (xs ++ ys) ≡ map f xs ++ map f ys
map-append f [] ys = refl
map-append f (x ∷ xs) ys = ap (λ (l : List Text). f x ∷ l) (map-append f xs ys)

Decoded-cases : (d : Decoded) → ((b : Text) × (d ≡ ok b)) ⊎ ((r : Response) × (d ≡ error r))
Decoded-cases (ok b) = inl (b, refl)
Decoded-cases (error r) = inr (r, refl)

ok_injective : (a b : Text) → ok a ≡ ok b → a ≡ b
ok_injective a b h = cc h

no_error : (r : Response) (b : Text) → error r ≡ ok b → ⊥
no_error r b h = cc h

module _ (decoders : Decoders) (encoders : Encoders decoders) where
  open encoders use {to_gzip, to_deflate, to_zstd, gzip-to_gzip, deflate-to_deflate, zstd-to_zstd}

  abbrev pub encode : Encoding → Text → Text
  encode identity body = body
  encode gzip body = to_gzip body
  encode deflate body = to_deflate body
  encode zstd body = to_zstd body

  -- a body in some encodings, from the first to the last
  abbrev pub encode_all : List (Text × Encoding) → Text → Text
  encode_all [] body = body
  encode_all (piece ∷ pieces) body = encode_all pieces (encode piece.1 body)

  decode_as-encode :
      (e : Encoding) (body : Text) → decode_as decoders (encoding_name e) (encode e body) ≡ ok body
  unfolding decode_as text_eq
  decode_as-encode identity body = refl
  decode_as-encode gzip body = ap (read_as (codes "gzip")) (gzip-to_gzip body)
  decode_as-encode deflate body = ap (read_as (codes "deflate")) (deflate-to_deflate body)
  decode_as-encode zstd body = ap (read_as (codes "zstd")) (zstd-to_zstd body)

  decode_each-ok :
      (encoding : Text) (encodings : List Text) (body decoded : Text)
      → decode_as decoders encoding body ≡ ok decoded
      → decode_each decoders (encoding ∷ encodings) body ≡ decode_each decoders encodings decoded
  unfolding decode_each
  decode_each-ok encoding encodings body decoded h = rw (h, decode_each) refl

  decode_each-error :
      (encoding : Text) (encodings : List Text) (body : Text) (response : Response)
      → decode_as decoders encoding body ≡ error response
      → decode_each decoders (encoding ∷ encodings) body ≡ error response
  unfolding decode_each
  decode_each-error encoding encodings body response h = rw (h, decode_each) refl

  decode_each-nil : (body : Text) → decode_each decoders [] body ≡ ok body
  unfolding decode_each
  decode_each-nil body = refl

  -- Encodings that decode a body are followed by the others.
  decode_each-append :
      (xs ys : List Text) (body decoded : Text)
      → decode_each decoders xs body ≡ ok decoded
      → decode_each decoders (xs ++ ys) body ≡ decode_each decoders ys decoded
  decode_each-append [] ys body decoded h =
      ap (decode_each decoders ys) (ok_injective body decoded (sym (decode_each-nil body) ∙ h))
  decode_each-append (x ∷ xs) ys body decoded h = elim (Decoded-cases (decode_as decoders x body)) [
    | inl (next, e) ↦
        decode_each-ok x (xs ++ ys) body next e
        ∙ decode_each-append xs ys next decoded (sym (decode_each-ok x xs body next e) ∙ h)
    | inr (response, e) ↦
        absurd (no_error response decoded (sym (decode_each-error x xs body response e) ∙ h))
  ]

  decode_each-reverse :
      (pieces : List (Text × Encoding)) (body : Text)
      → All IsPieceOf pieces
      → decode_each decoders
          (map normal (reverse (map (λ (p : Text × Encoding). p.0) pieces)))
          (encode_all pieces body)
        ≡ ok body
  unfolding reverse
  decode_each-reverse [] body h = decode_each-nil body
  decode_each-reverse (piece ∷ pieces) body h =
      let earlier : List Text = reverse (map (λ (p : Text × Encoding). p.0) pieces) in
      let encoded : Text = encode piece.1 body in
      ap (λ (l : List Text). decode_each decoders l (encode_all pieces encoded))
        (map-append normal earlier (piece.0 ∷ []))
      ∙ decode_each-append (map normal earlier) (normal piece.0 ∷ []) (encode_all pieces encoded)
          encoded (decode_each-reverse pieces encoded h.1)
      ∙ decode_each-ok (normal piece.0) [] encoded body
          (ap (λ (t : Text). decode_as decoders t encoded) h.0.0 ∙ decode_as-encode piece.1 body)
      ∙ decode_each-nil body

  -- A body that was encoded in the encodings of a header, one at least, in their order, each named in
  -- any case and with white space around it, is decoded to what it was, where the decoders undo the
  -- encoders: the encodings are taken from the last to the first.
  pub decode-encode_all :
      (piece : Text × Encoding) (pieces : List (Text × Encoding)) (body : Text)
      → All IsPieceOf (piece ∷ pieces)
      → decode decoders (some (header (piece ∷ pieces))) (encode_all (piece ∷ pieces) body)
        ≡ ok body
  unfolding decode rsplit
  decode-encode_all piece pieces body h =
      ap
        (λ (l : List Text).
          decode_each decoders (map normal (reverse l)) (encode_all (piece ∷ pieces) body))
        (split_by-header piece pieces h)
      ∙ decode_each-reverse (piece ∷ pieces) body h
