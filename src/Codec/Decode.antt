-- ===== src/Codec/Decode.antt =====
-- codec.rs: `decode`. The decoders of the libraries are a parameter; a header value is ASCII text.
use lading.Prelude.{
  ℕ, ◌+◌, List, [], ◌∷◌, ◌++◌, ◌&&◌, Option, some, none, leb, ◌==◌, if◌then◌else◌, map, Text, codes,
  text_eq,
}
use lading.Prometheus.Strings.{trim, split_by}

-- the bytes that were read to the end, or the text of the error
pub data Read : Type 0 where
  bytes : Text → Read
  read_error : Text → Read

-- `MultiGzDecoder`, `ZlibDecoder` and the decoder of zstd
pub record Decoders : Type 0 where
  pub gzip : Text → Read
  pub deflate : Text → Read
  pub zstd : Text → Read

pub record Response : Type 0 where
  pub status : ℕ
  pub body : Text

pub data Decoded : Type 0 where
  ok : Text → Decoded
  error : Response → Decoded

-- `UNSUPPORTED_MEDIA_TYPE`
abbrev pub unsupported_media_type : ℕ
unsupported_media_type = 415

-- `encoding_error_to_response`
unfoldable pub encoding_error_to_response : Text → Text → Response
encoding_error_to_response encoding message = record {
  status = unsupported_media_type;
  body = (codes "failed to decode input as " ++ encoding) ++ (codes ": " ++ message);
}

unfoldable pub read_as : Text → Read → Decoded
unfolding encoding_error_to_response
read_as encoding (bytes decoded) = ok decoded
read_as encoding (read_error message) = error (encoding_error_to_response encoding message)

-- `to_lowercase`, over ASCII
unfoldable pub to_lowercase : Text → Text
to_lowercase [] = []
to_lowercase (c ∷ cs) =
    let rest = to_lowercase cs in (if leb b'A' c && leb c b'Z' then c + 32 else c) ∷ rest

-- a piece of the header as the name of an encoding
unfoldable pub normal : Text → Text
unfolding trim to_lowercase
normal piece = to_lowercase (trim piece)

unfoldable pub reverse : List Text → List Text
reverse [] = []
reverse (x ∷ xs) = reverse xs ++ x ∷ []

-- `rsplit`: the pieces from the last to the first
unfoldable pub rsplit : ℕ → Text → List Text
unfolding reverse split_by
rsplit mark text = reverse (split_by (λ c. c == mark) text)

module _ (decoders : Decoders) where
  open decoders use {gzip, deflate, zstd}

  -- the match on an encoding
  unfoldable pub decode_as : Text → Text → Decoded
  unfolding read_as
  decode_as encoding body =
      if text_eq encoding (codes "identity")
      then ok body
      else if text_eq encoding (codes "gzip")
      then read_as encoding (gzip body)
      else if text_eq encoding (codes "deflate")
      then read_as encoding (deflate body)
      else if text_eq encoding (codes "zstd")
      then read_as encoding (zstd body)
      else error (record {
        status = unsupported_media_type;
        body = codes "Unsupported encoding type: " ++ encoding;
      })

  -- the loop over the encodings
  unfoldable pub decode_each : List Text → Text → Decoded
  decode_each [] body = ok body
  decode_each (encoding ∷ encodings) body = elim (decode_as encoding body) [
    | ok decoded ↦ decode_each encodings decoded
    | error response ↦ error response
  ]

  -- `decode`
  unfoldable pub decode : Option Text → Text → Decoded
  unfolding decode_each rsplit normal
  decode none body = ok body
  decode (some content_encoding) body = decode_each (map normal (rsplit b',' content_encoding)) body
