-- ===== src/Codec/Tests.antt =====
-- Tests and witnesses of the content encodings.
use lading.Prelude.{◌≡◌, refl, arith, [], ◌∷◌, some, codes, text_eq, drop}
use lading.Procfs.Masks.{join}
use lading.Observer.Tokens.{is_whitespace}
use lading.Codec.Decode.{
  bytes, Decoders, ok, error, normal, decode, decode_as, rsplit, unsupported_media_type,
}
use lading.Codec.Encoded.{gzip, deflate, Encoders, decode-encode_all}

-- a format that puts a letter before the body
abbrev letters : Decoders
letters = record {
  gzip = λ body. bytes (drop 1 body);
  deflate = λ body. bytes (drop 1 body);
  zstd = λ body. bytes (drop 1 body);
}

abbrev to_letters : Encoders letters
to_letters = record {
  to_gzip = λ body. b'g' ∷ body;
  to_deflate = λ body. b'd' ∷ body;
  to_zstd = λ body. b'z' ∷ body;
  gzip-to_gzip = λ body. refl;
  deflate-to_deflate = λ body. refl;
  zstd-to_zstd = λ body. refl;
}

rsplit-last_first : rsplit b',' (codes "a, b") ≡ codes " b" ∷ codes "a" ∷ []
unfolding rsplit
rsplit-last_first = refl

-- The empty header names an encoding that is not supported.
decode-empty :
    decode letters (some []) []
    ≡ error (record { status = unsupported_media_type; body = codes "Unsupported encoding type: " })
unfolding decode decode_as text_eq is_whitespace
decode-empty = refl

decode-encode_all_example :
    decode letters (some (codes "gzip, Deflate")) (codes "dgab") ≡ ok (codes "ab")
unfolding normal is_whitespace join
decode-encode_all_example =
    decode-encode_all letters to_letters (codes "gzip", gzip) ((codes " Deflate", deflate) ∷ [])
      (codes "ab")
      (
        (refl, (omega arith, (omega arith, (omega arith, (omega arith, tt))))),
        (
          (
            refl,
            (
              omega arith,
              (
                omega arith,
                (
                  omega arith,
                  (omega arith, (omega arith, (omega arith, (omega arith, (omega arith, tt))))),
                ),
              ),
            ),
          ),
          tt,
        ),
      )
