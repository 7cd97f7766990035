-- ===== src/Ecosystem/GoMod/CaseEncoding.antt =====
-- `decodeCaseEncoding` against the encoding that the GOPROXY protocol prescribes.
use cache_proxyfy.Prelude.{
  ◌+◌, ◌≡◌, refl, Bytes, true, ◌&&◌, [], ◌∷◌, arith, leb, if◌then◌else◌, free_of,
}
use cache_proxyfy.Ecosystem.GoMod.{decode, after_bang, decode_case_encoding}

-- Each uppercase letter becomes '!' and the lowercase letter.
abbrev pub encode : Bytes → Bytes
encode [] = []
encode (c ∷ s) =
    let rest = encode s in if leb b'A' c && leb c b'Z' then b'!' ∷ (c + 32) ∷ rest else c ∷ rest

decode-encode : (m : Bytes) → free_of b'!' m ≡ true → decode (encode m) ≡ m
unfolding decode after_bang free_of
decode-encode [] h = refl
decode-encode (c ∷ s) h = ground (arith, decode-encode s)

encode-free_of : (m : Bytes) → free_of b'!' (encode m) ≡ true → encode m ≡ m
unfolding free_of
encode-free_of [] h = refl
encode-free_of (c ∷ s) h = ground (arith, encode-free_of s)

-- Decoding takes an encoded module path, of bytes other than '!', back to the path.
pub decode_case_encoding-encode :
    (m : Bytes) → free_of b'!' m ≡ true → decode_case_encoding (encode m) ≡ m
unfolding decode_case_encoding
decode_case_encoding-encode m h = ground (arith, decode-encode m h, encode-free_of m)
