-- ===== src/Base64.antt =====
-- `Base64` (src/base_64.h, src/base_64.cpp): bytes as text, four characters for three bytes.
pub mod RoundTrip
mod Tests
use tms.Prelude.{
  ℕ, ◌+◌, ◌-◌, ◌*◌, ◌/◌, ◌%◌, ◌^◌, List, [], ◌∷◌, ◌++◌, leb, ltb, ◌==◌, ◌&&◌, if◌then◌else◌, length,
  take,
}

-- `kEncodeBase64Dict`: A to Z, a to z, 0 to 9, + and /.
unfoldable pub encode_dict : ℕ → ℕ
encode_dict i =
    if ltb i 26
    then 65 + i
    else if ltb i 52
    then 97 + (i - 26)
    else if ltb i 62
    then 48 + (i - 52)
    else if i == 62
    then 43
    else 47

-- `kDecodeBase64Map`, whose `operator[]` gives 0 for a character that is not in it.
unfoldable pub decode_map : ℕ → ℕ
decode_map c =
    if leb 65 c && leb c 90
    then c - 65
    else if leb 97 c && leb c 122
    then c - 97 + 26
    else if leb 48 c && leb c 57
    then c - 48 + 52
    else if c == 43
    then 62
    else if c == 47
    then 63
    else 0

-- `=`
abbrev pub pad : ℕ
pad = 61

-- `Encode` of the bytes, onto nothing.
unfoldable pub encode_bytes : List ℕ → List ℕ
unfolding encode_dict
encode_bytes [] = []
encode_bytes (x ∷ []) = encode_dict (x / 4 % 64) ∷ encode_dict (x % 4 * 16) ∷ pad ∷ pad ∷ []
encode_bytes (x ∷ y ∷ []) =
    let tmp = x * 2 ^ 8 + y in
    encode_dict (tmp / 2 ^ 10 % 64)
    ∷ encode_dict (tmp / 2 ^ 4 % 64)
    ∷ encode_dict (tmp % 16 * 4)
    ∷ pad
    ∷ []
encode_bytes (x ∷ y ∷ z ∷ rest) =
    let tmp = x * 2 ^ 16 + y * 2 ^ 8 + z in
    encode_dict (tmp / 2 ^ 18 % 64)
    ∷ encode_dict (tmp / 2 ^ 12 % 64)
    ∷ encode_dict (tmp / 2 ^ 6 % 64)
    ∷ encode_dict (tmp % 64)
    ∷ encode_bytes rest

-- `Encode` of a string, whose length is cut to 32 bits: the text after `output`.
unfoldable pub encode : List ℕ → List ℕ → List ℕ
unfolding encode_bytes
encode input output = output ++ encode_bytes (take (length input % 2 ^ 32) input)

-- The bytes of the last four characters.
unfoldable pub last_group : ℕ → ℕ → ℕ → List ℕ
last_group tmp c d =
    if (c == pad) && (d == pad)
    then tmp / 2 ^ 16 % 256 ∷ []
    else if d == pad
    then tmp / 2 ^ 16 % 256 ∷ tmp / 2 ^ 8 % 256 ∷ []
    else tmp / 2 ^ 16 % 256 ∷ tmp / 2 ^ 8 % 256 ∷ tmp % 256 ∷ []

-- `Decode` of the characters, onto nothing. One to three characters at the end are not looked at.
unfoldable pub decode_text : List ℕ → List ℕ
unfolding decode_map last_group
decode_text (a ∷ b ∷ c ∷ d ∷ rest) =
    let tmp = decode_map a * 2 ^ 18 + decode_map b * 2 ^ 12 + decode_map c * 2 ^ 6 + decode_map d in
    if leb 4 (length rest)
    then tmp / 2 ^ 16 % 256 ∷ tmp / 2 ^ 8 % 256 ∷ tmp % 256 ∷ decode_text rest
    else last_group tmp c d
decode_text _ = []

-- `Decode` of a string: the bytes after `output`.
unfoldable pub decode : List ℕ → List ℕ → List ℕ
unfolding decode_text
decode input output = output ++ decode_text (take (length input % 2 ^ 32) input)
