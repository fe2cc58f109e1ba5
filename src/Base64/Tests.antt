-- ===== src/Base64/Tests.antt =====
-- Base64 on examples.
use tms.Prelude.{ℕ, List, [], ◌∷◌, ◌≡◌, refl, arith, All, IsByte}
use tms.Base64.{encode_bytes, encode, decode}
use tms.Base64.RoundTrip.{decode-encode}

abbrev text : List ℕ
text = 77 ∷ 97 ∷ 110 ∷ 251 ∷ 255 ∷ []

text-IsByte : All IsByte text
text-IsByte = (omega arith, (omega arith, (omega arith, (omega arith, (omega arith, tt)))))

-- `TWFu+/8=`
encode_text : encode_bytes text ≡ 84 ∷ 87 ∷ 70 ∷ 117 ∷ 43 ∷ 47 ∷ 56 ∷ 61 ∷ []
unfolding encode_bytes
encode_text = refl

decode-encode_example : decode (encode text []) [] ≡ text
decode-encode_example = decode-encode text text-IsByte (omega arith)
