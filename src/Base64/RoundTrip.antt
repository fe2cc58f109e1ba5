-- ===== src/Base64/RoundTrip.antt =====
-- `Decode` undoes `Encode`.
use tms.Prelude.{
  ℕ, suc, ◌+◌, ◌*◌, ◌/◌, ◌%◌, ◌^◌, ◌<◌, true, false, List, [], ◌∷◌, leb, ◌==◌, length, take, ◌≡◌,
  refl, ap, ap₂, ◌∙◌, arith, All, IsByte, take_all, Bool-cases, inl, inr,
}
use tms.Base64.{encode_dict, decode_map, pad, encode_bytes, encode, last_group, decode_text, decode}

decode_map-encode_dict : (i : ℕ) → i < 64 → decode_map (encode_dict i) ≡ i
unfolding decode_map encode_dict
decode_map-encode_dict i h = ground arith

encode_dict_not_pad : (i : ℕ) → i < 64 → (encode_dict i == pad) ≡ false
unfolding encode_dict
encode_dict_not_pad i h = ground arith

-- One group of four characters for each three bytes or part of them.
pub length-encode_bytes : (xs : List ℕ) → length (encode_bytes xs) ≡ (length xs + 2) / 3 * 4
unfolding encode_bytes
length-encode_bytes [] = omega arith
length-encode_bytes (x ∷ []) = omega arith
length-encode_bytes (x ∷ y ∷ []) = omega arith
length-encode_bytes (x ∷ y ∷ z ∷ xs) = omega (arith, length-encode_bytes xs)

four_more : (w : ℕ) (rest : List ℕ) → leb 4 (length (encode_bytes (w ∷ rest))) ≡ true
four_more w rest =
    long (length (encode_bytes (w ∷ rest))) (length rest) (length-encode_bytes (w ∷ rest))
  where
    long : (n m : ℕ) → n ≡ (suc m + 2) / 3 * 4 → leb 4 n ≡ true
    long n m e = ground arith

-- Four characters that are not the last.
inner :
    (a b c d : ℕ) (rest : List ℕ)
    → a < 64
    → b < 64
    → c < 64
    → d < 64
    → leb 4 (length rest) ≡ true
    → decode_text (encode_dict a ∷ encode_dict b ∷ encode_dict c ∷ encode_dict d ∷ rest)
      ≡ (a * 2 ^ 18 + b * 2 ^ 12 + c * 2 ^ 6 + d) / 2 ^ 16 % 256
        ∷ (a * 2 ^ 18 + b * 2 ^ 12 + c * 2 ^ 6 + d) / 2 ^ 8 % 256
        ∷ (a * 2 ^ 18 + b * 2 ^ 12 + c * 2 ^ 6 + d) % 256
        ∷ decode_text rest
unfolding decode_text
inner a b c d rest ha hb hc hd more =
    rw
      (
        decode_map-encode_dict a ha,
        decode_map-encode_dict b hb,
        decode_map-encode_dict c hc,
        decode_map-encode_dict d hd,
        more,
      )
      refl

final :
    (a b c d : ℕ) (ca cb cc₁ cd : ℕ) (out : List ℕ)
    → decode_map ca ≡ a
    → decode_map cb ≡ b
    → decode_map cc₁ ≡ c
    → decode_map cd ≡ d
    → last_group (a * 2 ^ 18 + b * 2 ^ 12 + c * 2 ^ 6 + d) cc₁ cd ≡ out
    → decode_text (ca ∷ cb ∷ cc₁ ∷ cd ∷ []) ≡ out
unfolding decode_text
final a b c d ca cb cc₁ cd out ha hb hc hd e = rw (ha, hb, hc, hd) e

pad_lem : decode_map pad ≡ 0
unfolding decode_map
pad_lem = refl

one_byte : (tmp : ℕ) → last_group tmp pad pad ≡ tmp / 2 ^ 16 % 256 ∷ []
unfolding last_group
one_byte tmp = refl

two_bytes :
    (tmp c : ℕ)
    → c < 64
    → last_group tmp (encode_dict c) pad ≡ tmp / 2 ^ 16 % 256 ∷ tmp / 2 ^ 8 % 256 ∷ []
unfolding last_group
two_bytes tmp c h = rw (encode_dict_not_pad c h) refl

three_bytes :
    (tmp c d : ℕ)
    → d < 64
    → last_group tmp (encode_dict c) (encode_dict d)
      ≡ tmp / 2 ^ 16 % 256 ∷ tmp / 2 ^ 8 % 256 ∷ tmp % 256 ∷ []
unfolding last_group
three_bytes tmp c d h = elim (Bool-cases (encode_dict c == pad)) [
  | inl e ↦ rw (encode_dict_not_pad d h, e) refl
  | inr e ↦ rw (encode_dict_not_pad d h, e) refl
]

-- Three bytes as four parts of six bits, and back.
abbrev bits24 : ℕ → ℕ → ℕ → ℕ
bits24 x y z = x * 2 ^ 16 + y * 2 ^ 8 + z

regroup :
    (t : ℕ)
    → t < 2 ^ 24
    → t / 2 ^ 18 % 64 * 2 ^ 18 + t / 2 ^ 12 % 64 * 2 ^ 12 + t / 2 ^ 6 % 64 * 2 ^ 6 + t % 64 ≡ t
regroup t h = omega arith

three_of :
    (x y z : ℕ) (rest : List ℕ)
    → x < 256
    → y < 256
    → z < 256
    → bits24 x y z / 2 ^ 16 % 256 ∷ bits24 x y z / 2 ^ 8 % 256 ∷ bits24 x y z % 256 ∷ rest
      ≡ x ∷ y ∷ z ∷ rest
three_of x y z rest hx hy hz =
    ap₂ ◌∷◌ (omega arith) (ap₂ ◌∷◌ (omega arith) (ap (λ t. t ∷ rest) (omega arith)))

parts_small :
    (t : ℕ)
    → (t / 2 ^ 18 % 64 < 64) × (t / 2 ^ 12 % 64 < 64) × (t / 2 ^ 6 % 64 < 64) × (t % 64 < 64)
parts_small t = omega arith

bytes_back :
    (t : ℕ) (rest : List ℕ) (x : ℕ)
    → x ≡ t
    → x / 2 ^ 16 % 256 ∷ x / 2 ^ 8 % 256 ∷ x % 256 ∷ rest
      ≡ t / 2 ^ 16 % 256 ∷ t / 2 ^ 8 % 256 ∷ t % 256 ∷ rest
bytes_back t rest x e = ap (λ u. u / 2 ^ 16 % 256 ∷ u / 2 ^ 8 % 256 ∷ u % 256 ∷ rest) e

-- `Decode` of the text that `Encode` makes of bytes gives the bytes back, with no padding left.
pub decode_text-encode_bytes : (xs : List ℕ) → All IsByte xs → decode_text (encode_bytes xs) ≡ xs
unfolding encode_bytes
decode_text-encode_bytes [] h = unfold decode_text in refl
decode_text-encode_bytes (x ∷ []) (hx, h) =
    final (x / 4 % 64) (x % 4 * 16) 0 0 (encode_dict (x / 4 % 64)) (encode_dict (x % 4 * 16)) pad
      pad (x ∷ []) (decode_map-encode_dict (x / 4 % 64) (omega arith))
      (decode_map-encode_dict (x % 4 * 16) (omega arith)) pad_lem pad_lem
      (one_byte (x / 4 % 64 * 2 ^ 18 + x % 4 * 16 * 2 ^ 12 + 0 * 2 ^ 6 + 0)
        ∙ ap (λ t. t ∷ []) (omega arith))
decode_text-encode_bytes (x ∷ y ∷ []) (hx, (hy, h)) =
    let t : ℕ = x * 2 ^ 8 + y in
    final (t / 2 ^ 10 % 64) (t / 2 ^ 4 % 64) (t % 16 * 4) 0 (encode_dict (t / 2 ^ 10 % 64))
      (encode_dict (t / 2 ^ 4 % 64)) (encode_dict (t % 16 * 4)) pad (x ∷ y ∷ [])
      (decode_map-encode_dict (t / 2 ^ 10 % 64) (omega arith))
      (decode_map-encode_dict (t / 2 ^ 4 % 64) (omega arith))
      (decode_map-encode_dict (t % 16 * 4) (omega arith)) pad_lem
      (two_bytes (t / 2 ^ 10 % 64 * 2 ^ 18 + t / 2 ^ 4 % 64 * 2 ^ 12 + t % 16 * 4 * 2 ^ 6 + 0)
          (t % 16 * 4) (omega arith)
        ∙ ap₂ (λ a b. a ∷ b ∷ []) (omega arith) (omega arith))
decode_text-encode_bytes (x ∷ y ∷ z ∷ []) (hx, (hy, (hz, h))) =
    let t : ℕ = bits24 x y z in
    let (a, b, c, d) = parts_small t in
    final (t / 2 ^ 18 % 64) (t / 2 ^ 12 % 64) (t / 2 ^ 6 % 64) (t % 64) _ _ _ _ (x ∷ y ∷ z ∷ [])
      (decode_map-encode_dict (t / 2 ^ 18 % 64) a) (decode_map-encode_dict (t / 2 ^ 12 % 64) b)
      (decode_map-encode_dict (t / 2 ^ 6 % 64) c) (decode_map-encode_dict (t % 64) d)
      (three_bytes
          (t / 2 ^ 18 % 64 * 2 ^ 18 + t / 2 ^ 12 % 64 * 2 ^ 12 + t / 2 ^ 6 % 64 * 2 ^ 6 + t % 64)
          (t / 2 ^ 6 % 64) (t % 64) d
        ∙ bytes_back t []
            (t / 2 ^ 18 % 64 * 2 ^ 18 + t / 2 ^ 12 % 64 * 2 ^ 12 + t / 2 ^ 6 % 64 * 2 ^ 6 + t % 64)
            (regroup t (omega arith))
        ∙ three_of x y z [] hx hy hz)
decode_text-encode_bytes (x ∷ y ∷ z ∷ w ∷ rest) (hx, (hy, (hz, h))) =
    let t : ℕ = bits24 x y z in
    let (a, b, c, d) = parts_small t in
    let more : List ℕ = encode_bytes (w ∷ rest) in
    let long : leb 4 (length more) ≡ true = four_more w rest in
    inner (t / 2 ^ 18 % 64) (t / 2 ^ 12 % 64) (t / 2 ^ 6 % 64) (t % 64) more a b c d long
    ∙ bytes_back t (decode_text more)
        (t / 2 ^ 18 % 64 * 2 ^ 18 + t / 2 ^ 12 % 64 * 2 ^ 12 + t / 2 ^ 6 % 64 * 2 ^ 6 + t % 64)
        (regroup t (omega arith))
    ∙ three_of x y z (decode_text more) hx hy hz
    ∙ ap (λ u. x ∷ y ∷ z ∷ u) (decode_text-encode_bytes (w ∷ rest) h)

-- The same of the calls for strings, of less than 2 GiB and with nothing in the output.
pub decode-encode :
    (xs : List ℕ) → All IsByte xs → length xs < 2 ^ 31 → decode (encode xs []) [] ≡ xs
unfolding encode decode
decode-encode xs h l =
    let short : length xs % 2 ^ 32 ≡ length xs = omega arith in
    let input : take (length xs % 2 ^ 32) xs ≡ xs =
      take_all (length xs % 2 ^ 32) xs (omega arith) in
    let size : length (encode_bytes xs) ≡ (length xs + 2) / 3 * 4 = length-encode_bytes xs in
    let text : take (length (encode_bytes xs) % 2 ^ 32) (encode_bytes xs) ≡ encode_bytes xs =
      take_all (length (encode_bytes xs) % 2 ^ 32) (encode_bytes xs) (omega arith) in
    ap (λ t. decode_text (take (length (encode_bytes t) % 2 ^ 32) (encode_bytes t))) input
    ∙ ap decode_text text
    ∙ decode_text-encode_bytes xs h
