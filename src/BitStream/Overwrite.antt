-- ===== src/BitStream/Overwrite.antt =====
-- The bits of a buffer of src/bit_stream.h after bytes were copied into it.
use tms.Prelude.{
  ℕ, ◌+◌, ◌-◌, ◌*◌, ◌/◌, ◌%◌, ◌^◌, ◌<◌, ◌≤◌, List, ◌++◌, ◌⊎◌, inl, inr, ◌≡◌, ap, ◌∙◌, arith, All,
}
use tms.Prelude.{length, get_or, take, drop, IsByte, be}
use tms.Prelude.{length-take}
use tms.BitBuffer.{bit}
use tms.BitBuffer.Value.{bits_value, bits_value-bytes}
use tms.BitStream.{overwrite}
use tms.BitStream.Bits.{get_or-append, get_or-take, get_or-drop}

get_or-past :
    (xs ys : List ℕ) (i : ℕ) → length xs ≤ i → get_or (xs ++ ys) i 0 ≡ get_or ys (i - length xs) 0
get_or-past xs ys i h = ground (arith, get_or-append xs ys i 0)

pub get_or-overwrite :
    (at i : ℕ) (new buf : List ℕ)
    → at + length new ≤ length buf
    → (i < at) ⊎ (at + length new ≤ i)
    → get_or (overwrite at new buf) i 0 ≡ get_or buf i 0
unfolding overwrite
get_or-overwrite at i new buf fits (inl before) =
    let front : length (take at buf) ≡ at = omega (arith, length-take at buf) in
    ground (
      arith,
      get_or-append (take at buf) (new ++ drop (at + length new) buf) i 0,
      get_or-take at i buf 0,
    )
get_or-overwrite at i new buf fits (inr after) =
    let front : length (take at buf) ≡ at = omega (arith, length-take at buf) in
    let rest = drop (at + length new) buf in
    let j = i - length (take at buf) in
    get_or-past (take at buf) (new ++ rest) i (omega arith)
    ∙ get_or-past new rest j (omega arith)
    ∙ get_or-drop (at + length new) (j - length new) buf 0
    ∙ ap (λ k. get_or buf k 0) (omega arith)

-- Bits outside of the bytes stay.
pub bit-overwrite :
    (pos q : ℕ) (new buf : List ℕ)
    → pos % 8 ≡ 0
    → pos + length new * 8 ≤ length buf * 8
    → (q < pos) ⊎ (pos + length new * 8 ≤ q)
    → bit (overwrite (pos / 8) new buf) q ≡ bit buf q
unfolding bit
bit-overwrite pos q new buf aligned fits (inl before) =
    ap (λ b. b / 2 ^ (7 - q % 8) % 2)
      (get_or-overwrite (pos / 8) (q / 8) new buf (omega arith) (inl (omega arith)))
bit-overwrite pos q new buf aligned fits (inr after) =
    ap (λ b. b / 2 ^ (7 - q % 8) % 2)
      (get_or-overwrite (pos / 8) (q / 8) new buf (omega arith) (inr (omega arith)))

-- Their own bits are the bytes.
pub bits_value-overwrite :
    (pos : ℕ) (new buf : List ℕ)
    → pos % 8 ≡ 0
    → pos + length new * 8 ≤ length buf * 8
    → All IsByte new
    → bits_value (overwrite (pos / 8) new buf) (length new * 8) pos 0 ≡ be new
unfolding overwrite
bits_value-overwrite pos new buf aligned fits h =
    let front : pos ≡ length (take (pos / 8) buf) * 8 = omega (arith, length-take (pos / 8) buf) in
    let at = pos / 8 in
    ap (λ j. bits_value (take at buf ++ (new ++ drop (at + length new) buf)) (length new * 8) j 0)
      front
    ∙ bits_value-bytes (take at buf) new (drop (at + length new) buf) 0 h
