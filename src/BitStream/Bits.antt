-- ===== src/BitStream/Bits.antt =====
-- The bits of a `BitStream`'s buffer after its loops.
use tms.Prelude.{
  ℕ, zero, suc, ◌+◌, ◌-◌, ◌*◌, ◌/◌, ◌%◌, ◌^◌, ◌<◌, ◌≤◌, List, [], ◌∷◌, ◌++◌, ◌⊎◌, inl, inr, ◌≡◌,
  ◌≢◌, refl, ap, ◌∙◌, arith,
}
use tms.Prelude.{length, get_or, set, take, drop, ltb, if◌then◌else◌, ◌==◌, length-set}
use tms.BitBuffer.{bit}
use tms.BitBuffer.Value.{bits_value}
use native.Mathlib.Nat.{
  pow-suc, div-add-mod, mod-lt, one-le-pow, add-mul-mod_self_left, mod-eq_of_lt,
}
use tms.BitStream.{or_bit, write_loop}

below_eight {ℓ} :
    (P : ℕ → Type ℓ) → P 0 → P 1 → P 2 → P 3 → P 4 → P 5 → P 6 → P 7 → (k : ℕ) → k < 8 → P k
below_eight P a b c d e f g h zero l = a
below_eight P a b c d e f g h (suc zero) l = b
below_eight P a b c d e f g h (suc (suc zero)) l = c
below_eight P a b c d e f g h (suc (suc (suc zero))) l = d
below_eight P a b c d e f g h (suc (suc (suc (suc zero)))) l = e
below_eight P a b c d e f g h (suc (suc (suc (suc (suc zero))))) l = f
below_eight P a b c d e f g h (suc (suc (suc (suc (suc (suc zero)))))) l = g
below_eight P a b c d e f g h (suc (suc (suc (suc (suc (suc (suc zero))))))) l = h
below_eight P a b c d e f g h (suc (suc (suc (suc (suc (suc (suc (suc k)))))))) l =
    absurd (omega arith)

or_bit-bit_at :
    (x j : ℕ)
    → j < 8
    → (k : ℕ) → k < 8
    → or_bit x j / 2 ^ k % 2 ≡ (if j == k then 1 else x / 2 ^ k % 2)
unfolding or_bit
or_bit-bit_at x =
    below_eight
      (λ j. (k : ℕ) → k < 8 → or_bit x j / 2 ^ k % 2 ≡ (if j == k then 1 else x / 2 ^ k % 2))
      (below_eight (λ k. or_bit x 0 / 2 ^ k % 2 ≡ (if 0 == k then 1 else x / 2 ^ k % 2))
        (omega arith) (omega arith) (omega arith) (omega arith) (omega arith) (omega arith)
        (omega arith) (omega arith))
      (below_eight (λ k. or_bit x 1 / 2 ^ k % 2 ≡ (if 1 == k then 1 else x / 2 ^ k % 2))
        (omega arith) (omega arith) (omega arith) (omega arith) (omega arith) (omega arith)
        (omega arith) (omega arith))
      (below_eight (λ k. or_bit x 2 / 2 ^ k % 2 ≡ (if 2 == k then 1 else x / 2 ^ k % 2))
        (omega arith) (omega arith) (omega arith) (omega arith) (omega arith) (omega arith)
        (omega arith) (omega arith))
      (below_eight (λ k. or_bit x 3 / 2 ^ k % 2 ≡ (if 3 == k then 1 else x / 2 ^ k % 2))
        (omega arith) (omega arith) (omega arith) (omega arith) (omega arith) (omega arith)
        (omega arith) (omega arith))
      (below_eight (λ k. or_bit x 4 / 2 ^ k % 2 ≡ (if 4 == k then 1 else x / 2 ^ k % 2))
        (omega arith) (omega arith) (omega arith) (omega arith) (omega arith) (omega arith)
        (omega arith) (omega arith))
      (below_eight (λ k. or_bit x 5 / 2 ^ k % 2 ≡ (if 5 == k then 1 else x / 2 ^ k % 2))
        (omega arith) (omega arith) (omega arith) (omega arith) (omega arith) (omega arith)
        (omega arith) (omega arith))
      (below_eight (λ k. or_bit x 6 / 2 ^ k % 2 ≡ (if 6 == k then 1 else x / 2 ^ k % 2))
        (omega arith) (omega arith) (omega arith) (omega arith) (omega arith) (omega arith)
        (omega arith) (omega arith))
      (below_eight (λ k. or_bit x 7 / 2 ^ k % 2 ≡ (if 7 == k then 1 else x / 2 ^ k % 2))
        (omega arith) (omega arith) (omega arith) (omega arith) (omega arith) (omega arith)
        (omega arith) (omega arith))

module _ {ℓ} {A : Type ℓ} where
  pub get_or-set :
      (xs : List A) (i j : ℕ) (v d : A)
      → i < length xs
      → get_or (set xs i v) j d ≡ (if i == j then v else get_or xs j d)
  get_or-set [] i j v d h = absurd (omega arith)
  get_or-set (x ∷ xs) zero zero v d h = ground arith
  get_or-set (x ∷ xs) zero (suc j) v d h = ground arith
  get_or-set (x ∷ xs) (suc i) zero v d h = ground arith
  get_or-set (x ∷ xs) (suc i) (suc j) v d h = ground (arith, get_or-set xs i j v d)

-- `buf[p / 8] |= 1 << (7 - p % 8)`.
abbrev set_bit : List ℕ → ℕ → List ℕ
set_bit buf p = set buf (p / 8) (or_bit (get_or buf (p / 8) 0) (7 - p % 8))

bit-set_bit :
    (buf : List ℕ) (p q : ℕ)
    → p / 8 < length buf
    → bit (set_bit buf p) q ≡ (if p == q then 1 else bit buf q)
unfolding bit
bit-set_bit buf p q h = ground (
  arith,
  get_or-set buf (p / 8) (q / 8) (or_bit (get_or buf (p / 8) 0) (7 - p % 8)) 0 h,
  or_bit-bit_at (get_or buf (p / 8) 0) (7 - p % 8) (omega arith) (7 - q % 8) (omega arith),
)

abbrev pub step_bit : ℕ → ℕ → List ℕ → ℕ → List ℕ
step_bit n v buf pos = if v / 2 ^ n % 2 == 1 then set_bit buf pos else buf

pub length-step_bit :
    (n v : ℕ) (buf : List ℕ) (pos : ℕ) → length (step_bit n v buf pos) ≡ length buf
length-step_bit n v buf pos =
    ground (arith, length-set buf (pos / 8) (or_bit (get_or buf (pos / 8) 0) (7 - pos % 8)))

bit-step_bit_ne :
    (n v : ℕ) (buf : List ℕ) (pos q : ℕ)
    → pos / 8 < length buf
    → pos ≢ q
    → bit (step_bit n v buf pos) q ≡ bit buf q
bit-step_bit_ne n v buf pos q l h = ground (arith, bit-set_bit buf pos q l)

bit-step_bit_self :
    (n v : ℕ) (buf : List ℕ) (pos : ℕ)
    → pos / 8 < length buf
    → bit buf pos ≡ 0
    → bit (step_bit n v buf pos) pos ≡ v / 2 ^ n % 2
bit-step_bit_self n v buf pos l h = ground (arith, bit-set_bit buf pos pos l)

pub length-write_loop :
    (n v : ℕ) (buf : List ℕ) (pos : ℕ) → length (write_loop n v buf pos) ≡ length buf
unfolding write_loop
length-write_loop zero v buf pos = refl
length-write_loop (suc n) v buf pos =
    length-write_loop n v (step_bit n v buf pos) (pos + 1) ∙ length-step_bit n v buf pos

-- Bits outside of those written stay.
pub bit-write_loop :
    (n v : ℕ) (buf : List ℕ) (pos q : ℕ)
    → pos + n ≤ length buf * 8
    → (q < pos) ⊎ (pos + n ≤ q)
    → bit (write_loop n v buf pos) q ≡ bit buf q
unfolding write_loop
bit-write_loop zero v buf pos q l h = refl
bit-write_loop (suc n) v buf pos q l h =
    bit-write_loop n v (step_bit n v buf pos) (pos + 1) q
      (omega (arith, length-step_bit n v buf pos)) (ground arith)
    ∙ bit-step_bit_ne n v buf pos q (omega arith) (ground arith)

mod-suc_bit : (n v : ℕ) → v % 2 ^ suc n ≡ v / 2 ^ n % 2 * 2 ^ n + v % 2 ^ n
mod-suc_bit n v =
    ap (λ t. t % 2 ^ suc n) whole
    ∙ add-mul-mod_self_left (q % 2 * m + v % m) (2 ^ suc n) (q / 2)
    ∙ mod-eq_of_lt small
  where
    m : ℕ
    m = 2 ^ n

    q : ℕ
    q = v / m

    whole : v ≡ q % 2 * m + v % m + 2 ^ suc n * (q / 2)
    whole = omega (
      arith,
      div-add-mod v m,
      ap (λ (t : ℕ). m * t) (div-add-mod q 2),
      ap (λ (t : ℕ). t * (q / 2)) (pow-suc 2 n),
    )

    small : q % 2 * m + v % m < 2 ^ suc n
    small = grind (arith, one-le-pow n 2, pow-suc 2 n, mod-lt v {m = m})

-- No bit from `pos` on is set.
abbrev pub ClearFrom : List ℕ → ℕ → Type 0
ClearFrom buf pos = (q : ℕ) → pos ≤ q → bit buf q ≡ 0

first_bit :
    (n v : ℕ) (buf : List ℕ) (pos : ℕ)
    → pos + suc n ≤ length buf * 8
    → bit buf pos ≡ 0
    → bit (write_loop n v (step_bit n v buf pos) (pos + 1)) pos ≡ v / 2 ^ n % 2
first_bit n v buf pos l h =
    bit-write_loop n v (step_bit n v buf pos) (pos + 1) pos
      (omega (arith, length-step_bit n v buf pos)) (inl (omega arith))
    ∙ bit-step_bit_self n v buf pos (omega arith) h

-- Over bits that are 0 the loop writes the value's low bits.
pub bits_value-write_loop :
    (n v : ℕ) (buf : List ℕ) (pos r : ℕ)
    → pos + n ≤ length buf * 8
    → ClearFrom buf pos
    → bits_value (write_loop n v buf pos) n pos r ≡ r * 2 ^ n + v % 2 ^ n
unfolding write_loop bits_value
bits_value-write_loop zero v buf pos r l clean = omega arith
bits_value-write_loop (suc n) v buf pos r l clean =
    let next = step_bit n v buf pos in
    let top = bit (write_loop n v next (pos + 1)) pos in
    bits_value-write_loop n v next (pos + 1) (r * 2 + top)
      (omega (arith, length-step_bit n v buf pos))
      (λ q h. bit-step_bit_ne n v buf pos q (omega arith) (omega arith) ∙ clean q (omega arith))
    ∙ omega (
      arith,
      ap (λ (t : ℕ). (r * 2 + t) * 2 ^ n) (first_bit n v buf pos l (clean pos (omega arith))),
      mod-suc_bit n v,
      ap (λ (t : ℕ). r * t) (pow-suc 2 n),
    )

-- What is behind the bits written stays clear.
pub write_loop-ClearFrom :
    (n v : ℕ) (buf : List ℕ) (pos : ℕ)
    → pos + n ≤ length buf * 8
    → ClearFrom buf pos
    → ClearFrom (write_loop n v buf pos) (pos + n)
write_loop-ClearFrom n v buf pos l clean q h =
    bit-write_loop n v buf pos q l (inr h) ∙ clean q (omega arith)

module _ {ℓ} {A : Type ℓ} where
  pub get_or-append :
      (xs ys : List A) (i : ℕ) (d : A)
      → get_or (xs ++ ys) i d
        ≡ (if ltb i (length xs) then get_or xs i d else get_or ys (i - length xs) d)
  get_or-append [] ys i d = ground arith
  get_or-append (x ∷ xs) ys zero d = ground arith
  get_or-append (x ∷ xs) ys (suc i) d = ground (arith, get_or-append xs ys i d)

  pub get_or-take : (k i : ℕ) (xs : List A) (d : A) → i < k → get_or (take k xs) i d ≡ get_or xs i d
  get_or-take zero i xs d h = absurd (omega arith)
  get_or-take (suc k) i [] d h = refl
  get_or-take (suc k) zero (x ∷ xs) d h = refl
  get_or-take (suc k) (suc i) (x ∷ xs) d h = get_or-take k i xs d (omega arith)

  pub get_or-drop : (k i : ℕ) (xs : List A) (d : A) → get_or (drop k xs) i d ≡ get_or xs (k + i) d
  get_or-drop zero i xs d = ap (λ j. get_or xs j d) (omega arith)
  get_or-drop (suc k) i [] d = refl
  get_or-drop (suc k) i (x ∷ xs) d =
      let e : suc k + i ≡ suc (k + i) = omega arith in rw e (get_or-drop k i xs d)
