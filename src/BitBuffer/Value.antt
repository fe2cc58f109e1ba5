-- ===== src/BitBuffer/Value.antt =====
-- What the bit loop reads: the bits as a binary number, reduced to the width of the variable.
use tms.Prelude.{ℕ, zero, suc, ◌+◌, ◌-◌, ◌*◌, ◌/◌, ◌%◌, ◌^◌, ◌<◌, List, [], ◌∷◌, ◌++◌}
use tms.Prelude.{◌≡◌, refl, sym, ap, ◌∙◌, arith, get_or, IsByte, length, All}
use tms.Prelude.{be_from, get_or-length_append, length-append, append_assoc}
use tms.BitBuffer.{bit, bits_loop}
use native.Mathlib.Nat.{add-mul-mod_self_left, div-add-mod, pow-suc, zero-add, add-zero}

-- The number that `n` bits from `pos` on spell, read after `r`, at no fixed width.
unfoldable pub bits_value : List ℕ → ℕ → ℕ → ℕ → ℕ
bits_value bs zero pos r = r
bits_value bs (suc n) pos r = bits_value bs n (pos + 1) (r * 2 + bit bs pos)

step-mod : (m r b : ℕ) → (r % m * 2 + b) % m ≡ (r * 2 + b) % m
step-mod m r b =
    sym (add-mul-mod_self_left (r % m * 2 + b) m (r / m * 2))
    ∙ ap (λ t. t % m) (omega (arith, ap (λ (t : ℕ). t * 2) (div-add-mod r m)))

pub bits_loop-bits_value :
    (w : ℕ) (bs : List ℕ) (n pos r : ℕ)
    → bits_loop w bs n pos (r % 2 ^ w) ≡ bits_value bs n pos r % 2 ^ w
unfolding bits_loop bits_value
bits_loop-bits_value w bs zero pos r = refl
bits_loop-bits_value w bs (suc n) pos r =
    rw step-mod (bits_loop-bits_value w bs n (pos + 1) (r * 2 + bit bs pos))

-- Reading `n + m` bits is reading `n` and then `m`.
pub bits_value-add :
    (bs : List ℕ) (n m pos r : ℕ)
    → bits_value bs (n + m) pos r ≡ bits_value bs m (pos + n) (bits_value bs n pos r)
unfolding bits_value
bits_value-add bs zero m pos r = simp (zero-add, add-zero)
bits_value-add bs (suc n) m pos r =
    let e : suc n + m ≡ suc (n + m) = omega arith in
    let e' : pos + suc n ≡ pos + 1 + n = omega arith in
    rw (e, e') (bits_value-add bs n m (pos + 1) (r * 2 + bit bs pos))

-- What was read before stands in front.
pub bits_value-acc :
    (bs : List ℕ) (n pos r : ℕ) → bits_value bs n pos r ≡ r * 2 ^ n + bits_value bs n pos 0
unfolding bits_value
bits_value-acc bs zero pos r = omega arith
bits_value-acc bs (suc n) pos r = omega (
  arith,
  bits_value-acc bs n (pos + 1) (r * 2 + bit bs pos),
  bits_value-acc bs n (pos + 1) (0 * 2 + bit bs pos),
  ap (λ (t : ℕ). r * t) (pow-suc 2 n),
)

-- Bit `i` of byte `p`, counted from the top.
bit_in :
    (bs : List ℕ) (p i pos : ℕ)
    → pos ≡ p * 8 + i
    → i < 8
    → bit bs pos ≡ get_or bs p 0 / 2 ^ (7 - i) % 2
unfolding bit
bit_in bs p i pos h l =
    let e : pos / 8 ≡ p = omega arith in let e' : pos % 8 ≡ i = omega arith in rw (e, e')

-- Eight bits from a byte boundary are that byte.
bits_value-byte :
    (bs : List ℕ) (p r : ℕ)
    → get_or bs p 0 < 256
    → bits_value bs 8 (p * 8) r ≡ r * 256 + get_or bs p 0
unfolding bits_value
bits_value-byte bs p r h = omega (
  arith,
  bit_in bs p 0 (p * 8) (omega arith) (omega arith),
  bit_in bs p 1 (p * 8 + 1) (omega arith) (omega arith),
  bit_in bs p 2 (p * 8 + 1 + 1) (omega arith) (omega arith),
  bit_in bs p 3 (p * 8 + 1 + 1 + 1) (omega arith) (omega arith),
  bit_in bs p 4 (p * 8 + 1 + 1 + 1 + 1) (omega arith) (omega arith),
  bit_in bs p 5 (p * 8 + 1 + 1 + 1 + 1 + 1) (omega arith) (omega arith),
  bit_in bs p 6 (p * 8 + 1 + 1 + 1 + 1 + 1 + 1) (omega arith) (omega arith),
  bit_in bs p 7 (p * 8 + 1 + 1 + 1 + 1 + 1 + 1 + 1) (omega arith) (omega arith),
)

-- The bits of `mid`, where it starts at a byte boundary, are its bytes.
pub bits_value-bytes :
    (pre mid rest : List ℕ) (r : ℕ)
    → All IsByte mid
    → bits_value (pre ++ (mid ++ rest)) (length mid * 8) (length pre * 8) r ≡ be_from r mid
bits_value-bytes pre [] rest r h = unfold bits_value in refl
bits_value-bytes pre (b ∷ mid) rest r (hb, h) =
    let bs = pre ++ (b ∷ (mid ++ rest)) in
    let here : get_or bs (length pre) 0 ≡ b = get_or-length_append pre (b ∷ (mid ++ rest)) 0 in
    let bits : length (b ∷ mid) * 8 ≡ 8 + length mid * 8 = omega arith in
    let next : length pre * 8 + 8 ≡ length (pre ++ (b ∷ [])) * 8 =
      omega (arith, length-append pre (b ∷ [])) in
    rw
      (
        bits,
        bits_value-add bs 8 (length mid * 8) (length pre * 8) r,
        bits_value-byte bs (length pre) r (rw here hb),
        here,
        next,
        ← append_assoc pre (b ∷ []) (mid ++ rest),
      )
      (bits_value-bytes (pre ++ (b ∷ [])) mid rest (r * 256 + b) h)
