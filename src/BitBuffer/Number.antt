-- ===== src/BitBuffer/Number.antt =====
-- What `GetBits` returns, as a part of the number that the data of the buffer spell.
use tms.Prelude.{
  ℕ, zero, suc, ◌+◌, ◌-◌, ◌*◌, ◌/◌, ◌%◌, ◌^◌, ◌≤◌, ◌<◌, none, some, List, [], length, leb,
  if◌then◌else◌, ◌≡◌, refl, sym, ap, ◌∙◌, arith, All, IsByte, be, append-nil, Bool, true, false,
  leb→le,
}
use mathlib.Core.Path.{subst}
use tms.BitBuffer.{BitBuffer, bit, get_bits}
use tms.BitBuffer.Value.{bits_value, bits_value-add, bits_value-acc, bits_value-bytes}
use tms.BitBuffer.Bounds.{IsValid, get_bits-bits_value}
use native.Mathlib.Nat.{
  pow-suc, add-mul-div_right, add-mul-mod_self_right, mod-eq_of_lt, div-eq_of_lt,
}

one_more : (d p v : ℕ) → d < 2 → v < p → d * p + v < 2 * p
one_more zero p v h k = omega arith
one_more (suc zero) p v h k = omega arith
one_more (suc (suc d)) p v h k = absurd (omega arith)

bits_value-lt : (bs : List ℕ) (n pos : ℕ) → bits_value bs n pos 0 < 2 ^ n
unfolding bits_value bit
bits_value-lt bs zero pos = omega arith
bits_value-lt bs (suc n) pos =
    let d = bit bs pos in
    let first : d < 2 = omega arith in
    let start : 0 * 2 + d ≡ d = omega arith in
    subst (λ k. bits_value bs n (pos + 1) k < 2 ^ suc n) (sym start)
      (omega (
        arith,
        bits_value-acc bs n (pos + 1) d,
        one_more d (2 ^ n) (bits_value bs n (pos + 1) 0) first (bits_value-lt bs n (pos + 1)),
        pow-suc 2 n,
      ))

-- All bits of bytes are the bytes.
bits_value_whole : (bs : List ℕ) → All IsByte bs → bits_value bs (length bs * 8) 0 0 ≡ be bs
bits_value_whole bs h =
    ap (λ xs. bits_value xs (length bs * 8) 0 0) (sym (append-nil bs))
    ∙ bits_value-bytes [] bs [] 0 h

div_mod_join : (a b c p q : ℕ) → b < p → c < q → ((a * p + b) * q + c) / q % p ≡ b
div_mod_join a b c p q h k =
    let swap : (a * p + b) * q + c ≡ c + (a * p + b) * q = omega arith in
    let shift : c / q + (a * p + b) ≡ b + a * p = omega (arith, div-eq_of_lt k) in
    ap (λ n. n / q % p) swap
    ∙ ap (λ n. n % p) (add-mul-div_right c (a * p + b) (omega arith) ∙ shift)
    ∙ add-mul-mod_self_right b a p
    ∙ mod-eq_of_lt h

-- Some of the bits, as a part of the number that all bytes spell.
bits_value-be :
    (bs : List ℕ) (n pos : ℕ)
    → All IsByte bs
    → pos + n ≤ length bs * 8
    → bits_value bs n pos 0 ≡ be bs / 2 ^ (length bs * 8 - (pos + n)) % 2 ^ n
bits_value-be bs n pos h fits =
    let m = length bs * 8 - (pos + n) in
    let a = bits_value bs pos 0 0 in
    let b = bits_value bs n pos 0 in
    let c = bits_value bs m (pos + n) 0 in
    let all : length bs * 8 ≡ pos + (n + m) = omega arith in
    let start : 0 + pos ≡ pos = omega arith in
    let number : be bs ≡ (a * 2 ^ n + b) * 2 ^ m + c =
      sym (bits_value_whole bs h)
      ∙ ap (λ k. bits_value bs k 0 0) all
      ∙ bits_value-add bs pos (n + m) 0 0
      ∙ ap (λ k. bits_value bs (n + m) k a) start
      ∙ bits_value-add bs n m pos a
      ∙ bits_value-acc bs m (pos + n) (bits_value bs n pos a)
      ∙ ap (λ k. k * 2 ^ m + c) (bits_value-acc bs n pos a) in
    sym (
      ap (λ k. k / 2 ^ m % 2 ^ n) number
      ∙ div_mod_join a b c (2 ^ n) (2 ^ m) (bits_value-lt bs n pos) (bits_value-lt bs m (pos + n)))

if_alike {ℓ} :
    {A : Type ℓ} (b : Bool) (x y z : A)
    → (b ≡ true → x ≡ y)
    → (if b then x else z) ≡ (if b then y else z)
if_alike true x y z h = h refl
if_alike false x y z h = refl

-- On a valid buffer of bytes `GetBits` succeeds exactly where that many bits are left. Read as one
-- number, the first byte the highest, the data have as many bits below those asked for as come after
-- them: the result is the number shifted by those, cut to the bits asked for and then to the width of
-- the variable. The cursor moves over the bits read.
pub get_bits_lem :
    (w bits : ℕ) (b : BitBuffer)
    → IsValid b
    → All IsByte b.bytes
    → get_bits w bits b ≡ (
        let after = length b.bytes * 8 - (b.cur_pos + bits) in
        if leb (b.cur_pos + bits) (length b.bytes * 8)
        then some
            (be b.bytes / 2 ^ after % 2 ^ bits % 2 ^ w, record b { cur_pos = b.cur_pos + bits })
        else none)
get_bits_lem w bits b v h =
    get_bits-bits_value w bits b v
    ∙ if_alike (leb (b.cur_pos + bits) (length b.bytes * 8))
        (some
          (bits_value b.bytes bits b.cur_pos 0 % 2 ^ w, record b { cur_pos = b.cur_pos + bits }))
        (some (
          be b.bytes / 2 ^ (length b.bytes * 8 - (b.cur_pos + bits)) % 2 ^ bits % 2 ^ w,
          record b { cur_pos = b.cur_pos + bits },
        ))
        none
        (λ fits.
          ap (λ k. some (k % 2 ^ w, record b { cur_pos = b.cur_pos + bits }))
            (bits_value-be b.bytes bits b.cur_pos h
              (leb→le (b.cur_pos + bits) (length b.bytes * 8) fits)))
