-- ===== src/BitBuffer/Bounds.antt =====
-- The cursor of `BitBuffer` never passes the end of the data.
use tms.Prelude.{ℕ, ◌+◌, ◌*◌, ◌/◌, ◌%◌, ◌^◌, ◌≤◌, List}
use tms.Prelude.{◌≡◌, arith, Option, none, some, length, leb, if◌then◌else◌}
use tms.Prelude.{sym, ap, ◌∙◌, drop, length-take, length-drop}
use native.Mathlib.Nat.{zero-mod, add-mul-mod_self_left, div-add-mod}
use tms.BitBuffer.{BitBuffer, bits_left, more_than_bits, of_bytes}
use tms.BitBuffer.{get_bits, get_bytes, get_string, skip_bits, skip_bytes}
use tms.BitBuffer.Value.{bits_value, bits_loop-bits_value, bits_value-add, bits_value-acc}

pub record IsValid (b : BitBuffer) : Type 0 where
  pub whole : b.bit_len ≡ length b.bytes * 8
  pub within : b.cur_pos ≤ b.bit_len

pub of_bytes-IsValid : (bs : List ℕ) → IsValid (of_bytes bs)
unfolding of_bytes
of_bytes-IsValid bs = omega arith

-- On a valid buffer `GetBits` succeeds exactly where that many bits are left, and moves over them.
pub get_bits-bits_value :
    (w bits : ℕ) (b : BitBuffer)
    → IsValid b
    → get_bits w bits b ≡ (
        if leb (b.cur_pos + bits) (length b.bytes * 8)
        then some
            (bits_value b.bytes bits b.cur_pos 0 % 2 ^ w, record b { cur_pos = b.cur_pos + bits })
        else none)
unfolding get_bits more_than_bits bits_left
get_bits-bits_value w bits b v =
    ground (arith, bits_loop-bits_value w b.bytes bits b.cur_pos 0, zero-mod (2 ^ w))

wrap-mul-add : (m a c d : ℕ) → (a % m * c + d % m) % m ≡ (a * c + d) % m
wrap-mul-add m a c d =
    sym (add-mul-mod_self_left (a % m * c + d % m) m (a / m * c + d / m))
    ∙ ap (λ t. t % m) (omega (arith, ap (λ (t : ℕ). t * c) (div-add-mod a m), div-add-mod d m))

bits_value_join :
    (bs : List ℕ) (n m pos : ℕ)
    → (bits_value bs n pos 0 % 2 ^ 64 * 2 ^ m + bits_value bs m (pos + n) 0 % 2 ^ 64) % 2 ^ 64
      ≡ bits_value bs (n + m) pos 0 % 2 ^ 64
bits_value_join bs n m pos =
    wrap-mul-add (2 ^ 64) (bits_value bs n pos 0) (2 ^ m) (bits_value bs m (pos + n) 0)
    ∙ ap (λ t. t % 2 ^ 64)
        (sym (bits_value-add bs n m pos 0 ∙ bits_value-acc bs m (pos + n) (bits_value bs n pos 0)))

-- Two calls of `GetBits` read what one call for both lengths reads, the first result in front of
-- the second, as 64-bit numbers.
pub get_bits-add :
    (n m : ℕ) (b b' b'' : BitBuffer) (x y : ℕ)
    → IsValid b
    → get_bits 64 n b ≡ some (x, b')
    → get_bits 64 m b' ≡ some (y, b'')
    → get_bits 64 (n + m) b ≡ some ((x * 2 ^ m + y) % 2 ^ 64, b'')
get_bits-add n m b b' b'' x y v p q = ground (
  arith,
  get_bits-bits_value 64 n b v,
  get_bits-bits_value 64 (n + m) b v,
  get_bits-bits_value 64 m b',
  bits_value_join b.bytes n m b.cur_pos,
)

-- The buffer after a call: where the call fails it stays.
abbrev pub after {ℓ} : {A : Type ℓ} → BitBuffer → Option (A × BitBuffer) → BitBuffer
after b none = b
after b (some (a, b')) = b'

-- Every operation that moves the cursor keeps a valid buffer valid: the cursor stays within the
-- data, on success and on failure.
pub operations-IsValid :
    (w n : ℕ) (b : BitBuffer)
    → IsValid b
    → IsValid (after b (get_bits w n b))
      × IsValid (get_bytes w n b).2
      × IsValid (after b (get_string n b))
      × IsValid (skip_bits n b)
      × IsValid (skip_bytes n b)
unfolding bits_left get_bits get_bytes get_string skip_bits skip_bytes
operations-IsValid w n b v = (ground arith, ground arith, ground arith, ground arith, ground arith)

-- A string that `GetString` returns has the length asked for.
pub length-get_string :
    (n : ℕ) (b b' : BitBuffer) (s : List ℕ)
    → IsValid b
    → get_string n b ≡ some (s, b')
    → length s ≡ n
unfolding bits_left get_string
length-get_string n b b' s v e =
    ground
      (arith, length-take n (drop (b.cur_pos / 8) b.bytes), length-drop (b.cur_pos / 8) b.bytes)
