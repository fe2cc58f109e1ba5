-- ===== src/BitBuffer.antt =====
-- `BitBuffer` (src/bit_buffer.h, src/bit_buffer.cpp): a cursor over bytes that reads bits, most
-- significant first. A call that returns -1 and leaves its result alone is `none`.
pub mod Value
pub mod Aligned
pub mod Bounds
pub mod Number
pub mod Progress
mod Tests
use tms.Prelude.{ℕ, zero, suc, ◌+◌, ◌-◌, ◌*◌, ◌/◌, ◌%◌, ◌^◌, Option, none, some, Bool, List}
use tms.Prelude.{length, leb, get_or, take, drop, if◌then◌else◌, ◌==◌, not}

pub record BitBuffer : Type 0 where
  pub bytes : List ℕ
  pub bit_len : ℕ
  pub cur_pos : ℕ

-- The constructor.
unfoldable pub of_bytes : List ℕ → BitBuffer
of_bytes bs = record { bytes = bs; bit_len = length bs * 8; cur_pos = 0 }

unfoldable pub bits_left : BitBuffer → ℕ
bits_left b = if leb b.cur_pos b.bit_len then b.bit_len - b.cur_pos else 0

unfoldable pub bytes_left : BitBuffer → ℕ
unfolding bits_left
bytes_left b = bits_left b / 8

unfoldable pub more_than_bits : ℕ → BitBuffer → Bool
unfolding bits_left
more_than_bits bits b = leb bits (bits_left b)

unfoldable pub more_than_bytes : ℕ → BitBuffer → Bool
unfolding more_than_bits
more_than_bytes bytes b = more_than_bits (bytes * 8) b

-- `data_[pos / 8] & (0x01 << (7 - pos % 8))`, as 0 or 1.
unfoldable pub bit : List ℕ → ℕ → ℕ
bit bs pos = get_or bs (pos / 8) 0 / 2 ^ (7 - pos % 8) % 2

-- The loop of `GetBits` and `PeekBits` over a result of `w` bits: `result <<= 1`, and `result |= 1`
-- where the bit is set. `n` rounds are left.
unfoldable pub bits_loop : ℕ → List ℕ → ℕ → ℕ → ℕ → ℕ
unfolding bit
bits_loop w bs zero pos r = r
bits_loop w bs (suc n) pos r = bits_loop w bs n (pos + 1) ((r * 2 + bit bs pos) % 2 ^ w)

-- `GetBits` into a variable of `w` bits.
unfoldable pub get_bits : ℕ → ℕ → BitBuffer → Option (ℕ × BitBuffer)
unfolding more_than_bits bits_loop
get_bits w bits b =
    if more_than_bits bits b
    then some (bits_loop w b.bytes bits b.cur_pos 0, record b { cur_pos = b.cur_pos + bits })
    else none

-- `PeekBits` returns the result, cut to an `int`, where `GetBits` returns 0. The first part is the
-- bit pattern of that `int`.
unfoldable pub peek_bits : ℕ → BitBuffer → Option (ℕ × ℕ)
unfolding more_than_bits bits_loop
peek_bits bits b =
    if more_than_bits bits b
    then (let r = bits_loop 64 b.bytes bits b.cur_pos 0 in some (r % 2 ^ 32, r))
    else none

-- `PeekBytes`: the same, with the result cut to `w` bits.
unfoldable pub peek_bytes : ℕ → ℕ → BitBuffer → Option (ℕ × ℕ)
unfolding peek_bits
peek_bytes w bytes b = elim (peek_bits (bytes * 8) b) [
  | none ↦ none
  | some (r, tmp) ↦ some (r, tmp % 2 ^ w)
]

-- `GetBytes` into a variable of `w` bits: whether 0 was returned, the result, which is set to 0 on
-- failure, and the buffer.
unfoldable pub get_bytes : ℕ → ℕ → BitBuffer → Bool × ℕ × BitBuffer
unfolding get_bits
get_bytes w bytes b = elim (get_bits 64 (bytes * 8) b) [
  | none ↦ (Bool.false, 0, b)
  | some (tmp, b') ↦ (Bool.true, tmp % 2 ^ w, b')
]

-- `GetString`. The bytes are read from `data_ + cur_pos_ / 8`.
unfoldable pub get_string : ℕ → BitBuffer → Option (List ℕ × BitBuffer)
unfolding more_than_bytes
get_string len b =
    if not (more_than_bytes len b)
    then none
    else if not (b.cur_pos % 8 == 0)
    then none
    else some (take len (drop (b.cur_pos / 8) b.bytes), record b { cur_pos = b.cur_pos + len * 8 })

unfoldable pub have_read_bytes : BitBuffer → ℕ
have_read_bytes b = b.cur_pos / 8

-- `CurData` and `CurLen`: what is left from the current byte on.
unfoldable pub cur_data : BitBuffer → List ℕ
cur_data b = drop (b.cur_pos / 8) b.bytes

-- `size_t` subtraction wraps.
unfoldable pub cur_len : BitBuffer → ℕ
cur_len b = (2 ^ 64 + b.bit_len - b.cur_pos) % 2 ^ 64 / 8

unfoldable pub skip_bits : ℕ → BitBuffer → BitBuffer
unfolding bits_left
skip_bits bits b = record b {
  cur_pos = b.cur_pos + (if leb (bits_left b) bits then bits_left b else bits);
}

unfoldable pub skip_bytes : ℕ → BitBuffer → BitBuffer
unfolding bytes_left
skip_bytes bytes b = record b {
  cur_pos = b.cur_pos + (if leb (bytes_left b) bytes then bytes_left b else bytes) * 8;
}
