-- ===== src/BitBuffer/Aligned.antt =====
-- `BitBuffer` at a byte boundary: what `GetBytes` and `GetString` return there.
use tms.Prelude.{ℕ, ◌+◌, ◌*◌, ◌/◌, ◌^◌, ◌<◌, List, ◌++◌}
use tms.Prelude.{◌≡◌, ◌∙◌, arith, true, false, some, append_assoc}
use tms.Prelude.{length, length-append, take, drop, drop-length_append, take-length_append}
use tms.Prelude.{IsByte, All, be, leb}
use tms.BitBuffer.{BitBuffer, bits_left, more_than_bits, more_than_bytes}
use tms.BitBuffer.{bits_loop, get_bytes, get_string}
use tms.BitBuffer.Value.{bits_loop-bits_value, bits_value-bytes}
use native.Mathlib.Nat.{mod-eq_of_lt}

-- A buffer over `pre ++ rest` that has read the bytes `pre`.
abbrev pub at : List ℕ → List ℕ → BitBuffer
at pre rest = record {
  bytes = pre ++ rest;
  bit_len = length (pre ++ rest) * 8;
  cur_pos = length pre * 8;
}

pub bits_left-at : (pre rest : List ℕ) → bits_left (at pre rest) ≡ length rest * 8
unfolding bits_left
bits_left-at pre rest = ground (arith, length-append pre rest)

pub more_than_bytes-at :
    (n : ℕ) (pre rest : List ℕ) → more_than_bytes n (at pre rest) ≡ leb n (length rest)
unfolding more_than_bytes
more_than_bytes-at n pre rest = ground (arith, bits_left-at pre rest)

pub at-append :
    (pre mid rest : List ℕ)
    → record (at pre (mid ++ rest)) { cur_pos = length pre * 8 + length mid * 8 }
      ≡ at (pre ++ mid) rest
at-append pre mid rest = ground (arith, append_assoc pre mid rest, length-append pre mid)

bits_loop-at :
    (pre mid rest : List ℕ)
    → All IsByte mid
    → be mid < 2 ^ 64
    → bits_loop 64 (pre ++ (mid ++ rest)) (length mid * 8) (length pre * 8) 0 ≡ be mid
bits_loop-at pre mid rest h fits =
    bits_loop-bits_value 64 (pre ++ (mid ++ rest)) (length mid * 8) (length pre * 8) 0
    ∙ rw (bits_value-bytes pre mid rest 0 h) (mod-eq_of_lt fits)

-- At a byte boundary with enough bytes left `GetBytes` returns them as a big-endian number and
-- stands behind them, if the number fits the variable.
pub get_bytes-at :
    (w : ℕ) (pre mid rest : List ℕ)
    → All IsByte mid
    → be mid < 2 ^ 64
    → be mid < 2 ^ w
    → get_bytes w (length mid) (at pre (mid ++ rest)) ≡ (true, be mid, at (pre ++ mid) rest)
unfolding get_bytes more_than_bits
get_bytes-at w pre mid rest h fits fits' = ground (
  arith,
  bits_left-at pre (mid ++ rest),
  length-append mid rest,
  bits_loop-at pre mid rest h fits,
  mod-eq_of_lt fits',
  at-append pre mid rest,
)

-- Where fewer bytes are left, `GetBytes` fails, sets the result to 0 and stays.
pub get_bytes-at_short :
    (w n : ℕ) (pre rest : List ℕ)
    → length rest < n
    → get_bytes w n (at pre rest) ≡ (false, 0, at pre rest)
unfolding get_bytes more_than_bits
get_bytes-at_short w n pre rest h = ground (arith, bits_left-at pre rest)

slice-at :
    (pre mid rest : List ℕ)
    → take (length mid) (drop (length pre * 8 / 8) (pre ++ (mid ++ rest))) ≡ mid
slice-at pre mid rest =
    let e : length pre * 8 / 8 ≡ length pre = omega arith in
    rw (e, drop-length_append pre (mid ++ rest)) (take-length_append mid rest)

-- `GetString` at a byte boundary takes the next bytes as they are.
pub get_string-at :
    (pre mid rest : List ℕ)
    → get_string (length mid) (at pre (mid ++ rest)) ≡ some (mid, at (pre ++ mid) rest)
unfolding get_string more_than_bytes
get_string-at pre mid rest = ground (
  arith,
  bits_left-at pre (mid ++ rest),
  length-append mid rest,
  slice-at pre mid rest,
  at-append pre mid rest,
)
