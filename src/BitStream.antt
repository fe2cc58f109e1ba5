-- ===== src/BitStream.antt =====
-- `BitStream` (src/bit_stream.h): a cursor that writes bits, most significant first, into a buffer of
-- fixed size. A call that returns -1, and one that runs over the buffer's end, which the source does
-- not test, is `none`.
pub mod Bits
pub mod RoundTrip
pub mod Size
pub mod Overwrite
pub mod Wrote
pub mod Field
pub mod First
mod Tests
use tms.Prelude.{
  ℕ, zero, suc, ◌+◌, ◌-◌, ◌*◌, ◌/◌, ◌%◌, ◌^◌, Option, none, some, List, [], ◌∷◌, ◌++◌,
}
use tms.Prelude.{
  length, leb, ltb, get_or, set, take, drop, replicate, if◌then◌else◌, ◌==◌, be_bytes,
}

pub record BitStream : Type 0 where
  pub buf : List ℕ
  pub bit_len : ℕ
  pub cur_pos : ℕ

-- The constructor over a buffer of `n` bytes, which it sets to 0.
unfoldable pub of_size : ℕ → BitStream
of_size n = record { buf = replicate n 0; bit_len = n * 8; cur_pos = 0 }

-- The constructor without arguments takes the buffer in the object.
unfoldable pub new_stream : BitStream
unfolding of_size
new_stream = of_size 16384

-- `b |= 1 << k`.
unfoldable pub or_bit : ℕ → ℕ → ℕ
or_bit b k = b / 2 ^ (k + 1) * 2 ^ (k + 1) + 2 ^ k + b % 2 ^ k

-- The loop of `WriteBits`: `n` bits are left, the top one first, of a value whose type has as many.
unfoldable pub write_loop : ℕ → ℕ → List ℕ → ℕ → List ℕ
unfolding or_bit
write_loop zero val buf pos = buf
write_loop (suc n) val buf pos =
    write_loop n val
      (if val / 2 ^ n % 2 == 1
        then set buf (pos / 8) (or_bit (get_or buf (pos / 8) 0) (7 - pos % 8))
        else buf)
      (pos + 1)

unfoldable pub write_bits : ℕ → ℕ → BitStream → Option BitStream
unfolding write_loop
write_bits bits val s =
    if ltb s.bit_len (s.cur_pos + bits)
    then none
    else some (record s { buf = write_loop bits val s.buf s.cur_pos; cur_pos = s.cur_pos + bits })

-- Bytes copied over those from `at` on.
unfoldable pub overwrite : ℕ → List ℕ → List ℕ → List ℕ
overwrite at new buf = take at buf ++ (new ++ drop (at + length new) buf)

-- `WriteData`.
unfoldable pub write_data : List ℕ → BitStream → Option BitStream
unfolding overwrite
write_data new s =
    if leb (s.cur_pos / 8 + length new) (length s.buf)
    then some (record s {
      buf = overwrite (s.cur_pos / 8) new s.buf;
      cur_pos = s.cur_pos + length new * 8;
    })
    else none

-- `WriteBytes`: the low bytes of the value, the most significant first.
unfoldable pub write_bytes : ℕ → ℕ → BitStream → Option BitStream
unfolding write_data
write_bytes bytes val s = write_data (be_bytes bytes val) s

-- `ReplaceBytes`.
unfoldable pub replace_bytes : ℕ → ℕ → ℕ → BitStream → Option BitStream
unfolding overwrite
replace_bytes pos bytes val s =
    if ltb (s.cur_pos / 8) pos
    then none
    else if leb (pos + bytes) (length s.buf)
    then some (record s { buf = overwrite pos (be_bytes bytes val) s.buf })
    else none

-- `ModifyBytes`, which also refuses the byte at the cursor.
unfoldable pub modify_bytes : ℕ → ℕ → ℕ → BitStream → Option BitStream
unfolding overwrite
modify_bytes pos bytes val s =
    if leb (s.cur_pos / 8) pos
    then none
    else if leb (pos + bytes) (length s.buf)
    then some (record s { buf = overwrite pos (be_bytes bytes val) s.buf })
    else none

unfoldable pub size_in_bytes : BitStream → ℕ
size_in_bytes s = s.cur_pos / 8

-- The bytes written: `GetData` and `SizeInBytes`.
unfoldable pub written : BitStream → List ℕ
unfolding size_in_bytes
written s = take (size_in_bytes s) s.buf

-- A call of `WriteBits`, `WriteBytes` or `WriteData`, and calls in a row.
pub data Write : Type 0 where
  bits : ℕ → ℕ → Write
  bytes : ℕ → ℕ → Write
  text : List ℕ → Write

unfoldable pub write : Write → BitStream → Option BitStream
unfolding write_bits write_bytes write_data
write (bits n v) s = write_bits n v s
write (bytes n v) s = write_bytes n v s
write (text t) s = write_data t s

unfoldable pub write_all : List Write → BitStream → Option BitStream
unfolding write
write_all [] s = some s
write_all (w ∷ ws) s = elim (write w s) [ none ↦ none | some s' ↦ write_all ws s' ]
