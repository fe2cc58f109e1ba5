-- ===== src/BitStream/Size.antt =====
-- How far calls of src/bit_stream.h move the cursor, and that they fit while the buffer has room.
use tms.Prelude.{
  ℕ, ◌+◌, ◌*◌, ◌/◌, ◌≤◌, List, [], ◌∷◌, ◌++◌, ◌≡◌, refl, sym, ◌∙◌, arith, some, length, take, drop,
  be_bytes, Option-cases, inl, inr,
}
use tms.Prelude.{length-append, length-take, length-drop, length-be_bytes}
use tms.BitStream.{
  BitStream, Write, bits, bytes, text, write, write_all, write_bits, write_bytes, write_data,
  write_loop, overwrite, new_stream, of_size,
}
use tms.BitStream.Bits.{length-write_loop}

unfoldable pub cost : Write → ℕ
cost (bits n v) = n
cost (bytes n v) = n * 8
cost (text t) = length t * 8

unfoldable pub cost_all : List Write → ℕ
unfolding cost
cost_all [] = 0
cost_all (w ∷ ws) = cost w + cost_all ws

pub cost_all-append : (ws vs : List Write) → cost_all (ws ++ vs) ≡ cost_all ws + cost_all vs
unfolding cost_all
cost_all-append [] vs = omega arith
cost_all-append (w ∷ ws) vs = omega (arith, cost_all-append ws vs)

-- The buffer's size, as the stream counts it.
abbrev pub IsWhole : BitStream → Type 0
IsWhole s = s.bit_len ≡ length s.buf * 8

-- Where calls of that cost have led.
abbrev pub Moved : ℕ → BitStream → BitStream → Type 0
Moved n s s' =
    (s'.cur_pos ≡ s.cur_pos + n) × (s'.bit_len ≡ s.bit_len) × (length s'.buf ≡ length s.buf)

pub length-overwrite :
    (at : ℕ) (new buf : List ℕ)
    → at + length new ≤ length buf
    → length (overwrite at new buf) ≡ length buf
unfolding overwrite
length-overwrite at new buf h = omega (
  arith,
  length-append (take at buf) (new ++ drop (at + length new) buf),
  length-append new (drop (at + length new) buf),
  length-take at buf,
  length-drop (at + length new) buf,
)

write_data-Moved :
    (t : List ℕ) (s : BitStream)
    → IsWhole s
    → s.cur_pos + length t * 8 ≤ s.bit_len
    → (s' : BitStream) × (write_data t s ≡ some s') × Moved (length t * 8) s s'
unfolding write_data
write_data-Moved t s w h = (
  record s { buf = overwrite (s.cur_pos / 8) t s.buf; cur_pos = s.cur_pos + length t * 8 },
  ground arith,
  (refl, refl, length-overwrite (s.cur_pos / 8) t s.buf (omega arith)),
)

write-Moved :
    (w : Write) (s : BitStream)
    → IsWhole s
    → s.cur_pos + cost w ≤ s.bit_len
    → (s' : BitStream) × (write w s ≡ some s') × Moved (cost w) s s'
unfolding write cost write_bits write_bytes
write-Moved (bits n v) s ok h = (
  record s { buf = write_loop n v s.buf s.cur_pos; cur_pos = s.cur_pos + n },
  ground arith,
  (refl, refl, length-write_loop n v s.buf s.cur_pos),
)
write-Moved (bytes n v) s ok h =
    let l = length-be_bytes n v in
    let (s', e, m) = write_data-Moved (be_bytes n v) s ok (omega arith) in (s', e, omega arith)
write-Moved (text t) s ok h = write_data-Moved t s ok h

-- Calls that fit succeed, and move the cursor by what they cost.
pub write_all-Moved :
    (ws : List Write) (s : BitStream)
    → IsWhole s
    → s.cur_pos + cost_all ws ≤ s.bit_len
    → (s' : BitStream) × (write_all ws s ≡ some s') × Moved (cost_all ws) s s'
unfolding write_all cost_all
write_all-Moved [] s ok h = (s, refl, omega arith)
write_all-Moved (w ∷ ws) s ok h =
    let (t, e, m) = write-Moved w s ok (omega arith) in
    let (s', e', m') = write_all-Moved ws t (omega arith) (omega arith) in
    (s', rw (e, write_all) e', omega arith)

pub new_stream-IsWhole : IsWhole new_stream
unfolding new_stream of_size
new_stream-IsWhole = refl

length-write_data :
    (t : List ℕ) (s s' : BitStream) → write_data t s ≡ some s' → length s'.buf ≡ length s.buf
unfolding write_data
length-write_data t s s' e = ground (arith, length-overwrite (s.cur_pos / 8) t s.buf)

length-write : (w : Write) (s s' : BitStream) → write w s ≡ some s' → length s'.buf ≡ length s.buf
unfolding write write_bits write_bytes
length-write (bits n v) s s' e = ground (arith, length-write_loop n v s.buf s.cur_pos)
length-write (bytes n v) s s' e = length-write_data (be_bytes n v) s s' e
length-write (text t) s s' e = length-write_data t s s' e

-- The buffer keeps its size.
pub length-write_all :
    (ws : List Write) (s s' : BitStream) → write_all ws s ≡ some s' → length s'.buf ≡ length s.buf
unfolding write_all
length-write_all [] s s' e = ground arith
length-write_all (w ∷ ws) s s' e = elim (Option-cases (write w s)) [
  | inl none_left ↦ cc (none_left)
  | inr (t, first) ↦
      length-write_all ws t s' (sym (rw (first, write_all) refl) ∙ e) ∙ length-write w s t first
]
