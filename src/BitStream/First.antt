-- ===== src/BitStream/First.antt =====
-- The first byte of a buffer of src/bit_stream.h stays once the cursor is past it.
use tms.Prelude.{
  ℕ, zero, suc, ◌+◌, ◌-◌, ◌*◌, ◌/◌, ◌%◌, ◌<◌, ◌≤◌, List, [], ◌∷◌, inl, ◌≡◌, refl, ◌∙◌, arith,
  length, get_or, be_bytes,
}
use tms.Prelude.{length-be_bytes}
use tms.BitStream.{BitStream, Write, bits, bytes, text, write_loop, or_bit}
use tms.BitStream.Bits.{get_or-set, step_bit, length-step_bit}
use tms.BitStream.Size.{cost, cost_all}
use tms.BitStream.Overwrite.{get_or-overwrite}
use tms.BitStream.Wrote.{wrote, cur_pos-wrote}
use tms.BitStream.RoundTrip.{wrote_all, Ready, Ready-tail}

get_or-step_bit :
    (n v : ℕ) (buf : List ℕ) (pos : ℕ)
    → 8 ≤ pos
    → pos < length buf * 8
    → get_or (step_bit n v buf pos) 0 0 ≡ get_or buf 0 0
get_or-step_bit n v buf pos past fits =
    let new = or_bit (get_or buf (pos / 8) 0) (7 - pos % 8) in
    ground (arith, get_or-set buf (pos / 8) 0 new 0 (omega arith))

get_or-write_loop :
    (n v : ℕ) (buf : List ℕ) (pos : ℕ)
    → 8 ≤ pos
    → pos + n ≤ length buf * 8
    → get_or (write_loop n v buf pos) 0 0 ≡ get_or buf 0 0
unfolding write_loop
get_or-write_loop zero v buf pos past fits = refl
get_or-write_loop (suc n) v buf pos past fits =
    get_or-write_loop n v (step_bit n v buf pos) (pos + 1) (omega arith)
      (omega (arith, length-step_bit n v buf pos))
    ∙ get_or-step_bit n v buf pos past (omega arith)

get_or-wrote :
    (w : Write) (ws : List Write) (s : BitStream)
    → Ready (w ∷ ws) s
    → 8 ≤ s.cur_pos
    → get_or (wrote w s).buf 0 0 ≡ get_or s.buf 0 0
unfolding cost_all cost
get_or-wrote (bits n v) ws s ok past =
    get_or-write_loop n v s.buf s.cur_pos past (omega (arith, ok.fits, ok.valid.whole))
get_or-wrote (bytes n v) ws s ok past =
    get_or-overwrite (s.cur_pos / 8) 0 (be_bytes n v) s.buf
      (omega (arith, ok.fits, ok.valid.whole, length-be_bytes n v)) (inl (omega arith))
get_or-wrote (text t) ws s ok past =
    get_or-overwrite (s.cur_pos / 8) 0 t s.buf (omega (arith, ok.fits, ok.valid.whole))
      (inl (omega arith))

pub get_or-wrote_all :
    (ws : List Write) (s : BitStream)
    → Ready ws s
    → 8 ≤ s.cur_pos
    → get_or (wrote_all ws s).buf 0 0 ≡ get_or s.buf 0 0
get_or-wrote_all [] s ok past = refl
get_or-wrote_all (w ∷ ws) s ok past =
    get_or-wrote_all ws (wrote w s) (Ready-tail w ws s ok) (omega (arith, cur_pos-wrote w s))
    ∙ get_or-wrote w ws s ok past
