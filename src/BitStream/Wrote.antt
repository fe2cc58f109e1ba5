-- ===== src/BitStream/Wrote.antt =====
-- The stream of src/bit_stream.h after one call, bit by bit.
use tms.Prelude.{
  ℕ, zero, suc, ◌+◌, ◌-◌, ◌*◌, ◌/◌, ◌%◌, ◌^◌, ◌<◌, ◌≤◌, List, [], ◌∷◌, inr, ◌⊎◌, ◌≡◌, refl, sym, ap,
  ◌∙◌, arith, some, length, get_or, replicate, All,
}
use tms.Prelude.{length-replicate, length-be_bytes, be_bytes, be, be_bytes-IsByte, IsByte}
use tms.BitBuffer.{bit}
use tms.BitBuffer.Value.{bits_value}
use tms.BitStream.{
  BitStream, Write, bits, bytes, text, write, write_bits, write_bytes, write_data, write_loop,
  overwrite, of_size,
}
use tms.BitStream.Bits.{ClearFrom, length-write_loop, bit-write_loop, bits_value-write_loop}
use tms.BitStream.Size.{cost, length-overwrite}
use tms.BitStream.Overwrite.{bit-overwrite, bits_value-overwrite}
use native.Mathlib.Nat.{zero-div}

pub record IsValid (s : BitStream) : Type 0 where
  pub whole : s.bit_len ≡ length s.buf * 8
  pub within : s.cur_pos ≤ s.bit_len
  pub clear : ClearFrom s.buf s.cur_pos

get_or-replicate : (n i : ℕ) → get_or {A = ℕ} (replicate n 0) i 0 ≡ 0
get_or-replicate zero i = refl
get_or-replicate (suc n) zero = refl
get_or-replicate (suc n) (suc i) = get_or-replicate n i

pub of_size-IsValid : (n : ℕ) → IsValid (of_size n)
unfolding of_size bit
of_size-IsValid n = record {
  whole = ap (λ k. k * 8) (sym (length-replicate n 0));
  within = omega arith;
  clear = λ q h. rw (get_or-replicate n (q / 8)) (rw (zero-div (2 ^ (7 - q % 8))) refl);
}

-- What a call needs to be read back: whole bytes are written at a byte boundary.
abbrev pub Proper : ℕ → Write → Type 0
Proper pos (bits n v) = Unit
Proper pos (bytes n v) = pos % 8 ≡ 0
Proper pos (text t) = (pos % 8 ≡ 0) × All IsByte t

abbrev pub ProperAll : ℕ → List Write → Type 0
ProperAll pos [] = Unit
ProperAll pos (w ∷ ws) = Proper pos w × ProperAll (pos + cost w) ws

-- The number that a call writes.
abbrev pub value : Write → ℕ
value (bits n v) = v % 2 ^ n
value (bytes n v) = be (be_bytes n v)
value (text t) = be t

abbrev copied : List ℕ → BitStream → BitStream
copied t s = record s {
  buf = overwrite (s.cur_pos / 8) t s.buf;
  cur_pos = s.cur_pos + length t * 8;
}

-- The stream after a call that fits.
abbrev pub wrote : Write → BitStream → BitStream
wrote (bits n v) s = record s { buf = write_loop n v s.buf s.cur_pos; cur_pos = s.cur_pos + n }
wrote (bytes n v) s = copied (be_bytes n v) s
wrote (text t) s = copied t s

write_data-copied :
    (t : List ℕ) (s : BitStream)
    → IsValid s
    → s.cur_pos + length t * 8 ≤ s.bit_len
    → write_data t s ≡ some (copied t s)
unfolding write_data
write_data-copied t s ok h = let w = ok.whole in ground arith

pub write-wrote :
    (w : Write) (s : BitStream)
    → IsValid s
    → s.cur_pos + cost w ≤ s.bit_len
    → write w s ≡ some (wrote w s)
unfolding write write_bits write_bytes cost
write-wrote (bits n v) s ok h = ground arith
write-wrote (bytes n v) s ok h =
    write_data-copied (be_bytes n v) s ok (omega (arith, length-be_bytes n v))
write-wrote (text t) s ok h = write_data-copied t s ok h

pub cur_pos-wrote : (w : Write) (s : BitStream) → (wrote w s).cur_pos ≡ s.cur_pos + cost w
unfolding cost
cur_pos-wrote (bits n v) s = refl
cur_pos-wrote (bytes n v) s = omega (arith, length-be_bytes n v)
cur_pos-wrote (text t) s = refl

pub bit_len-wrote : (w : Write) (s : BitStream) → (wrote w s).bit_len ≡ s.bit_len
bit_len-wrote (bits n v) s = refl
bit_len-wrote (bytes n v) s = refl
bit_len-wrote (text t) s = refl

pub length-wrote :
    (w : Write) (s : BitStream)
    → IsValid s
    → s.cur_pos + cost w ≤ s.bit_len
    → length (wrote w s).buf ≡ length s.buf
unfolding cost
length-wrote (bits n v) s ok h = length-write_loop n v s.buf s.cur_pos
length-wrote (bytes n v) s ok h =
    length-overwrite (s.cur_pos / 8) (be_bytes n v) s.buf
      (omega (arith, length-be_bytes n v, ok.whole))
length-wrote (text t) s ok h = length-overwrite (s.cur_pos / 8) t s.buf (omega (arith, ok.whole))

-- Bits outside of those written stay.
pub bit-wrote :
    (w : Write) (s : BitStream) (q : ℕ)
    → IsValid s
    → Proper s.cur_pos w
    → s.cur_pos + cost w ≤ s.bit_len
    → (q < s.cur_pos) ⊎ (s.cur_pos + cost w ≤ q)
    → bit (wrote w s).buf q ≡ bit s.buf q
unfolding cost
bit-wrote (bits n v) s q ok p h o = bit-write_loop n v s.buf s.cur_pos q (omega (arith, ok.whole)) o
bit-wrote (bytes n v) s q ok p h o =
    let l = length-be_bytes n v in
    bit-overwrite s.cur_pos q (be_bytes n v) s.buf p (omega (arith, l, ok.whole)) (rw l o)
bit-wrote (text t) s q ok p h o = bit-overwrite s.cur_pos q t s.buf p.0 (omega (arith, ok.whole)) o

pub bits_value-wrote :
    (w : Write) (s : BitStream)
    → IsValid s
    → Proper s.cur_pos w
    → s.cur_pos + cost w ≤ s.bit_len
    → bits_value (wrote w s).buf (cost w) s.cur_pos 0 ≡ value w
unfolding cost
bits_value-wrote (bits n v) s ok p h =
    bits_value-write_loop n v s.buf s.cur_pos 0 (omega (arith, ok.whole)) ok.clear ∙ omega arith
bits_value-wrote (bytes n v) s ok p h =
    let l = length-be_bytes n v in
    ap (λ k. bits_value (overwrite (s.cur_pos / 8) (be_bytes n v) s.buf) (k * 8) s.cur_pos 0)
      (sym l)
    ∙ bits_value-overwrite s.cur_pos (be_bytes n v) s.buf p (omega (arith, l, ok.whole))
        (be_bytes-IsByte n v)
bits_value-wrote (text t) s ok p h =
    bits_value-overwrite s.cur_pos t s.buf p.0 (omega (arith, ok.whole)) p.1

pub wrote-IsValid :
    (w : Write) (s : BitStream)
    → IsValid s
    → Proper s.cur_pos w
    → s.cur_pos + cost w ≤ s.bit_len
    → IsValid (wrote w s)
wrote-IsValid w s ok p h = record {
  whole = omega (arith, bit_len-wrote w s, length-wrote w s ok h, ok.whole);
  within = omega (arith, bit_len-wrote w s, cur_pos-wrote w s);
  clear = λ q l.
      bit-wrote w s q ok p h (inr (omega (arith, cur_pos-wrote w s)))
      ∙ ok.clear q (omega (arith, cur_pos-wrote w s));
}
