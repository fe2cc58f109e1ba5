-- ===== src/BitStream/RoundTrip.antt =====
-- The writes of src/bit_stream.h against `GetBits` of src/bit_buffer.h: calls in a row.
use tms.Prelude.{
  ℕ, zero, suc, ◌+◌, ◌*◌, ◌/◌, ◌%◌, ◌^◌, ◌<◌, ◌≤◌, List, [], ◌∷◌, inl, ◌≡◌, refl, ◌∙◌, arith,
  Option, none, some, length, take,
}
use tms.Prelude.{length-replicate, length-take}
use tms.BitBuffer.{BitBuffer, bit, get_bits}
use tms.BitBuffer.Value.{bits_value}
use tms.BitStream.{BitStream, Write, write_all, of_size, written, size_in_bytes}
use tms.BitStream.Bits.{get_or-take}
use tms.BitStream.Size.{cost, cost_all}
use tms.BitStream.Wrote.{
  IsValid, of_size-IsValid, ProperAll, value, wrote, write-wrote, cur_pos-wrote, bit_len-wrote,
  length-wrote, bit-wrote, bits_value-wrote, wrote-IsValid,
}

-- What of the values 64-bit variables show.
abbrev pub values : List Write → List ℕ
values [] = []
values (w ∷ ws) = value w % 2 ^ 64 ∷ values ws

abbrev pub widths : List Write → List ℕ
widths [] = []
widths (w ∷ ws) = cost w ∷ widths ws

abbrev pub wrote_all : List Write → BitStream → BitStream
wrote_all [] s = s
wrote_all (w ∷ ws) s = wrote_all ws (wrote w s)

pub bits_value-same :
    (cs bs : List ℕ) (n pos r : ℕ)
    → ((q : ℕ) → q < pos + n → bit cs q ≡ bit bs q)
    → bits_value cs n pos r ≡ bits_value bs n pos r
unfolding bits_value
bits_value-same cs bs zero pos r h = refl
bits_value-same cs bs (suc n) pos r h =
    rw (h pos (omega arith))
      (bits_value-same cs bs n (pos + 1) (r * 2 + bit bs pos) (λ q l. h q (omega arith)))

-- `GetBits` into 64-bit variables, in a row.
unfoldable pub read_fields : List ℕ → BitBuffer → Option (List ℕ × BitBuffer)
read_fields [] b = some ([], b)
read_fields (n ∷ ns) b = elim (get_bits 64 n b) [
  | none ↦ none
  | some (v, b') ↦ elim (read_fields ns b') [ none ↦ none | some (vs, end) ↦ some (v ∷ vs, end) ]
]

abbrev pub at : List ℕ → ℕ → BitBuffer
at bs pos = record { bytes = bs; bit_len = length bs * 8; cur_pos = pos }

pub cur_pos-wrote_all :
    (ws : List Write) (s : BitStream) → (wrote_all ws s).cur_pos ≡ s.cur_pos + cost_all ws
unfolding cost_all
cur_pos-wrote_all [] s = omega arith
cur_pos-wrote_all (w ∷ ws) s = omega (arith, cur_pos-wrote_all ws (wrote w s), cur_pos-wrote w s)

-- Calls that fit, each at a place it needs.
pub record Ready (ws : List Write) (s : BitStream) : Type 0 where
  pub valid : IsValid s
  pub proper : ProperAll s.cur_pos ws
  pub fits : s.cur_pos + cost_all ws ≤ s.bit_len

pub Ready-tail :
    (w : Write) (ws : List Write) (s : BitStream) → Ready (w ∷ ws) s → Ready ws (wrote w s)
unfolding cost_all
Ready-tail w ws s ok = record {
  valid = wrote-IsValid w s ok.valid ok.proper.0 (omega (arith, ok.fits));
  proper = rw (cur_pos-wrote w s) ok.proper.1;
  fits = omega (arith, ok.fits, cur_pos-wrote w s, bit_len-wrote w s);
}

length-wrote_all :
    (ws : List Write) (s : BitStream) → Ready ws s → length (wrote_all ws s).buf ≡ length s.buf
unfolding cost_all
length-wrote_all [] s ok = refl
length-wrote_all (w ∷ ws) s ok =
    length-wrote_all ws (wrote w s) (Ready-tail w ws s ok)
    ∙ length-wrote w s ok.valid (omega (arith, ok.fits))

pub write_all-wrote_all :
    (ws : List Write) (s : BitStream) → Ready ws s → write_all ws s ≡ some (wrote_all ws s)
unfolding write_all cost_all
write_all-wrote_all [] s ok = refl
write_all-wrote_all (w ∷ ws) s ok =
    rw (write-wrote w s ok.valid (omega (arith, ok.fits)), write_all)
      (write_all-wrote_all ws (wrote w s) (Ready-tail w ws s ok))

-- Calls leave what was written before.
bit-wrote_all :
    (ws : List Write) (s : BitStream) (q : ℕ)
    → Ready ws s
    → q < s.cur_pos
    → bit (wrote_all ws s).buf q ≡ bit s.buf q
unfolding cost_all
bit-wrote_all [] s q ok l = refl
bit-wrote_all (w ∷ ws) s q ok l =
    bit-wrote_all ws (wrote w s) q (Ready-tail w ws s ok) (omega (arith, cur_pos-wrote w s))
    ∙ bit-wrote w s q ok.valid ok.proper.0 (omega (arith, ok.fits)) (inl l)

pub field_value :
    (w : Write) (ws : List Write) (s : BitStream) (bs : List ℕ)
    → Ready (w ∷ ws) s
    → ((q : ℕ)
        → q < s.cur_pos + (cost w + cost_all ws)
        → bit bs q ≡ bit (wrote_all ws (wrote w s)).buf q)
    → bits_value bs (cost w) s.cur_pos 0 ≡ value w
unfolding cost_all
field_value w ws s bs ok same =
    bits_value-same bs (wrote w s).buf (cost w) s.cur_pos 0 (λ q l.
      same q (omega arith)
      ∙ bit-wrote_all ws (wrote w s) q (Ready-tail w ws s ok) (omega (arith, cur_pos-wrote w s)))
    ∙ bits_value-wrote w s ok.valid ok.proper.0 (omega (arith, ok.fits))

bit-take : (k q : ℕ) (xs : List ℕ) → q < k * 8 → bit (take k xs) q ≡ bit xs q
unfolding bit
bit-take k q xs h = rw (get_or-take k (q / 8) xs 0 (omega arith)) refl

pub Ready-start :
    (size : ℕ) (ws : List Write) → ProperAll 0 ws → cost_all ws ≤ size * 8 → Ready ws (of_size size)
unfolding of_size
Ready-start size ws p h = record { valid = of_size-IsValid size; proper = p; fits = omega arith }

pub length-written :
    (size : ℕ) (ws : List Write)
    → ProperAll 0 ws
    → cost_all ws ≤ size * 8
    → cost_all ws % 8 ≡ 0
    → length (written (wrote_all ws (of_size size))) * 8 ≡ cost_all ws
unfolding written size_in_bytes of_size
length-written size ws p h e =
    let s = wrote_all ws (of_size size) in
    omega (
      arith,
      length-take (s.cur_pos / 8) s.buf,
      cur_pos-wrote_all ws (of_size size),
      length-wrote_all ws (of_size size) (Ready-start size ws p h),
      length-replicate {A = ℕ} size 0,
    )

pub bit-written :
    (size : ℕ) (ws : List Write) (q : ℕ)
    → cost_all ws % 8 ≡ 0
    → q < cost_all ws
    → bit (written (wrote_all ws (of_size size))) q ≡ bit (wrote_all ws (of_size size)).buf q
unfolding written size_in_bytes of_size
bit-written size ws q e h =
    let s = wrote_all ws (of_size size) in
    bit-take (s.cur_pos / 8) q s.buf (omega (arith, cur_pos-wrote_all ws (of_size size)))
