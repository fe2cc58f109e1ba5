-- ===== src/Mp4/Box/Packed.antt =====
-- Bits that `WriteBits` of src/bit_stream.h writes change only the bytes they are for.
use tms.Prelude.{
  ℕ, zero, suc, ◌+◌, ◌-◌, ◌*◌, ◌/◌, ◌%◌, ◌≤◌, ◌<◌, none, some, List, [], ◌∷◌, ◌++◌, length, ◌≡◌,
  refl, sym, ap, ap₂, ◌∙◌, arith, set, get_or, append_assoc, ltb, if◌then◌else◌, false,
}
use tms.Prelude.{length-append, length-replicate}
use tms.BitStream.{BitStream, write_loop, write_bits, or_bit}
use tms.BitStream.Bits.{length-write_loop, step_bit, length-step_bit}
use tms.Mp4.Box.{write_packed, pack, total}
use tms.Mp4.Box.Stream.{stream, zeros, zeros-add, stream-≡}

get_or-between :
    (xs ys zs : List ℕ) (i : ℕ)
    → i < length ys
    → get_or (xs ++ (ys ++ zs)) (length xs + i) 0 ≡ get_or ys i 0
get_or-between [] [] zs i h = absurd (omega arith)
get_or-between [] (y ∷ ys) zs zero h = refl
get_or-between [] (y ∷ ys) zs (suc i) h =
    let e : 0 + suc i ≡ suc (0 + i) = omega arith in
    ap (λ k. get_or (y ∷ (ys ++ zs)) k 0) e ∙ get_or-between [] ys zs i (omega arith)
get_or-between (x ∷ xs) ys zs i h =
    let e : suc (length xs) + i ≡ suc (length xs + i) = omega arith in
    ap (λ k. get_or (x ∷ (xs ++ (ys ++ zs))) k 0) e ∙ get_or-between xs ys zs i h

set-between :
    (xs ys zs : List ℕ) (i b : ℕ)
    → i < length ys
    → set (xs ++ (ys ++ zs)) (length xs + i) b ≡ xs ++ (set ys i b ++ zs)
set-between [] [] zs i b h = absurd (omega arith)
set-between [] (y ∷ ys) zs zero b h = refl
set-between [] (y ∷ ys) zs (suc i) b h =
    let e : 0 + suc i ≡ suc (0 + i) = omega arith in
    ap (λ k. set (y ∷ (ys ++ zs)) k b) e ∙ ap (λ l. y ∷ l) (set-between [] ys zs i b (omega arith))
set-between (x ∷ xs) ys zs i b h =
    let e : suc (length xs) + i ≡ suc (length xs + i) = omega arith in
    ap (λ k. set (x ∷ (xs ++ (ys ++ zs))) k b) e ∙ ap (λ l. x ∷ l) (set-between xs ys zs i b h)

set_bit-between :
    (xs ys zs : List ℕ) (p : ℕ)
    → p < length ys * 8
    → let all = xs ++ (ys ++ zs) in
      let q = length xs * 8 + p in
      set all (q / 8) (or_bit (get_or all (q / 8) 0) (7 - q % 8))
      ≡ xs ++ (set ys (p / 8) (or_bit (get_or ys (p / 8) 0) (7 - p % 8)) ++ zs)
set_bit-between xs ys zs p h =
    let byte : (length xs * 8 + p) / 8 ≡ length xs + p / 8 = omega arith in
    let place : (length xs * 8 + p) % 8 ≡ p % 8 = omega arith in
    let all = xs ++ (ys ++ zs) in
    ap₂ (λ i k. set all i (or_bit (get_or all i 0) (7 - k))) byte place
    ∙ ap (λ b. set all (length xs + p / 8) (or_bit b (7 - p % 8)))
        (get_or-between xs ys zs (p / 8) (omega arith))
    ∙ set-between xs ys zs (p / 8) (or_bit (get_or ys (p / 8) 0) (7 - p % 8)) (omega arith)

step_bit-between :
    (n v : ℕ) (xs ys zs : List ℕ) (p : ℕ)
    → p < length ys * 8
    → step_bit n v (xs ++ (ys ++ zs)) (length xs * 8 + p) ≡ xs ++ (step_bit n v ys p ++ zs)
step_bit-between n v xs ys zs p h = ground (arith, set_bit-between xs ys zs p h)

write_loop-between :
    (n v : ℕ) (xs ys zs : List ℕ) (p : ℕ)
    → p + n ≤ length ys * 8
    → write_loop n v (xs ++ (ys ++ zs)) (length xs * 8 + p) ≡ xs ++ (write_loop n v ys p ++ zs)
unfolding write_loop
write_loop-between zero v xs ys zs p h = refl
write_loop-between (suc n) v xs ys zs p h =
    let e : length xs * 8 + p + 1 ≡ length xs * 8 + (p + 1) = omega arith in
    ap₂ (write_loop n v) (step_bit-between n v xs ys zs p (omega arith)) e
    ∙ write_loop-between n v xs (step_bit n v ys p) zs (p + 1)
        (omega (arith, length-step_bit n v ys p))

-- A stream in the middle of bits.
abbrev midway : List ℕ → List ℕ → ℕ → ℕ → BitStream
midway front bits room p = record {
  buf = front ++ (bits ++ zeros room);
  bit_len = (length front + length bits + room) * 8;
  cur_pos = length front * 8 + p;
}

midway-≡ :
    (front bits buf : List ℕ) (room p bit_len cur_pos : ℕ)
    → buf ≡ front ++ (bits ++ zeros room)
    → bit_len ≡ (length front + length bits + room) * 8
    → cur_pos ≡ length front * 8 + p
    → record { buf = buf; bit_len = bit_len; cur_pos = cur_pos } ≡ midway front bits room p
midway-≡ front bits buf room p bit_len cur_pos b l c = cc (b, l, c)

write_bits-midway :
    (n v : ℕ) (front bits : List ℕ) (room p : ℕ)
    → p + n ≤ length bits * 8
    → write_bits n v (midway front bits room p)
      ≡ some (midway front (write_loop n v bits p) room (p + n))
unfolding write_bits
write_bits-midway n v front bits room p h =
    let s = midway front bits room p in
    let fits : ltb s.bit_len (s.cur_pos + n) ≡ false = ground arith in
    let out = record s { buf = write_loop n v s.buf s.cur_pos; cur_pos = s.cur_pos + n } in
    ap (λ c. if c then none else some out) fits
    ∙ ap some (
        midway-≡ front (write_loop n v bits p) (write_loop n v s.buf s.cur_pos) room (p + n)
          s.bit_len (s.cur_pos + n) (write_loop-between n v front bits (zeros room) p h)
          (omega (arith, length-write_loop n v bits p)) (omega arith))

length-pack : (fs : List (ℕ × ℕ)) (bits : List ℕ) (p : ℕ) → length (pack fs bits p) ≡ length bits
unfolding pack
length-pack [] bits p = refl
length-pack ((n, v) ∷ fs) bits p =
    length-pack fs (write_loop n v bits p) (p + n) ∙ length-write_loop n v bits p

write_packed-midway :
    (fs : List (ℕ × ℕ)) (front bits : List ℕ) (room p : ℕ)
    → p + total fs ≤ length bits * 8
    → write_packed fs (midway front bits room p)
      ≡ some (midway front (pack fs bits p) room (p + total fs))
unfolding write_packed pack
write_packed-midway [] front bits room p h =
    let e : p ≡ p + 0 = omega arith in ap (λ k. some (midway front bits room k)) e
write_packed-midway ((n, v) ∷ fs) front bits room p h =
    let e : p + n + total fs ≡ p + (n + total fs) = omega arith in
    let next = write_loop n v bits p in
    ap (λ r. elim r [ none ↦ none | some s ↦ write_packed fs s ])
      (write_bits-midway n v front bits room p (omega arith))
    ∙ write_packed-midway fs front next room (p + n) (omega (arith, length-write_loop n v bits p))
    ∙ ap (λ k. some (midway front (pack fs next (p + n)) room k)) e

-- Calls of `WriteBits` that fill whole bytes, with room for them.
pub write_packed-stream :
    (fs : List (ℕ × ℕ)) (front : List ℕ) (room : ℕ)
    → total fs % 8 ≡ 0
    → let bytes = pack fs (zeros (total fs / 8)) 0 in
      write_packed fs (stream front (length bytes + room)) ≡ some (stream (front ++ bytes) room)
write_packed-stream fs front room whole =
    let empty = zeros (total fs / 8) in
    let bytes = pack fs empty 0 in
    let z = length-replicate {A = ℕ} (total fs / 8) 0 in
    let l = length-pack fs empty 0 in
    let start : stream front (length bytes + room) ≡ midway front empty room 0 =
      midway-≡ front empty (front ++ zeros (length bytes + room)) room 0
        ((length front + (length bytes + room)) * 8) (length front * 8)
        (ap (λ k. front ++ zeros (k + room)) (l ∙ z)
          ∙ ap (λ xs. front ++ xs) (zeros-add (total fs / 8) room))
        (omega arith) (omega arith) in
    let end : midway front bytes room (0 + total fs) ≡ stream (front ++ bytes) room =
      stream-≡ (front ++ bytes) (front ++ (bytes ++ zeros room)) room
        ((length front + length bytes + room) * 8) (length front * 8 + (0 + total fs))
        (sym (append_assoc front bytes (zeros room))) (omega (arith, length-append front bytes))
        (omega (arith, length-append front bytes)) in
    ap (write_packed fs) start
    ∙ write_packed-midway fs front empty room 0 (omega arith)
    ∙ ap some end
