-- ===== src/Mp4/Box/Stream.antt =====
-- A `BitStream` with whole bytes written, and what calls of src/bit_stream.h make of it.
use tms.Prelude.{
  ℕ, zero, suc, ◌+◌, ◌*◌, ◌/◌, none, some, List, [], ◌∷◌, ◌++◌, length, replicate, ◌≡◌, refl, sym,
  ap, ◌∙◌, arith, be_bytes, drop, append_assoc, append-nil, leb, if◌then◌else◌, true, false,
}
use tms.Prelude.{
  length-append, length-replicate, length-be_bytes, take-length_append, drop-length_append,
}
use tms.BitStream.{BitStream, overwrite, write_bytes, write_data, modify_bytes, of_size}
use tms.Mp4.Box.{write_numbers, number_bytes}

abbrev pub zeros : ℕ → List ℕ
zeros n = replicate n 0

-- A stream with whole bytes written and `room` bytes left.
abbrev pub stream : List ℕ → ℕ → BitStream
stream front room = record {
  buf = front ++ zeros room;
  bit_len = (length front + room) * 8;
  cur_pos = length front * 8;
}

pub zeros-add : (n k : ℕ) → zeros (n + k) ≡ zeros n ++ zeros k
zeros-add zero k = ap zeros (omega arith)
zeros-add (suc n) k =
    let e : suc n + k ≡ suc (n + k) = omega arith in ap zeros e ∙ ap (λ xs. 0 ∷ xs) (zeros-add n k)

drop-length_add : (xs ys : List ℕ) (n : ℕ) → drop (length xs + n) (xs ++ ys) ≡ drop n ys
drop-length_add [] ys n = ap (λ m. drop m ys) (omega arith)
drop-length_add (x ∷ xs) ys n =
    let e : suc (length xs) + n ≡ suc (length xs + n) = omega arith in
    ap (λ m. drop m (x ∷ (xs ++ ys))) e ∙ drop-length_add xs ys n

-- Bytes put in the place of as many.
overwrite_between :
    (front new old rest : List ℕ)
    → length old ≡ length new
    → overwrite (length front) new (front ++ (old ++ rest)) ≡ front ++ (new ++ rest)
unfolding overwrite
overwrite_between front new old rest e =
    ap (λ xs. xs ++ (new ++ drop (length front + length new) (front ++ (old ++ rest))))
      (take-length_append front (old ++ rest))
    ∙ ap (λ xs. front ++ (new ++ xs))
        (drop-length_add front (old ++ rest) (length new)
          ∙ ap (λ n. drop n (old ++ rest)) (sym e)
          ∙ drop-length_append old rest)

pub stream-≡ :
    (front buf : List ℕ) (room bit_len cur_pos : ℕ)
    → buf ≡ front ++ zeros room
    → bit_len ≡ (length front + room) * 8
    → cur_pos ≡ length front * 8
    → record { buf = buf; bit_len = bit_len; cur_pos = cur_pos } ≡ stream front room
stream-≡ front buf room bit_len cur_pos b l c = cc (b, l, c)

pub of_size-stream : (n : ℕ) → of_size n ≡ stream [] n
unfolding of_size
of_size-stream n = stream-≡ [] (zeros n) n (n * 8) 0 refl (omega arith) (omega arith)

-- `WriteData` and `WriteBytes`, with room for what they write.
pub write_data-stream :
    (t front : List ℕ) (room : ℕ)
    → write_data t (stream front (length t + room)) ≡ some (stream (front ++ t) room)
unfolding write_data
write_data-stream t front room =
    let s = stream front (length t + room) in
    let n = length-append front (zeros (length t + room)) in
    let z = length-replicate {A = ℕ} (length t + room) 0 in
    let fits : leb (s.cur_pos / 8 + length t) (length s.buf) ≡ true = ground arith in
    let here : length front * 8 / 8 ≡ length front = omega arith in
    let bytes : overwrite (length front * 8 / 8) t s.buf ≡ (front ++ t) ++ zeros room =
      ap (λ k. overwrite k t s.buf) here
      ∙ ap (λ xs. overwrite (length front) t (front ++ xs)) (zeros-add (length t) room)
      ∙ overwrite_between front t (zeros (length t)) (zeros room) (length-replicate (length t) 0)
      ∙ sym (append_assoc front t (zeros room)) in
    ap
      (λ c.
        if c
        then some (record s {
          buf = overwrite (s.cur_pos / 8) t s.buf;
          cur_pos = s.cur_pos + length t * 8;
        })
        else none)
      fits
    ∙ ap some (
        stream-≡ (front ++ t) (overwrite (length front * 8 / 8) t s.buf) room s.bit_len
          (s.cur_pos + length t * 8) bytes (omega (arith, length-append front t))
          (omega (arith, length-append front t)))

pub write_bytes-stream :
    (n v : ℕ) (front : List ℕ) (room : ℕ)
    → write_bytes n v (stream front (n + room)) ≡ some (stream (front ++ be_bytes n v) room)
unfolding write_bytes
write_bytes-stream n v front room =
    ap (λ k. write_data (be_bytes n v) (stream front (k + room))) (sym (length-be_bytes n v))
    ∙ write_data-stream (be_bytes n v) front room

pub modify_bytes-stream :
    (n v : ℕ) (front old rest : List ℕ) (room : ℕ)
    → length old ≡ suc n
    → modify_bytes (length front) (suc n) v (stream (front ++ (old ++ rest)) room)
      ≡ some (stream (front ++ (be_bytes (suc n) v ++ rest)) room)
unfolding modify_bytes
modify_bytes-stream n v front old rest room e =
    let all = front ++ (old ++ rest) in
    let s = stream all room in
    let new = be_bytes (suc n) v in
    let l = length-append front (old ++ rest) in
    let l' = length-append old rest in
    let m = length-append front (new ++ rest) in
    let m' = length-append new rest in
    let z = length-append all (zeros room) in
    let past : leb (s.cur_pos / 8) (length front) ≡ false = ground arith in
    let fits : leb (length front + suc n) (length s.buf) ≡ true = ground arith in
    let put : overwrite (length front) new s.buf ≡ (front ++ (new ++ rest)) ++ zeros room =
      ap (overwrite (length front) new) (
        append_assoc front (old ++ rest) (zeros room)
        ∙ ap (λ xs. front ++ xs) (append_assoc old rest (zeros room)))
      ∙ overwrite_between front new old (rest ++ zeros room) (e ∙ sym (length-be_bytes (suc n) v))
      ∙ ap (λ xs. front ++ xs) (sym (append_assoc new rest (zeros room)))
      ∙ sym (append_assoc front (new ++ rest) (zeros room)) in
    let out = some (record s { buf = overwrite (length front) new s.buf }) in
    ap (λ c. if c then none else if leb (length front + suc n) (length s.buf) then out else none)
      past
    ∙ ap (λ c. if c then out else none) fits
    ∙ ap some (
        stream-≡ (front ++ (new ++ rest)) (overwrite (length front) new s.buf) room s.bit_len
          s.cur_pos put (omega (arith, l, l', m, m', length-be_bytes (suc n) v, e))
          (omega (arith, l, l', m, m', length-be_bytes (suc n) v, e)))

pub write_numbers-stream :
    (ns : List (ℕ × ℕ)) (front : List ℕ) (room : ℕ)
    → write_numbers ns (stream front (length (number_bytes ns) + room))
      ≡ some (stream (front ++ number_bytes ns) room)
unfolding write_numbers number_bytes
write_numbers-stream [] front room =
    let e : 0 + room ≡ room = omega arith in
    ap (λ k. some (stream front k)) e ∙ ap (λ xs. some (stream xs room)) (sym (append-nil front))
write_numbers-stream ((n, v) ∷ ns) front room =
    let left = length (number_bytes ns) + room in
    let split : length (be_bytes n v ++ number_bytes ns) + room ≡ n + left =
      omega (arith, length-append (be_bytes n v) (number_bytes ns), length-be_bytes n v) in
    ap (λ k. elim (write_bytes n v (stream front k)) [ none ↦ none | some s ↦ write_numbers ns s ])
      split
    ∙ ap (λ r. elim r [ none ↦ none | some s ↦ write_numbers ns s ])
        (write_bytes-stream n v front left)
    ∙ write_numbers-stream ns (front ++ be_bytes n v) room
    ∙ ap (λ xs. some (stream xs room)) (append_assoc front (be_bytes n v) (number_bytes ns))
