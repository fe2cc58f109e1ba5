-- ===== src/Amf0/Array.antt =====
-- What `DecodeEcmaArray` makes of an array, and what becomes of one that `EncodeEcmaArray` wrote.
use tms.Prelude.{ℕ, zero, suc, ◌-◌, ◌^◌, ◌<◌, true, false}
use tms.Prelude.{List, [], ◌∷◌, ◌++◌, ◌≡◌, refl, sym, ap, ap₂, ◌∙◌, arith, length}
use tms.Prelude.{append_assoc, append-nil, be, be_bytes, be_bytes-IsByte, be-be_bytes, ◌==◌}
use tms.Any.{Any, Fields, map, ecma, no_fields, field, insert}
use tms.BitBuffer.{BitBuffer, get_bytes}
use tms.BitBuffer.Aligned.{at, get_bytes-at}
use tms.Amf0.Decode.{got, value, read_entry, store_value, decode, decode_ecma_loop}
use tms.Amf0.Wire.{marker, body, entries, ArePlain, as_read, fields_as_read}
use tms.Amf0.RoundTrip.{enough-at, read_entry_value, entry_length, entry_ahead, marker-lt, join}
use tms.Amf0.RoundTrip.{join-insert, join-no_fields, decode-body}
use native.Mathlib.Nat.{mod-eq_of_lt}

abbrev pub count : Fields → ℕ
count no_fields = 0
count (field k v fs) = suc (count fs)

u32-at :
    (pre rest : List ℕ) (n : ℕ)
    → n < 2 ^ 32
    → get_bytes 32 4 (at pre (be_bytes 4 n ++ rest)) ≡ (true, n, at (pre ++ be_bytes 4 n) rest)
u32-at pre rest n h =
    let v : be (be_bytes 4 n) ≡ n = be-be_bytes 4 n ∙ mod-eq_of_lt h in
    get_bytes-at 32 pre (be_bytes 4 n) rest (be_bytes-IsByte 4 n) (rw v (omega arith)) (rw v h)
    ∙ ap (λ (x : ℕ). (true, x, at (pre ++ be_bytes 4 n) rest)) v

array_round :
    (f t left : ℕ) (fs : Fields) (k : List ℕ) (v : Any) (b b' b'' : BitBuffer)
    → read_entry b ≡ value k t b'
    → decode f t b' ≡ got v b''
    → decode_ecma_loop (suc f) (suc left) fs b ≡ decode_ecma_loop f left (insert k v fs) b''
unfolding decode store_value
array_round f t left fs k v b b' b'' e d =
    let one_less : suc left - 1 ≡ left = omega arith in
    let more : (suc left == 0) ≡ false = ground arith in
    rw (more, decode_ecma_loop)
      (rw (e, decode_ecma_loop)
        (rw d (ap (λ x. decode_ecma_loop f x (insert k v fs) b'') one_less)))

array_done :
    (f : ℕ) (fs : Fields) (b : BitBuffer) → decode_ecma_loop (suc f) 0 fs b ≡ got (map fs) b
unfolding decode
array_done f fs b = refl

array-Reads :
    (fs : Fields) (f : ℕ) (acc : Fields) (pre rest : List ℕ)
    → ArePlain fs
    → length (entries fs) < f
    → decode_ecma_loop f (count fs) acc (at pre (entries fs ++ rest))
      ≡ got (map (join acc (fields_as_read fs))) (at (pre ++ entries fs) rest)
unfolding body as_read
array-Reads fs zero acc pre rest h l = absurd (omega arith)
array-Reads no_fields (suc f) acc pre rest h l =
    array_done f acc (at pre rest)
    ∙ ap₂ (λ t u. got (map t) (at u rest)) (sym (join-no_fields acc)) (sym (append-nil pre))
array-Reads (field k v fs) (suc f) acc pre rest (hk, hv, h) l =
    let l2 : List ℕ = be_bytes 2 (length k) in
    let front : List ℕ = ((pre ++ l2) ++ k) ++ (marker v ∷ []) in
    let size = entry_length k v fs in
    ap (λ t. decode_ecma_loop (suc f) (suc (count fs)) acc (at pre t))
      (entry_ahead l2 k (body v) (entries fs) rest (marker v))
    ∙ array_round f (marker v) (count fs) acc k (as_read v)
        (at pre (l2 ++ (k ++ (marker v ∷ (body v ++ (entries fs ++ rest))))))
        (at front (body v ++ (entries fs ++ rest))) (at (front ++ body v) (entries fs ++ rest))
        (read_entry_value pre k (body v ++ (entries fs ++ rest)) (marker v) hk (marker-lt v))
        (decode-body v f front (entries fs ++ rest) hv (omega (arith, size)))
    ∙ array-Reads fs f (insert k (as_read v) acc) (front ++ body v) rest h (omega (arith, size))
    ∙ ap₂ (λ t u. got (map t) (at u rest)) (join-insert acc (fields_as_read fs) k (as_read v))
        (behind pre l2 k (body v) (entries fs) (marker v))
  where
    behind :
        (pre l k b e : List ℕ) (m : ℕ)
        → ((((pre ++ l) ++ k) ++ (m ∷ [])) ++ b) ++ e ≡ pre ++ (l ++ (k ++ (m ∷ b ++ e)))
    behind pre l k b e m = simp append_assoc

array_start :
    (f n : ℕ) (pre rest : List ℕ)
    → n < 2 ^ 32
    → decode (suc (suc f)) 8 (at pre (be_bytes 4 n ++ rest))
      ≡ decode_ecma_loop f n no_fields (at (pre ++ be_bytes 4 n) rest)
unfolding decode
array_start f n pre rest h =
    rw (enough-at pre (be_bytes 4 n) rest 4 refl) (rw (u32-at pre rest n h))

-- An ECMA array with its true count is read whole, and the reader stops behind its last entry:
-- what follows, which by the format is the end marker, is not looked at.
pub decode-array :
    (fs : Fields) (f : ℕ) (pre rest : List ℕ)
    → ArePlain fs
    → count fs < 2 ^ 32
    → length (entries fs) < f
    → decode (suc (suc f)) 8 (at pre (be_bytes 4 (count fs) ++ (entries fs ++ rest)))
      ≡ got (map (fields_as_read fs)) (at ((pre ++ be_bytes 4 (count fs)) ++ entries fs) rest)
decode-array fs f pre rest h c l =
    array_start f (count fs) pre (entries fs ++ rest) c
    ∙ array-Reads fs f no_fields (pre ++ be_bytes 4 (count fs)) rest h l

-- Whatever entries an ECMA array has, `Decode` makes an empty map of the bytes that `Encode` writes
-- for it, and stands before its first entry.
pub decode-body_ecma :
    (fs : Fields) (f : ℕ) (pre rest : List ℕ)
    → decode (suc (suc (suc f))) (marker (ecma fs)) (at pre (body (ecma fs) ++ rest))
      ≡ got (map no_fields) (at (pre ++ be_bytes 4 0) ((entries fs ++ be_bytes 2 0) ++ rest))
unfolding body
decode-body_ecma fs f pre rest =
    array_start (suc f) 0 pre ((entries fs ++ be_bytes 2 0) ++ rest) (omega arith)
    ∙ array_done f no_fields (at (pre ++ be_bytes 4 0) ((entries fs ++ be_bytes 2 0) ++ rest))
