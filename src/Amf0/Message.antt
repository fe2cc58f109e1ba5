-- ===== src/Amf0/Message.antt =====
-- A message of several values, written by `Amf0::Encode` and read by `Amf0::Decode`.
use tms.Prelude.{ℕ, zero, suc, ◌+◌, ◌<◌, some, true}
use tms.Prelude.{List, [], ◌∷◌, ◌++◌, ◌≡◌, refl, sym, ap, ◌∙◌, arith, length, length-append, All}
use tms.Prelude.{append_assoc, append-nil}
use tms.Any.{Any, Fields, int, double, string, vector, map, null, ecma, nullptr, no_fields, field}
use tms.BitBuffer.{BitBuffer, bytes_left, get_bytes, of_bytes}
use tms.BitBuffer.Aligned.{at, bits_left-at, get_bytes-at_short}
use tms.IoBuffer.{Allocator, IoBuffer, contents}
use tms.IoBuffer.Valid.{HasMemory, HasRoom}
use tms.Amf0.Encode.{ok, Out, encode, encode_all}
use tms.Amf0.Decode.{got, decode, enough, Command, decode_loop, decode_command}
use tms.Amf0.Wire.{marker, body, IsEncodable, AreEncodable, IsPlain, ArePlain, as_read}
use tms.Amf0.Emit.{Emits, emits, encode_emits, after_succeed, room_for}
use tms.Amf0.RoundTrip.{type-at, marker-lt, decode-body}
use mathlib.Core.List

abbrev pub message : List Any → List ℕ
message [] = []
message (v ∷ vs) = marker v ∷ body v ++ message vs

loop_step :
    (f t : ℕ) (c : Command) (v : Any) (b b' b'' : BitBuffer)
    → get_bytes 32 1 b ≡ (true, t, b')
    → decode (enough b') t b' ≡ got v b''
    → decode_loop (suc f) c b ≡ decode_loop f (record c { values = c.values ++ (v ∷ []) }) b''
unfolding decode_loop
loop_step f t c v b b' b'' e d =
    let there : (get_bytes 32 1 b).0 ≡ true = ap (λ r. r.0) e in
    let read : decode (enough (get_bytes 32 1 b).2) (get_bytes 32 1 b).1 (get_bytes 32 1 b).2
        ≡ got v b'' =
      ap (λ r. decode (enough r.2) r.1 r.2) e ∙ d in
    rw (there, decode_loop) (rw (read, decode_loop) refl)

loop_end : (f : ℕ) (c : Command) (pre : List ℕ) → decode_loop (suc f) c (at pre []) ≡ some c
unfolding decode_loop
loop_end f c pre = rw (get_bytes-at_short 32 1 pre [] (omega arith), decode_loop)

loop-message :
    (vs : List Any) (f : ℕ) (c : Command) (pre : List ℕ)
    → All IsPlain vs
    → length (message vs) < f
    → decode_loop f c (at pre (message vs))
      ≡ some (record c { values = c.values ++ List.map as_read vs })
loop-message vs zero c pre h l = absurd (omega arith)
loop-message [] (suc f) c pre h l =
    loop_end f c pre ∙ ap (λ t. some (record c { values = t })) (sym (append-nil c.values))
loop-message (v ∷ vs) (suc f) c pre (hv, h) l =
    loop_step f (marker v) c (as_read v) (at pre (marker v ∷ body v ++ message vs))
      (at (pre ++ (marker v ∷ [])) (body v ++ message vs))
      (at ((pre ++ (marker v ∷ [])) ++ body v) (message vs))
      (type-at pre (body v ++ message vs) (marker v) (omega (arith, marker-lt v)))
      (decode-body v (enough (at (pre ++ (marker v ∷ [])) (body v ++ message vs)))
        (pre ++ (marker v ∷ [])) (message vs) hv
        (omega (
          arith,
          bits_left-at (pre ++ (marker v ∷ [])) (body v ++ message vs),
          length-append (body v) (message vs),
        )))
    ∙ loop-message vs f (record c { values = c.values ++ (as_read v ∷ []) })
        ((pre ++ (marker v ∷ [])) ++ body v) h (omega (arith, length-append (body v) (message vs)))
    ∙ ap (λ t. some (record c { values = t }))
        (append_assoc c.values (as_read v ∷ []) (List.map as_read vs))

-- `Decode` reads the bytes of plain values back, one after the other, and returns 0: each integer
-- as a double, each null as a NULL pointer, all else as it was.
pub decode_command-message :
    (vs : List Any)
    → All IsPlain vs
    → decode_command (message vs) ≡ some (record { code = ok; values = List.map as_read vs })
unfolding decode_command bytes_left of_bytes
decode_command-message vs h =
    loop-message vs (bytes_left (of_bytes (message vs)) + 1) (record { code = ok; values = [] }) []
      h (omega (arith, bits_left-at [] (message vs)))

mutual
  plain-IsEncodable : (v : Any) → IsPlain v → IsEncodable v
  plain-IsEncodable (int n) h = tt
  plain-IsEncodable (double d) h = tt
  plain-IsEncodable (string s) h = tt
  plain-IsEncodable (vector v) h = h
  plain-IsEncodable (map fs) h = fields-AreEncodable fs h
  plain-IsEncodable null h = tt
  plain-IsEncodable (ecma fs) h = absurd h
  plain-IsEncodable nullptr h = h

  fields-AreEncodable : (fs : Fields) → ArePlain fs → AreEncodable fs
  fields-AreEncodable no_fields h = tt
  fields-AreEncodable (field k v fs) (hk, hv, h) =
      (plain-IsEncodable v hv, fields-AreEncodable fs h)

module _ (heap : Allocator) (mem : HasMemory heap) where
  all_emits :
      (vs : List Any) (k : ℕ) (b : IoBuffer)
      → All IsEncodable vs
      → HasRoom (length (message vs) + k) b
      → Emits k b (message vs) (encode_all heap vs b)
  unfolding encode_all
  all_emits [] k b h room =
      emits (sym (append-nil (contents b)))
        (record { valid = room.valid; below = omega (arith, room.below) })
  all_emits (v ∷ vs) k b (hv, h) room =
      after_succeed (length (message vs) + k) k (marker v ∷ body v) (message vs) b (encode heap v b)
        (encode_all heap vs)
        (encode_emits heap mem v (length (message vs) + k) b hv
          (room_for (marker v ∷ body v) (message vs) k b room))
        λ b' room'. all_emits vs k b' h room'

  All-plain : (vs : List Any) → All IsPlain vs → All IsEncodable vs
  All-plain [] h = tt
  All-plain (v ∷ vs) (hv, h) = (plain-IsEncodable v hv, All-plain vs h)

  read_back :
      (vs : List Any) (b : IoBuffer) (k : ℕ) (r : Out)
      → contents b ≡ []
      → All IsPlain vs
      → Emits k b (message vs) r
      → (b' : IoBuffer) × (r ≡ some (ok, b'))
        × (decode_command (contents b') ≡ some (record { code = ok; values = List.map as_read vs }))
  read_back vs b k r e h (emits {b'} c room) =
      (b', refl, ap decode_command (c ∙ ap (λ t. t ++ message vs) e) ∙ decode_command-message vs h)

  -- Where an empty output has room for them, `Encode` of plain values one after the other
  -- succeeds, and `Decode` of what the output then holds returns 0 with those values: each integer
  -- as a double, each null as a NULL pointer, all else as it was.
  pub decode-encode_all :
      (vs : List Any) (b : IoBuffer)
      → contents b ≡ []
      → All IsPlain vs
      → HasRoom (length (message vs)) b
      → (b' : IoBuffer) × (encode_all heap vs b ≡ some (ok, b'))
        × (decode_command (contents b') ≡ some (record { code = ok; values = List.map as_read vs }))
  decode-encode_all vs b e h room = read_back vs b 0 (encode_all heap vs b) e h (
      all_emits vs 0 b (All-plain vs h)
        (record { valid = room.valid; below = omega (arith, room.below) }))
