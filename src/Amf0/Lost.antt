-- ===== src/Amf0/Lost.antt =====
-- What `Amf0::Decode` makes of an ECMA array that `Amf0::Encode` wrote.
use tms.Prelude.{
  ℕ, suc, some, [], ◌∷◌, ◌++◌, ◌≡◌, refl, sym, ap, ◌∙◌, arith, length, drop, be_bytes, append-nil,
}
use tms.Any.{Fields, map, ecma, no_fields}
use tms.BitBuffer.Aligned.{at}
use tms.IoBuffer.{Allocator, IoBuffer, contents}
use tms.IoBuffer.Valid.{HasMemory, HasRoom}
use tms.Amf0.Encode.{ok, Out, encode}
use tms.Amf0.Decode.{got, decode}
use tms.Amf0.Wire.{marker, body, entries, AreEncodable}
use tms.Amf0.Emit.{Emits, emits, encode_emits}
use tms.Amf0.Array.{decode-body_ecma}

module _ (heap : Allocator) (mem : HasMemory heap) where
  read_lost :
      (fs : Fields) (f : ℕ) (b : IoBuffer) (r : Out)
      → contents b ≡ []
      → Emits 0 b (marker (ecma fs) ∷ body (ecma fs)) r
      → (b' : IoBuffer) × (r ≡ some (ok, b'))
        × (decode (suc (suc (suc f))) 8 (at (8 ∷ []) (drop 1 (contents b')))
            ≡ got (map no_fields) (at (8 ∷ be_bytes 4 0) (entries fs ++ be_bytes 2 0)))
  read_lost fs f b r e (emits {b'} c room) = (
    b',
    refl,
    ap (λ t. decode (suc (suc (suc f))) 8 (at (8 ∷ []) (drop 1 t)))
          (c ∙ ap (λ t. t ++ (8 ∷ body (ecma fs))) e)
        ∙ ap (λ t. decode (suc (suc (suc f))) 8 (at (8 ∷ []) t)) (sym (append-nil (body (ecma fs))))
        ∙ decode-body_ecma fs f (8 ∷ []) []
        ∙ ap (λ t. got (map no_fields) (at (8 ∷ be_bytes 4 0) t))
            (append-nil (entries fs ++ be_bytes 2 0)),
  )

  -- `Encode` of an ECMA array into an empty output with room for it succeeds; but of the bytes that it
  -- leaves, `Decode` behind the marker makes an empty map, whatever entries the array has, and stands
  -- before the first of them: they are in the output, and are not read as the array's.
  pub decode-encode_ecma :
      (fs : Fields) (f : ℕ) (b : IoBuffer)
      → AreEncodable fs
      → contents b ≡ []
      → HasRoom (length (marker (ecma fs) ∷ body (ecma fs))) b
      → (b' : IoBuffer) × (encode heap (ecma fs) b ≡ some (ok, b'))
        × (decode (suc (suc (suc f))) 8 (at (8 ∷ []) (drop 1 (contents b')))
            ≡ got (map no_fields) (at (8 ∷ be_bytes 4 0) (entries fs ++ be_bytes 2 0)))
  decode-encode_ecma fs f b h e room = read_lost fs f b (encode heap (ecma fs) b) e (
      encode_emits heap mem (ecma fs) 0 b h
        (record { valid = room.valid; below = omega (arith, room.below) }))
