-- ===== src/Amf0/Masked.antt =====
-- An error within an object, and the end marker that is written after it.
use tms.Prelude.{ℕ, ◌+◌, some, List, [], ◌∷◌, ◌++◌, arith, length, be_bytes}
use tms.Any.{Anys, Fields, vector, map, field}
use tms.IoBuffer.{Allocator, IoBuffer}
use tms.IoBuffer.Valid.{HasMemory, HasRoom}
use tms.Amf0.Encode.{failed, Out, succeed, regardless, encode_type, encode, encode_object}
use tms.Amf0.Emit.{
  Emits, emits, Emitter, join, room_for, type_Emitter, u16_Emitter, text_Emitter, after_regardless,
}

-- A step that succeeds, in front of one whose result the next call overwrites.
through :
    (j k : ℕ) (xs ys : List ℕ) (b : IoBuffer) (r : Out) (f g : IoBuffer → Out)
    → Emits j b xs r
    → ((b' : IoBuffer) → HasRoom j b' → Emits k b' ys (regardless (f b') g))
    → Emits k b (xs ++ ys) (regardless (succeed r f) g)
unfolding succeed
through j k xs ys b r f g (emits {b'} e h) p = join k xs ys b b' (regardless (f b') g) e (p b' h)

-- A failed step, in front of one whose result the next call overwrites.
over_failure :
    (k : ℕ) (ys : List ℕ) (b : IoBuffer) (f g : IoBuffer → Out)
    → Emits k b ys (g b)
    → Emits k b ys (regardless (succeed (some (failed, b)) f) g)
unfolding succeed regardless
over_failure k ys b f g e = e

module _ (heap : Allocator) (mem : HasMemory heap) where
  object_fails :
      (key : List ℕ) (v : Anys) (fs : Fields) (k : ℕ) (b : IoBuffer)
      → HasRoom (length (be_bytes 2 (length key) ++ (key ++ (9 ∷ []))) + k) b
      → Emits k b
          (be_bytes 2 (length key) ++ (key ++ (9 ∷ [])))
          (regardless (encode_object heap (field key (vector v) fs) b) (encode_type heap 9))
  unfolding encode Emitter
  object_fails key v fs k b h =
      through (length (key ++ (9 ∷ [])) + k) k (be_bytes 2 (length key)) (key ++ (9 ∷ [])) b _ _
        (encode_type heap 9)
        (u16_Emitter heap mem (length key) (length (key ++ (9 ∷ [])) + k) b
          (room_for (be_bytes 2 (length key)) (key ++ (9 ∷ [])) k b h))
        λ b₁ h₁.
          through (1 + k) k key (9 ∷ []) b₁ _ _ (encode_type heap 9)
            (text_Emitter heap mem key (1 + k) b₁ (room_for key (9 ∷ []) k b₁ h₁))
            λ b₂ h₂.
              over_failure k (9 ∷ []) b₂ _ (encode_type heap 9)
                (type_Emitter heap mem 9 (omega arith) k b₂ h₂)

  -- `Encode` of an object whose first value is a vector, which has no form, returns 0 all the same:
  -- it writes the object up to the key of that value and the end marker, without the empty key in
  -- front of it, and leaves out what follows.
  pub encode-vector_field :
      (key : List ℕ) (v : Anys) (fs : Fields) (k : ℕ) (b : IoBuffer)
      → HasRoom (length (3 ∷ (be_bytes 2 (length key) ++ (key ++ (9 ∷ [])))) + k) b
      → Emits k b
          (3 ∷ (be_bytes 2 (length key) ++ (key ++ (9 ∷ []))))
          (encode heap (map (field key (vector v) fs)) b)
  unfolding encode Emitter
  encode-vector_field key v fs k b h =
      let rest : List ℕ = be_bytes 2 (length key) ++ (key ++ (9 ∷ [])) in
      after_regardless (length rest + k) k (3 ∷ []) rest b (encode_type heap 3 b) _
        (type_Emitter heap mem 3 (omega arith) (length rest + k) b (room_for (3 ∷ []) rest k b h))
        λ b₁ h₁. object_fails key v fs k b₁ h₁
