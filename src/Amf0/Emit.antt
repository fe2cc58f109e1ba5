-- ===== src/Amf0/Emit.antt =====
-- `Amf0::Encode` appends to its output exactly the bytes of the format.
use tms.Prelude.{ℕ, ◌+◌, ◌<◌, some, true}
use tms.Prelude.{List, [], ◌∷◌, ◌++◌, ◌≡◌, refl, sym, ap, ◌∙◌, arith, length, length-append}
use tms.Prelude.{append_assoc, be_bytes, length-be_bytes, ◌==◌}
use tms.Any.{Any, Fields, int, double, string, vector, map, null, ecma, nullptr, no_fields, field}
use tms.Any.{double_of_int}
use tms.IoBuffer.{
  Allocator, IoBuffer, Ret, ret, error, contents, write, write_u8, write_u16, write_u32, write_u64,
}
use tms.IoBuffer.Valid.{HasMemory, HasRoom, write_lem}
use tms.Amf0.Encode.{ok, Out, check, succeed, regardless, encode_type, encode_number}
use tms.Amf0.Encode.{encode_string, encode, encode_object, encode_ecma_fields}
use tms.Amf0.Wire.{marker, body, entries, object_end, IsEncodable, AreEncodable}
use mathlib.Core.Path.{subst}

-- The call succeeded, appended `bytes` to the output `b`, and left room for `k` bytes more.
pub data Emits (k : ℕ) (b : IoBuffer) (bytes : List ℕ) : Out → Type 0 where
  emits :
      {b' : IoBuffer}
      → contents b' ≡ contents b ++ bytes
      → HasRoom k b'
      → Emits k b bytes (some (ok, b'))

-- A call that emits `bytes` wherever there is room for them.
unfoldable pub Emitter : List ℕ → (IoBuffer → Out) → Type 0
Emitter bytes f = (k : ℕ) (b : IoBuffer) → HasRoom (length bytes + k) b → Emits k b bytes (f b)

pub room_for :
    (xs ys : List ℕ) (k : ℕ) (b : IoBuffer)
    → HasRoom (length (xs ++ ys) + k) b
    → HasRoom (length xs + (length ys + k)) b
room_for xs ys k b h = record {
  valid = h.valid;
  below = omega (arith, h.below, length-append xs ys);
}

pub join :
    (k : ℕ) (xs ys : List ℕ) (b b' : IoBuffer) (r : Out)
    → contents b' ≡ contents b ++ xs
    → Emits k b' ys r
    → Emits k b (xs ++ ys) r
join k xs ys b b' r e (emits e' h) =
    emits (e' ∙ ap (λ t. t ++ ys) e ∙ append_assoc (contents b) xs ys) h

pub after_succeed :
    (j k : ℕ) (xs ys : List ℕ) (b : IoBuffer) (r : Out) (f : IoBuffer → Out)
    → Emits j b xs r
    → ((b' : IoBuffer) → HasRoom j b' → Emits k b' ys (f b'))
    → Emits k b (xs ++ ys) (succeed r f)
unfolding succeed
after_succeed j k xs ys b r f (emits {b'} e h) g = join k xs ys b b' (f b') e (g b' h)

pub after_regardless :
    (j k : ℕ) (xs ys : List ℕ) (b : IoBuffer) (r : Out) (f : IoBuffer → Out)
    → Emits j b xs r
    → ((b' : IoBuffer) → HasRoom j b' → Emits k b' ys (f b'))
    → Emits k b (xs ++ ys) (regardless r f)
unfolding regardless
after_regardless j k xs ys b r f (emits {b'} e h) g = join k xs ys b b' (f b') e (g b' h)

then_succeed :
    (xs ys : List ℕ) (f g : IoBuffer → Out)
    → Emitter xs f
    → Emitter ys g
    → Emitter (xs ++ ys) (λ b. succeed (f b) g)
unfolding Emitter
then_succeed xs ys f g p q k b h =
    after_succeed (length ys + k) k xs ys b (f b) g (p (length ys + k) b (room_for xs ys k b h))
      (q k)

then_regardless :
    (xs ys : List ℕ) (f g : IoBuffer → Out)
    → Emitter xs f
    → Emitter ys g
    → Emitter (xs ++ ys) (λ b. regardless (f b) g)
unfolding Emitter
then_regardless xs ys f g p q k b h =
    after_regardless (length ys + k) k xs ys b (f b) g (p (length ys + k) b (room_for xs ys k b h))
      (q k)

checked_result :
    (n k : ℕ) (bytes : List ℕ) (b : IoBuffer) (r : Ret × IoBuffer)
    → length bytes ≡ n
    → r.0 ≡ ret (length bytes)
    → contents r.1 ≡ contents b ++ bytes
    → HasRoom k r.1
    → Emits k b bytes (check n r)
unfolding check
checked_result n k bytes b (error, b') e p c h = cc
checked_result n k bytes b (ret m, b') e p c h =
    let same : (m == n) ≡ true = ground arith in rw same (emits c h)

module _ (heap : Allocator) (mem : HasMemory heap) where
  checked :
      (n : ℕ) (bytes : List ℕ)
      → length bytes ≡ n
      → Emitter bytes (λ b. check n (write heap bytes b))
  unfolding Emitter
  checked n bytes e k b h =
      let (r, c, room) = write_lem heap mem bytes k b h in
      checked_result n k bytes b (write heap bytes b) e r c room

  pub type_Emitter : (t : ℕ) → t < 256 → Emitter (t ∷ []) (encode_type heap t)
  unfolding encode_type write_u8
  type_Emitter t h =
      let e : be_bytes 1 t ≡ t ∷ [] = ap (λ x. x ∷ []) (omega arith) in
      subst (λ d. Emitter d (λ b. check 1 (write heap (be_bytes 1 t) b))) e
        (checked 1 (be_bytes 1 t) (length-be_bytes 1 t))

  pub u16_Emitter : (n : ℕ) → Emitter (be_bytes 2 n) (λ b. check 2 (write_u16 heap n b))
  unfolding write_u16
  u16_Emitter n = checked 2 (be_bytes 2 n) (length-be_bytes 2 n)

  number_Emitter : (d : ℕ) → Emitter (be_bytes 8 d) (encode_number heap d)
  unfolding encode_number write_u64
  number_Emitter d = checked 8 (be_bytes 8 d) (length-be_bytes 8 d)

  pub text_Emitter : (s : List ℕ) → Emitter s (λ b. check (length s) (write heap s b))
  text_Emitter s = checked (length s) s refl

  string_Emitter : (s : List ℕ) → Emitter (be_bytes 2 (length s) ++ s) (encode_string heap s)
  unfolding encode_string
  string_Emitter s =
      then_succeed (be_bytes 2 (length s)) s (λ b. check 2 (write_u16 heap (length s) b))
        (λ b. check (length s) (write heap s b)) (u16_Emitter (length s)) (text_Emitter s)

  -- The count of an array is written with its result ignored.
  after_count :
      (ys : List ℕ) (f : IoBuffer → Out)
      → Emitter ys f
      → Emitter (be_bytes 4 0 ++ ys) (λ b. f (write_u32 heap 0 b).1)
  unfolding Emitter write_u32
  after_count ys f p k b h =
      let (r, c, room) =
        write_lem heap mem (be_bytes 4 0) (length ys + k) b (room_for (be_bytes 4 0) ys k b h) in
      join k (be_bytes 4 0) ys b (write heap (be_bytes 4 0) b).1 (f (write heap (be_bytes 4 0) b).1)
        c (p k _ room)

  -- One entry: the key with its length, the value, and the rest of the loop.
  entry_Emitter :
      (k w e z : List ℕ) (val loop : IoBuffer → Out)
      → Emitter w val
      → Emitter (e ++ z) loop
      → Emitter (be_bytes 2 (length k) ++ ((k ++ (w ++ e)) ++ z)) (λ b.
        succeed
          (check 2 (write_u16 heap (length k) b))
          λ b₁. succeed (check (length k) (write heap k b₁)) λ b₂. succeed (val b₂) loop)
  entry_Emitter k w e z val loop p q =
      subst
        (λ d. Emitter (be_bytes 2 (length k) ++ d) (λ b.
          succeed (check 2 (write_u16 heap (length k) b))
            λ b₁. succeed (check (length k) (write heap k b₁)) λ b₂. succeed (val b₂) loop))
        (sym (append_assoc k (w ++ e) z ∙ ap (λ t. k ++ t) (append_assoc w e z)))
        (then_succeed (be_bytes 2 (length k)) (k ++ (w ++ (e ++ z)))
          (λ b. check 2 (write_u16 heap (length k) b))
          (λ b₁. succeed (check (length k) (write heap k b₁)) λ b₂. succeed (val b₂) loop)
          (u16_Emitter (length k))
          (then_succeed k (w ++ (e ++ z)) (λ b₁. check (length k) (write heap k b₁))
            (λ b₂. succeed (val b₂) loop) (text_Emitter k) (then_succeed w (e ++ z) val loop p q)))

  -- An object and its end marker, whose result replaces that of the object.
  object_end-Emitter :
      (e : List ℕ) (f : IoBuffer → Out)
      → Emitter (e ++ be_bytes 2 0) f
      → Emitter (3 ∷ (e ++ object_end)) (λ b.
        regardless (encode_type heap 3 b) λ b₁. regardless (f b₁) λ b₂. encode_type heap 9 b₂)
  object_end-Emitter e f p =
      then_regardless (3 ∷ []) (e ++ object_end) (encode_type heap 3)
        (λ b₁. regardless (f b₁) λ b₂. encode_type heap 9 b₂) (type_Emitter 3 (omega arith))
        (subst (λ d. Emitter d (λ b₁. regardless (f b₁) λ b₂. encode_type heap 9 b₂))
          (append_assoc e (be_bytes 2 0) (9 ∷ []))
          (then_regardless (e ++ be_bytes 2 0) (9 ∷ []) f (encode_type heap 9) p
            (type_Emitter 9 (omega arith))))

  mutual
    unfolding encode body

    value_Emitter : (v : Any) → IsEncodable v → Emitter (marker v ∷ body v) (encode heap v)
    value_Emitter (int n) h =
        then_regardless (0 ∷ []) (be_bytes 8 (double_of_int n)) (encode_type heap 0)
          (encode_number heap (double_of_int n)) (type_Emitter 0 (omega arith))
          (number_Emitter (double_of_int n))
    value_Emitter (double d) h =
        then_regardless (0 ∷ []) (be_bytes 8 d) (encode_type heap 0) (encode_number heap d)
          (type_Emitter 0 (omega arith)) (number_Emitter d)
    value_Emitter (string s) h =
        then_regardless (2 ∷ []) (be_bytes 2 (length s) ++ s) (encode_type heap 2)
          (encode_string heap s) (type_Emitter 2 (omega arith)) (string_Emitter s)
    value_Emitter (vector v) h = absurd h
    value_Emitter (map fs) h =
        object_end-Emitter (entries fs) (encode_object heap fs) (object_Emitter fs h)
    value_Emitter null h = type_Emitter 5 (omega arith)
    value_Emitter (ecma fs) h =
        then_regardless (8 ∷ []) (be_bytes 4 0 ++ (entries fs ++ be_bytes 2 0)) (encode_type heap 8)
          (λ b. encode_ecma_fields heap fs (write_u32 heap 0 b).1) (type_Emitter 8 (omega arith))
          (after_count (entries fs ++ be_bytes 2 0) (encode_ecma_fields heap fs)
            (array_Emitter fs h))
    value_Emitter nullptr h = absurd h

    object_Emitter :
        (fs : Fields)
        → AreEncodable fs
        → Emitter (entries fs ++ be_bytes 2 0) (encode_object heap fs)
    object_Emitter no_fields h = u16_Emitter 0
    object_Emitter (field k v fs) (hv, h) =
        entry_Emitter k (marker v ∷ body v) (entries fs) (be_bytes 2 0) (encode heap v)
          (encode_object heap fs) (value_Emitter v hv) (object_Emitter fs h)

    array_Emitter :
        (fs : Fields)
        → AreEncodable fs
        → Emitter (entries fs ++ be_bytes 2 0) (encode_ecma_fields heap fs)
    array_Emitter no_fields h = u16_Emitter 0
    array_Emitter (field k v fs) (hv, h) =
        entry_Emitter k (marker v ∷ body v) (entries fs) (be_bytes 2 0) (encode heap v)
          (encode_ecma_fields heap fs) (value_Emitter v hv) (array_Emitter fs h)

  -- `Encode` of a value without NULL or vector succeeds where there is room, and appends to the
  -- output the marker of the value and its body, and nothing else.
  pub encode_emits :
      (v : Any) (k : ℕ) (b : IoBuffer)
      → IsEncodable v
      → HasRoom (length (marker v ∷ body v) + k) b
      → Emits k b (marker v ∷ body v) (encode heap v b)
  unfolding Emitter
  encode_emits v k b h room = value_Emitter v h k b room
