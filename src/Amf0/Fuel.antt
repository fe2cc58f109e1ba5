-- ===== src/Amf0/Fuel.antt =====
-- The fuel of `Amf0::Decode` suffices on every input.
use tms.Prelude.{ℕ, zero, suc, ◌+◌, ◌-◌, ◌*◌, ◌^◌, ◌<◌, ◌≤◌, none, some, Bool, true, false}
use tms.Prelude.{List, [], ◌∷◌, ◌++◌, ◌≡◌, ◌≢◌, refl, ap, arith, Bool-cases, Option-cases}
use tms.Prelude.{inl, inr, ◌==◌, if◌then◌else◌}
use tms.Any.{Fields, map, no_fields, insert}
use tms.BitBuffer
use tms.BitBuffer.{BitBuffer, bits_left, bytes_left, more_than_bytes, get_bytes, of_bytes}
use tms.BitBuffer.Progress.{get_bytes-left, get_bytes-stays, get_bytes-there, get_string-left}
use native.Mathlib.Nat.{le_refl}
use tms.BitBuffer.Progress.{get_bytes-le, get_bytes-takes, u32-lt}
use tms.Amf0.Decode.{Decoded, got, refused, stuck, get_type, string_or_empty, decode_number}
use tms.Amf0.Decode.{
  decode_boolean, decode_string, decode_null, Entry, no_key, bad, value, end_mark,
}
use tms.Amf0.Decode.{read_type, read_key, read_entry, store_value, decode, decode_object}
use tms.Amf0.Encode.{ok, failed}
use tms.Amf0.Decode.{
  decode_ecma_array, decode_ecma_loop, enough, Command, decode_loop, decode_command,
}

-- What reading the head of an entry leaves.
abbrev Reads : BitBuffer → Entry → Type 0
Reads b (no_key b') = b' ≡ b
Reads b (bad b') = bits_left b' ≤ bits_left b
Reads b (end_mark b') = bits_left b' ≤ bits_left b
Reads b (value k t b') = bits_left b' + 24 ≤ bits_left b

text-left : (n : ℕ) (b : BitBuffer) → bits_left (string_or_empty n b).1 ≤ bits_left b
unfolding string_or_empty
text-left n b = elim (Option-cases (BitBuffer.get_string n b)) [
  | inl e ↦ rw (e, string_or_empty) (omega arith)
  | inr ((s, b'), e) ↦ rw (e, string_or_empty) (get_string-left n b b' s e)
]

get_type-left :
    (b b' : BitBuffer) (t : ℕ) → get_type b ≡ some (t, b') → bits_left b' + 8 ≡ bits_left b
unfolding get_type
get_type-left b b' t e = ground (arith, get_bytes-left 32 1 b b' t, get_bytes-there 32 1 b)

-- The same from a key on, with `n` bits left before it.
abbrev Follows : ℕ → Entry → Type 0
Follows n (no_key b) = ⊥
Follows n (bad b) = bits_left b ≤ n
Follows n (end_mark b) = bits_left b ≤ n
Follows n (value k t b) = bits_left b + 8 ≤ n

read_type-Follows :
    (key : List ℕ) (n : ℕ) (b : BitBuffer) → bits_left b ≤ n → Follows n (read_type key b)
unfolding read_type
read_type-Follows key n b h = elim (Option-cases (get_type b)) [
  | inl e ↦ rw (e, read_type) h
  | inr ((t, b'), e) ↦ elim (Bool-cases (t == 9)) [
    | inl c ↦ rw (e, read_type) (rw c (omega (arith, get_type-left b b' t e)))
    | inr c ↦ rw (e, read_type) (rw c (omega (arith, get_type-left b b' t e)))
  ]
]

read_key-Follows : (len : ℕ) (b : BitBuffer) → Follows (bits_left b) (read_key len b)
unfolding read_key
read_key-Follows len b = elim (Bool-cases (more_than_bytes len b)) [
  | inl e ↦
      rw (e, read_key)
        (read_type-Follows (string_or_empty len b).0 (bits_left b) (string_or_empty len b).1
          (text-left len b))
  | inr e ↦ rw (e, read_key) (omega arith)
]

Follows-Reads : (b : BitBuffer) (n : ℕ) (e : Entry) → n + 16 ≡ bits_left b → Follows n e → Reads b e
Follows-Reads b n (no_key b') h f = absurd f
Follows-Reads b n (bad b') h f = omega arith
Follows-Reads b n (end_mark b') h f = omega arith
Follows-Reads b n (value k t b') h f = omega arith

read_entry-Reads : (b : BitBuffer) → Reads b (read_entry b)
unfolding read_entry
read_entry-Reads b = elim (Bool-cases (get_bytes 16 2 b).0) [
  | inl e ↦
      rw (e, read_entry)
        (Follows-Reads b (bits_left (get_bytes 16 2 b).2)
          (read_key (get_bytes 16 2 b).1 (get_bytes 16 2 b).2)
          (get_bytes-left 16 2 b (get_bytes 16 2 b).2 (get_bytes 16 2 b).1 (omega arith)
            (whole true e))
          (read_key-Follows (get_bytes 16 2 b).1 (get_bytes 16 2 b).2))
  | inr e ↦
      rw (e, read_entry)
        (get_bytes-stays 16 2 b (get_bytes 16 2 b).2 (get_bytes 16 2 b).1 (whole false e))
]
  where
    whole :
        (c : Bool)
        → (get_bytes 16 2 b).0 ≡ c
        → get_bytes 16 2 b ≡ (c, (get_bytes 16 2 b).1, (get_bytes 16 2 b).2)
    whole c e = ap (λ t. (t, (get_bytes 16 2 b).1, (get_bytes 16 2 b).2)) e

-- The call ended within its fuel, with at most `n` bits left.
abbrev pub Ends : ℕ → Decoded → Type 0
Ends n (got v b) = bits_left b ≤ n
Ends n (refused b) = bits_left b ≤ n
Ends n stuck = ⊥

Ends-le : (n m : ℕ) (r : Decoded) → n ≤ m → Ends n r → Ends m r
Ends-le n m (got v b) h e = omega arith
Ends-le n m (refused b) h e = omega arith
Ends-le n m stuck h e = e

store_value-Ends :
    (loop : Fields → BitBuffer → Decoded) (key : List ℕ) (fs : Fields) (r : Decoded) (n : ℕ)
    → Ends n r
    → ((fs' : Fields) (b : BitBuffer) → bits_left b ≤ n → Ends n (loop fs' b))
    → Ends n (store_value loop key fs r)
unfolding store_value
store_value-Ends loop key fs (got v b) n h k = k (insert key v fs) b h
store_value-Ends loop key fs (refused b) n h k = h
store_value-Ends loop key fs stuck n h k = h

decode_number-Ends : (b : BitBuffer) → Ends (bits_left b) (decode_number b)
unfolding decode_number
decode_number-Ends b = elim (Bool-cases (more_than_bytes 8 b)) [
  | inl e ↦ rw e (get_bytes-le 64 8 b)
  | inr e ↦ rw e (omega arith)
]

decode_boolean-Ends : (b : BitBuffer) → Ends (bits_left b) (decode_boolean b)
unfolding decode_boolean
decode_boolean-Ends b = elim (Bool-cases (more_than_bytes 1 b)) [
  | inl e ↦ rw e (get_bytes-le 8 1 b)
  | inr e ↦ rw e (omega arith)
]

decode_string-Ends : (b : BitBuffer) → Ends (bits_left b) (decode_string b)
unfolding decode_string
decode_string-Ends b = elim (Bool-cases (more_than_bytes 2 b)) [
  | inl e ↦ elim (Bool-cases (more_than_bytes len b₁)) [
    | inl e' ↦
        rw (e, decode_string)
          (rw (e', decode_string) (omega (arith, text-left len b₁, get_bytes-le 16 2 b)))
    | inr e' ↦ rw (e, decode_string) (rw (e', decode_string) (get_bytes-le 16 2 b))
  ]
  | inr e ↦ rw (e, decode_string) (omega arith)
]
  where
    len : ℕ
    len = (get_bytes 16 2 b).1

    b₁ : BitBuffer
    b₁ = (get_bytes 16 2 b).2

Ends-if : (n : ℕ) (c : Bool) (x y : Decoded) → Ends n x → Ends n y → Ends n (if c then x else y)
Ends-if n true x y p q = p
Ends-if n false x y p q = q

Ends-elim :
    (n : ℕ) (c : Bool) (x y : Decoded)
    → Ends n x
    → (c ≡ false → Ends n y)
    → Ends n (elim c [ true ↦ x | false ↦ y ])
Ends-elim n true x y p q = p
Ends-elim n false x y p q = q refl

-- One round over an entry ends, if the handlers of a missing key and of a value do.
round-Ends :
    (b : BitBuffer) (fs : Fields) (e : Entry) (idle : BitBuffer → Decoded)
    (store : List ℕ → ℕ → BitBuffer → Decoded)
    → Reads b e
    → (e ≡ no_key b → Ends (bits_left b) (idle b))
    → ((k : List ℕ) (t : ℕ) (b' : BitBuffer)
        → bits_left b' + 24 ≤ bits_left b
        → Ends (bits_left b) (store k t b'))
    → Ends (bits_left b) (elim e [
      | no_key b' ↦ idle b'
      | bad b' ↦ refused b'
      | end_mark b' ↦ got (map fs) b'
      | value k t b' ↦ store k t b'
    ])
round-Ends b fs (no_key b') idle store h p q = rw h (p (ap no_key h))
round-Ends b fs (bad b') idle store h p q = h
round-Ends b fs (end_mark b') idle store h p q = h
round-Ends b fs (value k t b') idle store h p q = q k t b' h

-- Where no key length is left the rounds of an array do nothing.
idle_rounds :
    (f left : ℕ) (fs : Fields) (b : BitBuffer)
    → read_entry b ≡ no_key b
    → left < f
    → decode_ecma_loop f left fs b ≡ got (map fs) b
unfolding decode
idle_rounds zero left fs b e h = absurd (omega arith)
idle_rounds (suc f) left fs b e h = elim (Bool-cases (left == 0)) [
  | inl z ↦ rw (z, decode_ecma_loop)
  | inr z ↦
      rw (z, decode_ecma_loop)
        (rw (e, decode_ecma_loop) (idle_rounds f (left - 1) fs b e (ground arith)))
]

null-Ends : (b : BitBuffer) → Ends (bits_left b) (decode_null b)
unfolding decode_null
null-Ends b = le_refl (bits_left b)

mutual
  unfolding decode

  decode-Ends :
      (f t : ℕ) (b : BitBuffer) → bits_left b + 2 ^ 32 ≤ f → Ends (bits_left b) (decode f t b)
  decode-Ends zero t b h = absurd (omega arith)
  decode-Ends (suc f) t b h = Ends-if n (t == 0) (decode_number b) _ (decode_number-Ends b) (
      Ends-if n (t == 1) (decode_boolean b) _ (decode_boolean-Ends b) (
        Ends-if n (t == 2) (decode_string b) _ (decode_string-Ends b) (
          Ends-if n (t == 3) (decode_object f no_fields b) _
            (object-Ends f no_fields b (omega arith))
            (Ends-if n (t == 8) (decode_ecma_array f b) _ (array-Ends f b (omega arith))
              (Ends-if n (t == 5) (decode_null b) (refused b) (null-Ends b) (le_refl n))))))
    where
      n : ℕ
      n = bits_left b

  object-Ends :
      (f : ℕ) (fs : Fields) (b : BitBuffer)
      → bits_left b + 2 ^ 32 ≤ f + 1
      → Ends (bits_left b) (decode_object f fs b)
  object-Ends zero fs b h = absurd (omega arith)
  object-Ends (suc f) fs b h =
      round-Ends b fs (read_entry b) (got (map fs))
        (λ k t b'. store_value (decode_object f) k fs (decode f t b')) (read_entry-Reads b)
        (λ _. le_refl (bits_left b))
        λ k t b' l.
          Ends-le (bits_left b') (bits_left b) (store_value (decode_object f) k fs (decode f t b'))
            (omega arith)
            (store_value-Ends (decode_object f) k fs (decode f t b') (bits_left b')
              (decode-Ends f t b' (omega arith))
              λ fs' b'' l'.
                Ends-le (bits_left b'') (bits_left b') (decode_object f fs' b'') l'
                  (object-Ends f fs' b'' (omega arith)))

  array-Ends :
      (f : ℕ) (b : BitBuffer)
      → bits_left b + 2 ^ 32 ≤ f + 1
      → Ends (bits_left b) (decode_ecma_array f b)
  array-Ends zero b h = absurd (omega arith)
  array-Ends (suc f) b h = elim (Bool-cases (more_than_bytes 4 b)) [
    | inl e ↦ rw e (
        Ends-le (bits_left (get_bytes 32 4 b).2) (bits_left b) _ (get_bytes-le 32 4 b) (
          array_loop-Ends f (get_bytes 32 4 b).1 no_fields (get_bytes 32 4 b).2
            (omega (arith, get_bytes-takes 32 4 b (omega arith) e)) (u32-lt 4 b)))
    | inr e ↦ rw e (le_refl (bits_left b))
  ]

  array_loop-Ends :
      (f left : ℕ) (fs : Fields) (b : BitBuffer)
      → bits_left b + 2 ^ 32 + 3 ≤ f
      → left < 2 ^ 32
      → Ends (bits_left b) (decode_ecma_loop f left fs b)
  array_loop-Ends zero left fs b h l = absurd (omega arith)
  array_loop-Ends (suc f) left fs b h l =
      Ends-elim (bits_left b) (left == 0) (got (map fs) b) _ (le_refl (bits_left b)) λ z.
        round-Ends b fs (read_entry b) (decode_ecma_loop f (left - 1) fs)
          (λ k t b'. store_value (decode_ecma_loop f (left - 1)) k fs (decode f t b'))
          (read_entry-Reads b)
          (λ e. rw (idle_rounds f (left - 1) fs b e (ground arith)) (le_refl (bits_left b)))
          λ k t b' l'.
            Ends-le (bits_left b') (bits_left b)
              (store_value (decode_ecma_loop f (left - 1)) k fs (decode f t b')) (omega arith)
              (store_value-Ends (decode_ecma_loop f (left - 1)) k fs (decode f t b') (bits_left b')
                (decode-Ends f t b' (omega arith))
                λ fs' b'' l''.
                  Ends-le (bits_left b'') (bits_left b') (decode_ecma_loop f (left - 1) fs' b'') l''
                    (array_loop-Ends f (left - 1) fs' b'' (omega arith) (omega arith)))

-- `Decode` of a value ends within `enough` fuel on every input and type, also where it refuses
-- the value, and has not moved backwards.
pub decode-enough : (t : ℕ) (b : BitBuffer) → Ends (bits_left b) (decode (enough b) t b)
decode-enough t b = decode-Ends (enough b) t b (le_refl _)

round-ne-none :
    (f n : ℕ) (c : Command) (r : Decoded)
    → Ends n r
    → n < f * 8
    → ((c' : Command) (b : BitBuffer) → bits_left b < f * 8 → decode_loop f c' b ≢ none)
    → elim r [
      | got v b ↦ decode_loop f (record c { values = c.values ++ (v ∷ []) }) b
      | refused b ↦ decode_loop f (record c { code = failed }) b
      | stuck ↦ none
    ]
      ≢ none
round-ne-none f n c (got v b) e h ih =
    ih (record c { values = c.values ++ (v ∷ []) }) b (omega arith)
round-ne-none f n c (refused b) e h ih = ih (record c { code = failed }) b (omega arith)
round-ne-none f n c stuck e h ih = absurd e

decode_loop-ne-none :
    (f : ℕ) (c : Command) (b : BitBuffer) → bits_left b < f * 8 → decode_loop f c b ≢ none
unfolding decode_loop
decode_loop-ne-none zero c b h = absurd (omega arith)
decode_loop-ne-none (suc f) c b h =
    let b' = (get_bytes 32 1 b).2 in
    let t = (get_bytes 32 1 b).1 in
    elim (Bool-cases (get_bytes 32 1 b).0) [
      | inl e ↦
          rw (e, decode_loop)
            (round-ne-none f (bits_left b') c (decode (enough b') t b') (decode-enough t b')
              (omega (arith, get_bytes-left 32 1 b b' t (omega arith) (ap (λ x. (x, t, b')) e)))
              (decode_loop-ne-none f))
      | inr e ↦ rw (e, decode_loop) (λ x. cc)
    ]

-- `Decode` of a whole message returns on every input: no loop in it runs out of fuel.
pub decode_command-ne-none : (bytes : List ℕ) → decode_command bytes ≢ none
unfolding decode_command bytes_left
decode_command-ne-none bytes =
    decode_loop-ne-none (bytes_left (of_bytes bytes) + 1) (record { code = ok; values = [] })
      (of_bytes bytes) (omega arith)
