-- ===== src/Amf0/Tests.antt =====
-- AMF 0 on examples.
use tms.Prelude.{
  ℕ, ◌-◌, ◌^◌, some, List, [], ◌∷◌, ◌++◌, ◌≡◌, ◌≢◌, refl, arith, length, drop, be_bytes, none, All,
}
use tms.Any.{Any, Fields, int, double, string, map, null, ecma, no_fields, field, double_of_int}
use tms.IoBuffer.{IoBuffer, contents}
use tms.IoBuffer.Example.{heap, memory, fresh, fresh-HasRoom, three, three-IsValid}
use tms.BitBuffer.Aligned.{at}
use tms.Amf0.Encode.{ok, encode, encode_all}
use tms.Amf0.Decode.{got, decode, decode_command}
use tms.Amf0.Wire.{marker, body, entries, IsPlain, ArePlain, AreEncodable, as_read, fields_as_read}
use tms.Amf0.Emit.{Emits, encode_emits}
use tms.Amf0.Masked.{encode-vector_field}
use tms.Any.{vector, no_anys}
use tms.Amf0.Fuel.{decode_command-ne-none}
use tms.Amf0.Array.{count, decode-array}
use tms.Amf0.Lost.{decode-encode_ecma}
use tms.Amf0.Message.{message, decode-encode_all}
use mathlib.Core.List

double_of_small : double_of_int 1 ≡ 4607182418800017408
unfolding double_of_int
double_of_small = refl

double_of_negative : double_of_int (2 ^ 64 - 3) ≡ 13837309855095848960
unfolding double_of_int
double_of_negative = refl

double_of_largest : double_of_int (2 ^ 63 - 1) ≡ 4890909195324358656
unfolding double_of_int
double_of_largest = refl

-- `{app: "live", n: 1, x: null}`
abbrev fields : Fields
fields =
    field (97 ∷ 112 ∷ 112 ∷ []) (string (108 ∷ 105 ∷ 118 ∷ 101 ∷ []))
      (field (110 ∷ []) (int 1) (field (120 ∷ []) null no_fields))

fields-ArePlain : ArePlain fields
fields-ArePlain = (
  ((omega arith, (omega arith, (omega arith, tt))), omega arith),
  ((omega arith, (omega arith, (omega arith, (omega arith, tt)))), omega arith),
  (((omega arith, tt), omega arith), tt, (((omega arith, tt), omega arith), tt, tt)),
)

-- `connect`, the transaction 1, and the object
abbrev connect : List Any
connect = string (99 ∷ 111 ∷ []) ∷ double 1 ∷ map fields ∷ []

abbrev letter_a : List ℕ
letter_a = 97 ∷ []

connect-IsPlain : All IsPlain connect
connect-IsPlain =
    (((omega arith, (omega arith, tt)), omega arith), (omega arith, (fields-ArePlain, tt)))

fields-AreEncodable : AreEncodable fields
fields-AreEncodable = (tt, (tt, (tt, tt)))

encode_emits_example :
    Emits 10 three (marker (map fields) ∷ body (map fields)) (encode heap (map fields) three)
unfolding body
encode_emits_example =
    encode_emits heap memory (map fields) 10 three fields-AreEncodable
      (record { valid = three-IsValid; below = omega arith })

decode-encode_all_example :
    (b' : IoBuffer) × (encode_all heap connect fresh ≡ some (ok, b'))
    × (decode_command (contents b')
        ≡ some (record { code = ok; values = List.map as_read connect }))
unfolding contents body
decode-encode_all_example =
    decode-encode_all heap memory connect fresh refl connect-IsPlain
      (fresh-HasRoom (length (message connect)) (omega arith))

decode_command-ne-none_example : decode_command (3 ∷ 0 ∷ 9 ∷ 97 ∷ []) ≢ none
decode_command-ne-none_example = decode_command-ne-none (3 ∷ 0 ∷ 9 ∷ 97 ∷ [])

decode-array_example :
    decode 102 8 (at letter_a (be_bytes 4 (count fields) ++ (entries fields ++ letter_a)))
    ≡ got
        (map (fields_as_read fields))
        (at ((letter_a ++ be_bytes 4 (count fields)) ++ entries fields) letter_a)
unfolding body
decode-array_example =
    decode-array fields 100 letter_a letter_a fields-ArePlain (omega arith) (omega arith)

decode-encode_ecma_example :
    (b' : IoBuffer) × (encode heap (ecma fields) fresh ≡ some (ok, b'))
    × (decode 3 8 (at (8 ∷ []) (drop 1 (contents b')))
        ≡ got (map no_fields) (at (8 ∷ be_bytes 4 0) (entries fields ++ be_bytes 2 0)))
unfolding contents body
decode-encode_ecma_example =
    decode-encode_ecma heap memory fields 0 fresh fields-AreEncodable refl
      (fresh-HasRoom (length (marker (ecma fields) ∷ body (ecma fields))) (omega arith))

-- A vector within an object.
encode-vector_field_example :
    Emits 0 three
      (3 ∷ (0 ∷ 1 ∷ 97 ∷ 9 ∷ []))
      (encode heap (map (field letter_a (vector no_anys) fields)) three)
encode-vector_field_example =
    encode-vector_field heap memory letter_a no_anys fields 0 three
      (record { valid = three-IsValid; below = omega arith })
