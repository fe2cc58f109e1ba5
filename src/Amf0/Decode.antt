-- ===== src/Amf0/Decode.antt =====
-- `Amf0::Decode` and the `Decode…` helpers. What a call leaves of the input is no part of it that
-- a recursion could be on, so the calls take fuel.
use tms.Prelude.{ℕ, zero, suc, ◌+◌, ◌-◌, ◌^◌, Option, none, some, true, false, not}
use tms.Prelude.{List, [], ◌∷◌, ◌++◌, ◌==◌, if◌then◌else◌}
use tms.Any.{Any, Fields, int, double, string, map, nullptr, no_fields, insert}
use tms.BitBuffer
use tms.BitBuffer.{BitBuffer, bits_left, bytes_left, more_than_bytes, get_bytes, of_bytes}
use tms.Amf0.{number_marker, boolean_marker, string_marker, object_marker, null_marker}
use tms.Amf0.{ecma_array_marker, object_end_marker}
use tms.Amf0.Encode.{Code, ok, failed}

-- 0 with a value, or -1, and the input after the call; `stuck` is fuel that ran out.
pub data Decoded : Type 0 where
  got : Any → BitBuffer → Decoded
  refused : BitBuffer → Decoded
  stuck : Decoded

-- `GetType`.
unfoldable pub get_type : BitBuffer → Option (ℕ × BitBuffer)
get_type b =
    if not (more_than_bytes 1 b)
    then none
    else (let (_, type, b') = get_bytes 32 1 b in some (type, b'))

-- `GetString` with its result ignored: on failure the string stays empty.
unfoldable pub string_or_empty : ℕ → BitBuffer → List ℕ × BitBuffer
string_or_empty len b = elim (BitBuffer.get_string len b) [
  | none ↦ ([], b)
  | some (s, b') ↦ (s, b')
]

unfoldable pub decode_number : BitBuffer → Decoded
decode_number b =
    if not (more_than_bytes 8 b)
    then refused b
    else (let (_, n, b') = get_bytes 64 8 b in got (double n) b')

unfoldable pub decode_boolean : BitBuffer → Decoded
decode_boolean b =
    if not (more_than_bytes 1 b)
    then refused b
    else (let (_, n, b') = get_bytes 8 1 b in got (int n) b')

unfoldable pub decode_string : BitBuffer → Decoded
unfolding string_or_empty
decode_string b =
    if not (more_than_bytes 2 b)
    then refused b
    else let (_, len, b₁) = get_bytes 16 2 b in
      if not (more_than_bytes len b₁)
      then refused b₁
      else (let (s, b₂) = string_or_empty len b₁ in got (string s) b₂)

unfoldable pub decode_null : BitBuffer → Decoded
decode_null b = got nullptr b

-- One entry of an object or of an array: its key and its type, or the end marker, or an error.
pub data Entry : Type 0 where
  -- the bytes of a key length are not there
  no_key : BitBuffer → Entry
  bad : BitBuffer → Entry
  end_mark : BitBuffer → Entry
  value : List ℕ → ℕ → BitBuffer → Entry

unfoldable pub read_type : List ℕ → BitBuffer → Entry
unfolding get_type
read_type key b = elim (get_type b) [
  | none ↦ bad b
  | some (type, b') ↦ if type == object_end_marker then end_mark b' else value key type b'
]

unfoldable pub read_key : ℕ → BitBuffer → Entry
unfolding string_or_empty
read_key key_len b =
    if not (more_than_bytes key_len b)
    then bad b
    else (let (key, b') = string_or_empty key_len b in read_type key b')

unfoldable pub read_entry : BitBuffer → Entry
read_entry b =
    let (there, key_len, b') = get_bytes 16 2 b in if there then read_key key_len b' else no_key b'

-- The value of an entry is stored and the loop goes on, or the loop ends in an error.
unfoldable pub store_value : (Fields → BitBuffer → Decoded) → List ℕ → Fields → Decoded → Decoded
store_value loop key fs (got v b) = loop (insert key v fs) b
store_value loop key fs (refused b) = refused b
store_value loop key fs stuck = stuck

unfoldable mutual
  -- `Decode` of one value of the given type.
  pub decode : ℕ → ℕ → BitBuffer → Decoded
  decode zero type b = stuck
  decode (suc f) type b =
      let object = decode_object f no_fields b in
      let array = decode_ecma_array f b in
      if type == number_marker
      then decode_number b
      else if type == boolean_marker
      then decode_boolean b
      else if type == string_marker
      then decode_string b
      else if type == object_marker
      then object
      else if type == ecma_array_marker
      then array
      else if type == null_marker
      then decode_null b
      else refused b

  -- The loop of `DecodeObject`. Where the input ends before a key length the object is complete.
  pub decode_object : ℕ → Fields → BitBuffer → Decoded
  decode_object zero fs b = stuck
  decode_object (suc f) fs b = elim (read_entry b) [
    | no_key b' ↦ got (map fs) b'
    | bad b' ↦ refused b'
    | end_mark b' ↦ got (map fs) b'
    | value key type b' ↦ store_value (decode_object f) key fs (decode f type b')
  ]

  -- `DecodeEcmaArray`.
  pub decode_ecma_array : ℕ → BitBuffer → Decoded
  decode_ecma_array zero b = stuck
  decode_ecma_array (suc f) b =
      if not (more_than_bytes 4 b)
      then refused b
      else (let (_, count, b') = get_bytes 32 4 b in decode_ecma_loop f count no_fields b')

  -- Its loop, with `left` rounds to go. Where the input ends before a key length the round does
  -- nothing, and the next one is tried.
  pub decode_ecma_loop : ℕ → ℕ → Fields → BitBuffer → Decoded
  decode_ecma_loop zero left fs b = stuck
  decode_ecma_loop (suc f) left fs b = elim (left == 0) [
    | true ↦ got (map fs) b
    | false ↦ elim (read_entry b) [
      | no_key b' ↦ decode_ecma_loop f (left - 1) fs b'
      | bad b' ↦ refused b'
      | end_mark b' ↦ got (map fs) b'
      | value key type b' ↦ store_value (decode_ecma_loop f (left - 1)) key fs (decode f type b')
    ]
  ]

-- Fuel for `decode`: calls inside one another use up the bits that are left, but for the idle
-- rounds of one array loop, fewer than 2 ^ 32.
abbrev pub enough : BitBuffer → ℕ
enough b = bits_left b + 2 ^ 32

-- What `Decode` returns with the values that it pushes to the `AmfCommand`.
pub record Command : Type 0 where
  pub code : Code
  pub values : List Any

-- The loop of `Decode`: a value that is refused makes the result -1, and the loop goes on with the
-- bytes behind. `none` is fuel that ran out.
unfoldable pub decode_loop : ℕ → Command → BitBuffer → Option Command
decode_loop zero c b = none
decode_loop (suc f) c b =
    let (there, type, b') = get_bytes 32 1 b in
    elim there [
      | false ↦ some c
      | true ↦ elim (decode (enough b') type b') [
        | got v b'' ↦ decode_loop f (record c { values = c.values ++ (v ∷ []) }) b''
        | refused b'' ↦ decode_loop f (record c { code = failed }) b''
        | stuck ↦ none
      ]
    ]

unfoldable pub decode_command : List ℕ → Option Command
unfolding decode_loop
decode_command bytes =
    let b = of_bytes bytes in decode_loop (bytes_left b + 1) (record { code = ok; values = [] }) b
