-- ===== src/Rtmp/Header.antt =====
-- The headers that `SendData` writes are those that `Parse` reads.
use tms.Prelude.{
  ℕ, zero, suc, ◌+◌, ◌*◌, ◌/◌, ◌%◌, ◌^◌, ◌<◌, ◌≤◌, some, true, false, List, [], ◌∷◌, ◌++◌, ◌==◌,
  leb, length, ◌≡◌, refl, ap, ap₂, ◌∙◌, arith, be, be_bytes, be-be_bytes, be_bytes-IsByte,
  length-be_bytes,
}
use tms.BitBuffer.{of_bytes, get_bits, get_bytes, more_than_bits, bits_left, bit, bits_loop}
use tms.BitBuffer.Aligned.{at, get_bytes-at}
use mathlib.Core.Path.{subst}
use native.Mathlib.Nat.{mod-eq_of_lt}
use tms.Rtmp.{Message, swap32}
use tms.Rtmp.Send.{basic_header, message_header}
use tms.Rtmp.Parse.{bits_or_zero, read_cs_id, read_basic, header_len, set_header}

basic_header_lem :
    (fmt cs_id : ℕ) → fmt < 4 → cs_id < 64 → basic_header fmt cs_id ≡ fmt * 64 + cs_id
unfolding basic_header
basic_header_lem fmt cs_id f c = omega arith

-- The two highest bits of a byte, and the six others.
two_bits : (x : ℕ) → x < 256 → (bits_or_zero 8 2 (of_bytes (x ∷ []))).0 ≡ x / 64
unfolding bits_or_zero get_bits more_than_bits bits_left bits_loop bit of_bytes
two_bits x h = omega arith

six_bits :
    (x : ℕ) → x < 256 → (bits_or_zero 32 6 (bits_or_zero 8 2 (of_bytes (x ∷ []))).1).0 ≡ x % 64
unfolding bits_or_zero get_bits more_than_bits bits_left bits_loop bit of_bytes
six_bits x h = omega arith

read_first :
    (x : ℕ) (rest : List ℕ)
    → x < 256
    → read_basic (x ∷ rest) ≡ read_cs_id (x / 64) (x % 64) (x ∷ rest)
unfolding read_basic
read_first x rest h =
    let some_byte : leb 1 (length (x ∷ rest)) ≡ true = ground arith in
    rw (some_byte, read_basic)
      (ap₂ (λ a b. read_cs_id a b (x ∷ rest)) (two_bits x h) (six_bits x h))

one_byte_id :
    (fmt cs_id : ℕ) (q : List ℕ) → 2 ≤ cs_id → read_cs_id fmt cs_id q ≡ some (fmt, cs_id, 1)
unfolding read_cs_id
one_byte_id fmt cs_id q h =
    let not_0 : (cs_id == 0) ≡ false = ground arith in
    let not_1 : (cs_id == 1) ≡ false = ground arith in rw not_0 (rw not_1 refl)

-- A chunk stream id from 2 to 63 goes through the basic header.
pub read_basic-basic_header :
    (fmt cs_id : ℕ) (rest : List ℕ)
    → fmt < 4
    → 2 ≤ cs_id
    → cs_id < 64
    → read_basic (basic_header fmt cs_id ∷ rest) ≡ some (fmt, cs_id, 1)
read_basic-basic_header fmt cs_id rest f l c =
    let e = basic_header_lem fmt cs_id f c in
    read_first (basic_header fmt cs_id) rest (omega (arith, e))
    ∙ ap₂ (λ a b. read_cs_id a b (basic_header fmt cs_id ∷ rest)) (omega (arith, e))
        (omega (arith, e))
    ∙ one_byte_id fmt cs_id (basic_header fmt cs_id ∷ rest) l

swap32-swap32 : (n : ℕ) → n < 2 ^ 32 → swap32 (swap32 n) ≡ n
unfolding swap32
swap32-swap32 n h = omega arith

swap32-lt : (n : ℕ) → swap32 n < 2 ^ 32
unfolding swap32
swap32-lt n = omega arith

field_at :
    (w n x : ℕ) (pre rest : List ℕ)
    → x < 256 ^ n
    → x < 2 ^ 64
    → x < 2 ^ w
    → get_bytes w n (at pre (be_bytes n x ++ rest)) ≡ (true, x, at (pre ++ be_bytes n x) rest)
field_at w n x pre rest h k l =
    let value : be (be_bytes n x) ≡ x = be-be_bytes n x ∙ mod-eq_of_lt h in
    subst
      (λ (j : ℕ).
        get_bytes w j (at pre (be_bytes n x ++ rest)) ≡ (true, x, at (pre ++ be_bytes n x) rest))
      (length-be_bytes n x)
      (get_bytes-at w pre (be_bytes n x) rest (be_bytes-IsByte n x) (rw value k) (rw value l)
        ∙ ap (λ (v : ℕ). (true, v, at (pre ++ be_bytes n x) rest)) value)

no_header : (m : Message) → set_header 3 [] m ≡ m
unfolding set_header
no_header m = refl

set_delta :
    (d : ℕ) (m : Message)
    → d < 2 ^ 24
    → set_header 2 (be_bytes 3 d ++ []) m ≡ record m { timestamp_delta = d }
unfolding set_header of_bytes
set_delta d m h =
    rw (field_at 32 3 d [] [] (omega arith) (omega arith) (omega arith), set_header) refl

set_short :
    (d l t : ℕ) (m : Message)
    → d < 2 ^ 24
    → l < 2 ^ 24
    → t < 2 ^ 8
    → set_header 1 (be_bytes 3 d ++ (be_bytes 3 l ++ (be_bytes 1 t ++ []))) m
      ≡ record m { timestamp_delta = d; message_length = l; message_type_id = t }
unfolding set_header of_bytes
set_short d l t m hd hl ht =
    rw
      (
        field_at 32 3 d [] (be_bytes 3 l ++ (be_bytes 1 t ++ [])) (omega arith) (omega arith)
            (omega arith),
        field_at 32 3 l (be_bytes 3 d) (be_bytes 1 t ++ []) (omega arith) (omega arith)
            (omega arith),
        field_at 8 1 t (be_bytes 3 d ++ be_bytes 3 l) [] (omega arith) (omega arith) (omega arith),
        set_header,
      )
      refl

set_whole :
    (d l t s : ℕ) (m : Message)
    → d < 2 ^ 24
    → l < 2 ^ 24
    → t < 2 ^ 8
    → s < 2 ^ 32
    → set_header 0
        (be_bytes 3 d ++ (be_bytes 3 l ++ (be_bytes 1 t ++ (be_bytes 4 (swap32 s) ++ []))))
        m
      ≡ record m {
        timestamp = d;
        timestamp_calc = d;
        message_length = l;
        message_type_id = t;
        message_stream_id = s;
      }
unfolding set_header of_bytes
set_whole d l t s m hd hl ht hs =
    let tail : List ℕ = be_bytes 4 (swap32 s) ++ [] in
    rw
      (
        field_at 32 3 d [] (be_bytes 3 l ++ (be_bytes 1 t ++ tail)) (omega arith) (omega arith)
            (omega arith),
        field_at 32 3 l (be_bytes 3 d) (be_bytes 1 t ++ tail) (omega arith) (omega arith)
            (omega arith),
        field_at 8 1 t (be_bytes 3 d ++ be_bytes 3 l) tail (omega arith) (omega arith)
            (omega arith),
        field_at 32 4 (swap32 s) ((be_bytes 3 d ++ be_bytes 3 l) ++ be_bytes 1 t) [] (swap32-lt s)
            (omega (arith, swap32-lt s)) (swap32-lt s),
        set_header,
      )
      (ap
        (λ x. record m {
          timestamp = d;
          timestamp_calc = d;
          message_length = l;
          message_type_id = t;
          message_stream_id = x;
        })
        (swap32-swap32 s hs))

-- What `Parse` makes of a message header in the message that it has for the chunk stream.
abbrev pub heard : ℕ → Message → Message → Message
heard zero cur m = record m {
  timestamp = cur.timestamp_delta;
  timestamp_calc = cur.timestamp_delta;
  message_length = cur.message_length;
  message_type_id = cur.message_type_id;
  message_stream_id = cur.message_stream_id;
}
heard (suc zero) cur m = record m {
  timestamp_delta = cur.timestamp_delta;
  message_length = cur.message_length;
  message_type_id = cur.message_type_id;
}
heard (suc (suc zero)) cur m = record m { timestamp_delta = cur.timestamp_delta }
heard _ cur m = m

-- The fields fit the bytes that the headers have for them.
pub record IsSendable (cur : Message) : Type 0 where
  pub delta_small : cur.timestamp_delta < 2 ^ 24
  pub length_small : cur.message_length < 2 ^ 24
  pub type_small : cur.message_type_id < 2 ^ 8
  pub stream_small : cur.message_stream_id < 2 ^ 32
  pub two_le : 2 ≤ cur.cs_id
  pub one_byte : cur.cs_id < 64

-- Every message header is read as what it was written from, and has the length expected.
pub set_header-message_header :
    (fmt : ℕ) (cur m : Message)
    → fmt < 4
    → IsSendable cur
    → (set_header fmt (message_header fmt cur) m ≡ heard fmt cur m)
      × (length (message_header fmt cur) ≡ header_len fmt)
unfolding message_header header_len
set_header-message_header zero cur m h s = (
  set_whole cur.timestamp_delta cur.message_length cur.message_type_id cur.message_stream_id m
      s.delta_small s.length_small s.type_small s.stream_small,
  refl,
)
set_header-message_header (suc zero) cur m h s = (
  set_short cur.timestamp_delta cur.message_length cur.message_type_id m s.delta_small
      s.length_small s.type_small,
  refl,
)
set_header-message_header (suc (suc zero)) cur m h s =
    (set_delta cur.timestamp_delta m s.delta_small, refl)
set_header-message_header (suc (suc (suc zero))) cur m h s = (no_header m, refl)
set_header-message_header (suc (suc (suc (suc fmt)))) cur m h s = absurd (omega arith)
