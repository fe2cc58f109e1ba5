-- ===== src/Amf0/RoundTrip.antt =====
-- `Amf0::Decode` reads the format back.
use tms.Prelude.{ℕ, zero, suc, ◌+◌, ◌^◌, ◌<◌, some, true, false}
use tms.Prelude.{List, [], ◌∷◌, ◌++◌, ◌≡◌, refl, sym, ap, ap₂, ◌∙◌, arith, length, length-append}
use tms.Prelude.{
  append_assoc, append-nil, be, be_bytes, length-be_bytes, be_bytes-IsByte, be-be_bytes,
}
use tms.Prelude.{◌==◌, if◌then◌else◌}
use tms.Any.{Any, Fields, int, double, string, vector, map, null, ecma, nullptr, no_fields, field}
use tms.Any.{double_of_int, insert}
use tms.BitBuffer.{BitBuffer, more_than_bytes, get_bytes}
use tms.BitBuffer.Aligned.{at, more_than_bytes-at, get_bytes-at, get_string-at}
use tms.Amf0.Decode.{got, get_type, string_or_empty, decode_number}
use tms.Amf0.Decode.{decode_string, decode_null, value, end_mark, read_type, read_key, read_entry}
use tms.Amf0.Decode.{store_value, decode, decode_object}
use tms.Amf0.Wire.{
  marker, body, entries, object_end, IsText, IsPlain, ArePlain, as_read, fields_as_read,
}
use native.Mathlib.Nat.{mod-eq_of_lt}

pub u16-at :
    (pre rest : List ℕ) (n : ℕ)
    → n < 2 ^ 16
    → get_bytes 16 2 (at pre (be_bytes 2 n ++ rest)) ≡ (true, n, at (pre ++ be_bytes 2 n) rest)
u16-at pre rest n h =
    let v : be (be_bytes 2 n) ≡ n = be-be_bytes 2 n ∙ mod-eq_of_lt h in
    get_bytes-at 16 pre (be_bytes 2 n) rest (be_bytes-IsByte 2 n) (omega arith) (omega arith)
    ∙ ap (λ (x : ℕ). (true, x, at (pre ++ be_bytes 2 n) rest)) v

u64-at :
    (pre rest : List ℕ) (n : ℕ)
    → n < 2 ^ 64
    → get_bytes 64 8 (at pre (be_bytes 8 n ++ rest)) ≡ (true, n, at (pre ++ be_bytes 8 n) rest)
u64-at pre rest n h =
    let v : be (be_bytes 8 n) ≡ n = be-be_bytes 8 n ∙ mod-eq_of_lt h in
    get_bytes-at 64 pre (be_bytes 8 n) rest (be_bytes-IsByte 8 n) (rw v h) (rw v h)
    ∙ ap (λ (x : ℕ). (true, x, at (pre ++ be_bytes 8 n) rest)) v

pub type-at :
    (pre rest : List ℕ) (t : ℕ)
    → t < 256
    → get_bytes 32 1 (at pre (t ∷ rest)) ≡ (true, t, at (pre ++ (t ∷ [])) rest)
type-at pre rest t h =
    get_bytes-at 32 pre (t ∷ []) rest (h, tt) (omega arith) (omega arith)
    ∙ ap (λ (x : ℕ). (true, x, at (pre ++ (t ∷ [])) rest)) (omega arith)

pub enough-at :
    (pre mid rest : List ℕ) (n : ℕ)
    → n ≡ length mid
    → more_than_bytes n (at pre (mid ++ rest)) ≡ true
enough-at pre mid rest n e =
    more_than_bytes-at n pre (mid ++ rest) ∙ ground (arith, length-append mid rest)

text-at :
    (pre s rest : List ℕ)
    → string_or_empty (length s) (at pre (s ++ rest)) ≡ (s, at (pre ++ s) rest)
unfolding string_or_empty
text-at pre s rest = rw (get_string-at pre s rest, string_or_empty)

get_type-at :
    (pre rest : List ℕ) (t : ℕ)
    → t < 256
    → get_type (at pre (t ∷ rest)) ≡ some (t, at (pre ++ (t ∷ [])) rest)
unfolding get_type
get_type-at pre rest t h = rw (enough-at pre (t ∷ []) rest 1 refl, type-at pre rest t h)

read_type-at :
    (key pre rest : List ℕ) (t : ℕ)
    → t < 256
    → read_type key (at pre (t ∷ rest)) ≡ (
        if t == 9
        then end_mark (at (pre ++ (t ∷ [])) rest)
        else value key t (at (pre ++ (t ∷ [])) rest))
unfolding read_type
read_type-at key pre rest t h = rw (get_type-at pre rest t h, read_type)

read_entry-at :
    (pre k rest : List ℕ)
    → IsText k
    → read_entry (at pre (be_bytes 2 (length k) ++ (k ++ rest)))
      ≡ read_type k (at ((pre ++ be_bytes 2 (length k)) ++ k) rest)
unfolding read_entry read_key
read_entry-at pre k rest (bytes, h) = rw (
  u16-at pre (k ++ rest) (length k) h,
  enough-at (pre ++ be_bytes 2 (length k)) k rest (length k) refl,
  text-at (pre ++ be_bytes 2 (length k)) k rest,
)

decode_number-at :
    (pre rest : List ℕ) (d : ℕ)
    → d < 2 ^ 64
    → decode_number (at pre (be_bytes 8 d ++ rest)) ≡ got (double d) (at (pre ++ be_bytes 8 d) rest)
unfolding decode_number
decode_number-at pre rest d h =
    rw (enough-at pre (be_bytes 8 d) rest 8 (sym (length-be_bytes 8 d)), u64-at pre rest d h)

decode_string-at :
    (pre s rest : List ℕ)
    → IsText s
    → decode_string (at pre ((be_bytes 2 (length s) ++ s) ++ rest))
      ≡ got (string s) (at (pre ++ (be_bytes 2 (length s) ++ s)) rest)
unfolding decode_string
decode_string-at pre s rest (bytes, h) =
    rw
      (
        append_assoc (be_bytes 2 (length s)) s rest,
        enough-at pre (be_bytes 2 (length s)) (s ++ rest) 2 refl,
        u16-at pre (s ++ rest) (length s) h,
        enough-at (pre ++ be_bytes 2 (length s)) s rest (length s) refl,
        text-at (pre ++ be_bytes 2 (length s)) s rest,
      )
      (rw (append_assoc pre (be_bytes 2 (length s)) s))

double_of_int-lt : (n : ℕ) → double_of_int n < 2 ^ 64
unfolding double_of_int
double_of_int-lt n = ground arith

-- Entries read so far, and those behind them.
abbrev pub join : Fields → Fields → Fields
join no_fields gs = gs
join (field k v fs) gs = field k v (join fs gs)

pub join-insert :
    (fs gs : Fields) (k : List ℕ) (v : Any) → join (insert k v fs) gs ≡ join fs (field k v gs)
unfolding insert
join-insert no_fields gs k v = refl
join-insert (field j w fs) gs k v = ap (field j w) (join-insert fs gs k v)

pub join-no_fields : (fs : Fields) → join fs no_fields ≡ fs
join-no_fields no_fields = refl
join-no_fields (field k v fs) = ap (field k v) (join-no_fields fs)

pub marker-lt : (v : Any) → marker v < 9
marker-lt (int n) = omega arith
marker-lt _ = omega arith

read_entry_end :
    (pre rest : List ℕ)
    → read_entry (at pre (object_end ++ rest)) ≡ end_mark (at (pre ++ object_end) rest)
read_entry_end pre rest =
    let here : ((pre ++ (0 ∷ 0 ∷ [])) ++ []) ++ (9 ∷ []) ≡ pre ++ object_end =
      simp (append-nil, append_assoc) in
    read_entry-at pre [] (9 ∷ rest) (tt, omega arith)
    ∙ read_type-at [] ((pre ++ (0 ∷ 0 ∷ [])) ++ []) rest 9 (omega arith)
    ∙ ap (λ t. end_mark (at t rest)) here

pub read_entry_value :
    (pre k rest : List ℕ) (t : ℕ)
    → IsText k
    → t < 9
    → read_entry (at pre (be_bytes 2 (length k) ++ (k ++ (t ∷ rest))))
      ≡ value k t (at (((pre ++ be_bytes 2 (length k)) ++ k) ++ (t ∷ [])) rest)
read_entry_value pre k rest t h l =
    let ordinary : (t == 9) ≡ false = ground arith in
    read_entry-at pre k (t ∷ rest) h
    ∙ read_type-at k ((pre ++ be_bytes 2 (length k)) ++ k) rest t (omega arith)
    ∙ rw ordinary

object_step_end :
    (f : ℕ) (fs : Fields) (b b' : BitBuffer)
    → read_entry b ≡ end_mark b'
    → decode_object (suc f) fs b ≡ got (map fs) b'
unfolding decode
object_step_end f fs b b' e = rw (e, decode_object)

object_step_value :
    (f t : ℕ) (fs : Fields) (k : List ℕ) (v : Any) (b b' b'' : BitBuffer)
    → read_entry b ≡ value k t b'
    → decode f t b' ≡ got v b''
    → decode_object (suc f) fs b ≡ decode_object f (insert k v fs) b''
unfolding decode store_value
object_step_value f t fs k v b b' b'' e d = rw (e, decode_object) (rw d)

decode_null-at : (pre rest : List ℕ) → decode_null (at pre rest) ≡ got nullptr (at (pre ++ []) rest)
unfolding decode_null
decode_null-at pre rest = rw append-nil

pub entry_length :
    (k : List ℕ) (v : Any) (fs : Fields)
    → length (entries (field k v fs)) ≡ length k + length (body v) + length (entries fs) + 3
unfolding entries
entry_length k v fs =
    omega (
      arith,
      length-append k (marker v ∷ body v ++ entries fs),
      length-append (body v) (entries fs),
    )

-- The bytes of an entry, bracketed as they are read, before and after.
pub entry_ahead :
    (l k b e x : List ℕ) (m : ℕ)
    → (l ++ (k ++ (m ∷ b ++ e))) ++ x ≡ l ++ (k ++ (m ∷ (b ++ (e ++ x))))
entry_ahead l k b e x m = simp append_assoc

pub entry_behind :
    (pre l k b e x : List ℕ) (m : ℕ)
    → ((((pre ++ l) ++ k) ++ (m ∷ [])) ++ b) ++ (e ++ x) ≡ pre ++ ((l ++ (k ++ (m ∷ b ++ e))) ++ x)
entry_behind pre l k b e x m = simp append_assoc

mutual
  unfolding body as_read decode

  value-Reads :
      (v : Any) (f : ℕ) (pre rest : List ℕ)
      → IsPlain v
      → length (body v) < f
      → decode f (marker v) (at pre (body v ++ rest)) ≡ got (as_read v) (at (pre ++ body v) rest)
  value-Reads v zero pre rest h l = absurd (omega arith)
  value-Reads (int n) (suc f) pre rest h l =
      decode_number-at pre rest (double_of_int n) (double_of_int-lt n)
  value-Reads (double d) (suc f) pre rest h l = decode_number-at pre rest d h
  value-Reads (string s) (suc f) pre rest h l = decode_string-at pre s rest h
  value-Reads (vector v) (suc f) pre rest h l = absurd h
  value-Reads (map fs) (suc f) pre rest h l = rw (append_assoc (entries fs) object_end rest) (
      entries-Reads fs f no_fields pre rest h
        (omega (arith, length-append (entries fs) object_end)))
  value-Reads null (suc f) pre rest h l = decode_null-at pre rest
  value-Reads (ecma fs) (suc f) pre rest h l = absurd h
  value-Reads nullptr (suc f) pre rest h l = absurd h

  entries-Reads :
      (fs : Fields) (f : ℕ) (acc : Fields) (pre rest : List ℕ)
      → ArePlain fs
      → length (entries fs) < f
      → decode_object f acc (at pre (entries fs ++ (object_end ++ rest)))
        ≡ got (map (join acc (fields_as_read fs))) (at (pre ++ (entries fs ++ object_end)) rest)
  entries-Reads fs zero acc pre rest h l = absurd (omega arith)
  entries-Reads no_fields (suc f) acc pre rest h l =
      object_step_end f acc (at pre (object_end ++ rest)) (at (pre ++ object_end) rest)
        (read_entry_end pre rest)
      ∙ ap (λ t. got (map t) (at (pre ++ object_end) rest)) (sym (join-no_fields acc))
  entries-Reads (field k v fs) (suc f) acc pre rest (hk, hv, h) l =
      let l2 : List ℕ = be_bytes 2 (length k) in
      let front : List ℕ = ((pre ++ l2) ++ k) ++ (marker v ∷ []) in
      let more : List ℕ = entries fs ++ (object_end ++ rest) in
      let size = entry_length k v fs in
      ap (λ t. decode_object (suc f) acc (at pre t))
        (entry_ahead l2 k (body v) (entries fs) (object_end ++ rest) (marker v))
      ∙ object_step_value f (marker v) acc k (as_read v)
          (at pre (l2 ++ (k ++ (marker v ∷ (body v ++ more))))) (at front (body v ++ more))
          (at (front ++ body v) more)
          (read_entry_value pre k (body v ++ more) (marker v) hk (marker-lt v))
          (value-Reads v f front more hv (omega (arith, size)))
      ∙ entries-Reads fs f (insert k (as_read v) acc) (front ++ body v) rest h (omega (arith, size))
      ∙ ap₂ (λ t u. got (map t) (at u rest)) (join-insert acc (fields_as_read fs) k (as_read v))
          (entry_behind pre l2 k (body v) (entries fs) object_end (marker v))

-- A plain value behind whatever was read before it is read back whole from its bytes, as a double
-- where it was an integer and as NULL where it was null. The reader stops right behind it, and
-- more fuel than it has bytes is enough.
pub decode-body :
    (v : Any) (f : ℕ) (pre rest : List ℕ)
    → IsPlain v
    → length (body v) < f
    → decode f (marker v) (at pre (body v ++ rest)) ≡ got (as_read v) (at (pre ++ body v) rest)
decode-body v f pre rest h l = value-Reads v f pre rest h l
