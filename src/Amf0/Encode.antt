-- ===== src/Amf0/Encode.antt =====
-- `Amf0::Encode` and the `Encode…` helpers.
use tms.Prelude.{ℕ, Option, none, some, List, [], ◌∷◌, length, ◌==◌, if◌then◌else◌}
use tms.Any.{Any, Fields, int, double, string, vector, map, null, ecma, nullptr}
use tms.Any.{no_fields, field, double_of_int}
use tms.IoBuffer.{
  Allocator, IoBuffer, Ret, ret, error, write, write_u8, write_u16, write_u32, write_u64,
}
use tms.Amf0.{
  number_marker, string_marker, object_marker, null_marker, ecma_array_marker, object_end_marker,
}

-- 0 and -1.
pub data Code : Type 0 where
  ok failed : Code

-- What a call returns, and the output after it; `none` is a read through a NULL `Any*`.
abbrev pub Out : Type 0
Out = Option (Code × IoBuffer)

-- `if (ret != n) return -1;` after a `Write` of `n` bytes.
unfoldable pub check : ℕ → Ret × IoBuffer → Out
check n (error, out) = some (failed, out)
check n (ret m, out) = if m == n then some (ok, out) else some (failed, out)

-- `if (ret != 0) return -1;`
unfoldable pub succeed : Out → (IoBuffer → Out) → Out
succeed none k = none
succeed (some (failed, out)) k = some (failed, out)
succeed (some (ok, out)) k = k out

-- A call whose result the next call overwrites.
unfoldable pub regardless : Out → (IoBuffer → Out) → Out
regardless none k = none
regardless (some (c, out)) k = k out

module _ (heap : Allocator) where
  unfoldable pub encode_type : ℕ → IoBuffer → Out
  encode_type t out = check 1 (write_u8 heap t out)

  unfoldable pub encode_number : ℕ → IoBuffer → Out
  encode_number d out = check 8 (write_u64 heap d out)

  unfoldable pub encode_boolean : ℕ → IoBuffer → Out
  encode_boolean b out = check 1 (write_u8 heap b out)

  -- The length is cut to 16 bits.
  unfoldable pub encode_string : List ℕ → IoBuffer → Out
  encode_string s out =
      succeed (check 2 (write_u16 heap (length s) out)) λ out'. check (length s) (write heap s out')

  unfoldable mutual
    -- `Encode` of one value.
    pub encode : Any → IoBuffer → Out
    encode (int n) out =
        regardless (encode_type number_marker out) λ out'. encode_number (double_of_int n) out'
    encode (double d) out = regardless (encode_type number_marker out) λ out'. encode_number d out'
    encode (string s) out = regardless (encode_type string_marker out) λ out'. encode_string s out'
    -- `EncodeEcmaArray` writes the count 0 whatever the number of entries.
    encode (ecma fs) out =
        regardless (encode_type ecma_array_marker out)
          λ out'. encode_ecma_fields fs (write_u32 heap 0 out').1
    encode (map fs) out =
        regardless (encode_type object_marker out)
          λ out₁. regardless (encode_object fs out₁) λ out₂. encode_type object_end_marker out₂
    encode null out = encode_type null_marker out
    encode (vector v) out = some (failed, out)
    encode nullptr out = none

    -- `EncodeObject`.
    pub encode_object : Fields → IoBuffer → Out
    encode_object no_fields out = check 2 (write_u16 heap 0 out)
    encode_object (field key val fs) out =
        succeed (check 2 (write_u16 heap (length key) out)) λ out₁.
          succeed (check (length key) (write heap key out₁))
            λ out₂. succeed (encode val out₂) λ out₃. encode_object fs out₃

    -- `EncodeEcmaArray` after its count: the loop of `EncodeObject` over again.
    pub encode_ecma_fields : Fields → IoBuffer → Out
    encode_ecma_fields no_fields out = check 2 (write_u16 heap 0 out)
    encode_ecma_fields (field key val fs) out =
        succeed (check 2 (write_u16 heap (length key) out)) λ out₁.
          succeed (check (length key) (write heap key out₁))
            λ out₂. succeed (encode val out₂) λ out₃. encode_ecma_fields fs out₃

  -- `Encode` of a list of values, which stops at the first failure.
  unfoldable pub encode_all : List Any → IoBuffer → Out
  encode_all [] out = some (ok, out)
  encode_all (v ∷ vs) out = succeed (encode v out) λ out'. encode_all vs out'
