-- ===== src/Amf0/Wire.antt =====
-- AMF 0 as a format: the bytes of a value, and what a reader makes of it.
use tms.Prelude.{ℕ, ◌^◌, ◌<◌, List, [], ◌∷◌, ◌++◌, length, be_bytes}
use tms.Prelude.{All, IsByte}
use tms.Any.{Any, Fields, int, double, string, vector, map, null, ecma, nullptr}
use tms.Any.{no_fields, field, double_of_int}

abbrev pub object_end : List ℕ
object_end = 0 ∷ 0 ∷ 9 ∷ []

-- The marker of a value, and the bytes behind it. A vector and a NULL have no form.
abbrev pub marker : Any → ℕ
marker (int n) = 0
marker (double d) = 0
marker (string s) = 2
marker (vector v) = 0
marker (map fs) = 3
marker null = 5
marker (ecma fs) = 8
marker nullptr = 0

unfoldable mutual
  pub body : Any → List ℕ
  body (int n) = be_bytes 8 (double_of_int n)
  body (double d) = be_bytes 8 d
  body (string s) = be_bytes 2 (length s) ++ s
  body (vector v) = []
  body (map fs) = entries fs ++ object_end
  body null = []
  body (ecma fs) = be_bytes 4 0 ++ (entries fs ++ be_bytes 2 0)
  body nullptr = []

  pub entries : Fields → List ℕ
  entries no_fields = []
  entries (field k v fs) = be_bytes 2 (length k) ++ (k ++ (marker v ∷ body v ++ entries fs))

-- What `Encode` can write: no NULL and no vector at any depth.
abbrev mutual
  pub IsEncodable : Any → Type 0
  IsEncodable (int n) = Unit
  IsEncodable (double d) = Unit
  IsEncodable (string s) = Unit
  IsEncodable (vector v) = ⊥
  IsEncodable (map fs) = AreEncodable fs
  IsEncodable null = Unit
  IsEncodable (ecma fs) = AreEncodable fs
  IsEncodable nullptr = ⊥

  pub AreEncodable : Fields → Type 0
  AreEncodable no_fields = Unit
  AreEncodable (field k v fs) = IsEncodable v × AreEncodable fs

abbrev pub IsText : List ℕ → Type 0
IsText s = All IsByte s × (length s < 2 ^ 16)

-- What reads back: texts of at most 65535 bytes, doubles of 64 bits, no ECMA array, NULL or vector.
abbrev mutual
  pub IsPlain : Any → Type 0
  IsPlain (int n) = Unit
  IsPlain (double d) = d < 2 ^ 64
  IsPlain (string s) = IsText s
  IsPlain (vector v) = ⊥
  IsPlain (map fs) = ArePlain fs
  IsPlain null = Unit
  IsPlain (ecma fs) = ⊥
  IsPlain nullptr = ⊥

  pub ArePlain : Fields → Type 0
  ArePlain no_fields = Unit
  ArePlain (field k v fs) = IsText k × IsPlain v × ArePlain fs

-- What a reader is given for a value: an integer as a double, null as a NULL pointer.
unfoldable mutual
  pub as_read : Any → Any
  as_read (int n) = double (double_of_int n)
  as_read (double d) = double d
  as_read (string s) = string s
  as_read (vector v) = vector v
  as_read (map fs) = map (fields_as_read fs)
  as_read null = nullptr
  as_read (ecma fs) = ecma (fields_as_read fs)
  as_read nullptr = nullptr

  pub fields_as_read : Fields → Fields
  fields_as_read no_fields = no_fields
  fields_as_read (field k v fs) = field k (as_read v) (fields_as_read fs)
