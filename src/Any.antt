-- ===== src/Any.antt =====
-- The values of src/any.h and src/any.cpp. A 64-bit integer and a double are their bit patterns,
-- a string its bytes. `nullptr` is the NULL that an `Any*` may be.
use tms.Prelude.{ℕ, zero, suc, ◌+◌, ◌-◌, ◌*◌, ◌/◌, ◌%◌, ◌^◌, Option, none, some, Bool, true, false}
use tms.Prelude.{not, List, [], ◌∷◌, ◌==◌, ltb, if◌then◌else◌, ◌&&◌, ◌||◌}

mutual
  pub data Any : Type 0 where
    int : ℕ → Any
    double : ℕ → Any
    string : List ℕ → Any
    vector : Anys → Any
    map : Fields → Any
    null : Any
    ecma : Fields → Any
    nullptr : Any

  -- `vec_type`
  pub data Anys : Type 0 where
    no_anys : Anys
    item : Any → Anys → Anys

  -- `map_type` and `ecma_type`
  pub data Fields : Type 0 where
    no_fields : Fields
    field : List ℕ → Any → Fields → Fields

-- `GetType`; a NULL pointer has none.
unfoldable pub get_type : Any → Option ℕ
get_type (int n) = some 0
get_type (double d) = some 1
get_type (string s) = some 2
get_type (vector v) = some 3
get_type (map fs) = some 4
get_type null = some 5
get_type (ecma fs) = some 6
get_type nullptr = none

unfoldable pub get_int : Any → Option ℕ
get_int (int n) = some n
get_int _ = none

unfoldable pub get_double : Any → Option ℕ
get_double (double d) = some d
get_double _ = none

unfoldable pub get_string : Any → Option (List ℕ)
get_string (string s) = some s
get_string _ = none

unfoldable pub get_vector : Any → Option Anys
get_vector (vector v) = some v
get_vector _ = none

unfoldable pub get_map : Any → Option Fields
get_map (map fs) = some fs
get_map _ = none

unfoldable pub get_ecma : Any → Option Fields
get_ecma (ecma fs) = some fs
get_ecma _ = none

-- `==` on `std::string`.
unfoldable pub same : List ℕ → List ℕ → Bool
same [] [] = true
same [] (y ∷ ys) = false
same (x ∷ xs) [] = false
same (x ∷ xs) (y ∷ ys) = (x == y) && same xs ys

-- `operator[]` of `Map` and `Ecma`: the first entry of that key, or NULL.
unfoldable pub at_key : List ℕ → Fields → Any
unfolding same
at_key key no_fields = nullptr
at_key key (field k v fs) = if same k key then v else at_key key fs

-- `operator[]` of `Vector`.
unfoldable pub at_index : ℕ → Anys → Any
at_index i no_anys = nullptr
at_index zero (item v vs) = v
at_index (suc i) (item v vs) = at_index i vs

-- `Insert` of `Map` and `Ecma`, a `push_back`.
unfoldable pub insert : List ℕ → Any → Fields → Fields
insert key v no_fields = field key v no_fields
insert key v (field k w fs) = field k w (insert key v fs)

-- The highest set bit of `n`, counted from `e`.
unfoldable pub top_bit : ℕ → ℕ → ℕ → ℕ
top_bit zero e n = e
top_bit (suc fuel) e n = if ltb n 2 then e else top_bit fuel (e + 1) (n / 2)

-- The significand of 53 bits of `m`, whose highest bit is `e`, rounded to nearest, ties to even.
unfoldable pub significand : ℕ → ℕ → ℕ
significand e m =
    if ltb e 53
    then m * 2 ^ (52 - e)
    else let unit = 2 ^ (e - 52) in
      let q = m / unit in
      let r = m % unit in if ltb unit (2 * r) || ((2 * r == unit) && (q % 2 == 1)) then q + 1 else q

-- The double of an `int64_t`, from bit pattern to bit pattern (IEEE 754 binary64).
unfoldable pub double_of_int : ℕ → ℕ
unfolding top_bit significand
double_of_int n =
    let negative = not (ltb n (2 ^ 63)) in
    let m = if negative then 2 ^ 64 - n else n in
    let e = top_bit 64 0 m in
    let sign = if negative then 2 ^ 63 else 0 in
    if m == 0 then 0 else (sign + ((1023 + e) * 2 ^ 52 + significand e m - 2 ^ 52)) % 2 ^ 64
