-- ===== src/IoBuffer/Example.antt =====
-- A C library for the tests: every request is served, and fresh cells hold 0.
use tms.Prelude.{
  ℕ, zero, suc, ◌*◌, ◌^◌, ◌<◌, some, List, [], ◌∷◌, ◌++◌, ◌≡◌, refl, sym, ap, ◌∙◌, arith,
}
use tms.Prelude.{length, length-append, take, length-take, take-length_append, take-take, ◌≤◌}
use tms.IoBuffer.{Allocator, IoBuffer}
use tms.IoBuffer.Valid.{IsValid, HasMemory, HasRoom}
use mathlib.Core.Option.{some-injective}

abbrev pub zeros : ℕ → List ℕ
zeros zero = []
zeros (suc n) = 0 ∷ zeros n

pub length-zeros : (n : ℕ) → length (zeros n) ≡ n
length-zeros zero = refl
length-zeros (suc n) = omega (arith, length-zeros n)

pub grown_length : (m : List ℕ) (n : ℕ) → length (take n (m ++ zeros n)) ≡ n
grown_length m n =
    omega (arith, length-take n (m ++ zeros n), length-append m (zeros n), length-zeros n)

pub grown_keeps : (m : List ℕ) (n : ℕ) → length m ≤ n → take (length m) (take n (m ++ zeros n)) ≡ m
grown_keeps m n h = take-take (length m) n (m ++ zeros n) h ∙ take-length_append m (zeros n)

abbrev pub heap : Allocator
heap = record {
  malloc = λ n. some (zeros n);
  realloc = λ m n. some (take n (m ++ zeros n));
  length-malloc = λ n m e. omega (arith, length-zeros n, ap length (some-injective (zeros n) m e));
  length-realloc = λ m n m' e.
      omega (arith, grown_length m n, ap length (some-injective (take n (m ++ zeros n)) m' e));
  realloc_keeps = λ m n m' e h.
      ap (take (length m)) (sym (some-injective (take n (m ++ zeros n)) m' e)) ∙ grown_keeps m n h;
}

pub memory : HasMemory heap
memory = record { malloc_some = λ n h e. cc; realloc_some = λ m n h e. cc }

-- A buffer as the constructor leaves it, with nothing allocated.
abbrev pub fresh : IoBuffer
fresh = record { mem = []; capacity = 0; start = 0; end = 0 }

pub fresh-HasRoom : (k : ℕ) → 2 * k < 2 ^ 31 → HasRoom k fresh
fresh-HasRoom k h = record { valid = omega arith; below = omega arith }

-- 7, 8 and 9 unread of five cells.
abbrev pub three : IoBuffer
three = record { mem = 6 ∷ 7 ∷ 8 ∷ 9 ∷ 0 ∷ []; capacity = 5; start = 1; end = 4 }

pub three-IsValid : IsValid three
three-IsValid = omega arith
