-- ===== src/Prelude/Bytes.antt =====
-- Bytes, and numbers written in bytes, most significant first.
use Prim.Native.Nat.{ℕ, zero, suc, ◌+◌, ◌*◌, ◌/◌, ◌%◌, ◌^◌, ◌<◌, ◌≤◌}
use mathlib.Core.Path.{◌≡◌, refl, ◌∙◌, ap}
use mathlib.Core.List.{List, [], ◌∷◌, ◌++◌}
use native.Mathlib.Omega.{arith}
use native.Mathlib.Numerals.{towards_suc}
use native.Mathlib.Nat.{
  pow-suc, one-le-pow, div-add-mod, add-mul-mod_self_left, mod-eq_of_lt, mod-lt,
}
use tms.Prelude.Lists.{length}

abbrev pub All {ℓ κ} : {A : Type ℓ} → (A → Type κ) → List A → Type κ
All P [] = Unit
All P (x ∷ xs) = P x × All P xs

pub All-append {ℓ κ} :
    {A : Type ℓ} (P : A → Type κ) (xs ys : List A) → All P xs → All P ys → All P (xs ++ ys)
All-append P [] ys h k = k
All-append P (x ∷ xs) ys (p, h) k = (p, All-append P xs ys h k)

abbrev pub IsByte : ℕ → Type 0
IsByte b = b < 256

-- The number that the bytes spell, read after `r`.
abbrev pub be_from : ℕ → List ℕ → ℕ
be_from r [] = r
be_from r (b ∷ bs) = be_from (r * 256 + b) bs

abbrev pub be : List ℕ → ℕ
be = be_from 0

-- The last `n` bytes of `v`, most significant first.
abbrev pub be_bytes : ℕ → ℕ → List ℕ
be_bytes zero v = []
be_bytes (suc n) v = v / 256 ^ n % 256 ∷ be_bytes n v

pub length-be_bytes : (n v : ℕ) → length (be_bytes n v) ≡ n
length-be_bytes zero v = refl
length-be_bytes (suc n) v = ap suc (length-be_bytes n v)

pub be_bytes-IsByte : (n v : ℕ) → All IsByte (be_bytes n v)
be_bytes-IsByte zero v = tt
be_bytes-IsByte (suc n) v = (omega arith, be_bytes-IsByte n v)

mod-suc_byte : (n v : ℕ) → v % 256 ^ suc n ≡ v / 256 ^ n % 256 * 256 ^ n + v % 256 ^ n
mod-suc_byte n v =
    ap (λ t. t % 256 ^ suc n) whole
    ∙ add-mul-mod_self_left (q % 256 * m + v % m) (256 ^ suc n) (q / 256)
    ∙ mod-eq_of_lt small
  where
    m : ℕ
    m = 256 ^ n

    q : ℕ
    q = v / m

    whole : v ≡ q % 256 * m + v % m + 256 ^ suc n * (q / 256)
    whole = omega (
      arith,
      div-add-mod v m,
      ap (λ (t : ℕ). m * t) (div-add-mod q 256),
      ap (λ (t : ℕ). t * (q / 256)) (pow-suc 256 n),
    )

    small : q % 256 * m + v % m < 256 ^ suc n
    small = grind (arith, one-le-pow n 256, pow-suc 256 n, mod-lt v {m = m})

be_from-be_bytes : (n v r : ℕ) → be_from r (be_bytes n v) ≡ r * 256 ^ n + v % 256 ^ n
be_from-be_bytes zero v r = omega arith
be_from-be_bytes (suc n) v r = omega (
  arith,
  be_from-be_bytes n v (r * 256 + v / 256 ^ n % 256),
  mod-suc_byte n v,
  ap (λ (t : ℕ). r * t) (pow-suc 256 n),
)

-- The bytes of a number spell it, as far as they reach.
pub be-be_bytes : (n v : ℕ) → be (be_bytes n v) ≡ v % 256 ^ n
be-be_bytes n v = omega (arith, be_from-be_bytes n v 0)

pub two-pow-bytes : (n : ℕ) → 2 ^ (8 * n) ≡ 256 ^ n
two-pow-bytes zero = refl
two-pow-bytes (suc n) =
    let e : 8 * suc n ≡ 8 * n + 8 = omega arith in
    rw e (simp towards_suc (omega (arith, two-pow-bytes n, pow-suc 256 n, pow-suc 2 (8 * n))))

pub be_from-ge : (r : ℕ) (xs : List ℕ) → r ≤ be_from r xs
be_from-ge r [] = omega arith
be_from-ge r (x ∷ xs) = omega (arith, be_from-ge (r * 256 + x) xs)

byte-mul-le : (x p : ℕ) → x < 256 → x * p ≤ 255 * p
byte-mul-le x p h = grind arith

be_from-lt :
    (r n : ℕ) (xs : List ℕ) → All IsByte xs → length xs ≡ n → be_from r xs < (r + 1) * 256 ^ n
be_from-lt r zero [] h e = omega arith
be_from-lt r zero (x ∷ xs) h e = absurd (omega arith)
be_from-lt r (suc n) [] h e = absurd (omega arith)
be_from-lt r (suc n) (x ∷ xs) (hx, h) e = omega (
  arith,
  be_from-lt (r * 256 + x) n xs h (omega arith),
  ap (λ (t : ℕ). (r + 1) * t) (pow-suc 256 n),
  byte-mul-le x (256 ^ n) hx,
)

pub be-lt : (n : ℕ) (xs : List ℕ) → All IsByte xs → length xs ≡ n → be xs < 256 ^ n
be-lt n xs h e = omega (arith, be_from-lt 0 n xs h e)
