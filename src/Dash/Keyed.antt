-- ===== src/Dash/Keyed.antt =====
-- The maps of src/dash_muxer.cpp as keys grow: a new key goes to the end, and the oldest go.
use tms.Prelude.{
  ℕ, zero, suc, ◌+◌, ◌-◌, ◌<◌, Bool, true, false, some, List, [], ◌∷◌, ◌++◌, map, length, drop, ltb,
  ◌≡◌, refl, ap, ◌∙◌, arith, All, if◌then◌else◌,
}
use mathlib.Core.Path.{subst}
use tms.Dash.{store, find, erase_old}

abbrev pub numbered {ℓ} : {A : Type ℓ} → ℕ → List A → List (ℕ × A)
numbered n [] = []
numbered n (x ∷ xs) = (n, x) ∷ numbered (n + 1) xs

pub store-last {ℓ} :
    {A : Type ℓ} (key : ℕ) (v : A) (es : List (ℕ × A))
    → All (λ e. e.0 < key) es
    → store key v es ≡ es ++ ((key, v) ∷ [])
unfolding store
store-last key v [] h = refl
store-last key v ((k, w) ∷ es) (less, h) = let rest = store-last key v es h in ground arith

pub find-skip {ℓ} :
    {A : Type ℓ} (key : ℕ) (es fs : List (ℕ × A))
    → All (λ e. e.0 < key) es
    → find key (es ++ fs) ≡ find key fs
unfolding find
find-skip key [] fs h = refl
find-skip key ((k, w) ∷ es) fs (less, h) = let rest = find-skip key es fs h in ground arith

pub find-first {ℓ} :
    {A : Type ℓ} (key : ℕ) (v : A) (es : List (ℕ × A)) → find key ((key, v) ∷ es) ≡ some v
unfolding find
find-first key v es = ground arith

drop-more {ℓ} :
    {A : Type ℓ} (b : Bool) (e : A) (es rest : List A)
    → ltb 6 (length (e ∷ es)) ≡ b
    → rest ≡ drop (length es - 6) es
    → (if b then rest else e ∷ es) ≡ drop (length (e ∷ es) - 6) (e ∷ es)
drop-more true e es rest h same =
    let k : suc (length es - 6) ≡ length (e ∷ es) - 6 = ground arith in
    same ∙ ap (λ n. drop n (e ∷ es)) k
drop-more false e es rest h same =
    let k : 0 ≡ length (e ∷ es) - 6 = ground arith in ap (λ n. drop n (e ∷ es)) k

pub erase_old-drop {ℓ} : {A : Type ℓ} (es : List (ℕ × A)) → erase_old es ≡ drop (length es - 6) es
unfolding erase_old
erase_old-drop [] = refl
erase_old-drop (e ∷ es) =
    drop-more (ltb 6 (length (e ∷ es))) e es (erase_old es) refl (erase_old-drop es)

pub map_snoc {ℓ κ} :
    {A : Type ℓ} {B : Type κ} (f : A → B) (xs ys : List A) → map f (xs ++ ys) ≡ map f xs ++ map f ys
map_snoc f [] ys = refl
map_snoc f (x ∷ xs) ys = ap (λ l. f x ∷ l) (map_snoc f xs ys)

pub numbered-append {ℓ} :
    {A : Type ℓ} (n : ℕ) (xs ys : List A)
    → numbered n (xs ++ ys) ≡ numbered n xs ++ numbered (n + length xs) ys
numbered-append n [] ys = ap (λ k. numbered k ys) (omega arith)
numbered-append n (x ∷ xs) ys =
    let k : n + 1 + length xs ≡ n + length (x ∷ xs) = omega arith in
    ap (λ l. (n, x) ∷ l)
      (numbered-append (n + 1) xs ys ∙ ap (λ i. numbered (n + 1) xs ++ numbered i ys) k)

pub numbered-below {ℓ} :
    {A : Type ℓ} (n : ℕ) (xs : List A) → All (λ e. e.0 < n + length xs) (numbered n xs)
numbered-below n [] = tt
numbered-below n (x ∷ xs) =
    let k : n + 1 + length xs ≡ n + length (x ∷ xs) = omega arith in
    (
      omega arith,
      subst (λ i. All (λ e. e.0 < i) (numbered (n + 1) xs)) k (numbered-below (n + 1) xs),
    )

pub All-drop {ℓ κ} :
    {A : Type ℓ} (P : A → Type κ) (n : ℕ) (xs : List A) → All P xs → All P (drop n xs)
All-drop P zero xs h = h
All-drop P (suc n) [] h = h
All-drop P (suc n) (x ∷ xs) (_, h) = All-drop P n xs h
