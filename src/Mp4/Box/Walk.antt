-- ===== src/Mp4/Box/Walk.antt =====
-- Boxes as a player goes from one to the next, by the sizes in front of them.
use tms.Prelude.{
  ℕ, zero, suc, ◌+◌, ◌-◌, ◌^◌, ◌<◌, List, [], ◌∷◌, ◌++◌, length, take, drop, ◌≡◌, refl, sym, ap,
  ap₂, ◌∙◌, arith, be, be_bytes, All,
}
use tms.Prelude.{length-append, append_assoc, be-be_bytes, take-length_append, drop-length_append}
use native.Mathlib.Nat.{mod-eq_of_lt}
use tms.Mp4.Box.{Items, nil, ◌▸◌, box, item_bytes, items_bytes}

-- The name and the content of each of the next `n` boxes.
abbrev pub walk : ℕ → List ℕ → List (List ℕ × List ℕ)
walk zero bs = []
walk (suc n) bs =
    let size = be (take 4 bs) in (take 4 (drop 4 bs), drop 8 (take size bs)) ∷ walk n (drop size bs)

-- A size, a name and a content.
abbrev pub framed : List ℕ → List ℕ → List ℕ
framed name inner = be_bytes 4 (8 + length inner) ++ (name ++ inner)

pub item_bytes-box :
    (at : ℕ) (name : List ℕ) (body : Items)
    → length name ≡ 4
    → item_bytes at (box name body) ≡ framed name (items_bytes (at + 8) body)
unfolding box item_bytes
item_bytes-box at name body e =
    let inner = items_bytes (at + 8) body in
    let place : at + 4 + length name ≡ at + 8 = omega arith in
    let size : at + 4 + length (name ++ inner) - at ≡ 8 + length inner =
      omega (arith, length-append name inner) in
    ap
      (λ k.
        be_bytes 4 (at + 4 + length (name ++ items_bytes k body) - at)
        ++ (name ++ items_bytes k body))
      place
    ∙ ap (λ n. be_bytes 4 n ++ (name ++ inner)) size

pub length-framed :
    (name inner : List ℕ) → length name ≡ 4 → length (framed name inner) ≡ 8 + length inner
length-framed name inner e = omega (arith, e, length-append name inner)

-- What a player reads at the front of a box that is followed by others.
pub read_framed :
    (name inner tail : List ℕ)
    → length name ≡ 4
    → length (framed name inner) < 2 ^ 32
    → (be (take 4 (framed name inner ++ tail)) ≡ length (framed name inner))
      × (take 4 (drop 4 (framed name inner ++ tail)) ≡ name)
      × (drop 8 (take (be (take 4 (framed name inner ++ tail))) (framed name inner ++ tail))
          ≡ inner)
      × (drop (be (take 4 (framed name inner ++ tail))) (framed name inner ++ tail) ≡ tail)
read_framed name inner tail e bound =
    let long = length-framed name inner e in
    let n = 8 + length inner in
    let bs = framed name inner ++ tail in
    let size : be (take 4 bs) ≡ length (framed name inner) =
      be-be_bytes 4 n ∙ mod-eq_of_lt (omega (arith, long, bound)) ∙ sym long in
    (
      size,
      ap (take 4) (append_assoc name inner tail)
          ∙ ap (λ k. take k (name ++ (inner ++ tail))) (sym e)
          ∙ take-length_append name (inner ++ tail),
      ap (λ k. drop 8 (take k bs)) size
          ∙ ap (drop 8) (take-length_append (framed name inner) tail)
          ∙ ap (λ k. drop k (name ++ inner)) (sym e)
          ∙ drop-length_append name inner,
      ap (λ k. drop k bs) size ∙ drop-length_append (framed name inner) tail,
    )

abbrev pub boxes : List (List ℕ × Items) → Items
boxes [] = nil
boxes ((name, body) ∷ bs) = box name body ▸ boxes bs

-- The names, and the bytes of what is in the boxes, the first of which begins at a place.
abbrev pub named_boxes : ℕ → List (List ℕ × Items) → List (List ℕ × List ℕ)
named_boxes at [] = []
named_boxes at ((name, body) ∷ bs) =
    let inner = items_bytes (at + 8) body in
    (name, inner) ∷ named_boxes (at + (8 + length inner)) bs

abbrev pub IsNamed : List ℕ × Items → Type 0
IsNamed (name, body) = length name ≡ 4

pub items_bytes-box :
    (at : ℕ) (name : List ℕ) (body is : Items)
    → length name ≡ 4
    → let inner = items_bytes (at + 8) body in
      items_bytes at (box name body ▸ is)
      ≡ framed name inner ++ items_bytes (at + (8 + length inner)) is
unfolding item_bytes
items_bytes-box at name body is e =
    let inner = items_bytes (at + 8) body in
    ap (λ bs. bs ++ items_bytes (at + length bs) is) (item_bytes-box at name body e)
    ∙ ap (λ k. framed name inner ++ items_bytes (at + k) is) (length-framed name inner e)

pub walk-boxes :
    (bs : List (List ℕ × Items)) (at : ℕ)
    → All IsNamed bs
    → length (items_bytes at (boxes bs)) < 2 ^ 32
    → walk (length bs) (items_bytes at (boxes bs)) ≡ named_boxes at bs
walk-boxes [] at named bound = refl
walk-boxes ((name, body) ∷ bs) at (e, named) bound =
    let inner = items_bytes (at + 8) body in
    let tail = items_bytes (at + (8 + length inner)) (boxes bs) in
    let whole = items_bytes-box at name body (boxes bs) e in
    let size : length (items_bytes at (box name body ▸ boxes bs))
        ≡ length (framed name inner) + length tail =
      ap length whole ∙ length-append (framed name inner) tail in
    let (_, first, content, rest) = read_framed name inner tail e (omega (arith, bound, size)) in
    ap (walk (suc (length bs))) whole
    ∙ ap₂ (λ p q. p ∷ q) (ap₂ (λ x y. (x, y)) first content)
        (ap (walk (length bs)) rest
          ∙ walk-boxes bs (at + (8 + length inner)) named (omega (arith, bound, size)))
