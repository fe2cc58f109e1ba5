-- ===== src/Mp4/Player.antt =====
-- A player that looks for a box in a file of src/mp4_muxer.cpp.
use tms.Prelude.{
  ℕ, zero, suc, ◌+◌, ◌-◌, ◌^◌, ◌<◌, Bool, true, false, Option, none, some, List, [], ◌∷◌, ◌++◌,
  length, take, drop, ◌≡◌, refl, sym, ap, ap₂, ◌∙◌, arith, be, length-append, All,
}
use mathlib.Core.Path.{subst}
use tms.Any.{same}
use tms.Mp4.Box.{Items, text, patched, ◌▸◌, box, item_bytes, items_bytes}
use tms.Mp4.Box.Walk.{framed, read_framed, items_bytes-box, boxes, IsNamed}

-- The content of a box, or that of a later one: the first `k` of the name are passed over.
abbrev pub pick : Bool → ℕ → Option (List ℕ) → Option (List ℕ) → Option (List ℕ) → Option (List ℕ)
pick true zero here next other = here
pick true (suc k) here next other = next
pick false k here next other = other

-- The content of the box of a name among the next `f` boxes, where `k` of that name come before.
abbrev pub child : List ℕ → ℕ → ℕ → List ℕ → Option (List ℕ)
child name zero k bs = none
child name (suc f) k [] = none
child name (suc f) k (b ∷ rest) =
    let bs = b ∷ rest in
    let size = be (take 4 bs) in
    let next = child name f (k - 1) (drop size bs) in
    let other = child name f k (drop size bs) in
    pick (same (take 4 (drop 4 bs)) name) k (some (drop 8 (take size bs))) next other

pub child-framed :
    (name : List ℕ) (f k : ℕ) (n inner tail : List ℕ)
    → length n ≡ 4
    → length (framed n inner) < 2 ^ 32
    → child name (suc f) k (framed n inner ++ tail)
      ≡ pick (same n name) k (some inner) (child name f (k - 1) tail) (child name f k tail)
child-framed name f k n inner tail e bound =
    let (_, first, content, rest) = read_framed n inner tail e bound in
    let look : List ℕ → List ℕ → List ℕ → Option (List ℕ) =
      λ x y z. pick (same x name) k (some y) (child name f (k - 1) z) (child name f k z) in
    let bs = framed n inner ++ tail in
    ap₂ (λ x y. look x y (drop (be (take 4 bs)) bs)) first content ∙ ap (look n inner) rest

-- A path of names, each with the number of boxes of that name before.
abbrev pub find_box : List (ℕ × List ℕ) → List ℕ → Option (List ℕ)
find_box [] bs = some bs
find_box ((k, name) ∷ path) bs = elim (child name 8 k bs) [
  | none ↦ none
  | some inner ↦ find_box path inner
]

-- The step over a box at a place, and the step into it.
module _ (at : ℕ) (n : List ℕ) (body is : Items) (e : length n ≡ 4)
    (bound : length (items_bytes at (box n body ▸ is)) < 2 ^ 32) where
  abbrev inner_of : List ℕ
  inner_of = items_bytes (at + 8) body

  abbrev tail_at : ℕ
  tail_at = at + (8 + length inner_of)

  box_size :
      length (items_bytes at (box n body ▸ is))
      ≡ length (framed n inner_of) + length (items_bytes tail_at is)
  box_size =
      ap length (items_bytes-box at n body is e)
      ∙ length-append (framed n inner_of) (items_bytes tail_at is)

  pub child-box :
      (name : List ℕ) (f k : ℕ)
      → child name (suc f) k (items_bytes at (box n body ▸ is))
        ≡ pick
            (same n name)
            k
            (some inner_of)
            (child name f (k - 1) (items_bytes tail_at is))
            (child name f k (items_bytes tail_at is))
  child-box name f k =
      ap (child name (suc f) k) (items_bytes-box at n body is e)
      ∙ child-framed name f k n inner_of (items_bytes tail_at is) e (omega (arith, bound, box_size))

  -- What is smaller in turn: the content, and the boxes behind.
  pub inner-small : length inner_of < 2 ^ 32
  inner-small = omega (arith, bound, box_size, length-append n inner_of)

  pub tail-small : length (items_bytes tail_at is) < 2 ^ 32
  tail-small = omega (arith, bound, box_size)

-- Boxes in a row, as names and contents.
abbrev pub parts : Items → List (List ℕ × Items)
parts (patched before after (text name ▸ body) ▸ is) = (name, body) ∷ parts is
parts _ = []

-- The box that `child` finds among boxes in a row, with its place.
abbrev pub pick_at {ℓ} : {A : Type ℓ} → Bool → ℕ → A → A → A → A
pick_at true zero here next other = here
pick_at true (suc k) here next other = next
pick_at false k here next other = other

abbrev pub seek : List ℕ → ℕ → ℕ → List (List ℕ × Items) → Option (ℕ × Items)
seek name k at [] = none
seek name k at ((n, body) ∷ bs) =
    let after = at + (8 + length (items_bytes (at + 8) body)) in
    let next = seek name (k - 1) after bs in
    let other = seek name k after bs in pick_at (same n name) k (some (at + 8, body)) next other

abbrev pub found : Option (ℕ × Items) → Option (List ℕ)
found none = none
found (some (at, body)) = some (items_bytes at body)

pick-found :
    (b : Bool) (k : ℕ) (x y z : Option (ℕ × Items)) (y' z' : Option (List ℕ))
    → y' ≡ found y
    → z' ≡ found z
    → pick b k (found x) y' z' ≡ found (pick_at b k x y z)
pick-found true zero x y z y' z' e g = refl
pick-found true (suc k) x y z y' z' e g = e
pick-found false k x y z y' z' e g = g

child-seek :
    (bs : List (List ℕ × Items)) (name : List ℕ) (f k at : ℕ)
    → All IsNamed bs
    → length bs < f
    → length (items_bytes at (boxes bs)) < 2 ^ 32
    → child name f k (items_bytes at (boxes bs)) ≡ found (seek name k at bs)
unfolding item_bytes
child-seek bs name zero k at named few bound = absurd (omega arith)
child-seek [] name (suc f) k at named few bound = refl
child-seek ((n, body) ∷ bs) name (suc f) k at (e, named) few bound =
    let after = at + (8 + length (items_bytes (at + 8) body)) in
    let small = tail-small at n body (boxes bs) e bound in
    child-box at n body (boxes bs) e bound name f k
    ∙ pick-found (same n name) k (some (at + 8, body)) (seek name (k - 1) after bs)
        (seek name k after bs) (child name f (k - 1) (items_bytes after (boxes bs)))
        (child name f k (items_bytes after (boxes bs)))
        (child-seek bs name f (k - 1) after named (omega arith) small)
        (child-seek bs name f k after named (omega arith) small)

-- A box that is found is no longer than all of them.
abbrev Small : Option (ℕ × Items) → Type 0
Small none = Unit
Small (some (at, body)) = length (items_bytes at body) < 2 ^ 32

pick-Small :
    (b : Bool) (k : ℕ) (x y z : Option (ℕ × Items))
    → Small x
    → Small y
    → Small z
    → Small (pick_at b k x y z)
pick-Small true zero x y z hx hy hz = hx
pick-Small true (suc k) x y z hx hy hz = hy
pick-Small false k x y z hx hy hz = hz

seek-Small :
    (bs : List (List ℕ × Items)) (name : List ℕ) (k at : ℕ)
    → All IsNamed bs
    → length (items_bytes at (boxes bs)) < 2 ^ 32
    → Small (seek name k at bs)
seek-Small [] name k at named bound = tt
seek-Small ((n, body) ∷ bs) name k at (e, named) bound =
    let after = at + (8 + length (items_bytes (at + 8) body)) in
    let small = tail-small at n body (boxes bs) e bound in
    pick-Small (same n name) k (some (at + 8, body)) (seek name (k - 1) after bs)
      (seek name k after bs) (inner-small at n body (boxes bs) e bound)
      (seek-Small bs name (k - 1) after named small) (seek-Small bs name k after named small)

-- A place in a file where boxes stand in a row, to which a path leads.
pub record Leads (path rest : List (ℕ × List ℕ)) (bs : List ℕ) (is : Items) : Type 0 where
  pub at : ℕ
  pub same_end : find_box path bs ≡ find_box rest (items_bytes at is)
  pub small : length (items_bytes at is) < 2 ^ 32

-- The next step of a path, into a box that stands in the row.
pub step :
    (path rest : List (ℕ × List ℕ)) (bs : List ℕ) (k : ℕ) (name : List ℕ) (is body : Items)
    → (row : List (List ℕ × Items)) → boxes row ≡ is
    → All IsNamed row
    → length row < 8
    → ((at : ℕ) → (place : ℕ) × (seek name k at row ≡ some (place, body)))
    → Leads path ((k, name) ∷ rest) bs is
    → Leads path rest bs body
step path rest bs k name is body row e named few sought l =
    let bound : length (items_bytes l.at (boxes row)) < 2 ^ 32 =
      subst (λ x. length (items_bytes l.at x) < 2 ^ 32) (sym e) l.small in
    let (place, there) = sought l.at in
    let inside : child name 8 k (items_bytes l.at is) ≡ some (items_bytes place body) =
      subst (λ x. child name 8 k (items_bytes l.at x) ≡ some (items_bytes place body)) e
        (child-seek row name 8 k l.at named few bound ∙ ap found there) in
    record {
      at = place;
      same_end =
          l.same_end
          ∙ ap {A = Option (List ℕ)} {B = Option (List ℕ)}
              (λ r. elim r [ none ↦ none | some inner ↦ find_box rest inner ]) inside;
      small = subst Small there (seek-Small row name k l.at named bound);
    }
