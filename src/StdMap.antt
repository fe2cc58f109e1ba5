-- ===== src/StdMap.antt =====
-- `std::map` with strings as keys, in the order of the keys, as far as the server uses it.
pub mod Laws
use tms.Prelude.{ℕ, Option, none, some, Bool, true, false, List, [], ◌∷◌, ltb, ◌==◌, if◌then◌else◌}
use tms.Any.{same}

-- `operator<` of `std::string`: byte by byte, a prefix first.
unfoldable pub less : List ℕ → List ℕ → Bool
less xs [] = false
less [] (y ∷ ys) = true
less (x ∷ xs) (y ∷ ys) = if ltb x y then true else if ltb y x then false else less xs ys

pub data StdMap {ℓ} (A : Type ℓ) : Type ℓ where
  empty : StdMap A
  entry : List ℕ → A → StdMap A → StdMap A

module _ {ℓ} {A : Type ℓ} where
  -- `find`, and `end()` as none.
  unfoldable pub find : List ℕ → StdMap A → Option A
  unfolding same
  find key empty = none
  find key (entry k v m) = if same k key then some v else find key m

  -- `insert`, which keeps the value of a key that is there.
  unfoldable pub insert : List ℕ → A → StdMap A → StdMap A
  unfolding same less
  insert key v empty = entry key v empty
  insert key v (entry k w m) =
      if same k key
      then entry k w m
      else if less key k
      then entry key v (entry k w m)
      else entry k w (insert key v m)

  -- An assignment to the value of a key that is there.
  unfoldable pub replace : List ℕ → A → StdMap A → StdMap A
  unfolding same
  replace key v empty = empty
  replace key v (entry k w m) = if same k key then entry k v m else entry k w (replace key v m)

  -- `m[key] = v`.
  unfoldable pub assign : List ℕ → A → StdMap A → StdMap A
  unfolding find insert replace
  assign key v m = elim (find key m) [ none ↦ insert key v m | some _ ↦ replace key v m ]

  unfoldable pub erase : List ℕ → StdMap A → StdMap A
  unfolding same
  erase key empty = empty
  erase key (entry k v m) = if same k key then m else entry k v (erase key m)

  -- `empty()`.
  abbrev pub is_empty : StdMap A → Bool
  is_empty empty = true
  is_empty (entry k v m) = false
