-- ===== src/MediaMuxer/Frames.antt =====
-- `std::map` with numbers as keys, as src/media_muxer.h has it for frames and segments: a list of
-- pairs in order of their keys.
use tms.Prelude.{ℕ, Option, none, some, List, [], ◌∷◌, ◌==◌, ltb, if◌then◌else◌}

module _ {V : Type 0} where
  unfoldable pub find : ℕ → List (ℕ × V) → Option V
  find k [] = none
  find k ((j, v) ∷ m) = if j == k then some v else find k m

  -- `insert` keeps an entry that is there.
  unfoldable pub insert : ℕ → V → List (ℕ × V) → List (ℕ × V)
  insert k v [] = (k, v) ∷ []
  insert k v ((j, w) ∷ m) =
      if j == k then (j, w) ∷ m else if ltb k j then (k, v) ∷ (j, w) ∷ m else (j, w) ∷ insert k v m

  -- A change through `operator[]`, which makes an entry where there is none.
  unfoldable pub alter : ℕ → V → (V → V) → List (ℕ × V) → List (ℕ × V)
  alter k new f [] = (k, f new) ∷ []
  alter k new f ((j, w) ∷ m) =
      if j == k
      then (j, f w) ∷ m
      else if ltb k j
      then (k, f new) ∷ (j, w) ∷ m
      else (j, w) ∷ alter k new f m

  -- `erase(begin())`.
  unfoldable pub erase_first : List (ℕ × V) → List (ℕ × V)
  erase_first [] = []
  erase_first (e ∷ m) = m

  abbrev pub values : List (ℕ × V) → List V
  values [] = []
  values ((j, v) ∷ m) = v ∷ values m

  -- What an iterator from `find` goes through.
  unfoldable pub since : ℕ → List (ℕ × V) → List V
  since k [] = []
  since k ((j, v) ∷ m) = if j == k then v ∷ values m else since k m

  -- The greatest key, or the one given where there is no entry.
  unfoldable pub last_key : ℕ → List (ℕ × V) → ℕ
  last_key k [] = k
  last_key k ((j, v) ∷ m) = last_key j m
