-- ===== src/Mp4/Box.antt =====
-- Boxes of an MP4 file as src/mp4_muxer.cpp and src/dash_muxer.cpp write them into a `BitStream`: calls
-- in a row, with numbers that are written again once what follows them is there (`PRE_SIZE` and
-- `NEW_SIZE`, and the counts and offsets of tables).
pub mod Stream
pub mod Packed
pub mod Encode
pub mod Walk
use tms.Prelude.{
  ℕ, zero, suc, ◌+◌, ◌-◌, ◌*◌, ◌/◌, ◌%◌, ◌^◌, Option, none, some, List, [], ◌∷◌, ◌++◌, length,
  replicate, be_bytes, ◌≡◌,
}
use tms.BitStream.{
  BitStream, write_loop, write_bits, write_bytes, write_data, modify_bytes, size_in_bytes,
}

infixr 5 ◌▸◌
-- Calls of `WriteBytes`, of `WriteData`, or of `WriteBits`; and a number of four bytes that is written
-- as `before` and, when the items have followed, by `ModifyBytes` as what `after` gives for its own
-- place and the place reached.
mutual
  pub data Item : Type 0 where
    numbers : List (ℕ × ℕ) → Item
    text : List ℕ → Item
    packed : List (ℕ × ℕ) → Item
    patched : ℕ → (ℕ → ℕ → ℕ) → Items → Item

  pub data Items : Type 0 where
    nil : Items
    ◌▸◌ : Item → Items → Items

-- A box: its size in bytes, its name and what it holds.
unfoldable pub box : List ℕ → Items → Item
box name body = patched 0 (λ start end. end - start) (text name ▸ body)

-- A full box has a version of 0 and flags.
unfoldable pub full_box : List ℕ → ℕ → Items → Item
unfolding box
full_box name flags body = box name (numbers ((1, 0) ∷ (3, flags) ∷ []) ▸ body)

unfoldable pub write_numbers : List (ℕ × ℕ) → BitStream → Option BitStream
unfolding write_bytes
write_numbers [] s = some s
write_numbers ((n, v) ∷ ns) s = elim (write_bytes n v s) [
  | none ↦ none
  | some s' ↦ write_numbers ns s'
]

unfoldable pub write_packed : List (ℕ × ℕ) → BitStream → Option BitStream
unfolding write_bits
write_packed [] s = some s
write_packed ((n, v) ∷ fs) s = elim (write_bits n v s) [
  | none ↦ none
  | some s' ↦ write_packed fs s'
]

unfoldable mutual
  unfolding write_numbers write_packed write_bytes write_data modify_bytes size_in_bytes

  pub write_item : Item → BitStream → Option BitStream
  write_item (numbers ns) s = write_numbers ns s
  write_item (text t) s = write_data t s
  write_item (packed fs) s = write_packed fs s
  write_item (patched before after body) s = elim (write_bytes 4 before s) [
    | none ↦ none
    | some s1 ↦ elim (write_items body s1) [
      | none ↦ none
      | some s2 ↦ modify_bytes (size_in_bytes s) 4 (after (size_in_bytes s) (size_in_bytes s2)) s2
    ]
  ]

  pub write_items : Items → BitStream → Option BitStream
  write_items nil s = some s
  write_items (i ▸ is) s = elim (write_item i s) [ none ↦ none | some s' ↦ write_items is s' ]

-- The bytes that the calls leave, at a place in the file.
unfoldable pub number_bytes : List (ℕ × ℕ) → List ℕ
number_bytes [] = []
number_bytes ((n, v) ∷ ns) = be_bytes n v ++ number_bytes ns

abbrev pub total : List (ℕ × ℕ) → ℕ
total [] = 0
total ((n, v) ∷ fs) = n + total fs

unfoldable pub pack : List (ℕ × ℕ) → List ℕ → ℕ → List ℕ
unfolding write_loop
pack [] buf pos = buf
pack ((n, v) ∷ fs) buf pos = pack fs (write_loop n v buf pos) (pos + n)

unfoldable mutual
  unfolding number_bytes pack

  pub item_bytes : ℕ → Item → List ℕ
  item_bytes at (numbers ns) = number_bytes ns
  item_bytes at (text t) = t
  item_bytes at (packed fs) = pack fs (replicate (total fs / 8) 0) 0
  item_bytes at (patched before after body) =
      let rest = items_bytes (at + 4) body in be_bytes 4 (after at (at + 4 + length rest)) ++ rest

  pub items_bytes : ℕ → Items → List ℕ
  items_bytes at nil = []
  items_bytes at (i ▸ is) =
      let first = item_bytes at i in first ++ items_bytes (at + length first) is

-- Bits that fill whole bytes.
abbrev mutual
  pub IsWhole : Item → Type 0
  IsWhole (numbers ns) = Unit
  IsWhole (text t) = Unit
  IsWhole (packed fs) = total fs % 8 ≡ 0
  IsWhole (patched before after body) = AreWhole body

  pub AreWhole : Items → Type 0
  AreWhole nil = Unit
  AreWhole (i ▸ is) = IsWhole i × AreWhole is
