-- ===== src/Mp4/Box/Encode.antt =====
-- The calls that write boxes, against the bytes of the boxes.
use tms.Prelude.{
  ℕ, ◌+◌, ◌-◌, Option, none, some, List, [], ◌++◌, length, ◌≡◌, refl, sym, ap, ap₂, ◌∙◌, arith,
  be_bytes, append_assoc, append-nil, take, ◌≤◌,
}
use tms.Prelude.{length-append, length-be_bytes, take-length_append}
use mathlib.Core.Path.{subst}
use tms.BitStream.{BitStream, write_bytes, modify_bytes, size_in_bytes, written, of_size}
use tms.Mp4.Box.{
  Item, Items, numbers, text, packed, patched, nil, ◌▸◌, write_item, write_items, item_bytes,
  items_bytes, IsWhole, AreWhole,
}
use tms.Mp4.Box.Stream.{
  stream, zeros, of_size-stream, write_data-stream, write_bytes-stream, modify_bytes-stream,
  write_numbers-stream,
}
use tms.Mp4.Box.Packed.{write_packed-stream}

pub size_in_bytes-stream :
    (front : List ℕ) (room : ℕ) → size_in_bytes (stream front room) ≡ length front
unfolding size_in_bytes
size_in_bytes-stream front room = omega arith

modify_bytes-after :
    (before room0 room : ℕ) (after : ℕ → ℕ → ℕ) (front rest : List ℕ)
    → let start = size_in_bytes (stream front room0) in
      let s = stream ((front ++ be_bytes 4 before) ++ rest) room in
      let at = length front in
      modify_bytes start 4 (after start (size_in_bytes s)) s
      ≡ some (stream (front ++ (be_bytes 4 (after at (at + 4 + length rest)) ++ rest)) room)
modify_bytes-after before room0 room after front rest =
    let at = length front in
    let s = stream ((front ++ be_bytes 4 before) ++ rest) room in
    let end : size_in_bytes s ≡ at + 4 + length rest =
      size_in_bytes-stream ((front ++ be_bytes 4 before) ++ rest) room
      ∙ omega (
        arith,
        length-append (front ++ be_bytes 4 before) rest,
        length-append front (be_bytes 4 before),
        length-be_bytes 4 before,
      ) in
    ap₂ (λ k e. modify_bytes k 4 (after k e) s) (size_in_bytes-stream front room0) end
    ∙ ap (λ xs. modify_bytes at 4 (after at (at + 4 + length rest)) (stream xs room))
        (append_assoc front (be_bytes 4 before) rest)
    ∙ modify_bytes-stream 3 (after at (at + 4 + length rest)) front (be_bytes 4 before) rest room
        refl

mutual
  unfolding write_item item_bytes

  pub write_item-stream :
      (i : Item) (front : List ℕ) (room : ℕ)
      → IsWhole i
      → let bytes = item_bytes (length front) i in
        write_item i (stream front (length bytes + room)) ≡ some (stream (front ++ bytes) room)
  write_item-stream (numbers ns) front room whole = write_numbers-stream ns front room
  write_item-stream (text t) front room whole = write_data-stream t front room
  write_item-stream (packed fs) front room whole = write_packed-stream fs front room whole
  write_item-stream (patched before after body) front room whole =
      let front4 = front ++ be_bytes 4 before in
      let rest = items_bytes (length front + 4) body in
      let start =
        stream front (length (item_bytes (length front) (patched before after body)) + room) in
      let l : length front4 ≡ length front + 4 = length-append front (be_bytes 4 before) in
      let split : start ≡ stream front (4 + (length rest + room)) =
        ap (stream front) (omega arith) in
      let inner : write_items body (stream front4 (length rest + room))
          ≡ some (stream (front4 ++ rest) room) =
        subst
          (λ k.
            write_items body (stream front4 (length (items_bytes k body) + room))
            ≡ some (stream (front4 ++ items_bytes k body) room))
          l (write_items-stream body front4 room whole) in
      let close : BitStream → Option BitStream = λ s2.
        modify_bytes (size_in_bytes start) 4 (after (size_in_bytes start) (size_in_bytes s2)) s2 in
      ap {A = Option BitStream} {B = Option BitStream}
        (λ r. elim r [
          | none ↦ none
          | some s1 ↦ elim (write_items body s1) [ none ↦ none | some s2 ↦ close s2 ]
        ])
        (ap (write_bytes 4 before) split ∙ write_bytes-stream 4 before front (length rest + room))
      ∙ ap {A = Option BitStream} {B = Option BitStream}
          (λ r. elim r [ none ↦ none | some s2 ↦ close s2 ]) inner
      ∙ modify_bytes-after before
          (length (item_bytes (length front) (patched before after body)) + room) room after front
          rest

  pub write_items-stream :
      (is : Items) (front : List ℕ) (room : ℕ)
      → AreWhole is
      → let bytes = items_bytes (length front) is in
        write_items is (stream front (length bytes + room)) ≡ some (stream (front ++ bytes) room)
  write_items-stream nil front room whole =
      let e : 0 + room ≡ room = omega arith in
      ap₂ (λ k xs. some (stream xs k)) e (sym (append-nil front))
  write_items-stream (i ▸ is) front room whole =
      let first = item_bytes (length front) i in
      let rest = items_bytes (length front + length first) is in
      let split : length (first ++ rest) + room ≡ length first + (length rest + room) =
        omega (arith, length-append first rest) in
      ap (λ k. write_items (i ▸ is) (stream front k)) split
      ∙ ap {A = Option BitStream} {B = Option BitStream}
          (λ r. elim r [ none ↦ none | some s ↦ write_items is s ])
          (write_item-stream i front (length rest + room) whole.0)
      ∙ subst
          (λ k.
            write_items is (stream (front ++ first) (length (items_bytes k is) + room))
            ≡ some (stream ((front ++ first) ++ items_bytes k is) room))
          (length-append front first) (write_items-stream is (front ++ first) room whole.1)
      ∙ ap (λ xs. some (stream xs room)) (append_assoc front first rest)

pub written-stream : (front : List ℕ) (room : ℕ) → written (stream front room) ≡ front
unfolding written
written-stream front room =
    ap (λ k. take k (front ++ zeros room)) (size_in_bytes-stream front room)
    ∙ take-length_append front (zeros room)

-- Calls for items whose bits fill whole bytes, on a buffer that has room for them, succeed, and what is
-- written is the bytes of the items: each number that is patched has its last value, and each box the
-- size that it came to.
pub write_items-of_size :
    (size : ℕ) (is : Items)
    → AreWhole is
    → length (items_bytes 0 is) ≤ size
    → (s : BitStream) × (write_items is (of_size size) ≡ some s) × (written s ≡ items_bytes 0 is)
write_items-of_size size is whole fits =
    let bytes = items_bytes 0 is in
    let room = size - length bytes in
    let all : size ≡ length bytes + room = omega arith in
    (
      stream bytes room,
      ap (write_items is) (of_size-stream size ∙ ap (stream []) all)
          ∙ write_items-stream is [] room whole,
      written-stream bytes room,
    )
