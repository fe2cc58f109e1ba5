-- ===== src/IoBuffer.antt =====
-- `IoBuffer` (common/io_buffer.h, common/io_buffer.cpp): a growing byte buffer with a read end and
-- a write end. `start_` and `end_` are offsets into the allocation; a NULL `buf_`, whose capacity
-- is 0, is the empty allocation. The calls that read and write a descriptor are not modelled.
pub mod Valid
pub mod Queue
pub mod Words
pub mod Fifo
pub mod Look
pub mod Example
mod Tests
use tms.Prelude.{ℕ, zero, suc, ◌+◌, ◌-◌, ◌*◌, ◌/◌, ◌%◌, ◌^◌, ◌≤◌, ◌<◌, max, Option, none, some}
use tms.Prelude.{Bool, true, false, List, [], ◌∷◌, ◌++◌, ◌≡◌, length, take, drop}
use tms.Prelude.{leb, ltb, ◌==◌, if◌then◌else◌, be_bytes}

-- What a call returns as an `int`: a count, or the code -1.
pub data Ret : Type 0 where
  ret : ℕ → Ret
  error : Ret

pub record IoBuffer : Type 0 where
  pub mem : List ℕ
  pub capacity : ℕ
  pub start : ℕ
  pub end : ℕ

-- malloc and realloc. What a fresh cell holds is not determined; a grown block keeps its bytes.
pub record Allocator : Type 0 where
  pub malloc : ℕ → Option (List ℕ)
  pub realloc : List ℕ → ℕ → Option (List ℕ)
  pub length-malloc : (n : ℕ) (m : List ℕ) → malloc n ≡ some m → length m ≡ n
  pub length-realloc : (m : List ℕ) (n : ℕ) (m' : List ℕ) → realloc m n ≡ some m' → length m' ≡ n
  pub realloc_keeps :
      (m : List ℕ) (n : ℕ) (m' : List ℕ)
      → realloc m n ≡ some m'
      → length m ≤ n
      → take (length m) m' ≡ m

abbrev pub default_size : ℕ
default_size = 1024 * 64

abbrev pub shrink_size : ℕ
shrink_size = 2 * 1024 * 64

-- The unread bytes.
unfoldable pub contents : IoBuffer → List ℕ
contents b = take (b.end - b.start) (drop b.start b.mem)

-- `buf_ == NULL`
abbrev pub is_null : List ℕ → Bool
is_null [] = true
is_null (_ ∷ _) = false

-- An `int` taken as a `size_t`: sign extension.
abbrev pub int_to_size : ℕ → ℕ
int_to_size x = if ltb (x % 2 ^ 32) (2 ^ 31) then x % 2 ^ 32 else x % 2 ^ 32 + (2 ^ 64 - 2 ^ 32)

-- `CapacityLeft`, as the `size_t` that its callers make of its `int`.
unfoldable pub capacity_left : IoBuffer → ℕ
capacity_left b = int_to_size (2 ^ 64 + b.capacity - b.end)

-- The capacity that `MakeSpaceIfNeed` asks for.
unfoldable pub new_capacity : ℕ → IoBuffer → ℕ
new_capacity len b = max ((b.capacity + len) % 2 ^ 64) (b.capacity * 2 % 2 ^ 64)

-- memcpy of `bytes` to the offset `at`.
unfoldable pub store : List ℕ → ℕ → List ℕ → List ℕ
store mem at bytes = take at mem ++ (bytes ++ drop (at + length bytes) mem)

-- `u <<= 8; u |= *p++` over the bytes, in a variable of `w` bits. A shift leaves the low byte clear.
unfoldable pub fold_bytes : ℕ → List ℕ → ℕ → ℕ
fold_bytes w [] u = u
fold_bytes w (x ∷ xs) u = fold_bytes w xs (u * 256 % 2 ^ w + x)

-- What `Write` does after `MakeSpaceIfNeed`.
unfoldable pub append_bytes : List ℕ → Ret × IoBuffer → Ret × IoBuffer
unfolding store
append_bytes bytes (error, b) = (error, b)
append_bytes bytes (ret _, b) =
    (ret (length bytes), record b { mem = store b.mem b.end bytes; end = b.end + length bytes })

-- What the reading calls do once `Size` has returned `n` and left the buffer `b`.
unfoldable pub hand_over : ℕ → ℕ × IoBuffer → List ℕ × IoBuffer
hand_over len (n, b) =
    if n == 0
    then ([], b)
    else if leb n len
    then (take n (drop b.start b.mem), record b { start = b.start + n })
    else (take len (drop b.start b.mem), record b { start = b.start + len })

unfoldable pub take_uint : ℕ → ℕ × IoBuffer → Option ℕ × IoBuffer
unfolding fold_bytes
take_uint n (s, b) = if ltb s n then (none, b) else (
  some (fold_bytes (8 * n) (take n (drop b.start b.mem)) 0),
  record b { start = b.start + n },
)

unfoldable pub look_uint : ℕ → ℕ × IoBuffer → Option ℕ × IoBuffer
unfolding fold_bytes
look_uint n (s, b) =
    if ltb s n then (none, b) else (some (fold_bytes (8 * n) (take n (drop b.start b.mem)) 0), b)

unfoldable pub look : ℕ → ℕ → ℕ × IoBuffer → Option (List ℕ) × IoBuffer
look begin len (s, b) =
    if ltb s ((begin + len) % 2 ^ 64)
    then (none, b)
    else (some (take len (drop (b.start + begin) b.mem)), b)

module _ (heap : Allocator) where
  -- `ShrinkCapacity`.
  unfoldable pub shrink_capacity : ℕ → IoBuffer → IoBuffer
  shrink_capacity n b =
      if ltb shrink_size b.capacity
      then record {
        mem = elim (heap.malloc n) [ none ↦ [] | some m ↦ m ];
        capacity = n;
        start = 0;
        end = 0;
      }
      else record b { start = 0; end = 0 }

  -- `Size`, which moves an empty buffer back to the front, and frees a large one.
  unfoldable pub size : IoBuffer → ℕ × IoBuffer
  size b =
      if is_null b.mem
      then (0, b)
      else if b.end == b.start
      then (let b' = shrink_capacity default_size b in (b'.end - b'.start, b'))
      else (b.end - b.start, b)

  -- `MakeSpaceIfNeed`. On a failed realloc `buf_` is NULL and the other members stay.
  unfoldable pub make_space_if_need : ℕ → IoBuffer → Ret × IoBuffer
  unfolding capacity_left
  make_space_if_need len b =
      if leb len (capacity_left b)
      then (ret 0, b)
      else elim (heap.realloc b.mem (new_capacity len b)) [
        | none ↦ (error, record b { mem = [] })
        | some m ↦ (ret 0, record b { mem = m; capacity = new_capacity len b })
      ]

  -- `Write`.
  unfoldable pub write : List ℕ → IoBuffer → Ret × IoBuffer
  unfolding append_bytes
  write bytes b = append_bytes bytes (make_space_if_need (length bytes) b)

  -- `WriteU8`: one byte.
  unfoldable pub write_u8 : ℕ → IoBuffer → Ret × IoBuffer
  write_u8 u = write (be_bytes 1 u)

  -- `WriteU16`: two bytes, most significant first.
  unfoldable pub write_u16 : ℕ → IoBuffer → Ret × IoBuffer
  write_u16 u = write (be_bytes 2 u)

  -- `WriteU24`: `htobe32` without its first byte.
  unfoldable pub write_u24 : ℕ → IoBuffer → Ret × IoBuffer
  write_u24 u = write (be_bytes 3 u)

  -- `WriteU32`: four bytes.
  unfoldable pub write_u32 : ℕ → IoBuffer → Ret × IoBuffer
  write_u32 u = write (be_bytes 4 u)

  -- `WriteU64`: eight bytes.
  unfoldable pub write_u64 : ℕ → IoBuffer → Ret × IoBuffer
  write_u64 u = write (be_bytes 8 u)

  -- `WriteFake`, which returns 0 and leaves the bytes as they are.
  unfoldable pub write_fake : ℕ → IoBuffer → Ret × IoBuffer
  unfolding make_space_if_need
  write_fake len b =
      let (r, b') = make_space_if_need len b in
      elim r [ error ↦ (error, b') | ret n ↦ (ret n, record b' { end = b'.end + len }) ]

  -- `Read` and `ReadAndCopy`: the bytes handed over, whose number is returned.
  unfoldable pub read : ℕ → IoBuffer → List ℕ × IoBuffer
  unfolding hand_over
  read len b = hand_over len (size b)

  unfoldable pub read_and_copy : ℕ → IoBuffer → List ℕ × IoBuffer
  unfolding hand_over
  read_and_copy len b = hand_over len (size b)

  -- What `ReadU8` to `ReadU64` share: -1 (`none`) below `n` bytes.
  unfoldable pub read_uint : ℕ → IoBuffer → Option ℕ × IoBuffer
  unfolding take_uint
  read_uint n b = take_uint n (size b)

  unfoldable pub read_u8 : IoBuffer → Option ℕ × IoBuffer
  read_u8 = read_uint 1

  unfoldable pub read_u16 : IoBuffer → Option ℕ × IoBuffer
  read_u16 = read_uint 2

  unfoldable pub read_u32 : IoBuffer → Option ℕ × IoBuffer
  read_u32 = read_uint 4

  unfoldable pub read_u64 : IoBuffer → Option ℕ × IoBuffer
  read_u64 = read_uint 8

  -- What `PeekU8` to `PeekU64` share: the same, with the read end left where it is.
  unfoldable pub peek_uint : ℕ → IoBuffer → Option ℕ × IoBuffer
  unfolding look_uint
  peek_uint n b = look_uint n (size b)

  unfoldable pub peek_u8 : IoBuffer → Option ℕ × IoBuffer
  peek_u8 = peek_uint 1

  unfoldable pub peek_u16 : IoBuffer → Option ℕ × IoBuffer
  peek_u16 = peek_uint 2

  unfoldable pub peek_u32 : IoBuffer → Option ℕ × IoBuffer
  peek_u32 = peek_uint 4

  unfoldable pub peek_u64 : IoBuffer → Option ℕ × IoBuffer
  peek_u64 = peek_uint 8

  -- `Peek`: the `len` bytes from `begin` on.
  unfoldable pub peek : ℕ → ℕ → IoBuffer → Option (List ℕ) × IoBuffer
  unfolding look
  peek begin len b = look begin len (size b)

  -- `Skip`, which prints a message past the end and moves on all the same.
  unfoldable pub skip : ℕ → IoBuffer → IoBuffer
  skip len b = let b' = (size b).1 in record b' { start = b'.start + len }
