-- ===== src/IoBuffer/Fifo.antt =====
-- A client that writes and reads cannot tell an `IoBuffer` from a queue of bytes.
use tms.Prelude.{ℕ, ◌+◌, List, [], ◌∷◌, ◌++◌, ◌≡◌, refl, ap, ap₂, ◌∙◌, arith, length, take, drop}
use tms.IoBuffer.{Allocator, IoBuffer, Ret, ret, contents, write, read}
use tms.IoBuffer.Valid.{HasMemory, HasRoom, write_lem}
use tms.IoBuffer.Queue.{read_lem}

-- `Write` of some bytes, and `Read` of at most so many.
pub data Op : Type 0 where
  put : List ℕ → Op
  get : ℕ → Op

pub data Reply : Type 0 where
  wrote : Ret → Reply
  got : List ℕ → Reply

-- A queue of bytes, oldest first.
unfoldable pub run_queue : List Op → List ℕ → List Reply
run_queue [] q = []
run_queue (put bytes ∷ ops) q = wrote (ret (length bytes)) ∷ run_queue ops (q ++ bytes)
run_queue (get n ∷ ops) q = got (take n q) ∷ run_queue ops (drop n q)

-- The bytes that a run writes.
abbrev pub demand : List Op → ℕ
demand [] = 0
demand (put bytes ∷ ops) = length bytes + demand ops
demand (get n ∷ ops) = demand ops

module _ (heap : Allocator) where
  unfoldable pub run : List Op → IoBuffer → List Reply
  run [] b = []
  run (put bytes ∷ ops) b = let (r, b') = write heap bytes b in wrote r ∷ run ops b'
  run (get n ∷ ops) b = let (bytes, b') = read heap n b in got bytes ∷ run ops b'

  -- Every sequence of `Write` and `Read` on a buffer with room for what it writes gets the replies
  -- that a queue holding the unread bytes gives, whatever moving, growing and shrinking goes on.
  pub run_refines :
      (ok : HasMemory heap) (ops : List Op) (b : IoBuffer)
      → HasRoom (demand ops) b
      → run ops b ≡ run_queue ops (contents b)
  unfolding run run_queue
  run_refines ok [] b h = refl
  run_refines ok (put bytes ∷ ops) b h =
      let (r, c, room) = write_lem heap ok bytes (demand ops) b h in
      ap₂ ◌∷◌ (ap wrote r) (run_refines ok ops (write heap bytes b).1 room ∙ ap (run_queue ops) c)
  run_refines ok (get n ∷ ops) b h =
      let (r, c, v, low) = read_lem heap ok n b h.valid in
      ap₂ ◌∷◌ (ap got r) (
        run_refines ok ops (read heap n b).1 (record { valid = v; below = omega (arith, h.below) })
        ∙ ap (run_queue ops) c)
