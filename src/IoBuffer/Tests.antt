-- ===== src/IoBuffer/Tests.antt =====
-- `IoBuffer` on examples.
use tms.Prelude.{◌^◌, ◌%◌, some, [], ◌∷◌, ◌≡◌, refl, arith}
use tms.IoBuffer.{contents, read_u8, read_u16, read_u32, read_u64}
use tms.IoBuffer.{write_u8, write_u16, write_u32, write_u64}
use tms.IoBuffer.Valid.{HasRoom}
use tms.IoBuffer.Words.{write-read}
use tms.IoBuffer.Fifo.{put, get, run, run_queue, run_refines}
use tms.IoBuffer.Example.{heap, memory, fresh, fresh-HasRoom, three, three-IsValid}

three-HasRoom : HasRoom 2 three
three-HasRoom = record { valid = three-IsValid; below = omega arith }

write-read_example :
    ((read_u8 heap (write_u8 heap 70000 fresh).1).0 ≡ some (70000 % 2 ^ 8))
    × ((read_u16 heap (write_u16 heap 70000 fresh).1).0 ≡ some (70000 % 2 ^ 16))
    × ((read_u32 heap (write_u32 heap 70000 fresh).1).0 ≡ some (70000 % 2 ^ 32))
    × ((read_u64 heap (write_u64 heap 70000 fresh).1).0 ≡ some (70000 % 2 ^ 64))
unfolding contents
write-read_example = write-read heap memory 70000 fresh refl (fresh-HasRoom 8 (omega arith))

run_refines_example :
    run heap (put (1 ∷ 2 ∷ 3 ∷ []) ∷ get 2 ∷ put (4 ∷ []) ∷ get 9 ∷ []) three
    ≡ run_queue (put (1 ∷ 2 ∷ 3 ∷ []) ∷ get 2 ∷ put (4 ∷ []) ∷ get 9 ∷ []) (contents three)
run_refines_example =
    run_refines heap memory (put (1 ∷ 2 ∷ 3 ∷ []) ∷ get 2 ∷ put (4 ∷ []) ∷ get 9 ∷ []) three
      (record { valid = three-IsValid; below = omega arith })
