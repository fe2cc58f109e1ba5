-- ===== src/IoBuffer/Words.antt =====
-- The numbers of one, two, four and eight bytes that an `IoBuffer` holds.
use tms.Prelude.{ℕ, zero, suc, ◌+◌, ◌*◌, ◌%◌, ◌^◌, ◌≤◌, ◌<◌, none, some}
use tms.Prelude.{List, [], ◌∷◌, ◌++◌, ◌≡◌, refl, ap, ◌∙◌, arith, length, take, drop, length-take}
use tms.Prelude.{true, false, ltb, All, IsByte, be, be_from, be_bytes}
use tms.Prelude.{two-pow-bytes, be_from-ge, be-lt, length-be_bytes, be_bytes-IsByte, be-be_bytes}
use tms.Prelude.{take_all, drop_all}
use tms.IoBuffer.{Allocator, IoBuffer, contents, fold_bytes, size, take_uint}
use tms.IoBuffer.{write, write_u8, write_u16, write_u32, write_u64, read_uint, read_u8, read_u16}
use tms.IoBuffer.{read_u32, read_u64}
use tms.IoBuffer.Valid.{IsValid, HasMemory, HasRoom, write_lem}
use tms.IoBuffer.Queue.{Sized, size-Sized, front-contents, contents-advance}
use native.Mathlib.Nat.{mod-eq_of_lt}

fold_bytes-be_from :
    (w u : ℕ) (xs : List ℕ) → be_from u xs < 2 ^ w → fold_bytes w xs u ≡ be_from u xs
unfolding fold_bytes
fold_bytes-be_from w u [] h = refl
fold_bytes-be_from w u (x ∷ xs) h =
    let small : u * 256 < 2 ^ w = omega (arith, be_from-ge (u * 256 + x) xs) in
    rw (mod-eq_of_lt small) (fold_bytes-be_from w (u * 256 + x) xs h)

take-IsByte : (n : ℕ) (xs : List ℕ) → All IsByte xs → All IsByte (take n xs)
take-IsByte zero xs h = tt
take-IsByte (suc n) [] h = tt
take-IsByte (suc n) (x ∷ xs) (p, h) = (p, take-IsByte n xs h)

fold_bytes-be :
    (n : ℕ) (xs : List ℕ) → All IsByte xs → length xs ≡ n → fold_bytes (8 * n) xs 0 ≡ be xs
fold_bytes-be n xs h e = fold_bytes-be_from (8 * n) 0 xs (rw two-pow-bytes (be-lt n xs h e))

take_uint_lem :
    (n : ℕ) (b : IoBuffer) (r : ℕ × IoBuffer)
    → All IsByte (contents b)
    → Sized b r
    → (n ≤ length (contents b))
    → ((take_uint n r).0 ≡ some (be (take n (contents b))))
      × (contents (take_uint n r).1 ≡ drop n (contents b))
      × IsValid (take_uint n r).1
unfolding take_uint
take_uint_lem n b (s, b') bytes z h =
    let enough : ltb s n ≡ false = ground (arith, z.count) in
    let front : take n (drop b'.start b'.mem) ≡ take n (contents b) =
      front-contents b' n (omega (arith, z.span, z.count)) ∙ ap (take n) z.same in
    rw enough (
      rw front (
          ap some (
            fold_bytes-be n (take n (contents b)) (take-IsByte n (contents b) bytes)
              (omega (arith, length-take n (contents b))))),
      contents-advance b' n ∙ ap (drop n) z.same,
      omega (arith, z.valid, z.span, z.count),
    )

module _ (heap : Allocator) (ok : HasMemory heap) where
  -- Where `n` bytes are unread, `ReadU8` to `ReadU64` return them as a big-endian number, and
  -- remove them.
  pub read_uint_lem :
      (n : ℕ) (b : IoBuffer)
      → IsValid b
      → All IsByte (contents b)
      → n ≤ length (contents b)
      → ((read_uint heap n b).0 ≡ some (be (take n (contents b))))
        × (contents (read_uint heap n b).1 ≡ drop n (contents b))
        × IsValid (read_uint heap n b).1
  unfolding read_uint
  read_uint_lem n b v bytes h = take_uint_lem n b (size heap b) bytes (size-Sized heap ok b v) h

  -- Where fewer are unread, they return -1 and no byte is lost.
  pub read_uint_short :
      (n : ℕ) (b : IoBuffer)
      → IsValid b
      → length (contents b) < n
      → ((read_uint heap n b).0 ≡ none)
        × (contents (read_uint heap n b).1 ≡ contents b)
        × IsValid (read_uint heap n b).1
  unfolding read_uint take_uint
  read_uint_short n b v h =
      let z = size-Sized heap ok b v in
      let short : ltb (size heap b).0 n ≡ true = ground (arith, z.count) in
      rw short (refl, z.same, z.valid)

  -- Into a buffer with nothing unread: what is written as `n` bytes is read back as a number.
  write-read_uint :
      (n v : ℕ) (b : IoBuffer)
      → contents b ≡ []
      → HasRoom (n + 0) b
      → ((read_uint heap n (write heap (be_bytes n v) b).1).0 ≡ some (v % 256 ^ n))
        × (contents (read_uint heap n (write heap (be_bytes n v) b).1).1 ≡ [])
  write-read_uint n v b e room =
      let (_, wrote, room') = write_lem heap ok (be_bytes n v) 0 b (rw length-be_bytes room) in
      let held : contents (write heap (be_bytes n v) b).1 ≡ be_bytes n v =
        wrote ∙ ap (λ t. t ++ be_bytes n v) e in
      let (got, left, _) =
        read_uint_lem n (write heap (be_bytes n v) b).1 room'.valid (rw held (be_bytes-IsByte n v))
          (omega (arith, ap length held, length-be_bytes n v)) in
      (
        got
            ∙ ap some (
                ap (λ t. be (take n t)) held
                ∙ ap be (take_all n (be_bytes n v) (omega (arith, length-be_bytes n v)))
                ∙ be-be_bytes n v),
        left ∙ ap (drop n) held ∙ drop_all n (be_bytes n v) (omega (arith, length-be_bytes n v)),
      )

  -- `ReadU8`, `ReadU16`, `ReadU32` and `ReadU64` give back the number, cut to its width, that the
  -- `Write` of the same width put into a buffer with nothing unread and with room.
  pub write-read :
      (v : ℕ) (b : IoBuffer)
      → contents b ≡ []
      → HasRoom 8 b
      → ((read_u8 heap (write_u8 heap v b).1).0 ≡ some (v % 2 ^ 8))
        × ((read_u16 heap (write_u16 heap v b).1).0 ≡ some (v % 2 ^ 16))
        × ((read_u32 heap (write_u32 heap v b).1).0 ≡ some (v % 2 ^ 32))
        × ((read_u64 heap (write_u64 heap v b).1).0 ≡ some (v % 2 ^ 64))
  unfolding write_u8 write_u16 write_u32 write_u64 read_u8 read_u16 read_u32 read_u64
  write-read v b e room = (
    (write-read_uint 1 v b e (less 1 (omega arith))).0,
    (write-read_uint 2 v b e (less 2 (omega arith))).0,
    (write-read_uint 4 v b e (less 4 (omega arith))).0,
    (write-read_uint 8 v b e (less 8 (omega arith))).0,
  )
    where
      less : (n : ℕ) → n ≤ 8 → HasRoom (n + 0) b
      less n h = record { valid = room.valid; below = omega (arith, room.below) }
