-- ===== src/IoBuffer/Look.antt =====
-- The calls of `IoBuffer` that look at bytes and leave them, and `Skip`.
use tms.Prelude.{
  ℕ, ◌+◌, ◌-◌, ◌%◌, ◌^◌, ◌≤◌, some, false, ◌≡◌, refl, sym, ap, ◌∙◌, arith, length, take, drop, ltb,
  drop-drop, drop-take, take-take, Bool-cases, inl, inr,
}
use tms.IoBuffer.{
  Allocator, IoBuffer, contents, size, look, peek, look_uint, take_uint, peek_uint, read_uint, skip,
}
use tms.IoBuffer.Valid.{IsValid, HasMemory, length-contents}
use mathlib.Core.Path.{subst}
use tms.IoBuffer.Queue.{Sized, size-Sized, contents-advance}

slice-contents :
    (b : IoBuffer) (begin len : ℕ)
    → begin + len ≤ b.end - b.start
    → take len (drop (b.start + begin) b.mem) ≡ take len (drop begin (contents b))
unfolding contents
slice-contents b begin len h =
    ap (take len) (sym (drop-drop begin b.start b.mem))
    ∙ sym (take-take len (b.end - b.start - begin) (drop begin (drop b.start b.mem)) (omega arith))
    ∙ ap (take len) (sym (drop-take begin (b.end - b.start) (drop b.start b.mem)))

look_lem :
    (begin len : ℕ) (b : IoBuffer) (r : ℕ × IoBuffer)
    → Sized b r
    → IsValid b
    → begin + len ≤ length (contents b)
    → look begin len r ≡ (some (take len (drop begin (contents b))), r.1)
unfolding look
look_lem begin len b (s, b') z v h =
    let there : ltb s ((begin + len) % 2 ^ 64) ≡ false =
      ground (arith, z.count, length-contents b v, v.fits, v.small) in
    rw there (
      ap (λ t. (some t, b'))
        (slice-contents b' begin len (omega (arith, z.span, z.count))
          ∙ ap (λ t. take len (drop begin t)) z.same))

module _ (heap : Allocator) (ok : HasMemory heap) where
  -- `Peek` within the unread bytes shows those asked for, and all of them are still unread.
  pub peek_lem :
      (begin len : ℕ) (b : IoBuffer)
      → IsValid b
      → begin + len ≤ length (contents b)
      → ((peek heap begin len b).0 ≡ some (take len (drop begin (contents b))))
        × (contents (peek heap begin len b).1 ≡ contents b)
        × IsValid (peek heap begin len b).1
  unfolding peek
  peek_lem begin len b v h =
      let z = size-Sized heap ok b v in
      let e = look_lem begin len b (size heap b) z v h in
      (
        ap (λ r. r.0) e,
        ap (λ r. contents r.1) e ∙ z.same,
        subst IsValid (sym (ap (λ r. r.1) e)) z.valid,
      )

  -- `PeekU8` to `PeekU64` show the number that `ReadU8` to `ReadU64` read, or fail where they fail,
  -- and leave all bytes unread.
  pub peek_uint-read_uint :
      (n : ℕ) (b : IoBuffer)
      → IsValid b
      → ((peek_uint heap n b).0 ≡ (read_uint heap n b).0)
        × (contents (peek_uint heap n b).1 ≡ contents b)
        × IsValid (peek_uint heap n b).1
  unfolding peek_uint read_uint look_uint take_uint
  peek_uint-read_uint n b v =
      let z = size-Sized heap ok b v in
      elim (Bool-cases (ltb (size heap b).0 n)) [
        | inl e ↦ rw e (refl, z.same, z.valid)
        | inr e ↦ rw e (refl, z.same, z.valid)
      ]

  -- `Skip` of no more bytes than are unread drops them from the front.
  pub skip_lem :
      (len : ℕ) (b : IoBuffer)
      → IsValid b
      → len ≤ length (contents b)
      → (contents (skip heap len b) ≡ drop len (contents b)) × IsValid (skip heap len b)
  unfolding skip
  skip_lem len b v h =
      let z = size-Sized heap ok b v in
      (
        contents-advance (size heap b).1 len ∙ ap (drop len) z.same,
        omega (arith, z.valid, z.span, z.count),
      )
