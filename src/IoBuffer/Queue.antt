-- ===== src/IoBuffer/Queue.antt =====
-- An `IoBuffer` behaves as the queue of its unread bytes.
use tms.Prelude.{ℕ, ◌+◌, ◌-◌, ◌≤◌}
use tms.Prelude.{true, List, [], ◌∷◌, ◌≡◌, refl, sym, ap, ◌∙◌, arith}
use tms.Prelude.{length, take, drop, drop-take, drop-drop}
use tms.Prelude.{
  take-take, take_all, drop_all, Option-cases, Bool-cases, inl, inr, take-nil, drop-nil,
  length-zero,
}
use tms.Prelude.{leb, ◌==◌}
use tms.IoBuffer.{Allocator, IoBuffer, contents, default_size, is_null}
use tms.IoBuffer.{size, shrink_capacity, hand_over, read}
use tms.IoBuffer.Valid.{IsValid, HasMemory, length-contents}

-- An empty buffer holds no bytes.
contents_empty : (b : IoBuffer) → b.end ≡ b.start → contents b ≡ []
unfolding contents
contents_empty b e = let h : b.end - b.start ≡ 0 = omega arith in rw h

-- What is left after `n` bytes.
pub contents-advance :
    (b : IoBuffer) (n : ℕ) → contents (record b { start = b.start + n }) ≡ drop n (contents b)
unfolding contents
contents-advance b n =
    let h : b.end - (b.start + n) ≡ b.end - b.start - n = omega arith in
    rw (h, ← drop-drop n b.start b.mem) (sym (drop-take n (b.end - b.start) (drop b.start b.mem)))

-- The first `n` bytes, as the code slices them.
pub front-contents :
    (b : IoBuffer) (n : ℕ) → n ≤ b.end - b.start → take n (drop b.start b.mem) ≡ take n (contents b)
unfolding contents
front-contents b n h = sym (take-take n (b.end - b.start) (drop b.start b.mem) h)

-- What `Size` returned on `b`: the count of the unread bytes, and the buffer left.
pub record Sized (b : IoBuffer) (r : ℕ × IoBuffer) : Type 0 where
  pub valid : IsValid r.1
  pub count : r.0 ≡ length (contents b)
  pub span : r.0 ≡ r.1.end - r.1.start
  pub same : contents r.1 ≡ contents b
  pub lower : r.1.end ≤ b.end

hand_over_lem :
    (len : ℕ) (b : IoBuffer) (r : ℕ × IoBuffer)
    → Sized b r
    → ((hand_over len r).0 ≡ take len (contents b))
      × (contents (hand_over len r).1 ≡ drop len (contents b))
      × IsValid (hand_over len r).1
      × ((hand_over len r).1.end ≤ b.end)
unfolding hand_over
hand_over_lem len b (n, b') z = elim (Bool-cases (n == 0)) [
  | inl done ↦
      let none_left : contents b ≡ [] = length-zero (contents b) (ground (arith, z.count)) in
      rw done (
        sym (ap (take len) none_left ∙ take-nil ℕ len),
        z.same ∙ none_left ∙ sym (ap (drop len) none_left ∙ drop-nil ℕ len),
        z.valid,
        z.lower,
      )
  | inr more ↦ elim (Bool-cases (leb n len)) [
    | inl all ↦
        rw (more, all)
          (
            front-contents b' n (omega (arith, z.span))
                ∙ ap (take n) z.same
                ∙ take_all n (contents b) (omega (arith, z.count))
                ∙ sym (take_all len (contents b) (ground (arith, z.count))),
            contents-advance b' n
                ∙ ap (drop n) z.same
                ∙ drop_all n (contents b) (omega (arith, z.count))
                ∙ sym (drop_all len (contents b) (ground (arith, z.count))),
            ground (arith, z.valid, z.span),
            z.lower,
          )
    | inr part ↦
        rw (more, part)
          (
            front-contents b' len (ground (arith, z.span)) ∙ ap (take len) z.same,
            contents-advance b' len ∙ ap (drop len) z.same,
            ground (arith, z.valid, z.span),
            z.lower,
          )
  ]
]

module _ (heap : Allocator) (ok : HasMemory heap) where
  shrink_capacity_lem :
      (b : IoBuffer)
      → IsValid b
      → IsValid (shrink_capacity heap default_size b)
        × ((shrink_capacity heap default_size b).start ≡ 0)
        × ((shrink_capacity heap default_size b).end ≡ 0)
  unfolding shrink_capacity
  shrink_capacity_lem b v = elim (Option-cases (heap.malloc default_size)) [
    | inl failed ↦ absurd (ok.malloc_some default_size (omega arith) failed)
    | inr (m, got) ↦ rw got (ground (arith, heap.length-malloc default_size m got))
  ]

  null_size : (b : IoBuffer) → IsValid b → is_null b.mem ≡ true → b.end - b.start ≡ 0
  null_size b v h = omega (arith, null_length b.mem h)
    where
      null_length : (m : List ℕ) → is_null m ≡ true → length m ≡ 0
      null_length [] e = refl
      null_length (x ∷ m) e = cc

  pub size-Sized : (b : IoBuffer) → IsValid b → Sized b (size heap b)
  unfolding size
  size-Sized b v = elim (Bool-cases (is_null b.mem)) [
    | inl null ↦ rw null (record {
      valid = v;
      count = omega (arith, length-contents b v, null_size b v null);
      span = omega (arith, null_size b v null);
      same = refl;
      lower = omega arith;
    })
    | inr there ↦ elim (Bool-cases (b.end == b.start)) [
      | inl empty ↦ rw (there, empty) (emptied (ground arith) (shrink_capacity_lem b v))
      | inr held ↦
          rw (there, held)
            (record {
              valid = v;
              count = omega (arith, length-contents b v);
              span = refl;
              same = refl;
              lower = omega arith;
            })
    ]
  ]
    where
      emptied :
          b.end ≡ b.start
          → IsValid (shrink_capacity heap default_size b)
            × ((shrink_capacity heap default_size b).start ≡ 0)
            × ((shrink_capacity heap default_size b).end ≡ 0)
          → Sized b (
            (shrink_capacity heap default_size b).end - (shrink_capacity heap default_size b).start,
            shrink_capacity heap default_size b,
          )
      emptied e (v', s, f) = record {
        valid = v';
        count = omega (arith, length-contents b v);
        span = refl;
        same =
            contents_empty (shrink_capacity heap default_size b) (omega arith)
            ∙ sym (contents_empty b e);
        lower = omega arith;
      }

  -- `Read` on a valid buffer hands over the first `len` unread bytes, or all where there are
  -- fewer, removes exactly those, and leaves a valid buffer.
  pub read_lem :
      (len : ℕ) (b : IoBuffer)
      → IsValid b
      → ((read heap len b).0 ≡ take len (contents b))
        × (contents (read heap len b).1 ≡ drop len (contents b))
        × IsValid (read heap len b).1
        × ((read heap len b).1.end ≤ b.end)
  unfolding read
  read_lem len b v = hand_over_lem len b (size heap b) (size-Sized b v)
