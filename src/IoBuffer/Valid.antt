-- ===== src/IoBuffer/Valid.antt =====
-- When an `IoBuffer` is well formed, and that the operations keep it so and keep the bytes.
use tms.Prelude.{ℕ, ◌+◌, ◌-◌, ◌*◌, ◌^◌, ◌≤◌, ◌<◌, none, some}
use tms.Prelude.{List, ◌++◌, ◌≡◌, ◌≢◌, refl, sym, ap, ◌∙◌, arith}
use tms.Prelude.{length, length-append, take, drop, length-take, length-drop, take_le-append}
use tms.Prelude.{drop_le-append, drop-take}
use tms.Prelude.{
  take-append-drop, take-length_append, Option-cases, Bool-cases, inl, inr, append_assoc,
}
use tms.Prelude.{leb}
use tms.IoBuffer.{Allocator, IoBuffer, Ret, ret, error, contents}
use tms.IoBuffer.{capacity_left, new_capacity, store, make_space_if_need, append_bytes, write}

-- `buf_ <= start_ <= end_ <= buf_ + capacity_`, with a capacity that fits an `int`.
pub record IsValid (b : IoBuffer) : Type 0 where
  pub allocated : length b.mem ≡ b.capacity
  pub ordered : b.start ≤ b.end
  pub fits : b.end ≤ b.capacity
  pub small : b.capacity < 2 ^ 31

-- Requests below 2 GiB are served.
pub record HasMemory (heap : Allocator) : Type 0 where
  pub malloc_some : (n : ℕ) → n < 2 ^ 31 → heap.malloc n ≢ none
  pub realloc_some : (m : List ℕ) (n : ℕ) → n < 2 ^ 31 → heap.realloc m n ≢ none

-- Room for `k` more bytes: the buffer doubles at most once past what it holds.
pub record HasRoom (k : ℕ) (b : IoBuffer) : Type 0 where
  pub valid : IsValid b
  pub below : 2 * (b.end + k) < 2 ^ 31

pub capacity_left_lem : (b : IoBuffer) → IsValid b → capacity_left b ≡ b.capacity - b.end
unfolding capacity_left
capacity_left_lem b v = ground arith

pub length-contents : (b : IoBuffer) → IsValid b → length (contents b) ≡ b.end - b.start
unfolding contents
length-contents b v =
    omega (arith, length-take (b.end - b.start) (drop b.start b.mem), length-drop b.start b.mem)

-- A slice of a prefix does not see what follows.
slice-append :
    (s e : ℕ) (m r : List ℕ)
    → s ≤ e
    → e ≤ length m
    → take (e - s) (drop s (m ++ r)) ≡ take (e - s) (drop s m)
slice-append s e m r h k =
    ap (take (e - s)) (drop_le-append s m r (omega arith))
    ∙ take_le-append (e - s) (drop s m) r (omega (arith, length-drop s m))

slice-realloc :
    (s e : ℕ) (m m' : List ℕ)
    → s ≤ e
    → e ≤ length m
    → take (length m) m' ≡ m
    → take (e - s) (drop s m') ≡ take (e - s) (drop s m)
slice-realloc s e m m' h k keeps =
    ap (λ t. take (e - s) (drop s t))
      (sym (take-append-drop (length m) m') ∙ ap (λ t. t ++ drop (length m) m') keeps)
    ∙ slice-append s e m (drop (length m) m') h k

slice-store :
    (s e : ℕ) (m d : List ℕ)
    → s ≤ e
    → e ≤ length m
    → take (e + length d - s) (drop s (store m e d)) ≡ take (e - s) (drop s m) ++ d
unfolding store
slice-store s e m d h k =
    let front : List ℕ = take (e - s) (drop s m) in
    let rest : List ℕ = drop (e + length d) m in
    let cut : drop s (take e m ++ (d ++ rest)) ≡ (front ++ d) ++ rest =
      drop_le-append s (take e m) (d ++ rest) (omega (arith, length-take e m))
      ∙ ap (λ t. t ++ (d ++ rest)) (drop-take s e m)
      ∙ sym (append_assoc front d rest) in
    let count : e + length d - s ≡ length (front ++ d) =
      omega (arith, length-append front d, length-take (e - s) (drop s m), length-drop s m) in
    rw (cut, count) (take-length_append (front ++ d) rest)

length-store : (m d : List ℕ) (e : ℕ) → e + length d ≤ length m → length (store m e d) ≡ length m
unfolding store
length-store m d e h = omega (
  arith,
  length-append (take e m) (d ++ drop (e + length d) m),
  length-append d (drop (e + length d) m),
  length-take e m,
  length-drop (e + length d) m,
)

new_capacity_lem :
    (len : ℕ) (b : IoBuffer)
    → HasRoom len b
    → capacity_left b < len
    → (new_capacity len b < 2 ^ 31)
      × (b.end + len ≤ new_capacity len b)
      × (b.capacity ≤ new_capacity len b)
unfolding new_capacity
new_capacity_lem len b h l = omega (arith, capacity_left_lem b h.valid)

-- `MakeSpaceIfNeed` from `b` to `b'`: room for `len` bytes, and no byte that was held is moved.
pub record Made (len : ℕ) (b b' : IoBuffer) : Type 0 where
  pub valid : IsValid b'
  pub room : b'.end + len ≤ b'.capacity
  pub start_same : b'.start ≡ b.start
  pub end_same : b'.end ≡ b.end
  pub slice : contents b' ≡ contents b

append_bytes_lem :
    (bytes : List ℕ) (k : ℕ) (b : IoBuffer) (made : Ret × IoBuffer)
    → HasRoom (length bytes + k) b
    → made.0 ≡ ret 0
    → Made (length bytes) b made.1
    → ((append_bytes bytes made).0 ≡ ret (length bytes))
      × (contents (append_bytes bytes made).1 ≡ contents b ++ bytes)
      × HasRoom k (append_bytes bytes made).1
unfolding append_bytes
append_bytes_lem bytes k b (error, b') h e m = cc
append_bytes_lem bytes k b (ret n, b') h e m = (
  refl,
  joined,
  record {
    valid = omega (arith, m.valid, m.room, length-store b'.mem bytes b'.end, h.valid);
    below = omega (arith, m.end_same);
  },
)
  where
    joined :
        contents (record b' { mem = store b'.mem b'.end bytes; end = b'.end + length bytes })
        ≡ contents b ++ bytes
    joined =
        unfold contents in
        slice-store b'.start b'.end b'.mem bytes m.valid.ordered (omega arith)
        ∙ ap (λ t. t ++ bytes) (unfold contents in m.slice)

module _ (heap : Allocator) (ok : HasMemory heap) where
  pub make_space_if_need-Made :
      (len : ℕ) (b : IoBuffer)
      → HasRoom len b
      → ((make_space_if_need heap len b).0 ≡ ret 0) × Made len b (make_space_if_need heap len b).1
  unfolding make_space_if_need
  make_space_if_need-Made len b h = elim (Bool-cases (leb len (capacity_left b))) [
    | inl fits ↦ rw fits (
      refl,
      record {
        valid = h.valid;
        room = ground (arith, capacity_left_lem b h.valid);
        start_same = refl;
        end_same = refl;
        slice = refl;
      },
    )
    | inr tight ↦ elim (Option-cases (heap.realloc b.mem (new_capacity len b))) [
      | inl none_left ↦ absurd (
          ok.realloc_some b.mem (new_capacity len b) (new_capacity_lem len b h (ground arith)).0
            none_left)
      | inr (m, got) ↦ rw (tight, got) (grown m got (new_capacity_lem len b h (ground arith)))
    ]
  ]
    where
      grown :
          (m : List ℕ)
          → heap.realloc b.mem (new_capacity len b) ≡ some m
          → (new_capacity len b < 2 ^ 31)
            × (b.end + len ≤ new_capacity len b)
            × (b.capacity ≤ new_capacity len b)
          → (ret 0 ≡ ret 0) × Made len b (record b { mem = m; capacity = new_capacity len b })
      grown m got c = (
        refl,
        record {
          valid = omega (arith, heap.length-realloc b.mem (new_capacity len b) m got);
          room = c.1;
          start_same = refl;
          end_same = refl;
          slice =
              unfold contents in
              slice-realloc b.start b.end b.mem m h.valid.ordered (omega arith)
                (heap.realloc_keeps b.mem (new_capacity len b) m got (omega arith));
        },
      )

  -- `Write` on a valid buffer with room returns the number of bytes, appends exactly them to what
  -- is unread, and leaves a valid buffer with as much less room.
  pub write_lem :
      (bytes : List ℕ) (k : ℕ) (b : IoBuffer)
      → HasRoom (length bytes + k) b
      → ((write heap bytes b).0 ≡ ret (length bytes))
        × (contents (write heap bytes b).1 ≡ contents b ++ bytes)
        × HasRoom k (write heap bytes b).1
  unfolding write
  write_lem bytes k b h =
      let (e, made) = make_space_if_need-Made (length bytes) b (less h) in
      append_bytes_lem bytes k b (make_space_if_need heap (length bytes) b) h e made
    where
      less : HasRoom (length bytes + k) b → HasRoom (length bytes) b
      less r = record { valid = r.valid; below = omega arith }
