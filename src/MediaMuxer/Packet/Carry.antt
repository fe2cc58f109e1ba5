-- ===== src/MediaMuxer/Packet/Carry.antt =====
-- The packets that `PacketTs` of src/media_muxer.cpp makes carry the frame.
use tms.Prelude.{
  ℕ, zero, suc, ◌+◌, ◌-◌, ◌^◌, ◌≤◌, ◌<◌, some, List, [], ◌∷◌, ◌++◌, ◌==◌, ltb, take, ◌≡◌, refl, sym,
  ap, ap₂, ◌∙◌, arith, length, drop, All, Bool-cases, Option-cases, inl, inr,
}
use tms.Prelude.{take-nil, length-append, length-drop, drop-drop}
use mathlib.Core.Path.{subst}
use tms.MediaMuxer.{MediaMuxer, Payload, raw_data, memory, raw_len, get_ts, new_ts_media}
use tms.MediaMuxer.Frames.{find, alter}
use tms.MediaMuxer.Packet.{
  packet_loop, packet_ts, Packed, packed, fault, out_of_fuel, open_segment, timed, store,
  add_packet, joined,
}
use tms.MediaMuxer.Packet.Loop.{
  IsPacket, packet-IsPacket, round_cases, round-fault, round-packed, round-end, packet_ts-closed,
  packet_ts-open,
}

-- The payloads of the packets, given how many bytes each has.
abbrev pub tails : List ℕ → List (List ℕ) → List ℕ
tails [] ps = []
tails (n ∷ ns) [] = []
tails (n ∷ ns) (bs ∷ ps) = drop (188 - n) bs ++ tails ns ps

-- Packets of 188 bytes with these bytes as their payloads.
abbrev pub Carry : List (List ℕ) → List ℕ → Type 0
Carry ps text =
    All (λ bs. length bs ≡ 188) ps × (ns : List ℕ) × (length ns ≡ length ps) × (tails ns ps ≡ text)

-- Packets that carry the memory from `i` on, up to where the frame or a little more is read.
abbrev CarryFrom : Payload → ℕ → List (List ℕ) → Type 0
CarryFrom p i ps =
    (e : ℕ) × (raw_len p ≤ i + e)
    × (i + e < raw_len p + 188)
    × (i + e ≤ length (memory p))
    × Carry ps (take e (drop i (memory p)))

take-split : (n k : ℕ) (xs : List ℕ) → take n xs ++ take k (drop n xs) ≡ take (n + k) xs
take-split zero k xs = ap (λ j. take j xs) (omega arith)
take-split (suc n) k [] = take-nil ℕ k ∙ sym (take-nil ℕ (suc n + k))
take-split (suc n) k (x ∷ xs) =
    let e : suc n + k ≡ suc (n + k) = omega arith in rw e (ap (λ r. x ∷ r) (take-split n k xs))

Carry-cons :
    (p : Payload) (i n : ℕ) (bs : List ℕ) (ps : List (List ℕ))
    → i < raw_len p
    → IsPacket p i bs n
    → CarryFrom p (i + n) ps
    → CarryFrom p i (bs ∷ ps)
Carry-cons p i n bs ps l (size, more, most, fits, same)
      (e, reach, near, inside, (sizes, ns, count, rest)) =
    let mem = memory p in
    (
      n + e,
      omega arith,
      omega arith,
      omega arith,
      (
        (size, sizes),
        n ∷ ns,
        omega arith,
        ap₂ (λ (x y : List ℕ). x ++ y) same (rest ∙ ap (take e) (sym (drop-drop n i mem)))
            ∙ take-split n e (drop i mem),
      ),
    )

add_packet-packed :
    (bs : List ℕ) (r : Packed) (ps : List (List ℕ)) (m : MediaMuxer)
    → add_packet bs r ≡ packed ps m
    → (qs : List (List ℕ)) × (r ≡ packed qs m) × (ps ≡ bs ∷ qs)
unfolding add_packet
add_packet-packed bs (packed qs m') ps m e = (qs, ground arith, ground arith)
add_packet-packed bs fault ps m e = cc
add_packet-packed bs out_of_fuel ps m e = cc

packed-nil : (m end : MediaMuxer) (ps : List (List ℕ)) → packed [] m ≡ packed ps end → [] ≡ ps
packed-nil m end ps e = cc

none_left :
    (p : Payload) (i : ℕ) (ps : List (List ℕ))
    → raw_len p ≤ i
    → i < raw_len p + 188
    → i ≤ length (memory p)
    → [] ≡ ps
    → CarryFrom p i ps
none_left p i ps l near inside e =
    subst (CarryFrom p i) e (0, omega arith, omega arith, omega arith, (tt, [], refl, refl))

packet_loop-Carry :
    (fuel : ℕ) (m end : MediaMuxer) (p : Payload) (i : ℕ) (ps : List (List ℕ))
    → i < raw_len p + 188
    → i ≤ length (memory p)
    → packet_loop fuel m p i ≡ packed ps end
    → CarryFrom p i ps
unfolding packet_loop
packet_loop-Carry zero m end p i ps near inside e = cc
packet_loop-Carry (suc fuel) m end p i ps near inside e = elim (round_cases m p i) [
  | inl past ↦
      none_left p i ps past near inside (packed-nil m end ps (sym (round-end fuel m p i past) ∙ e))
  | inr (inl (l, gone)) ↦ cc (round-fault fuel m p i l gone)
  | inr (inr (bs, n, m', l, made)) ↦
      let (qs, rest, e') =
        add_packet-packed bs (packet_loop fuel m' p (i + n)) ps end
          (sym (round-packed fuel m m' p i bs n l made) ∙ e) in
      let made_packet = packet-IsPacket m m' p i bs n made in
      let (size, more, most, fits, same) = made_packet in
      subst (CarryFrom p i) (sym e') (
        Carry-cons p i n bs qs l made_packet
          (packet_loop-Carry fuel m' end p (i + n) qs (omega arith) fits rest))
]

-- A frame that a muxer is given: its buffer has what stands in front of the frame.
abbrev pub IsFrame : Payload → Type 0
IsFrame p = (4 ≤ length p.all_data) × (length p.all_data < 2 ^ 64)

pub raw_len-length : (p : Payload) → IsFrame p → raw_len p ≡ length (raw_data p)
unfolding raw_len raw_data
raw_len-length p f = ground (arith, length-drop 2 p.all_data, length-drop 4 p.all_data)

module _ {V : Type 0} where
  find-alter :
      (k : ℕ) (new : V) (f : V → V) (q : List (ℕ × V))
      → (v : V) × (find k (alter k new f q) ≡ some (f v))
  unfolding find alter
  find-alter k new f [] = (new, ground arith)
  find-alter k new f ((j, w) ∷ q) = elim (Bool-cases (j == k)) [
    | inl here ↦ (w, ground arith)
    | inr there ↦ elim (Bool-cases (ltb k j)) [
      | inl before ↦ (new, ground arith)
      | inr after ↦ let (v, h) = find-alter k new f q in (v, ground arith)
    ]
  ]

get_ts-store :
    (r : Packed) (ps : List (List ℕ)) (end : MediaMuxer)
    → store r ≡ packed ps end
    → (m : MediaMuxer) × (old : List ℕ) × (r ≡ packed ps m)
      × (get_ts end.ts_seq end ≡ old ++ joined ps)
unfolding store get_ts
get_ts-store (packed qs m) ps end e =
    let (t, h) =
      find-alter m.ts_seq new_ts_media (λ t. record t { ts_data = t.ts_data ++ joined qs })
        m.ts_queue in
    (m, t.ts_data, ground arith, ground arith)
get_ts-store fault ps end e = cc
get_ts-store out_of_fuel ps end e = cc

take-append : (xs ys : List ℕ) (k : ℕ) → take (length xs + k) (xs ++ ys) ≡ xs ++ take k ys
take-append [] ys k = ap (λ j. take j ys) (omega arith)
take-append (x ∷ xs) ys k =
    let e : suc (length xs) + k ≡ suc (length xs + k) = omega arith in
    rw e (ap (λ r. x ∷ r) (take-append xs ys k))

-- The payloads of the packets are the frame and up to 187 bytes of what lies behind it.
abbrev pub FrameAndMore : Payload → List (List ℕ) → Type 0
FrameAndMore p ps =
    (k : ℕ) × (k < 188) × (k ≤ length p.behind) × Carry ps (raw_data p ++ take k p.behind)

CarryFrom-zero :
    (p : Payload) (ps : List (List ℕ))
    → raw_len p ≡ length (raw_data p)
    → CarryFrom p 0 ps
    → FrameAndMore p ps
unfolding memory
CarryFrom-zero p ps len (e, reach, near, inside, (sizes, ns, count, rest)) =
    let k = e - raw_len p in
    let split : e ≡ length (raw_data p) + k = omega arith in
    (
      k,
      omega arith,
      omega (arith, length-append (raw_data p) p.behind),
      (
        sizes,
        ns,
        count,
        rest
            ∙ ap (λ j. take j (raw_data p ++ p.behind)) split
            ∙ take-append (raw_data p) p.behind k,
      ),
    )

-- When `PacketTs` makes its packets of a frame, each has 188 bytes, and their payloads are the whole
-- frame in order and less than 188 bytes of what lies behind its buffer. The segment's bytes end
-- with the packets.
pub packet_ts-Carry :
    (m end : MediaMuxer) (p : Payload) (ps : List (List ℕ))
    → IsFrame p
    → packet_ts m p ≡ packed ps end
    → FrameAndMore p ps × (old : List ℕ) × (get_ts end.ts_seq end ≡ old ++ joined ps)
packet_ts-Carry m end p ps f e = elim (Option-cases (open_segment m p)) [
  | inl none_open ↦ cc (packet_ts-closed m p none_open)
  | inr (m', opened) ↦
      let (last, old, run, stored) =
        get_ts-store (packet_loop (suc (raw_len p)) (timed m' p) p 0) ps end
          (sym (packet_ts-open m m' p opened) ∙ e) in
      (
        CarryFrom-zero p ps (raw_len-length p f) (
            packet_loop-Carry (suc (raw_len p)) (timed m' p) last p 0 ps (omega arith) (omega arith)
              run),
        old,
        stored,
      )
]
