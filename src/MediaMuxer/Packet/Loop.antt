-- ===== src/MediaMuxer/Packet/Loop.antt =====
-- The loop of `PacketTs` of src/media_muxer.cpp: it ends, and its packets carry the frame.
use tms.Prelude.{
  ℕ, zero, suc, ◌+◌, ◌-◌, ◌/◌, ◌≤◌, ◌<◌, none, some, List, [], ◌++◌, ◌==◌, ltb, if◌then◌else◌, ◌≡◌,
  ◌≢◌, refl, sym, ap, ◌∙◌, arith, length, take, drop, Bool-cases, Option-cases, inl, inr, ◌⊎◌,
  lt→ltb, ltb→lt,
}
use tms.Prelude.{length-take, length-drop, drop-take, drop-length_append, take-length_append}
use tms.BitStream.{
  BitStream, Write, write, write_all, write_data, overwrite, written, size_in_bytes, new_stream,
  of_size,
}
use tms.BitStream.Size.{length-write_all, length-overwrite}
use tms.MediaMuxer.{MediaMuxer, Payload, memory, raw_len, is_video}
use tms.MediaMuxer.Packet.{
  open_segment, timed, store, add_packet, headers, layout, take_counter, before_payload, payload_at,
  close_packet, packet, packet_loop, packet_ts, Packed, packed, fault, out_of_fuel,
}

-- A packet of 188 bytes, the last `n` of which are those in memory from offset `i` on.
abbrev pub IsPacket : Payload → ℕ → List ℕ → ℕ → Type 0
IsPacket p i bs n =
    (length bs ≡ 188)
    × (0 < n)
    × (n ≤ 188)
    × (i + n ≤ length (memory p))
    × (drop (188 - n) bs ≡ take n (drop i (memory p)))

overwritten :
    (at k : ℕ) (t buf : List ℕ)
    → at + length t ≡ k
    → k ≤ length buf
    → drop at (take k (overwrite at t buf)) ≡ t
unfolding overwrite
overwritten at k t buf e h =
    let front : length (take at buf) ≡ at = omega (arith, length-take at buf) in
    let rest = t ++ drop (at + length t) buf in
    drop-take at k (take at buf ++ rest)
    ∙ ap (λ j. take (k - at) (drop j (take at buf ++ rest))) (sym front)
    ∙ ap (take (k - at)) (drop-length_append (take at buf) rest)
    ∙ ap (λ j. take j rest) (omega arith)
    ∙ take-length_append t (drop (at + length t) buf)

-- What a packet that is closed is made of.
abbrev pub Closed : Payload → ℕ → BitStream → List ℕ → ℕ → Type 0
Closed p i s bs n =
    (0 < n)
    × (n ≡ 188 - s.cur_pos / 8)
    × (i + n ≤ length (memory p))
    × (bs ≡ take 188 (overwrite (s.cur_pos / 8) (take n (drop i (memory p))) s.buf))

pub close_packet-Closed :
    (p : Payload) (i : ℕ) (s : BitStream) (bs : List ℕ) (n : ℕ)
    → close_packet p i s ≡ some (bs, n)
    → Closed p i s bs n
unfolding close_packet payload_at written size_in_bytes write_all write write_data
close_packet-Closed p i s bs n e = ground arith

close_packet-IsPacket :
    (p : Payload) (i : ℕ) (s : BitStream) (bs : List ℕ) (n : ℕ)
    → length s.buf ≡ 16384
    → close_packet p i s ≡ some (bs, n)
    → IsPacket p i bs n
close_packet-IsPacket p i s bs n size e =
    let (pos, left, fits, made) = close_packet-Closed p i s bs n e in
    let t = take n (drop i (memory p)) in
    let whole : length t ≡ n =
      omega (arith, length-take n (drop i (memory p)), length-drop i (memory p)) in
    let at = s.cur_pos / 8 in
    let buf : length (overwrite at t s.buf) ≡ 16384 =
      length-overwrite at t s.buf (omega arith) ∙ size in
    (
      ap length made ∙ length-take 188 (overwrite at t s.buf) ∙ omega arith,
      pos,
      omega arith,
      fits,
      ap (λ j. drop j bs) (omega arith)
          ∙ ap (drop at) made
          ∙ overwritten at 188 t s.buf (omega arith) (omega arith),
    )

length-new_stream : length new_stream.buf ≡ 16384
unfolding new_stream of_size
length-new_stream = refl

abbrev pub headers_of : MediaMuxer → Payload → ℕ → List Write
headers_of m p i =
    let video = is_video p in
    headers video (i == 0) (layout video (raw_len p) i)
      (if video then m.ts_video_pid else m.ts_audio_pid) (take_counter m video).0 (raw_len p) p.pts
      p.dts

-- The streams that a round that makes a packet goes through.
abbrev pub Written : MediaMuxer → MediaMuxer → Payload → ℕ → List ℕ → ℕ → Type 0
Written m m' p i bs n =
    (s s' : BitStream) × (calls : List Write) × (write_all (headers_of m p i) new_stream ≡ some s)
    × (before_payload (take_counter m (is_video p)).1 p i ≡ some (calls, m'))
    × (write_all calls s ≡ some s')
    × (close_packet p i s' ≡ some (bs, n))

pub packet-Written :
    (m m' : MediaMuxer) (p : Payload) (i : ℕ) (bs : List ℕ) (n : ℕ)
    → packet m p i ≡ some (bs, n, m')
    → Written m m' p i bs n
unfolding packet
packet-Written m m' p i bs n e = elim (Option-cases (write_all (headers_of m p i) new_stream)) [
  | inl gone ↦ ground arith
  | inr (s, e1) ↦ elim (Option-cases (before_payload (take_counter m (is_video p)).1 p i)) [
    | inl gone ↦ ground arith
    | inr ((calls, m''), e2) ↦ elim (Option-cases (write_all calls s)) [
      | inl gone ↦ ground arith
      | inr (s', e3) ↦ elim (Option-cases (close_packet p i s')) [
        | inl gone ↦ ground arith
        | inr ((bs', n'), e4) ↦ (s, s', calls, e1, ground arith, e3, ground arith)
      ]
    ]
  ]
]

-- A round that makes a packet makes one of 188 bytes that carries bytes of the frame, at least one.
pub packet-IsPacket :
    (m m' : MediaMuxer) (p : Payload) (i : ℕ) (bs : List ℕ) (n : ℕ)
    → packet m p i ≡ some (bs, n, m')
    → IsPacket p i bs n
packet-IsPacket m m' p i bs n e =
    let (s, s', calls, e1, e2, e3, e4) = packet-Written m m' p i bs n e in
    close_packet-IsPacket p i s' bs n
      (length-write_all calls s s' e3
        ∙ length-write_all (headers_of m p i) new_stream s e1
        ∙ length-new_stream)
      e4

pub round-fault :
    (fuel : ℕ) (m : MediaMuxer) (p : Payload) (i : ℕ)
    → i < raw_len p
    → packet m p i ≡ none
    → packet_loop (suc fuel) m p i ≡ fault
unfolding packet_loop
round-fault fuel m p i l e = rw (e, lt→ltb i (raw_len p) l) refl

pub round-packed :
    (fuel : ℕ) (m m' : MediaMuxer) (p : Payload) (i : ℕ) (bs : List ℕ) (n : ℕ)
    → i < raw_len p
    → packet m p i ≡ some (bs, n, m')
    → packet_loop (suc fuel) m p i ≡ add_packet bs (packet_loop fuel m' p (i + n))
unfolding packet_loop
round-packed fuel m m' p i bs n l e = rw (e, lt→ltb i (raw_len p) l) refl

pub round-end :
    (fuel : ℕ) (m : MediaMuxer) (p : Payload) (i : ℕ)
    → raw_len p ≤ i
    → packet_loop (suc fuel) m p i ≡ packed [] m
unfolding packet_loop
round-end fuel m p i l = ground arith

add_packet-ne-out_of_fuel :
    (bs : List ℕ) (r : Packed) → r ≢ out_of_fuel → add_packet bs r ≢ out_of_fuel
unfolding add_packet
add_packet-ne-out_of_fuel bs (packed ps m) h e = ground arith
add_packet-ne-out_of_fuel bs fault h e = ground arith
add_packet-ne-out_of_fuel bs out_of_fuel h e = h refl

-- Whether another round follows, and how it ends.
abbrev pub RoundCases : MediaMuxer → Payload → ℕ → Type 0
RoundCases m p i =
    (raw_len p ≤ i)
    ⊎ ((i < raw_len p) × (packet m p i ≡ none))
    ⊎ ((bs : List ℕ) × (n : ℕ) × (m' : MediaMuxer) × (i < raw_len p)
        × (packet m p i ≡ some (bs, n, m')))

pub round_cases : (m : MediaMuxer) (p : Payload) (i : ℕ) → RoundCases m p i
round_cases m p i = elim (Bool-cases (ltb i (raw_len p))) [
  | inr past ↦ inl (ground arith)
  | inl more ↦ inr (elim (Option-cases (packet m p i)) [
    | inl e ↦ inl (ltb→lt i (raw_len p) more, e)
    | inr ((bs, n, m'), e) ↦ inr (bs, n, m', ltb→lt i (raw_len p) more, e)
  ])
]

packet_loop-ne-out_of_fuel :
    (fuel : ℕ) (m : MediaMuxer) (p : Payload) (i : ℕ)
    → raw_len p < fuel + i
    → 0 < fuel
    → packet_loop fuel m p i ≢ out_of_fuel
packet_loop-ne-out_of_fuel zero m p i h pos e = absurd (omega arith)
packet_loop-ne-out_of_fuel (suc fuel) m p i h pos e = elim (round_cases m p i) [
  | inl past ↦ cc (round-end fuel m p i past)
  | inr (inl (l, gone)) ↦ cc (round-fault fuel m p i l gone)
  | inr (inr (bs, n, m', l, made)) ↦
      let (size, more, most, fits, same) = packet-IsPacket m m' p i bs n made in
      add_packet-ne-out_of_fuel bs (packet_loop fuel m' p (i + n))
        (packet_loop-ne-out_of_fuel fuel m' p (i + n) (omega arith) (omega arith))
        (sym (round-packed fuel m m' p i bs n l made) ∙ e)
]

store-ne-out_of_fuel : (r : Packed) → r ≢ out_of_fuel → store r ≢ out_of_fuel
unfolding store
store-ne-out_of_fuel (packed ps m) h e = cc
store-ne-out_of_fuel fault h e = cc
store-ne-out_of_fuel out_of_fuel h e = h refl

pub packet_ts-closed :
    (m : MediaMuxer) (p : Payload) → open_segment m p ≡ none → packet_ts m p ≡ fault
unfolding packet_ts
packet_ts-closed m p e = rw (e, packet_ts) refl

pub packet_ts-open :
    (m m' : MediaMuxer) (p : Payload)
    → open_segment m p ≡ some m'
    → packet_ts m p ≡ store (packet_loop (suc (raw_len p)) (timed m' p) p 0)
unfolding packet_ts
packet_ts-open m m' p e = rw (e, packet_ts) refl

-- `PacketTs` ends, whatever the frame: a round either fails or goes on by at least a byte.
pub packet_ts-ne-out_of_fuel : (m : MediaMuxer) (p : Payload) → packet_ts m p ≢ out_of_fuel
packet_ts-ne-out_of_fuel m p e = elim (Option-cases (open_segment m p)) [
  | inl none_open ↦ cc (packet_ts-closed m p none_open)
  | inr (m', opened) ↦
      store-ne-out_of_fuel (packet_loop (suc (raw_len p)) (timed m' p) p 0)
        (packet_loop-ne-out_of_fuel (suc (raw_len p)) (timed m' p) p 0 (omega arith) (omega arith))
        (sym (packet_ts-open m m' p opened) ∙ e)
]
