-- ===== src/MediaMuxer/Packet/Keep.antt =====
-- What frames leave alone in src/media_muxer.cpp: the headers of the stream.
use tms.Prelude.{
  ℕ, zero, suc, ◌+◌, Bool, true, false, some, List, ◌≡◌, refl, sym, ◌∙◌, arith, Option-cases, inl,
  inr,
}
use mathlib.Core.Path.{subst}
use tms.BitStream.{Write}
use tms.MediaMuxer.{MediaMuxer, Payload, raw_len, is_video}
use tms.MediaMuxer.Frames.{find}
use tms.MediaMuxer.Tables.{packet_ts_pat, packet_ts_pmt}
use tms.MediaMuxer.Packet.{
  before_payload, take_counter, packet, packet_loop, packet_ts, Packed, packed, fault, out_of_fuel,
  open_segment, timed, store, add_packet,
}
use tms.MediaMuxer.Packet.Loop.{
  packet-Written, round_cases, round-fault, round-packed, round-end, packet_ts-closed,
  packet_ts-open,
}

abbrev pub SameHeaders : MediaMuxer → MediaMuxer → Type 0
SameHeaders m m' = (m'.audio_header ≡ m.audio_header) × (m'.video_header ≡ m.video_header)

pub SameHeaders-trans : (a b c : MediaMuxer) → SameHeaders a b → SameHeaders b c → SameHeaders a c
SameHeaders-trans a b c (x, y) (x', y') = (x' ∙ x, y' ∙ y)

take_counter-SameHeaders : (m : MediaMuxer) (video : Bool) → SameHeaders m (take_counter m video).1
unfolding take_counter
take_counter-SameHeaders m true = (refl, refl)
take_counter-SameHeaders m false = (refl, refl)

before_payload-SameHeaders :
    (m m' : MediaMuxer) (p : Payload) (i : ℕ) (calls : List Write)
    → before_payload m p i ≡ some (calls, m')
    → SameHeaders m m'
unfolding before_payload
before_payload-SameHeaders m m' p i calls e = ground arith

packet-SameHeaders :
    (m m' : MediaMuxer) (p : Payload) (i : ℕ) (bs : List ℕ) (n : ℕ)
    → packet m p i ≡ some (bs, n, m')
    → SameHeaders m m'
packet-SameHeaders m m' p i bs n e =
    let (s, s', calls, e1, e2, e3, e4) = packet-Written m m' p i bs n e in
    let counted = (take_counter m (is_video p)).1 in
    SameHeaders-trans m counted m' (take_counter-SameHeaders m (is_video p))
      (before_payload-SameHeaders counted m' p i calls e2)

-- The muxer of a run that made its packets has the same headers.
abbrev pub Keeps : MediaMuxer → Packed → Type 0
Keeps m (packed ps m') = SameHeaders m m'
Keeps m fault = Unit
Keeps m out_of_fuel = Unit

add_packet-Keeps :
    (m : MediaMuxer) (bs : List ℕ) (r : Packed) → Keeps m r → Keeps m (add_packet bs r)
unfolding add_packet
add_packet-Keeps m bs (packed ps m') k = k
add_packet-Keeps m bs fault k = tt
add_packet-Keeps m bs out_of_fuel k = tt

pub Keeps-trans : (a b : MediaMuxer) (r : Packed) → SameHeaders a b → Keeps b r → Keeps a r
Keeps-trans a b (packed ps m) h k = SameHeaders-trans a b m h k
Keeps-trans a b fault h k = tt
Keeps-trans a b out_of_fuel h k = tt

packet_loop-Keeps :
    (fuel : ℕ) (m : MediaMuxer) (p : Payload) (i : ℕ) → Keeps m (packet_loop fuel m p i)
packet_loop-Keeps zero m p i = unfold packet_loop in tt
packet_loop-Keeps (suc fuel) m p i = elim (round_cases m p i) [
  | inl past ↦ subst (Keeps m) (sym (round-end fuel m p i past)) (refl, refl)
  | inr (inl (l, gone)) ↦ subst (Keeps m) (sym (round-fault fuel m p i l gone)) tt
  | inr (inr (bs, n, m', l, made)) ↦
      subst (Keeps m) (sym (round-packed fuel m m' p i bs n l made)) (
        add_packet-Keeps m bs (packet_loop fuel m' p (i + n)) (
          Keeps-trans m m' (packet_loop fuel m' p (i + n)) (packet-SameHeaders m m' p i bs n made)
            (packet_loop-Keeps fuel m' p (i + n))))
]

packet_ts_pat-SameHeaders :
    (m m' : MediaMuxer) (bs : List ℕ) → packet_ts_pat m ≡ some (bs, m') → SameHeaders m m'
unfolding packet_ts_pat
packet_ts_pat-SameHeaders m m' bs e = ground arith

packet_ts_pmt-SameHeaders :
    (m m' : MediaMuxer) (bs : List ℕ) → packet_ts_pmt m ≡ some (bs, m') → SameHeaders m m'
unfolding packet_ts_pmt
packet_ts_pmt-SameHeaders m m' bs e = ground arith

open_segment-SameHeaders :
    (m m' : MediaMuxer) (p : Payload) → open_segment m p ≡ some m' → SameHeaders m m'
unfolding open_segment
open_segment-SameHeaders m m' p e = elim (Option-cases (find m.ts_seq m.ts_queue)) [
  | inr (t, old) ↦ ground arith
  | inl new ↦ elim (Option-cases (packet_ts_pat m)) [
    | inl gone ↦ ground arith
    | inr ((pat, m1), e1) ↦ elim (Option-cases (packet_ts_pmt m1)) [
      | inl gone ↦ ground arith
      | inr ((pmt, m2), e2) ↦
          SameHeaders-trans m m2 m'
            (SameHeaders-trans m m1 m2 (packet_ts_pat-SameHeaders m m1 pat e1)
              (packet_ts_pmt-SameHeaders m1 m2 pmt e2))
            (ground arith)
    ]
  ]
]

store-Keeps : (m : MediaMuxer) (r : Packed) → Keeps m r → Keeps m (store r)
unfolding store
store-Keeps m (packed ps m') k = k
store-Keeps m fault k = tt
store-Keeps m out_of_fuel k = tt

pub packet_ts-Keeps : (m : MediaMuxer) (p : Payload) → Keeps m (packet_ts m p)
unfolding timed
packet_ts-Keeps m p = elim (Option-cases (open_segment m p)) [
  | inl gone ↦ subst (Keeps m) (sym (packet_ts-closed m p gone)) tt
  | inr (m', opened) ↦ subst (Keeps m) (sym (packet_ts-open m m' p opened)) (
      store-Keeps m (packet_loop (suc (raw_len p)) (timed m' p) p 0) (
        Keeps-trans m (timed m' p) (packet_loop (suc (raw_len p)) (timed m' p) p 0)
          (open_segment-SameHeaders m m' p opened)
          (packet_loop-Keeps (suc (raw_len p)) (timed m' p) p 0)))
]
