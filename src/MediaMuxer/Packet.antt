-- ===== src/MediaMuxer/Packet.antt =====
-- `PacketTs` of src/media_muxer.cpp: a frame cut into TS packets of 188 bytes. A failed assertion, and
-- a read or write past the end of a buffer, is a fault; the bytes behind a frame's buffer are the payload's `behind`.
pub mod Size
pub mod Loop
pub mod Carry
pub mod OverRead
pub mod Keep
use tms.Prelude.{
  ℕ, zero, suc, ◌+◌, ◌-◌, ◌*◌, ◌/◌, ◌%◌, ◌^◌, Bool, true, false, ◌&&◌, ◌||◌, not, Option, none,
  some, List, [], ◌∷◌, ◌++◌, ◌==◌, leb, ltb, if◌then◌else◌, length, drop, take, set, get_or,
}
use tms.BitStream.{
  BitStream, Write, bits, bytes, text, write_all, new_stream, written, size_in_bytes,
}
use tms.MediaMuxer.{
  MediaMuxer, Payload, TsMedia, new_ts_media, next_counter, is_video, memory, raw_len,
}
use tms.MediaMuxer.Frames.{find, alter}
use tms.MediaMuxer.Tables.{packet_ts_pat, packet_ts_pmt}

-- The local variables of a round before its packet is written.
pub record Layout : Type 0 where
  pub header_size : ℕ
  pub adaptation_field_control : ℕ
  pub adaption_stuffing_bytes : ℕ

-- `ts_header_size + adaptation_size + pes_header_size + extern_data_len`.
unfoldable pub first_headers : Bool → ℕ
first_headers video = if video then 4 + 8 + 19 + 6 else 4 + 2 + 14 + 7

-- The round at offset 0, where the packet has a PES header. A frame that is too short for a packet
-- is filled up in the adaptation field.
unfoldable pub first_layout : Bool → ℕ → Layout
unfolding first_headers
first_layout video raw_len =
    let base = if video then 4 + 19 + 8 else 4 + 14 in
    if ltb ((raw_len + first_headers video) % 2 ^ 64) 188
    then (let stuffing = 188 - (raw_len + first_headers video) % 2 ^ 64 in
        record {
          header_size = (if video then base else base + 2) + stuffing;
          adaptation_field_control = 3;
          adaption_stuffing_bytes = stuffing;
        })
    else record {
      header_size = base;
      adaptation_field_control = if video then 3 else 1;
      adaption_stuffing_bytes = 0;
    }

-- A later round, with `left` bytes left, a number of 32 bits.
unfoldable pub next_layout : Bool → ℕ → Layout
next_layout video left =
    let adaptation_size = if video then 8 else 2 in
    let need = (left + 4 + adaptation_size) % 2 ^ 32 in
    if leb need 188
    then (if need == 188
        then record { header_size = 4; adaptation_field_control = 1; adaption_stuffing_bytes = 0 }
        else record {
          header_size = 4 + adaptation_size + (188 - need);
          adaptation_field_control = 3;
          adaption_stuffing_bytes = 188 - need;
        })
    else record { header_size = 4; adaptation_field_control = 1; adaption_stuffing_bytes = 0 }

unfoldable pub layout : Bool → ℕ → ℕ → Layout
unfolding first_layout next_layout
layout video raw_len i =
    if i == 0
    then first_layout video raw_len
    else next_layout video ((raw_len + 2 ^ 64 - i) % 2 ^ 32)

-- `n` stuffing bytes, a call for each.
unfoldable pub stuffing : ℕ → List Write
stuffing zero = []
stuffing (suc n) = bytes 1 0xFF ∷ stuffing n

-- The adaptation field. The first packet of a video frame has the clock.
unfoldable pub adaptation : Bool → Bool → ℕ → ℕ → List Write
unfolding stuffing
adaptation video start n dts =
    let seconds = dts / 1000 in
    (if video && start
      then bytes 1 (7 + n)
        ∷ bytes 1 0x10
        ∷ bits 33 (27000000 * seconds % 2 ^ 64 / 300 % 2 ^ 34)
        ∷ bits 6 0x00
        ∷ bits 9 (27000000 * seconds % 2 ^ 64 % 300)
        ∷ []
      else bytes 1 (1 + n) ∷ bytes 1 0x00 ∷ [])
    ++ stuffing n

-- A time stamp in five bytes.
unfoldable pub time_stamp : ℕ → List Write
time_stamp t =
    bits 4 0x02
    ∷ bits 3 (t / 2 ^ 30 % 2 ^ 3)
    ∷ bits 1 1
    ∷ bits 15 (t / 2 ^ 15 % 2 ^ 15)
    ∷ bits 1 1
    ∷ bits 15 (t % 2 ^ 15)
    ∷ bits 1 1
    ∷ []

-- The PES header, and the access unit delimiter of a video frame.
unfoldable pub pes_header : Bool → ℕ → ℕ → ℕ → List Write
unfolding time_stamp
pes_header video raw_len pts dts =
    bytes 3 0x000001
    ∷ bytes 1 (if video then 0xe0 else 0xc0)
    ∷ bytes 2 (if video then 0x0000 else (raw_len + 3 + 5 + 7) % 2 ^ 64)
    ∷ bytes 1 0x80
    ∷ bytes 1 (if video then 0xc0 else 0x80)
    ∷ bytes 1 (if video then 10 else 5)
    ∷ (time_stamp (pts * 90 % 2 ^ 64)
        ++ (if video
            then time_stamp (dts * 90 % 2 ^ 64)
              ++ (bytes 4 0x00000001 ∷ bytes 1 0x09 ∷ bytes 1 0x10 ∷ [])
            else []))

-- The calls up to the assertion on the size of the header. A continuity counter is the number given.
unfoldable pub headers : Bool → Bool → Layout → ℕ → ℕ → ℕ → ℕ → ℕ → List Write
unfolding adaptation pes_header
headers video start l pid counter raw_len pts dts =
    bytes 1 0x47
    ∷ bits 1 0
    ∷ bits 1 (if start then 1 else 0)
    ∷ bits 1 0
    ∷ bits 13 pid
    ∷ bits 2 0
    ∷ bits 2 l.adaptation_field_control
    ∷ bits 4 counter
    ∷ ((if l.adaptation_field_control == 2 || l.adaptation_field_control == 3
          then adaptation video start l.adaption_stuffing_bytes dts
          else [])
        ++ (if start then pes_header video raw_len pts dts else []))

-- `header_size` with what is added and taken away while the headers are written, on 32 bits.
unfoldable pub expected_size : Bool → Bool → Layout → ℕ
expected_size video start l =
    let has_field = l.adaptation_field_control == 2 || l.adaptation_field_control == 3 in
    let size =
      if has_field && (video && not start)
      then (l.header_size + 2 ^ 32 - 6) % 2 ^ 32
      else l.header_size in
    if start && video then size + 6 else size

-- What stands before the payload of a video frame.
unfoldable pub nal_start : MediaMuxer → Payload → List Write
nal_start m p =
    if p.is_i_frame
    then bytes 4 0x00000001 ∷ text m.sps ∷ bytes 4 0x00000001 ∷ text m.pps ∷ bytes 4 0x00000001 ∷ []
    else bytes 4 0x00000001 ∷ []

-- The ADTS header with the length of its frame, which is a number of 16 bits before 7 is added.
unfoldable pub adts : ℕ → List ℕ → List ℕ
adts len h =
    let h3 = set h 3 (get_or h 3 0 / 4 * 4 + len / 2 ^ 11 % 4) in
    let h4 = set h3 4 (len / 8 % 256) in set h4 5 (get_or h4 5 0 % 32 + len % 8 * 32)

unfoldable pub adts_len : ℕ → ℕ
adts_len raw_len = (raw_len % 2 ^ 16 + 7) % 2 ^ 16

-- The calls between the headers and the payload, and the muxer after them. `none` is the failed
-- assertion that the length comes back from the ADTS header.
unfoldable pub before_payload : MediaMuxer → Payload → ℕ → Option (List Write × MediaMuxer)
unfolding is_video raw_len nal_start adts adts_len
before_payload m p i =
    if not (i == 0)
    then some ([], m)
    else if is_video p
    then some (nal_start m p, m)
    else if ltb (length m.audio_header) 2
    then some ([], m)
    else if leb (2 ^ 13) (adts_len (raw_len p))
    then none
    else (let h = adts (adts_len (raw_len p)) m.adts_header in
        some (text h ∷ [], record m { adts_header = h }))

-- The payload of a packet, `n` bytes from offset `i`, from memory that has as many.
unfoldable pub payload_at : List ℕ → ℕ → ℕ → Option (List ℕ)
payload_at bs i n = if leb (i + n) (length bs) then some (take n (drop i bs)) else none

-- The rest of the packet, with its assertions: the packet, and the bytes of the frame in it.
unfoldable pub close_packet : Payload → ℕ → BitStream → Option (List ℕ × ℕ)
unfolding payload_at memory written size_in_bytes write_all
close_packet p i s =
    let bytes_left = 188 - size_in_bytes s in
    if bytes_left == 0 then none else elim (payload_at (memory p) i bytes_left) [
      | none ↦ none
      | some bs ↦ elim (write_all (text bs ∷ []) s) [
        | none ↦ none
        | some s' ↦ if size_in_bytes s' == 188 then some (written s', bytes_left) else none
      ]
    ]

-- The continuity counter of the frame's kind, and the muxer after it was taken.
unfoldable pub take_counter : MediaMuxer → Bool → ℕ × MediaMuxer
unfolding next_counter
take_counter m video =
    if video
    then (
      m.ts_video_continuity_counter,
      record m { ts_video_continuity_counter = next_counter m.ts_video_continuity_counter },
    )
    else (
      m.ts_audio_continuity_counter,
      record m { ts_audio_continuity_counter = next_counter m.ts_audio_continuity_counter },
    )

-- A round of the loop, at offset `i`: the packet, the bytes of the frame in it, and the muxer.
unfoldable pub packet : MediaMuxer → Payload → ℕ → Option (List ℕ × ℕ × MediaMuxer)
unfolding layout headers expected_size before_payload close_packet take_counter is_video raw_len
    write_all new_stream size_in_bytes
packet m p i =
    let video = is_video p in
    let start = i == 0 in
    let l = layout video (raw_len p) i in
    let (counter, m') = take_counter m video in
    let pid = if video then m.ts_video_pid else m.ts_audio_pid in
    elim (write_all (headers video start l pid counter (raw_len p) p.pts p.dts) new_stream) [
      | none ↦ none
      | some s ↦
          if not (expected_size video start l == size_in_bytes s)
          then none
          else elim (before_payload m' p i) [
            | none ↦ none
            | some (calls, m'') ↦ elim (write_all calls s) [
              | none ↦ none
              | some s' ↦ elim (close_packet p i s') [
                | none ↦ none
                | some (bs, n) ↦ some (bs, n, m'')
              ]
            ]
          ]
    ]

-- How a run of the loop ends.
pub data Packed : Type 0 where
  packed : List (List ℕ) → MediaMuxer → Packed
  fault : Packed
  out_of_fuel : Packed

unfoldable pub add_packet : List ℕ → Packed → Packed
add_packet bs (packed ps m) = packed (bs ∷ ps) m
add_packet bs fault = fault
add_packet bs out_of_fuel = out_of_fuel

-- `while (i < payload.GetRawLen())`: the packets in order, and the muxer after the last.
unfoldable pub packet_loop : ℕ → MediaMuxer → Payload → ℕ → Packed
unfolding packet add_packet raw_len
packet_loop zero m p i = out_of_fuel
packet_loop (suc fuel) m p i =
    let round : Packed = elim (packet m p i) [
      | none ↦ fault
      | some (bs, n, m') ↦ add_packet bs (packet_loop fuel m' p (i + n))
    ] in
    if ltb i (raw_len p) then round else packed [] m

abbrev pub joined : List (List ℕ) → List ℕ
joined [] = []
joined (bs ∷ r) = bs ++ joined r

-- A segment that is new begins with the two tables.
unfoldable pub open_segment : MediaMuxer → Payload → Option MediaMuxer
unfolding find alter packet_ts_pat packet_ts_pmt
open_segment m p = elim (find m.ts_seq m.ts_queue) [
  | some t ↦ some m
  | none ↦ elim (packet_ts_pat m) [
    | none ↦ none
    | some (pat, m') ↦ elim (packet_ts_pmt m') [
      | none ↦ none
      | some (pmt, m'') ↦ some (record m'' {
        ts_queue =
            alter m''.ts_seq new_ts_media
              (λ t. record t { first_dts = p.dts; ts_data = t.ts_data ++ (pat ++ pmt) })
              m''.ts_queue;
      })
    ]
  ]
]

-- The segment's duration so far.
unfoldable pub timed : MediaMuxer → Payload → MediaMuxer
unfolding alter
timed m p = record m {
  ts_queue = alter m.ts_seq new_ts_media (λ t. record t { last_dts = p.dts }) m.ts_queue;
}

-- The packets at the end of the segment's bytes.
unfoldable pub store : Packed → Packed
unfolding alter
store (packed ps m) = packed ps (record m {
  ts_queue =
      alter m.ts_seq new_ts_media (λ t. record t { ts_data = t.ts_data ++ joined ps }) m.ts_queue;
})
store fault = fault
store out_of_fuel = out_of_fuel

-- The fuel is a round for each byte of the frame, and one for the test that ends the loop.
unfoldable pub packet_ts : MediaMuxer → Payload → Packed
unfolding open_segment packet_loop timed store raw_len
packet_ts m p = elim (open_segment m p) [
  | none ↦ fault
  | some m' ↦ store (packet_loop (suc (raw_len p)) (timed m' p) p 0)
]

unfoldable pub send_to_srt : (ℕ → Bool) → List ℕ → List ℕ → List (ℕ × List ℕ)
send_to_srt is_srt bs [] = []
send_to_srt is_srt bs (s ∷ r) =
    if is_srt s then (s, bs) ∷ send_to_srt is_srt bs r else send_to_srt is_srt bs r

-- What is sent while the packets are made: each of them to every subscriber that speaks SRT.
unfoldable pub srt_sends : (ℕ → Bool) → List ℕ → List (List ℕ) → List (ℕ × List ℕ)
unfolding send_to_srt
srt_sends is_srt subscribers [] = []
srt_sends is_srt subscribers (bs ∷ ps) =
    send_to_srt is_srt bs subscribers ++ srt_sends is_srt subscribers ps
