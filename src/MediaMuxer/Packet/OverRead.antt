-- ===== src/MediaMuxer/Packet/OverRead.antt =====
-- The last packet of a video frame in `PacketTs` of src/media_muxer.cpp.
use tms.Prelude.{
  ℕ, ◌+◌, ◌-◌, ◌/◌, ◌^◌, ◌<◌, Bool, true, false, some, List, ◌==◌, leb, if◌then◌else◌, ◌≡◌, sym, ap,
  ◌∙◌, arith,
}
use tms.BitStream.{BitStream, Write, write_all, new_stream, size_in_bytes}
use tms.MediaMuxer.{MediaMuxer, Payload, raw_len, is_video}
use tms.MediaMuxer.Packet.{packet, layout, next_layout, expected_size, before_payload, take_counter}
use tms.MediaMuxer.Packet.Size.{headers_lem}
use tms.MediaMuxer.Packet.Loop.{headers_of, packet-Written, close_packet-Closed}

-- The headers of a last packet that is not full: the adaptation field is written with six bytes
-- less than its stuffing was counted for, or there is none.
last_header :
    (video : Bool) (raw_len i : ℕ)
    → video ≡ true
    → 0 < i
    → i < raw_len
    → raw_len < i + 184
    → raw_len < 2 ^ 31
    → expected_size video (i == 0) (layout video raw_len i)
      ≡ (if leb (i + 176) raw_len then 4 else 182 - (raw_len - i))
unfolding expected_size layout next_layout
last_header true raw_len i v pos low high small = ground arith
last_header false raw_len i v pos low high small = cc

no_calls :
    (m m' : MediaMuxer) (p : Payload) (i : ℕ) (s s' : BitStream) {calls : List Write}
    → 0 < i
    → before_payload m p i ≡ some (calls, m')
    → write_all calls s ≡ some s'
    → s' ≡ s
unfolding before_payload write_all
no_calls m m' p i s s' pos e w = ground arith

size_of_header : {s s' : BitStream} {k : ℕ} → s' ≡ s → k ≡ size_in_bytes s → s'.cur_pos / 8 ≡ k
unfolding size_in_bytes
size_of_header e h = ap (λ (t : BitStream). t.cur_pos / 8) e ∙ sym h

header_written :
    (m : MediaMuxer) (p : Payload) (i : ℕ) (s : BitStream)
    → write_all (headers_of m p i) new_stream ≡ some s
    → expected_size (is_video p) (i == 0) (layout (is_video p) (raw_len p) i) ≡ size_in_bytes s
header_written m p i s e =
    let pid = if is_video p then m.ts_video_pid else m.ts_audio_pid in
    let (t, written, size) =
      headers_lem (is_video p) (raw_len p) i pid (take_counter m (is_video p)).0 p.pts p.dts in
    cc

counted :
    (raw_len i n size : ℕ)
    → i < raw_len
    → raw_len < i + 184
    → size ≡ (if leb (i + 176) raw_len then 4 else 182 - (raw_len - i))
    → n ≡ 188 - size
    → (n ≡ (if leb (i + 176) raw_len then 184 else raw_len - i + 6)) × (raw_len < i + n)
counted raw_len i n size low high e f = ground arith

-- The last packet of a video frame, if it is not the first and has less than 184 bytes to carry,
-- reads past the end of the frame: six bytes, or up to eight where it has no stuffing.
pub packet-over_read :
    (m m' : MediaMuxer) (p : Payload) (i : ℕ) (bs : List ℕ) (n : ℕ)
    → is_video p ≡ true
    → 0 < i
    → i < raw_len p
    → raw_len p < i + 184
    → raw_len p < 2 ^ 31
    → packet m p i ≡ some (bs, n, m')
    → (n ≡ (if leb (i + 176) (raw_len p) then 184 else raw_len p - i + 6)) × (raw_len p < i + n)
packet-over_read m m' p i bs n video pos low high small e =
    let (s, s', calls, e1, e2, e3, e4) = packet-Written m m' p i bs n e in
    let (more, left, fits, made) = close_packet-Closed p i s' bs n e4 in
    let same : s' ≡ s = no_calls (take_counter m (is_video p)).1 m' p i s s' pos e2 e3 in
    let size = size_of_header same (header_written m p i s e1) in
    let last = last_header (is_video p) (raw_len p) i video pos low high small in
    counted (raw_len p) i n (s'.cur_pos / 8) low high (size ∙ last) left
