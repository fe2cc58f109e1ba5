-- ===== src/MediaMuxer/Tests.antt =====
-- Runs of src/media_muxer.cpp, and its theorems at frames, headers and subscribers of a small stream.
use tms.Prelude.{
  ℕ, ◌+◌, ◌-◌, ◌≡◌, ◌≢◌, refl, List, [], ◌∷◌, ◌++◌, Option, none, some, take, false, ◌||◌, ◌==◌,
  leb, if◌then◌else◌, arith, replicate, length, ◌<◌,
}
use tms.Crc32
use tms.BitStream.{BitStream, write_all, new_stream, size_in_bytes}
use tms.Nals.{is_start}
use tms.Nals.Annexb.{annexb}
use tms.Publisher.{count}
use tms.MediaMuxer.{
  MediaMuxer, Payload, video, new_media_muxer, raw_len, is_video, get_ts, is_video,
}
use tms.MediaMuxer.Frames.{since}
use tms.MediaMuxer.Tables.{packet_ts_pat}
use tms.MediaMuxer.Packet.{
  Packed, packed, fault, out_of_fuel, packet, packet_ts, joined, headers, layout, expected_size,
}
use tms.MediaMuxer.Packet.Size.{headers_lem}
use tms.MediaMuxer.Packet.Loop.{packet_ts-ne-out_of_fuel}
use tms.MediaMuxer.Packet.Carry.{FrameAndMore, packet_ts-Carry}
use tms.MediaMuxer.Packet.OverRead.{packet-over_read}
use tms.MediaMuxer.Intake.{get_fast_out}
use tms.MediaMuxer.Intake.FastOut.{Interleaves, InOrder, get_fast_out_lem}
use tms.MediaMuxer.Headers.{Live, subscribe, on_audio_header, read_video_header}
use tms.MediaMuxer.Headers.Units.{read_video_header-annexb}
use tms.MediaMuxer.Headers.Waiting.{IsLive, on_audio_header-promotes}
use tms.MediaMuxer.Service.{new_live, start, next, joins, audio_header, Reach-IsLive}

abbrev fresh : MediaMuxer
fresh = new_media_muxer Crc32.static_tables

abbrev first : {M : Type 0} → Option (List ℕ × M) → List ℕ
first none = []
first (some (bs, m)) = take 22 bs

-- The program association table with its checksum, and the first stuffing byte.
pat_bytes :
    first (packet_ts_pat fresh)
    ≡ 0x47 ∷ 0x40 ∷ 0 ∷ 0x10 ∷ 0 ∷ 0 ∷ 0xB0 ∷ 13 ∷ 0 ∷ 1 ∷ 0xC1 ∷ 0 ∷ 0 ∷ 0 ∷ 1 ∷ 0xEA ∷ 0xBC ∷ 152
      ∷ 104 ∷ 84 ∷ 230 ∷ 0xFF ∷ []
unfolding packet_ts_pat new_media_muxer Crc32.static_tables Crc32.new_crc32
pat_bytes = refl

-- A frame of 160 bytes.
abbrev frame : Payload
frame = record {
  all_data = replicate 164 7;
  behind = replicate 16 0;
  is_i_frame = false;
  payload_type = video;
  pts = 80;
  dts = 40;
}

-- A muxer whose tables are made.
abbrev running : MediaMuxer
running = record fresh {
  ts_pat = 0x47 ∷ 0x40 ∷ 0 ∷ 0x10 ∷ [];
  ts_pmt = 0x47 ∷ 0x4A ∷ 0xBC ∷ 0x10 ∷ [];
}

abbrev packets_of : Packed → List (List ℕ)
packets_of (packed ps m) = ps
packets_of fault = []
packets_of out_of_fuel = []

abbrev muxer_of : Packed → MediaMuxer
muxer_of (packed ps m) = m
muxer_of fault = fresh
muxer_of out_of_fuel = fresh

abbrev run : Packed
run = packet_ts running frame

two_packets : length (packets_of run) ≡ 2
unfolding packet_ts new_media_muxer
two_packets = refl

packet_ts-Carry_example :
    FrameAndMore frame (packets_of run)
    × (old : List ℕ) × (get_ts (muxer_of run).ts_seq (muxer_of run)
        ≡ old ++ joined (packets_of run))
unfolding packet_ts new_media_muxer
packet_ts-Carry_example =
    packet_ts-Carry running (muxer_of run) frame (packets_of run) (omega arith) refl

packet_ts-ne-out_of_fuel_example : packet_ts running frame ≢ out_of_fuel
packet_ts-ne-out_of_fuel_example = packet_ts-ne-out_of_fuel running frame

headers_lem_example :
    (s : BitStream) × (write_all
        (headers false (0 == 0) (layout false 30 0) 0x101 3 30 900 900)
        new_stream
      ≡ some s)
    × (expected_size false (0 == 0) (layout false 30 0) ≡ size_in_bytes s)
headers_lem_example = headers_lem false 30 0 0x101 3 900 900

abbrev round : Option (List ℕ × ℕ × MediaMuxer)
round = packet running frame 147

abbrev bytes_of : Option (List ℕ × ℕ × MediaMuxer) → List ℕ
bytes_of none = []
bytes_of (some (bs, n, m)) = bs

abbrev muxer_in : Option (List ℕ × ℕ × MediaMuxer) → MediaMuxer
muxer_in none = fresh
muxer_in (some (bs, n, m)) = m

-- The thirteen bytes from offset 147 on are the frame's last.
packet-over_read_example :
    (19 ≡ (if leb (147 + 176) (raw_len frame) then 184 else raw_len frame - 147 + 6))
    × (raw_len frame < 147 + 19)
unfolding is_video raw_len packet new_media_muxer
packet-over_read_example =
    packet-over_read running (muxer_in round) frame 147 (bytes_of round) 19 refl (omega arith)
      (omega arith) (omega arith) (omega arith) refl

abbrev at_dts : ℕ → Payload
at_dts d = record frame { all_data = []; dts = d }

-- Video frames 4 and 5 and audio frame 9, of which the last key frame is the first.
abbrev queued : MediaMuxer
queued = record fresh {
  video_queue = (4, at_dts 40) ∷ (5, at_dts 80) ∷ [];
  audio_queue = (8, at_dts 20) ∷ (9, at_dts 60) ∷ [];
  pre_video_key_frame_id = 4;
  pre_audio_key_frame_id = 9;
}

fast_out : get_fast_out queued ≡ at_dts 40 ∷ at_dts 60 ∷ at_dts 80 ∷ []
unfolding get_fast_out new_media_muxer
fast_out = refl

get_fast_out_lem_example :
    Interleaves (since 9 queued.audio_queue) (since 4 queued.video_queue) (get_fast_out queued)
    × InOrder (get_fast_out queued)
unfolding since
get_fast_out_lem_example = get_fast_out_lem queued (omega arith) (omega arith)

abbrev sps : List ℕ
sps = 0x67 ∷ 0x42 ∷ 0 ∷ 0 ∷ 3 ∷ []

abbrev pps : List ℕ
pps = 0x68 ∷ 0xCE ∷ []

read_video_header-annexb_example :
    read_video_header (annexb (sps ∷ pps ∷ [])) fresh ≡ some (record fresh { sps = sps; pps = pps })
unfolding is_start
read_video_header-annexb_example =
    read_video_header-annexb sps pps fresh (omega arith, refl) (omega arith, refl)

abbrev no_text : ℕ → ℕ → List ℕ
no_text a b = []

abbrev joined_live : Live
joined_live = (subscribe 3 (new_live Crc32.static_tables)).1

Reach-IsLive_example : IsLive (on_audio_header (0x12 ∷ 0x10 ∷ []) joined_live).1
Reach-IsLive_example = Reach-IsLive no_text Crc32.static_tables (
    next (next start (joins 3 (new_live Crc32.static_tables)))
      (audio_header (0x12 ∷ 0x10 ∷ []) joined_live))

-- A subscriber waits, and the video header is there.
abbrev waiting : Live
waiting = record {
  subscriber = [];
  wait_header_subscriber = 3 ∷ [];
  media_muxer = record fresh { video_header = 1 ∷ [] };
}

on_audio_header-promotes_example :
    (count 3 (on_audio_header (0x12 ∷ 0x10 ∷ []) waiting).1.subscriber
      ≡ count 3 waiting.wait_header_subscriber || count 3 waiting.subscriber)
    × ((on_audio_header (0x12 ∷ 0x10 ∷ []) waiting).1.wait_header_subscriber ≡ [])
unfolding new_media_muxer
on_audio_header-promotes_example =
    on_audio_header-promotes (0x12 ∷ 0x10 ∷ []) waiting 3 refl refl refl
