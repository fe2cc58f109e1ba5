-- ===== src/MediaMuxer.antt =====
-- `MediaMuxer` (src/media_muxer.h, src/media_muxer.cpp): the frames of a stream, its headers, and its
-- HLS segments; `Payload` (src/ref_ptr.h) and `TsMedia` (src/media_struct.h).
pub mod Frames
pub mod Tables
pub mod Packet
pub mod Playlist
pub mod Intake
pub mod Headers
pub mod Service
mod Tests
use tms.Prelude.{
  ℕ, zero, suc, ◌+◌, ◌-◌, ◌*◌, ◌/◌, ◌%◌, ◌^◌, Bool, true, false, Option, none, some, List, [], ◌∷◌,
  ◌++◌, ◌==◌, if◌then◌else◌, drop, length, replicate,
}
use tms.Crc32
use tms.Any.{same}

pub data PayloadType : Type 0 where
  audio : PayloadType
  video : PayloadType
  unknown : PayloadType

-- A frame: the bytes of its buffer, of which the first few are not the frame's own, and what the heap
-- has behind the buffer.
pub record Payload : Type 0 where
  pub all_data : List ℕ
  pub behind : List ℕ
  pub is_i_frame : Bool
  pub payload_type : PayloadType
  pub pts : ℕ
  pub dts : ℕ

unfoldable pub is_video : Payload → Bool
is_video p = elim p.payload_type [ video ↦ true | audio ↦ false | unknown ↦ false ]

-- `GetRawData`.
unfoldable pub raw_data : Payload → List ℕ
raw_data p = elim p.payload_type [
  | audio ↦ drop 2 p.all_data
  | video ↦ drop 4 p.all_data
  | unknown ↦ []
]

-- What can be read from the pointer that `GetRawData` returns.
unfoldable pub memory : Payload → List ℕ
unfolding raw_data
memory p = raw_data p ++ p.behind

-- `GetRawLen`, on 64 bits.
unfoldable pub raw_len : Payload → ℕ
raw_len p = elim p.payload_type [
  | audio ↦ (length p.all_data + 2 ^ 64 - 2) % 2 ^ 64
  | video ↦ (length p.all_data + 2 ^ 64 - 4) % 2 ^ 64
  | unknown ↦ 0
]

-- A segment. Its duration in seconds, a double, is kept as the time stamps of which it is the
-- difference in thousandths.
pub record TsMedia : Type 0 where
  pub last_dts : ℕ
  pub first_dts : ℕ
  pub ts_data : List ℕ

abbrev pub new_ts_media : TsMedia
new_ts_media = record { last_dts = 0; first_dts = 0; ts_data = [] }

pub record MediaMuxer : Type 0 where
  pub video_queue : List (ℕ × Payload)
  pub audio_queue : List (ℕ × Payload)
  pub video_frame_id : ℕ
  pub audio_frame_id : ℕ
  pub video_frame_recv_count : ℕ
  pub audio_frame_recv_count : ℕ
  pub video_key_frame_recv_count : ℕ
  pub pre_video_key_frame_id : ℕ
  pub pre_audio_key_frame_id : ℕ
  pub video_calc_fps : ℕ
  pub audio_calc_fps : ℕ
  pub pre_calc_fps_ms : ℕ
  pub metadata : List ℕ
  pub audio_header : List ℕ
  pub video_header : List ℕ
  pub adts_header : List ℕ
  pub sps : List ℕ
  pub pps : List ℕ
  pub ts_queue : List (ℕ × TsMedia)
  pub m3u8 : List ℕ
  pub ts_pat : List ℕ
  pub ts_pmt : List ℕ
  pub ts_seq : ℕ
  pub ts_video_pid : ℕ
  pub ts_audio_pid : ℕ
  pub ts_pmt_pid : ℕ
  pub ts_pat_continuity_counter : ℕ
  pub ts_pmt_continuity_counter : ℕ
  pub ts_audio_continuity_counter : ℕ
  pub ts_video_continuity_counter : ℕ
  pub crc_32 : Crc32.Tables

-- The constructor, given the tables that other checksums have made.
unfoldable pub new_media_muxer : Crc32.Tables → MediaMuxer
new_media_muxer t = record {
  video_queue = [];
  audio_queue = [];
  video_frame_id = 0;
  audio_frame_id = 0;
  video_frame_recv_count = 0;
  audio_frame_recv_count = 0;
  video_key_frame_recv_count = 0;
  pre_video_key_frame_id = 0;
  pre_audio_key_frame_id = 0;
  video_calc_fps = 0;
  audio_calc_fps = 0;
  pre_calc_fps_ms = 0;
  metadata = [];
  audio_header = [];
  video_header = [];
  adts_header = replicate 7 0;
  sps = [];
  pps = [];
  ts_queue = [];
  m3u8 = [];
  ts_pat = [];
  ts_pmt = [];
  ts_seq = 0;
  ts_video_pid = 0x100;
  ts_audio_pid = 0x101;
  ts_pmt_pid = 0xABC;
  ts_pat_continuity_counter = 0;
  ts_pmt_continuity_counter = 0;
  ts_audio_continuity_counter = 0;
  ts_video_continuity_counter = 0;
  crc_32 = Crc32.new_crc32 Crc32.hls_type t;
}

-- What the four functions for continuity counters do to theirs, a byte.
unfoldable pub next_counter : ℕ → ℕ
next_counter c = if (c + 1) % 256 == 0x10 then 0 else (c + 1) % 256

unfoldable pub on_meta_data : List ℕ → MediaMuxer → MediaMuxer
on_meta_data metadata m = if same m.metadata metadata then m else record m { metadata = metadata }

-- `EveryNSecond`, without its log.
unfoldable pub every_n_second : ℕ → MediaMuxer → MediaMuxer
every_n_second now_in_ms m =
    if m.pre_calc_fps_ms == 0
    then record m { pre_calc_fps_ms = now_in_ms }
    else record m { pre_calc_fps_ms = now_in_ms; video_calc_fps = 0; audio_calc_fps = 0 }

-- `GetTs`: the segment's bytes, or none where it is not there.
unfoldable pub get_ts : ℕ → MediaMuxer → List ℕ
unfolding Frames.find
get_ts ts m = elim (Frames.find ts m.ts_queue) [ none ↦ [] | some t ↦ t.ts_data ]
