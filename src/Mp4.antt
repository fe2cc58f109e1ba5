-- ===== src/Mp4.antt =====
-- `Mp4Muxer` (src/mp4_muxer.h, src/mp4_muxer.cpp): the frames of a group of pictures, the chunks that
-- they make in the media data, and the file that is made of them.
pub mod Name
pub mod Box
pub mod Tables
pub mod Movie
pub mod Track
pub mod Flush
pub mod File
pub mod Player
pub mod Located
pub mod Offsets
pub mod Chunks
mod Tests
use tms.Prelude.{
  ℕ, zero, suc, ◌+◌, ◌-◌, ◌*◌, ◌%◌, ◌^◌, Bool, true, false, ◌&&◌, Option, none, some, List, [], ◌∷◌,
  ◌++◌, leb, if◌then◌else◌, length, take,
}
use tms.MediaMuxer.{PayloadType, audio, video, unknown, Payload, raw_data, raw_len}

-- A chunk: frames of one kind that follow each other. `delta` is never read.
pub record Chunk : Type 0 where
  pub count : ℕ
  pub size : ℕ
  pub payload_type : PayloadType
  pub delta : ℕ
  pub dts : ℕ

pub record Mp4Muxer : Type 0 where
  pub segment : Bool
  pub video_header : List ℕ
  pub audio_header : List ℕ
  pub mdat : List ℕ
  pub chunk_offset : ℕ
  pub media_offset : ℕ
  pub chunk : List Chunk
  pub video_chunk_offset : List ℕ
  pub audio_chunk_offset : List ℕ
  pub video_samples : List Payload
  pub audio_samples : List Payload

-- The constructor leaves the two offsets as the memory was.
unfoldable pub new_mp4_muxer : ℕ → ℕ → Mp4Muxer
new_mp4_muxer chunk_offset media_offset = record {
  segment = false;
  video_header = [];
  audio_header = [];
  mdat = [];
  chunk_offset = chunk_offset;
  media_offset = media_offset;
  chunk = [];
  video_chunk_offset = [];
  audio_chunk_offset = [];
  video_samples = [];
  audio_samples = [];
}

unfoldable pub set_segment : Bool → Mp4Muxer → Mp4Muxer
set_segment b m = record m { segment = b }

unfoldable pub on_video_header : List ℕ → Mp4Muxer → Mp4Muxer
on_video_header video_header m = record m { video_header = video_header }

unfoldable pub on_audio_header : List ℕ → Mp4Muxer → Mp4Muxer
on_audio_header audio_header m = record m { audio_header = audio_header }

unfoldable pub reset : Mp4Muxer → Mp4Muxer
reset m = record m {
  chunk_offset = 0;
  media_offset = 0;
  chunk = [];
  mdat = [];
  video_chunk_offset = [];
  audio_chunk_offset = [];
  video_samples = [];
  audio_samples = [];
}

unfoldable pub is_kind : PayloadType → PayloadType → Bool
is_kind video video = true
is_kind audio audio = true
is_kind unknown unknown = true
is_kind _ _ = false

-- `back()`.
abbrev pub back {ℓ} : {A : Type ℓ} → List A → Option A
back [] = none
back (x ∷ []) = some x
back (x ∷ y ∷ xs) = back (y ∷ xs)

abbrev pub set_back {ℓ} : {A : Type ℓ} → A → List A → List A
set_back a [] = []
set_back a (x ∷ []) = a ∷ []
set_back a (x ∷ y ∷ xs) = x ∷ set_back a (y ∷ xs)

unfoldable pub push_offset : PayloadType → ℕ → Mp4Muxer → Mp4Muxer
unfolding is_kind
push_offset kind offset m =
    if is_kind kind video
    then record m { video_chunk_offset = m.video_chunk_offset ++ (offset ∷ []) }
    else record m { audio_chunk_offset = m.audio_chunk_offset ++ (offset ∷ []) }

unfoldable pub new_chunk : ℕ → ℕ → PayloadType → Chunk
new_chunk dts len kind = record { count = 1; size = len; payload_type = kind; delta = 0; dts = dts }

-- The chunk in progress ends at a frame.
unfoldable pub end_chunk : ℕ → Chunk → Mp4Muxer → Mp4Muxer
unfolding push_offset
end_chunk dts c m =
    let m' = push_offset c.payload_type m.chunk_offset m in
    record m' {
      chunk = set_back (record c { delta = (dts + 2 ^ 64 - c.dts) % 2 ^ 32 }) m.chunk;
      chunk_offset = (m.chunk_offset + c.size) % 2 ^ 32;
    }

unfoldable pub push_chunk : ℕ → ℕ → PayloadType → Mp4Muxer → Mp4Muxer
unfolding new_chunk
push_chunk dts len kind m = record m { chunk = m.chunk ++ (new_chunk dts len kind ∷ []) }

unfoldable pub extend_chunk : ℕ → Chunk → Mp4Muxer → Mp4Muxer
extend_chunk len c m = record m {
  chunk = set_back (record c { size = c.size + len; count = c.count + 1 }) m.chunk;
}

-- `CalChunk`, by what `back()` is.
unfoldable pub cal_chunk_at : ℕ → ℕ → PayloadType → Option Chunk → Mp4Muxer → Mp4Muxer
unfolding is_kind end_chunk push_chunk extend_chunk
cal_chunk_at dts len kind none m = push_chunk dts len kind m
cal_chunk_at dts len kind (some c) m =
    if is_kind c.payload_type kind && leb (c.size + len) (1024 * 1024)
    then extend_chunk len c m
    else push_chunk dts len kind (end_chunk dts c m)

unfoldable pub cal_chunk : ℕ → ℕ → PayloadType → Mp4Muxer → Mp4Muxer
unfolding cal_chunk_at
cal_chunk dts len kind m = cal_chunk_at dts len kind (back m.chunk) m

-- `OnAudio`. A frame of less than its two bytes of header makes `append` throw.
unfoldable pub on_audio : Payload → Mp4Muxer → Option Mp4Muxer
unfolding raw_data raw_len cal_chunk
on_audio p m =
    if leb (raw_len p) (length (raw_data p))
    then some (
        cal_chunk p.dts (raw_len p) audio (record m {
          audio_samples = m.audio_samples ++ (p ∷ []);
          mdat = m.mdat ++ take (raw_len p) (raw_data p);
        }))
    else none

-- What `OnVideo` does with a frame, once a key frame has begun a new group.
unfoldable pub add_video : Payload → Mp4Muxer → Mp4Muxer
unfolding cal_chunk
add_video p m =
    let m' = cal_chunk p.dts (length p.all_data) video (record m { mdat = m.mdat ++ p.all_data }) in
    record m' { video_samples = m'.video_samples ++ (p ∷ []) }
