-- ===== src/Dash.antt =====
-- `DashMuxer` (src/dash_muxer.h, src/dash_muxer.cpp): the frames since the last segment, the segments
-- that are kept for players, and what a player asks for.
pub mod Fragment
pub mod Flush
pub mod Segment
pub mod Same
pub mod Hold
pub mod Events
pub mod Samples
pub mod Keyed
pub mod Served
pub mod Adds
mod Tests
use tms.Prelude.{
  ℕ, zero, suc, ◌+◌, ◌-◌, ◌*◌, ◌%◌, ◌^◌, Bool, true, false, ◌||◌, Option, none, some, List, [], ◌∷◌,
  ◌++◌, ltb, leb, ◌==◌, if◌then◌else◌, length, take, drop,
}
use tms.MediaMuxer.{PayloadType, audio, video, unknown, Payload, raw_data, raw_len}
use tms.Mp4.{is_kind, back}

-- `MpdInfo`. The duration, an int, is kept on 32 bits.
pub record MpdInfo : Type 0 where
  pub start_time : ℕ
  pub duration : ℕ

-- What the muxer has twice, for the frames of each kind. A map is a list in the order of its keys.
pub record Track : Type 0 where
  pub header : List ℕ
  pub samples : List Payload
  pub mdat : List ℕ
  pub sequence : ℕ
  pub m4s : List (ℕ × List ℕ)
  pub mpd_info : List (ℕ × MpdInfo)
  pub init_mp4 : List ℕ

-- Of the text of the playlist, `mpd` keeps the segments that it lists, for video and for audio.
pub record DashMuxer : Type 0 where
  pub video_track : Track
  pub audio_track : Track
  pub moof_offset : ℕ
  pub mpd : Option (List MpdInfo × List MpdInfo)

abbrev pub new_track : Track
new_track = record {
  header = [];
  samples = [];
  mdat = [];
  sequence = 0;
  m4s = [];
  mpd_info = [];
  init_mp4 = [];
}

-- The constructor leaves `moof_offset_` as the memory was.
unfoldable pub new_dash_muxer : ℕ → DashMuxer
new_dash_muxer moof_offset = record {
  video_track = new_track;
  audio_track = new_track;
  moof_offset = moof_offset;
  mpd = none;
}

-- `payload_type == kVideoPayload ? video : audio`.
unfoldable pub track : PayloadType → DashMuxer → Track
unfolding is_kind
track kind m = if is_kind kind video then m.video_track else m.audio_track

unfoldable pub set_track : PayloadType → Track → DashMuxer → DashMuxer
unfolding is_kind
set_track kind t m =
    if is_kind kind video then record m { video_track = t } else record m { audio_track = t }

unfoldable pub on_video_header : List ℕ → DashMuxer → DashMuxer
on_video_header header m = record m { video_track = record m.video_track { header = header } }

unfoldable pub on_audio_header : List ℕ → DashMuxer → DashMuxer
on_audio_header header m = record m { audio_track = record m.audio_track { header = header } }

abbrev pub push_sample : Payload → Track → Track
push_sample p t = record t { samples = t.samples ++ (p ∷ []) }

abbrev pub append : List ℕ → Track → Track
append bytes t = record t { mdat = t.mdat ++ bytes }

-- `OnAudio`. A frame of less than its two bytes of header makes `append` throw.
unfoldable pub on_audio : Payload → DashMuxer → Option DashMuxer
unfolding raw_data raw_len
on_audio p m =
    if leb (raw_len p) (length (raw_data p))
    then some (record m {
      audio_track = append (take (raw_len p) (raw_data p)) (push_sample p m.audio_track);
    })
    else none

-- The last sample, alone.
unfoldable pub keep_last : List Payload → List Payload
keep_last ps = elim (back ps) [ none ↦ [] | some p ↦ p ∷ [] ]

-- The bytes of the last audio sample, which stay when its segment is done.
unfoldable pub left_size : List Payload → ℕ
unfolding raw_len
left_size ps = elim (back ps) [ none ↦ 0 | some p ↦ raw_len p ]

-- `Reset`.
unfoldable pub reset_audio : Track → Track
unfolding keep_last left_size
reset_audio t = elim (back t.samples) [
  | none ↦ t
  | some p ↦ record t {
    samples = keep_last t.samples;
    mdat = drop ((length t.mdat + 2 ^ 64 - left_size t.samples) % 2 ^ 64) t.mdat;
  }
]

unfoldable pub reset : DashMuxer → DashMuxer
unfolding keep_last reset_audio
reset m = record m {
  video_track = record m.video_track { mdat = []; samples = keep_last m.video_track.samples };
  audio_track = reset_audio m.audio_track;
}

-- `m[key] = v`, in the order of the keys.
unfoldable pub store {ℓ} : {A : Type ℓ} → ℕ → A → List (ℕ × A) → List (ℕ × A)
store key v [] = (key, v) ∷ []
store key v ((k, w) ∷ es) =
    let rest = store key v es in
    if k == key then (k, v) ∷ es else if ltb key k then (key, v) ∷ (k, w) ∷ es else (k, w) ∷ rest

unfoldable pub find {ℓ} : {A : Type ℓ} → ℕ → List (ℕ × A) → Option A
find key [] = none
find key ((k, v) ∷ es) = let rest = find key es in if k == key then some v else rest

-- The oldest segments go while there are more than twice `DASH_CACHE`.
unfoldable pub erase_old {ℓ} : {A : Type ℓ} → List (ℕ × A) → List (ℕ × A)
erase_old [] = []
erase_old (e ∷ es) =
    let rest = erase_old es in if ltb (3 * 2) (length (e ∷ es)) then rest else e ∷ es

-- `GetM4s`. Where there are no segments, it reads through the end of the map.
unfoldable pub get_m4s : PayloadType → ℕ → DashMuxer → Option (List ℕ)
unfolding track find
get_m4s kind segment_num m = elim (find segment_num (track kind m).m4s) [
  | some file ↦ some file
  | none ↦ elim (track kind m).m4s [ [] ↦ none | ◌∷◌ e es ↦ some [] ]
]

-- `GetInitMp4`.
unfoldable pub get_init_mp4 : PayloadType → DashMuxer → List ℕ
get_init_mp4 video m = m.video_track.init_mp4
get_init_mp4 audio m = m.audio_track.init_mp4
get_init_mp4 unknown m = []

-- `m[key]` as it is read: a key that is not there is put in.
unfoldable pub index : ℕ → List (ℕ × MpdInfo) → MpdInfo × List (ℕ × MpdInfo)
unfolding find store
index key es = elim (find key es) [
  | none ↦ let info : MpdInfo = record { start_time = 0; duration = 0 } in (info, store key info es)
  | some info ↦ (info, es)
]

-- The last `DASH_CACHE` segments, as the loops of `UpdateMpd` read them.
unfoldable pub listed : Track → List MpdInfo × Track
unfolding index
listed t =
    let (a, es1) = index (t.sequence - 3) t.mpd_info in
    let (b, es2) = index (t.sequence - 2) es1 in
    let (c, es3) = index (t.sequence - 1) es2 in (a ∷ b ∷ c ∷ [], record t { mpd_info = es3 })

-- `UpdateMpd`, but for the text.
unfoldable pub update_mpd : DashMuxer → DashMuxer
unfolding listed
update_mpd m =
    let (videos, v) = listed m.video_track in
    let (audios, a) = listed m.audio_track in
    if ltb m.video_track.sequence 3 || ltb m.audio_track.sequence 3
    then m
    else record m { video_track = v; audio_track = a; mpd = some (videos, audios) }
