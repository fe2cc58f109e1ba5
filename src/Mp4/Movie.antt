-- ===== src/Mp4/Movie.antt =====
-- The boxes that describe a movie and its tracks in src/mp4_muxer.cpp, but for the tables of samples.
use tms.Prelude.{ℕ, ◌+◌, ◌*◌, ◌^◌, List, [], ◌∷◌, ltb, replicate, if◌then◌else◌}
use tms.MediaMuxer.{PayloadType, audio, video, unknown, Payload}
use tms.Mp4.{Mp4Muxer, is_kind}
use tms.Mp4.Name
use tms.Mp4.Box.{Item, numbers, text, packed, nil, ◌▸◌, box, full_box}
use tms.Mp4.Tables.{minus32, first_dts}

-- What a file takes from elsewhere: the clock in seconds at each call of `Util::GetNow`, and the two
-- bytes behind an `int` on the stack.
pub record Env : Type 0 where
  pub now : ℕ → ℕ
  pub behind_int : ℕ

-- The clock from its k-th call on.
unfoldable pub from_call : ℕ → Env → Env
from_call k env = record env { now = λ n. env.now (k + n) }

abbrev pub last_dts : List Payload → ℕ
last_dts [] = 0
last_dts (p ∷ []) = p.dts
last_dts (p ∷ q ∷ ps) = last_dts (q ∷ ps)

unfoldable pub duration : ℕ → List Payload → ℕ
unfolding minus32 first_dts
duration default [] = default
duration default (p ∷ ps) = minus32 (last_dts (p ∷ ps)) (first_dts (p ∷ ps))

unfoldable pub default_duration : Mp4Muxer → ℕ
default_duration m = if m.segment then 0 else 1000

unfoldable pub creation_times : Env → Mp4Muxer → List (ℕ × ℕ)
creation_times env m =
    if m.segment then (4, 0) ∷ (4, 0) ∷ [] else (4, env.now 0) ∷ (4, env.now 1) ∷ []

abbrev pub matrix : List (ℕ × ℕ)
matrix =
    (4, 0x10000)
    ∷ (4, 0)
    ∷ (4, 0)
    ∷ (4, 0)
    ∷ (4, 0x10000)
    ∷ (4, 0)
    ∷ (4, 0)
    ∷ (4, 0)
    ∷ (4, 0x40000000)
    ∷ []

-- `WriteMovieHeaderBox`.
unfoldable pub movie_header_box : Env → Mp4Muxer → Item
unfolding full_box creation_times duration default_duration
movie_header_box env m =
    let video_duration = duration (default_duration m) m.video_samples in
    let audio_duration = duration (default_duration m) m.audio_samples in
    full_box Name.mvhd 0 (
      numbers (creation_times env m)
      ▸ numbers (
          (4, 1000)
          ∷ (4, if ltb audio_duration video_duration then video_duration else audio_duration)
          ∷ (4, 0x10000)
          ∷ (2, 0x100)
          ∷ (2, 0)
          ∷ (4, 0)
          ∷ (4, 0)
          ∷ [])
      ▸ numbers matrix
      ▸ numbers (replicate 6 (4, 0))
      ▸ numbers ((4, 1) ∷ [])
      ▸ nil)

-- The duration of a track, which is not written for a kind that is neither.
unfoldable pub track_duration : PayloadType → Mp4Muxer → List (ℕ × ℕ)
unfolding duration default_duration
track_duration video m = (4, duration (default_duration m) m.video_samples) ∷ []
track_duration audio m = (4, duration (default_duration m) m.audio_samples) ∷ []
track_duration unknown m = []

-- `WriteTrackHeaderBox`.
unfoldable pub track_header_box : PayloadType → Env → Mp4Muxer → Item
unfolding full_box creation_times track_duration is_kind
track_header_box kind env m =
    let is_video = is_kind kind video in
    full_box Name.tkhd (if m.segment then 0x0F else 3) (
      numbers (creation_times env m)
      ▸ numbers ((4, if m.segment then 1 else if is_video then 1 else 2) ∷ (4, 0) ∷ [])
      ▸ numbers (track_duration kind m)
      ▸ numbers (
          (4, 0)
          ∷ (4, 0)
          ∷ (2, 0)
          ∷ (2, 0)
          ∷ (2, if is_kind kind audio then 0x100 else 0)
          ∷ (2, 0)
          ∷ [])
      ▸ numbers matrix
      ▸ numbers (
          (4, if is_video then 1920 * 2 ^ 16 else 0)
          ∷ (4, if is_video then 1080 * 2 ^ 16 else 0)
          ∷ [])
      ▸ nil)

-- `WriteEditListBox`.
unfoldable pub edit_list_box : PayloadType → Mp4Muxer → Item
unfolding full_box duration default_duration
edit_list_box kind m =
    let segment_duration : ℕ = elim kind [
      | video ↦ duration (default_duration m) m.video_samples
      | audio ↦ duration (default_duration m) m.audio_samples
      | unknown ↦ default_duration m
    ] in
    full_box Name.elst 0
      (numbers ((4, 1) ∷ (4, segment_duration) ∷ (4, 0) ∷ (2, 1) ∷ (2, 0) ∷ []) ▸ nil)

-- `WriteEditBox`.
unfoldable pub edit_box : PayloadType → Mp4Muxer → Item
unfolding box edit_list_box
edit_box kind m = box Name.edts (edit_list_box kind m ▸ nil)

-- `WriteMediaHeaderBox`. The language is three letters of five bits.
unfoldable pub media_header_box : PayloadType → Env → Mp4Muxer → Item
unfolding full_box creation_times track_duration
media_header_box kind env m = full_box Name.mdhd 0 (
    numbers (creation_times env m)
    ▸ numbers ((4, 1000) ∷ [])
    ▸ numbers (track_duration kind m)
    ▸ packed ((1, 0) ∷ (5, 0x65) ∷ (5, 0x6E) ∷ (5, 0x67) ∷ [])
    ▸ numbers ((2, 0) ∷ [])
    ▸ nil)

-- `WriteHandlerReferenceBox`.
unfoldable pub handler_reference_box : PayloadType → Item
unfolding full_box
handler_reference_box kind =
    let handler_type : List ℕ = elim kind [
      | video ↦ Name.vide
      | audio ↦ Name.soun
      | unknown ↦ []
    ] in
    let handler : List ℕ = elim kind [
      | video ↦ Name.video_handler
      | audio ↦ Name.audio_handler
      | unknown ↦ []
    ] in
    full_box Name.hdlr 0 (
      numbers ((4, 0) ∷ [])
      ▸ text handler_type
      ▸ numbers ((4, 0) ∷ (4, 0) ∷ (4, 0) ∷ [])
      ▸ text handler
      ▸ nil)

-- `WriteVideoMediaHeaderBox`.
unfoldable pub video_media_header_box : Item
unfolding full_box
video_media_header_box =
    full_box Name.vmhd 1 (numbers ((2, 0) ∷ (2, 0) ∷ (2, 0) ∷ (2, 0) ∷ []) ▸ nil)

-- `WriteSoundMediaHeaderBox`.
unfoldable pub sound_media_header_box : Item
unfolding full_box
sound_media_header_box = full_box Name.smhd 0 (numbers ((2, 0) ∷ (2, 0) ∷ []) ▸ nil)

-- `WriteDataEntry`.
unfoldable pub data_entry : Item
unfolding full_box
data_entry = full_box Name.url 1 nil

-- `WriteDataReferenceBox`.
unfoldable pub data_reference_box : Item
unfolding full_box data_entry
data_reference_box = full_box Name.dref 0 (numbers ((4, 1) ∷ []) ▸ data_entry ▸ nil)

-- `WriteDataInformationBox`.
unfoldable pub data_information_box : Item
unfolding box data_reference_box
data_information_box = box Name.dinf (data_reference_box ▸ nil)
