-- ===== src/Dash/Flush.antt =====
-- `Flush`, `UpdateInitMp4` and `OnVideo` of src/dash_muxer.cpp.
use tms.Prelude.{
  ℕ, ◌+◌, ◌*◌, ◌%◌, ◌^◌, Bool, true, false, Option, none, some, List, ltb, if◌then◌else◌, length,
}
use tms.BitStream.{BitStream, of_size, written}
use tms.MediaMuxer.{PayloadType, audio, video, Payload}
use tms.Mp4
use tms.Mp4.{Mp4Muxer, new_mp4_muxer, set_segment}
use tms.Mp4.Box.{Items, nil, ◌▸◌, write_items}
use tms.Mp4.Tables.{minus32, first_dts}
use tms.Mp4.Movie
use tms.Mp4.Movie.{last_dts}
use tms.Mp4.Track.{init_movie_box}
use tms.Mp4.Flush.{file_type_box}
use tms.Dash.{
  DashMuxer, Track, MpdInfo, track, set_track, push_sample, append, reset, update_mpd, store,
  erase_old,
}
use tms.Dash.Fragment.{
  segment_type_box, segment_index_box, write_movie_fragment_box, write_media_data_box,
}

-- What an initial file takes from elsewhere: the clock and the stack, and the two offsets of a muxer
-- that has not been reset.
pub record Env : Type 0 where
  pub movie : Movie.Env
  pub chunk_offset : ℕ
  pub media_offset : ℕ

-- The boxes before the fragment.
unfoldable pub leading : PayloadType → DashMuxer → Items
unfolding segment_type_box segment_index_box
leading kind m = segment_type_box ▸ segment_index_box kind m ▸ nil

-- The steps after the boxes that lead the segment.
abbrev pub end_segment : DashMuxer → Option BitStream → Option (List ℕ × DashMuxer)
end_segment m none = none
end_segment m (some s) = some (written s, m)

abbrev pub then_media : PayloadType → Option (BitStream × DashMuxer) → Option (List ℕ × DashMuxer)
then_media kind none = none
then_media kind (some (s, m)) = end_segment m (write_media_data_box kind m s)

abbrev pub then_fragment : PayloadType → DashMuxer → Option BitStream → Option (List ℕ × DashMuxer)
then_fragment kind m none = none
then_fragment kind m (some s) = then_media kind (write_movie_fragment_box kind m s)

-- The four boxes of a segment, into a buffer with 128 KB beside the media data.
unfoldable pub write_segment : PayloadType → DashMuxer → Option (List ℕ × DashMuxer)
unfolding of_size write_items leading write_movie_fragment_box write_media_data_box written track
write_segment kind m =
    then_fragment kind m
      (write_items (leading kind m) (of_size (length (track kind m).mdat + 1024 * 128)))

-- A segment goes under the time of its first sample, and its times under its number.
unfoldable pub add_segment : List ℕ → Track → Track
unfolding store first_dts minus32
add_segment file t =
    let info : MpdInfo = record {
      start_time = first_dts t.samples;
      duration = minus32 (last_dts t.samples) (first_dts t.samples);
    } in
    record t {
      m4s = store (first_dts t.samples) file t.m4s;
      mpd_info = store t.sequence info t.mpd_info;
      sequence = (t.sequence + 1) % 2 ^ 32;
    }

-- The half of `Flush` for the samples of a kind.
unfoldable pub flush_track : PayloadType → DashMuxer → Option DashMuxer
unfolding track set_track erase_old write_segment add_segment
flush_track kind m =
    let t = record (track kind m) { m4s = erase_old (track kind m).m4s } in
    let flushed : Option DashMuxer = elim (write_segment kind (set_track kind t m)) [
      | none ↦ none
      | some (file, m') ↦ some (set_track kind (add_segment file (track kind m')) m')
    ] in
    if ltb 1 (length (track kind m).samples) then flushed else some m

-- An int below `DASH_FRAGMENT_DURATION`.
unfoldable pub is_short : ℕ → Bool
is_short fragment_duration =
    if ltb fragment_duration (2 ^ 31) then ltb fragment_duration 5000 else true

-- `Flush`, where there is a video sample.
unfoldable pub flush : DashMuxer → Option (Bool × DashMuxer)
unfolding is_short minus32 first_dts flush_track
flush m =
    let ps = m.video_track.samples in
    let flushed : Option (Bool × DashMuxer) = elim (flush_track video m) [
      | none ↦ none
      | some m1 ↦ elim (flush_track audio m1) [ none ↦ none | some m2 ↦ some (true, m2) ]
    ] in
    if is_short (minus32 (last_dts ps) (first_dts ps)) then some (false, m) else flushed

-- The muxer that makes an initial file.
unfoldable pub init_muxer : PayloadType → Env → List ℕ → Mp4Muxer
unfolding new_mp4_muxer set_segment Mp4.on_video_header Mp4.on_audio_header
init_muxer kind env header =
    let m = set_segment true (new_mp4_muxer env.chunk_offset env.media_offset) in
    elim kind [ video ↦ Mp4.on_video_header header m | _ ↦ Mp4.on_audio_header header m ]

abbrev pub init_file : Option BitStream → Option (List ℕ)
init_file none = none
init_file (some s) = some (written s)

-- The half of `UpdateInitMp4` for the samples of a kind.
unfoldable pub update_init_track : PayloadType → Env → DashMuxer → Option DashMuxer
unfolding track set_track init_muxer file_type_box init_movie_box write_items of_size written
update_init_track kind env m =
    let muxer = init_muxer kind env (track kind m).header in
    let boxes : Items = file_type_box muxer ▸ init_movie_box kind env.movie muxer ▸ nil in
    let updated : Option DashMuxer = elim (init_file (write_items boxes (of_size (1024 * 256)))) [
      | none ↦ none
      | some file ↦ some (set_track kind (record (track kind m) { init_mp4 = file }) m)
    ] in
    if ltb 1 (length (track kind m).samples) then updated else some m

unfoldable pub update_init_mp4 : Env → DashMuxer → Option DashMuxer
unfolding update_init_track
update_init_mp4 env m = elim (update_init_track video env m) [
  | none ↦ none
  | some m1 ↦ update_init_track audio env m1
]

-- What a key frame does: a segment ends where it is long enough.
unfoldable pub on_key_frame : Env → DashMuxer → Option DashMuxer
unfolding flush update_init_mp4 update_mpd reset
on_key_frame env m = elim (flush m) [
  | none ↦ none
  | some (done, m1) ↦
      let ended : Option DashMuxer = elim (update_init_mp4 env m1) [
        | none ↦ none
        | some m2 ↦ some (reset (update_mpd m2))
      ] in
      if done then ended else some m1
]

abbrev pub append_video : Payload → Option DashMuxer → Option DashMuxer
append_video p none = none
append_video p (some m) = some (record m { video_track = append p.all_data m.video_track })

-- `OnVideo`.
unfoldable pub on_video : Env → Payload → DashMuxer → Option DashMuxer
unfolding on_key_frame
on_video env p m =
    let pushed = record m { video_track = push_sample p m.video_track } in
    append_video p (if p.is_i_frame then on_key_frame env pushed else some pushed)
