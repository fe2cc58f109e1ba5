-- ===== src/Mp4/Track.antt =====
-- A track of a movie in src/mp4_muxer.cpp: the descriptions of its samples, and the boxes around them.
use tms.Prelude.{ℕ, ◌*◌, ◌^◌, List, [], ◌∷◌, get_or, replicate, if◌then◌else◌}
use tms.MediaMuxer.{PayloadType, audio, video, unknown}
use tms.Mp4.{Mp4Muxer, is_kind}
use tms.Mp4.Name
use tms.Mp4.Box.{Item, Items, numbers, text, nil, ◌▸◌, box, full_box}
use tms.Mp4.Tables.{
  decoding_time_to_sample_box, composition_time_to_sample_box, sample_to_chunk_box, sample_size_box,
  chunk_offset_box,
}
use tms.Mp4.Movie.{
  Env, from_call, movie_header_box, track_header_box, edit_box, media_header_box,
  handler_reference_box, video_media_header_box, sound_media_header_box, data_information_box,
}

-- `WriteAVCC`.
unfoldable pub avcc_box : Mp4Muxer → Item
unfolding box
avcc_box m = box Name.avcc (text m.video_header ▸ nil)

-- `WriteVisualSampleEntry`.
unfoldable pub visual_sample_entry : Mp4Muxer → Item
unfolding box avcc_box
visual_sample_entry m = box Name.avc1 (
    numbers (
      (6, 0)
      ∷ (2, 1)
      ∷ (2, 0)
      ∷ (2, 0)
      ∷ (4, 0)
      ∷ (4, 0)
      ∷ (4, 0)
      ∷ (2, 1920)
      ∷ (2, 1080)
      ∷ (4, 0x480000)
      ∷ (4, 0x480000)
      ∷ (4, 0)
      ∷ (2, 1)
      ∷ [])
    ▸ text (replicate 32 0)
    ▸ numbers ((2, 0x18) ∷ (2, 0xFFFF) ∷ [])
    ▸ avcc_box m
    ▸ nil)

-- The first two bytes of the header. The string ends with a byte of 0, and so is taken to go on.
unfoldable pub specific_info : Mp4Muxer → List ℕ
specific_info m = get_or m.audio_header 0 0 ∷ get_or m.audio_header 1 0 ∷ []

-- `WriteEsds`.
unfoldable pub esds_box : Mp4Muxer → Item
unfolding full_box specific_info
esds_box m = full_box Name.esds 0 (
    numbers ((1, 3) ∷ (1, 0x16) ∷ (2, 0) ∷ (1, 0) ∷ [])
    ▸ numbers
        ((1, 4) ∷ (1, 0x11) ∷ (1, 0x40) ∷ (1, 0x15) ∷ (3, 0x300) ∷ (4, 192000) ∷ (4, 192000) ∷ [])
    ▸ numbers ((1, 5) ∷ (1, 2) ∷ [])
    ▸ text (specific_info m)
    ▸ nil)

-- `WriteAudioSampleEntry`. Its first number is an `int`, of which six bytes are written.
unfoldable pub audio_sample_entry : Env → Mp4Muxer → Item
unfolding box esds_box
audio_sample_entry env m = box Name.mp4a (
    numbers (
      (6, env.behind_int * 2 ^ 32)
      ∷ (2, 1)
      ∷ (4, 0)
      ∷ (4, 0)
      ∷ (2, 2)
      ∷ (2, 16)
      ∷ (2, 0)
      ∷ (2, 0)
      ∷ (4, 44100 * 2 ^ 16)
      ∷ [])
    ▸ esds_box m
    ▸ nil)

-- `WriteSampleDescriptionBox`.
unfoldable pub sample_description_box : PayloadType → Env → Mp4Muxer → Item
unfolding full_box visual_sample_entry audio_sample_entry
sample_description_box kind env m =
    let entry : Items = elim kind [
      | video ↦ visual_sample_entry m ▸ nil
      | audio ↦ audio_sample_entry env m ▸ nil
      | unknown ↦ nil
    ] in
    full_box Name.stsd 0 (numbers ((4, 1) ∷ []) ▸ entry)

-- `WriteSampleTableBox`.
unfoldable pub sample_table_box : PayloadType → Env → Mp4Muxer → Item
unfolding box sample_description_box decoding_time_to_sample_box composition_time_to_sample_box
    sample_to_chunk_box sample_size_box chunk_offset_box is_kind
sample_table_box kind env m =
    let chunks : Items =
      sample_to_chunk_box kind m ▸ sample_size_box kind m ▸ chunk_offset_box kind m ▸ nil in
    let compositions : Items = composition_time_to_sample_box m ▸ chunks in
    box Name.stbl (
      sample_description_box kind env m
      ▸ decoding_time_to_sample_box kind m
      ▸ (if is_kind kind video then (if m.segment then chunks else compositions) else chunks))

-- `WriteMediaInfoBox`.
unfoldable pub media_info_box : PayloadType → Env → Mp4Muxer → Item
unfolding box video_media_header_box sound_media_header_box data_information_box sample_table_box
media_info_box kind env m =
    let rest : Items = data_information_box ▸ sample_table_box kind env m ▸ nil in
    box Name.minf (elim kind [
      | video ↦ video_media_header_box ▸ rest
      | audio ↦ sound_media_header_box ▸ rest
      | unknown ↦ rest
    ])

-- `WriteMediaBox`.
unfoldable pub media_box : PayloadType → Env → Mp4Muxer → Item
unfolding box media_header_box handler_reference_box media_info_box
media_box kind env m =
    box Name.mdia
      (media_header_box kind env m ▸ handler_reference_box kind ▸ media_info_box kind env m ▸ nil)

-- `WriteTrackBox`. Its two headers ask the clock twice each.
unfoldable pub track_box : PayloadType → Env → Mp4Muxer → Item
unfolding box track_header_box edit_box media_box from_call
track_box kind env m =
    let media : Items = media_box kind (from_call 2 env) m ▸ nil in
    box Name.trak
      (track_header_box kind env m ▸ (if m.segment then media else edit_box kind m ▸ media))

-- `WriteMovieExtendsHeaderBox`.
unfoldable pub movie_extends_header_box : Item
unfolding full_box
movie_extends_header_box = full_box Name.mehd 0 (numbers ((4, 20) ∷ []) ▸ nil)

-- `WriteTrackExtendsBox`.
unfoldable pub track_extends_box : Mp4Muxer → Item
unfolding full_box
track_extends_box m =
    full_box Name.trex 0
      (numbers ((4, 1) ∷ (4, 1) ∷ (4, if m.segment then 0 else 1000) ∷ (4, 0) ∷ (4, 0) ∷ []) ▸ nil)

-- `WriteMovieExtendsBox`.
unfoldable pub movie_extends_box : Mp4Muxer → Item
unfolding box movie_extends_header_box track_extends_box
movie_extends_box m =
    let tracks : Items = track_extends_box m ▸ nil in
    box Name.mvex (if m.segment then tracks else movie_extends_header_box ▸ tracks)

-- `WriteMovieBox` with both tracks.
unfoldable pub movie_box : Env → Mp4Muxer → Item
unfolding box movie_header_box track_box from_call
movie_box env m = box Name.moov (
    movie_header_box env m
    ▸ track_box video (from_call 2 env) m
    ▸ track_box audio (from_call 6 env) m
    ▸ nil)

-- `WriteMovieBox` with one track.
unfoldable pub init_movie_box : PayloadType → Env → Mp4Muxer → Item
unfolding box movie_header_box movie_extends_box track_box from_call
init_movie_box kind env m =
    box Name.moov
      (movie_header_box env m ▸ movie_extends_box m ▸ track_box kind (from_call 2 env) m ▸ nil)
