-- ===== src/Dash/Fragment.antt =====
-- The boxes of a segment: `WriteSegmentTypeBox`, `WriteSegmentIndexBox`, `WriteMovieFragmentBox` and the
-- boxes in it, and `WriteMediaDataBox` of src/dash_muxer.cpp.
use tms.Prelude.{
  ℕ, ◌+◌, ◌-◌, ◌%◌, ◌^◌, Option, none, some, List, [], ◌∷◌, leb, if◌then◌else◌, length, take,
}
use tms.BitStream.{BitStream, size_in_bytes}
use tms.MediaMuxer.{PayloadType, audio, Payload}
use tms.Mp4.{is_kind}
use tms.Mp4.Name
use tms.Mp4.Box.{Item, numbers, text, packed, patched, nil, ◌▸◌, box, full_box, write_item}
use tms.Mp4.Tables.{minus32, first_dts, sample_len}
use tms.Dash.{DashMuxer, track, left_size}

-- `WriteSegmentTypeBox`.
unfoldable pub segment_type_box : Item
unfolding box
segment_type_box =
    box Name.styp (text Name.msms ▸ numbers ((4, 512) ∷ []) ▸ text Name.msdh ▸ text Name.msix ▸ nil)

unfoldable pub first_pts : List Payload → ℕ
first_pts [] = 0
first_pts (p ∷ ps) = p.pts % 2 ^ 32

-- The bytes of the last sample, which wait for the next segment: an audio frame's are in the media data
-- already.
unfoldable pub left_of : PayloadType → DashMuxer → ℕ
unfolding is_kind left_size
left_of kind m = if is_kind kind audio then left_size m.audio_track.samples else 0

-- `WriteSegmentIndexBox`.
unfoldable pub segment_index_box : PayloadType → DashMuxer → Item
unfolding full_box track left_of first_pts
segment_index_box kind m =
    let size = (length (track kind m).mdat % 2 ^ 32 + 2 ^ 64 - left_of kind m) % 2 ^ 64 in
    full_box Name.sidx 0 (
      numbers
        ((4, 1) ∷ (4, 1000) ∷ (4, first_pts (track kind m).samples) ∷ (4, 0) ∷ (2, 0) ∷ (2, 1) ∷ [])
      ▸ packed ((1, 0) ∷ (31, size) ∷ [])
      ▸ numbers ((4, 0) ∷ [])
      ▸ packed ((1, 1) ∷ (3, 1) ∷ (28, 0) ∷ [])
      ▸ nil)

-- `WriteMovieFragmentHeaderBox`.
unfoldable pub movie_fragment_header_box : PayloadType → DashMuxer → Item
unfolding full_box track
movie_fragment_header_box kind m =
    full_box Name.mfhd 0 (numbers ((4, (track kind m).sequence) ∷ []) ▸ nil)

-- `WriteTrackFragmentHeaderBox`: of the flags that add a field, none is set.
unfoldable pub track_fragment_header_box : Item
unfolding full_box
track_fragment_header_box = full_box Name.tfhd 0x020000 (numbers ((4, 1) ∷ []) ▸ nil)

-- `WriteTrackFragmentDecodeTimeBox`.
unfoldable pub track_fragment_decode_time_box : PayloadType → DashMuxer → Item
unfolding full_box track first_dts
track_fragment_decode_time_box kind m =
    full_box Name.tfdt 0 (numbers ((4, first_dts (track kind m).samples) ∷ []) ▸ nil)

-- The duration, the size and the composition offset of each sample but the last.
unfoldable pub run_entries : PayloadType → List Payload → List (ℕ × ℕ)
unfolding minus32 sample_len
run_entries kind [] = []
run_entries kind (p ∷ []) = []
run_entries kind (p ∷ q ∷ ps) =
    (4, minus32 q.dts p.dts)
    ∷ (4, sample_len kind p)
    ∷ (4, minus32 p.pts p.dts)
    ∷ run_entries kind (q ∷ ps)

-- `WriteTrackFragmentRunBox`. The offset of the data is patched when the samples are there.
unfoldable pub track_fragment_run_box : PayloadType → DashMuxer → Item
unfolding full_box track run_entries
track_fragment_run_box kind m =
    let samples = (track kind m).samples in
    full_box Name.trun 0x000B05 (
      numbers ((4, length samples - 1) ∷ [])
      ▸ patched 0 (λ pos end. (end + 8 + 2 ^ 32 - m.moof_offset) % 2 ^ 32)
          (numbers ((4, 0) ∷ run_entries kind samples) ▸ nil)
      ▸ nil)

-- `WriteTrackFragmentBox`.
unfoldable pub track_fragment_box : PayloadType → DashMuxer → Item
unfolding box track_fragment_header_box track_fragment_decode_time_box track_fragment_run_box
track_fragment_box kind m = box Name.traf (
    track_fragment_header_box
    ▸ track_fragment_decode_time_box kind m
    ▸ track_fragment_run_box kind m
    ▸ nil)

-- The boxes of `WriteMovieFragmentBox`.
unfoldable pub movie_fragment_box : PayloadType → DashMuxer → Item
unfolding box movie_fragment_header_box track_fragment_box
movie_fragment_box kind m =
    box Name.moof (movie_fragment_header_box kind m ▸ track_fragment_box kind m ▸ nil)

-- `WriteMovieFragmentBox` keeps where it begins first.
unfoldable pub write_movie_fragment_box :
    PayloadType → DashMuxer → BitStream → Option (BitStream × DashMuxer)
unfolding movie_fragment_box write_item size_in_bytes
write_movie_fragment_box kind m s =
    let m' = record m { moof_offset = size_in_bytes s } in
    elim (write_item (movie_fragment_box kind m') s) [ none ↦ none | some s' ↦ some (s', m') ]

-- The media data of a segment.
unfoldable pub media : PayloadType → DashMuxer → List ℕ
unfolding track left_of
media kind m = take (length (track kind m).mdat - left_of kind m) (track kind m).mdat

unfoldable pub media_data_box : PayloadType → DashMuxer → Item
unfolding box media
media_data_box kind m = box Name.mdat (text (media kind m) ▸ nil)

-- `WriteMediaDataBox`. Where the last sample is longer than the data, it copies some 2 ^ 64 bytes.
unfoldable pub write_media_data_box : PayloadType → DashMuxer → BitStream → Option BitStream
unfolding track left_of media_data_box write_item
write_media_data_box kind m s =
    if leb (left_of kind m) (length (track kind m).mdat)
    then write_item (media_data_box kind m) s
    else none
