-- ===== src/Mp4/Flush.antt =====
-- `Flush` and `OnVideo` of src/mp4_muxer.cpp: the file of a group of pictures.
use tms.Prelude.{
  ℕ, ◌+◌, ◌*◌, Bool, true, false, Option, none, some, List, [], ◌∷◌, length, if◌then◌else◌,
}
use tms.BitStream.{BitStream, of_size, written, size_in_bytes}
use tms.MediaMuxer.{Payload}
use tms.Mp4.{Mp4Muxer, back, push_offset, reset, add_video}
use tms.Mp4.Name
use tms.Mp4.Box.{Item, Items, numbers, text, nil, ◌▸◌, box, write_item, write_items}
use tms.Mp4.Movie.{Env}
use tms.Mp4.Track.{movie_box}

-- `WriteFileTypeBox`.
unfoldable pub file_type_box : Mp4Muxer → Item
unfolding box
file_type_box m = box Name.ftyp (
    if m.segment
    then text Name.iso6
      ▸ numbers ((4, 1) ∷ [])
      ▸ text Name.isom
      ▸ text Name.iso6
      ▸ text Name.dash
      ▸ nil
    else text Name.isom
      ▸ numbers ((4, 1) ∷ [])
      ▸ text Name.isom
      ▸ text Name.iso2
      ▸ text Name.avc1
      ▸ text Name.mp41
      ▸ nil)

-- `WriteFreeBox`.
unfoldable pub free_box : Item
unfolding box
free_box = box Name.free nil

-- What comes before the media data.
unfoldable pub leading : Mp4Muxer → Items
unfolding file_type_box free_box
leading m = file_type_box m ▸ (if m.segment then nil else free_box ▸ nil)

unfoldable pub media_data_box : Mp4Muxer → Item
unfolding box
media_data_box m = box Name.mdat (text m.mdat ▸ nil)

-- `WriteMediaDataBox` also keeps where the data begin, eight bytes behind the box.
unfoldable pub write_media_data_box : Mp4Muxer → BitStream → Option (BitStream × Mp4Muxer)
unfolding media_data_box write_item size_in_bytes
write_media_data_box m s = elim (write_item (media_data_box m) s) [
  | none ↦ none
  | some s' ↦ some (s', record m { media_offset = size_in_bytes s + 8 })
]

unfoldable pub has_samples : Mp4Muxer → Bool
has_samples m = elim m.video_samples [
  | [] ↦ elim m.audio_samples [ [] ↦ false | ◌∷◌ p ps ↦ true ]
  | ◌∷◌ p ps ↦ true
]

-- The three steps after the boxes that lead the file.
abbrev pub end_file : Mp4Muxer → Option BitStream → Option (List ℕ × Mp4Muxer)
end_file m none = none
end_file m (some s) = some (written s, m)

abbrev pub then_movie : Env → Option (BitStream × Mp4Muxer) → Option (List ℕ × Mp4Muxer)
then_movie env none = none
then_movie env (some (s, m)) = end_file m (write_item (movie_box env m) s)

abbrev pub then_media : Env → Mp4Muxer → Option BitStream → Option (List ℕ × Mp4Muxer)
then_media env m none = none
then_media env m (some s) = then_movie env (write_media_data_box m s)

-- `Flush`, with the file that is in its buffer before it is freed: none where there are no samples.
unfoldable pub flush : Env → Mp4Muxer → Option (List ℕ × Mp4Muxer)
unfolding of_size write_item leading write_media_data_box movie_box written has_samples
flush env m =
    if has_samples m
    then then_media env m (write_items (leading m) (of_size (length m.mdat + 10 * (1024 * 1024))))
    else some ([], m)

-- The last chunk of a group ends with it.
unfoldable pub close_group : Mp4Muxer → Mp4Muxer
unfolding push_offset
close_group m = elim (back m.chunk) [
  | none ↦ m
  | some c ↦ push_offset c.payload_type m.chunk_offset m
]

-- `OnVideo`, with the file that a key frame makes of the group before.
unfoldable pub on_video : Env → Payload → Mp4Muxer → Option (List ℕ × Mp4Muxer)
unfolding close_group flush reset add_video
on_video env p m =
    let flushed : Option (List ℕ × Mp4Muxer) = elim (flush env (close_group m)) [
      | none ↦ none
      | some (file, m') ↦ some (file, add_video p (reset m'))
    ] in
    if p.is_i_frame then flushed else some ([], add_video p m)
