-- ===== src/Mp4/File.antt =====
-- The file that `Flush` of src/mp4_muxer.cpp makes, as the bytes of its boxes.
use tms.Prelude.{
  ℕ, ◌+◌, ◌-◌, ◌*◌, ◌≤◌, Bool, true, false, Option, none, some, List, [], ◌++◌, length, ◌≡◌, ap,
  ap₂, ◌∙◌, arith, if◌then◌else◌,
}
use tms.Prelude.{length-append}
use tms.BitStream.{BitStream, of_size}
use tms.MediaMuxer.{PayloadType, audio, video}
use tms.Mp4.{Mp4Muxer}
use tms.Mp4.Box.{Items, IsWhole, AreWhole, item_bytes, items_bytes, write_item, write_items}
use tms.Mp4.Box.Stream.{stream, of_size-stream}
use tms.Mp4.Box.Encode.{write_item-stream, write_items-stream, written-stream, size_in_bytes-stream}
use tms.Mp4.Movie.{Env, from_call}
use tms.Mp4.Track.{track_box, movie_box, sample_table_box}
use tms.Mp4.Flush.{
  leading, media_data_box, write_media_data_box, has_samples, flush, end_file, then_movie,
  then_media,
}

if-AreWhole :
    (b : Bool) (xs ys : Items) → AreWhole xs → AreWhole ys → AreWhole (if b then xs else ys)
if-AreWhole true xs ys h k = h
if-AreWhole false xs ys h k = k

leading-AreWhole : (m : Mp4Muxer) → AreWhole (leading m)
unfolding leading
leading-AreWhole m = ground arith

sample_table_box-IsWhole :
    (kind : PayloadType) (env : Env) (m : Mp4Muxer) → IsWhole (sample_table_box kind env m)
unfolding sample_table_box
sample_table_box-IsWhole kind env m = ground arith

track_box-IsWhole : (kind : PayloadType) (env : Env) (m : Mp4Muxer) → IsWhole (track_box kind env m)
unfolding track_box
track_box-IsWhole kind env m = ground arith

-- Where the media data begin, and the muxer that knows it.
abbrev pub data_start : Mp4Muxer → ℕ
data_start m = length (items_bytes 0 (leading m)) + 8

abbrev pub located : Mp4Muxer → Mp4Muxer
located m = record m { media_offset = data_start m }

-- What comes before the description of the movie, and the file.
abbrev pub media_part : Mp4Muxer → List ℕ
media_part m =
    let front = items_bytes 0 (leading m) in front ++ item_bytes (length front) (media_data_box m)

abbrev pub file : Env → Mp4Muxer → List ℕ
file env m =
    let front = media_part m in front ++ item_bytes (length front) (movie_box env (located m))

write_media_data_box-stream :
    (m : Mp4Muxer) (front : List ℕ) (room : ℕ)
    → let media = item_bytes (length front) (media_data_box m) in
      write_media_data_box m (stream front (length media + room))
      ≡ some (stream (front ++ media) room, record m { media_offset = length front + 8 })
unfolding write_media_data_box
write_media_data_box-stream m front room =
    let media = item_bytes (length front) (media_data_box m) in
    let start = stream front (length media + room) in
    ap₂ {A = Option BitStream} {B = ℕ} {C = Option (BitStream × Mp4Muxer)}
      (λ r k. elim r [ none ↦ none | some s ↦ some (s, record m { media_offset = k + 8 }) ])
      (write_item-stream (media_data_box m) front room (tt, (tt, tt)))
      (size_in_bytes-stream front (length media + room))

movie_box-IsWhole : (env : Env) (m : Mp4Muxer) → IsWhole (movie_box env m)
unfolding movie_box
movie_box-IsWhole env m = (
  tt,
  (
    ground arith,
    (
      track_box-IsWhole video (from_call 2 env) m,
      (track_box-IsWhole audio (from_call 6 env) m, tt),
    ),
  ),
)

write_movie-stream :
    (env : Env) (m : Mp4Muxer) (front : List ℕ) (room : ℕ)
    → let movie = item_bytes (length front) (movie_box env m) in
      end_file m (write_item (movie_box env m) (stream front (length movie + room)))
      ≡ some (front ++ movie, m)
write_movie-stream env m front room =
    let movie = item_bytes (length front) (movie_box env m) in
    ap (end_file m) (write_item-stream (movie_box env m) front room (movie_box-IsWhole env m))
    ∙ ap (λ bs. some (bs, m)) (written-stream (front ++ movie) room)

flush-parts :
    (env : Env) (m : Mp4Muxer)
    → has_samples m ≡ true
    → flush env m
      ≡ then_media env m (write_items (leading m) (of_size (length m.mdat + 10 * (1024 * 1024))))
unfolding flush
flush-parts env m h =
    let size = length m.mdat + 10 * (1024 * 1024) in
    ap (λ b. if b then then_media env m (write_items (leading m) (of_size size)) else some ([], m))
      h

-- `Flush` of a muxer with samples, where the buffer has room for the file, makes a file of the boxes
-- that lead, of the media data and of the movie, each with its size, and the offsets of the movie's
-- chunks are counted from where the media data begin in that file.
pub flush-file :
    (env : Env) (m : Mp4Muxer)
    → has_samples m ≡ true
    → length (file env m) ≤ length m.mdat + 10 * (1024 * 1024)
    → flush env m ≡ some (file env m, located m)
flush-file env m h fits =
    let front = items_bytes 0 (leading m) in
    let media = item_bytes (length front) (media_data_box m) in
    let movie = item_bytes (length (front ++ media)) (movie_box env (located m)) in
    let size = length m.mdat + 10 * (1024 * 1024) in
    let room = size - length (file env m) in
    let split : size ≡ length front + (length media + (length movie + room)) =
      omega (arith, length-append (front ++ media) movie, length-append front media) in
    flush-parts env m h
    ∙ ap (λ s. then_media env m (write_items (leading m) s))
        (of_size-stream size ∙ ap (stream []) split)
    ∙ ap (then_media env m) (
        write_items-stream (leading m) [] (length media + (length movie + room))
          (leading-AreWhole m))
    ∙ ap (then_movie env) (write_media_data_box-stream m front (length movie + room))
    ∙ write_movie-stream env (located m) (front ++ media) room
