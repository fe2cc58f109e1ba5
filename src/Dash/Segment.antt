-- ===== src/Dash/Segment.antt =====
-- The segment that the halves of `Flush` of src/dash_muxer.cpp make, as the bytes of its boxes, and the
-- media data in it as a player finds them.
use tms.Prelude.{
  ℕ, ◌+◌, ◌-◌, ◌*◌, ◌%◌, ◌^◌, ◌≤◌, ◌<◌, true, Option, none, some, List, [], ◌++◌, length, take,
  drop, be, be_bytes, leb, ◌≡◌, refl, sym, ap, ◌∙◌, arith, ◌∷◌, if◌then◌else◌,
}
use tms.Prelude.{
  length-append, append_assoc, append-nil, be-be_bytes, drop-drop, drop-length_append,
  drop_le-append, take_le-append, length-drop,
}
use tms.BitStream.{BitStream}
use native.Mathlib.Nat.{mod-eq_of_lt}
use tms.MediaMuxer.{PayloadType, Payload}
use tms.Mp4.Box.{AreWhole, number_bytes, item_bytes, items_bytes, write_item, write_items}
use tms.Mp4.Box.Stream.{stream, of_size-stream}
use tms.Mp4.Box.Encode.{write_item-stream, write_items-stream, written-stream, size_in_bytes-stream}
use tms.Dash.{DashMuxer, track}
use tms.Dash.Fragment.{
  run_entries, left_of, media, media_data_box, movie_fragment_box, write_movie_fragment_box,
  write_media_data_box,
}
use tms.Dash.Flush.{leading, write_segment, then_fragment, then_media, end_segment}

-- The three parts of a segment, and the muxer that knows where the fragment begins.
abbrev pub front : PayloadType → DashMuxer → List ℕ
front kind m = items_bytes 0 (leading kind m)

abbrev pub located : PayloadType → DashMuxer → DashMuxer
located kind m = record m { moof_offset = length (front kind m) }

abbrev pub fragment : PayloadType → DashMuxer → List ℕ
fragment kind m = item_bytes (length (front kind m)) (movie_fragment_box kind (located kind m))

abbrev pub data_part : PayloadType → DashMuxer → List ℕ
data_part kind m =
    item_bytes (length (front kind m ++ fragment kind m)) (media_data_box kind (located kind m))

abbrev pub segment : PayloadType → DashMuxer → List ℕ
segment kind m = (front kind m ++ fragment kind m) ++ data_part kind m

write_movie_fragment_box-stream :
    (kind : PayloadType) (m : DashMuxer) (room : ℕ)
    → write_movie_fragment_box kind m (stream (front kind m) (length (fragment kind m) + room))
      ≡ some (stream (front kind m ++ fragment kind m) room, located kind m)
unfolding write_movie_fragment_box
write_movie_fragment_box-stream kind m room =
    let start = stream (front kind m) (length (fragment kind m) + room) in
    let step : ℕ → Option (BitStream × DashMuxer) = λ k.
      elim (write_item (movie_fragment_box kind (record m { moof_offset = k })) start) [
        | none ↦ none
        | some s' ↦ some (s', record m { moof_offset = k })
      ] in
    ap step (size_in_bytes-stream (front kind m) (length (fragment kind m) + room))
    ∙ ap {A = Option BitStream} {B = Option (BitStream × DashMuxer)}
        (λ r. elim r [ none ↦ none | some s' ↦ some (s', located kind m) ])
        (write_item-stream (movie_fragment_box kind (located kind m)) (front kind m) room
          (ground arith))

front-AreWhole : (kind : PayloadType) (m : DashMuxer) → AreWhole (leading kind m)
unfolding leading
front-AreWhole kind m = ground arith

write_media_data_box-stream :
    (kind : PayloadType) (m : DashMuxer) (room : ℕ)
    → left_of kind m ≤ length (track kind m).mdat
    → end_segment (located kind m) (
        write_media_data_box kind
          (located kind m)
          (stream (front kind m ++ fragment kind m) (length (data_part kind m) + room)))
      ≡ some (segment kind m, located kind m)
unfolding write_media_data_box track left_of
write_media_data_box-stream kind m room h =
    let start = stream (front kind m ++ fragment kind m) (length (data_part kind m) + room) in
    let test : leb (left_of kind m) (length (track kind m).mdat) ≡ true = ground arith in
    ap
      (λ b.
        end_segment (located kind m)
          (if b then write_item (media_data_box kind (located kind m)) start else none))
      test
    ∙ ap (end_segment (located kind m)) (
        write_item-stream (media_data_box kind (located kind m)) (front kind m ++ fragment kind m)
          room (tt, (tt, tt)))
    ∙ ap (λ bs. some (bs, located kind m)) (written-stream (segment kind m) room)

-- The data offset of the run, which stands 80 bytes into the fragment.
abbrev pub data_offset : ℕ → List ℕ → ℕ
data_offset moof file = be (take 4 (drop (moof + 80) file))

fragment-offset :
    (kind : PayloadType) (m : DashMuxer)
    → take 4 (drop 80 (fragment kind m))
      ≡ be_bytes 4 (
          (length (front kind m) + length (fragment kind m) + 8 + 2 ^ 32 - length (front kind m))
          % 2 ^ 32)
unfolding movie_fragment_box item_bytes track
fragment-offset kind m =
    let at = length (front kind m) in
    let xs = number_bytes (run_entries kind (track kind m).samples) in
    let once : length (xs ++ []) ≡ length xs = ap length (append-nil xs) in
    let often : length ((((xs ++ []) ++ []) ++ []) ++ []) ≡ length xs =
      ap (λ ys. length (((ys ++ []) ++ []) ++ [])) (append-nil xs)
      ∙ ap (λ ys. length ((ys ++ []) ++ [])) (append-nil xs)
      ∙ ap (λ ys. length (ys ++ [])) (append-nil xs)
      ∙ once in
    let pos = at + 4 + 4 + 16 + 4 + 4 + 16 + 16 + 4 + 4 + 4 + 4 + 4 in
    let end : pos + length ((0 ∷ 0 ∷ 0 ∷ 0 ∷ []) ++ (xs ++ [])) ≡ at + length (fragment kind m) =
      omega (arith, once, often) in
    ap (λ k. be_bytes 4 ((k + 8 + 2 ^ 32 - at) % 2 ^ 32)) end

-- The count of samples, which stands four bytes before.
abbrev pub sample_count : ℕ → List ℕ → ℕ
sample_count moof file = be (take 4 (drop (moof + 76) file))

fragment-count :
    (kind : PayloadType) (m : DashMuxer)
    → take 4 (drop 76 (fragment kind m)) ≡ be_bytes 4 (length (track kind m).samples - 1)
unfolding movie_fragment_box item_bytes track
fragment-count kind m = refl

drop-front : (front rest : List ℕ) (n : ℕ) → drop (length front + n) (front ++ rest) ≡ drop n rest
drop-front front rest n =
    sym (drop-drop n (length front) (front ++ rest)) ∙ ap (drop n) (drop-length_append front rest)

fragment-long : (kind : PayloadType) (m : DashMuxer) → 84 ≤ length (fragment kind m)
unfolding movie_fragment_box item_bytes
fragment-long kind m = omega arith

data_part-media :
    (kind : PayloadType) (m : DashMuxer)
    → (8 ≤ length (data_part kind m)) × (drop 8 (data_part kind m) ≡ media kind m)
unfolding media_data_box item_bytes media track left_of
data_part-media kind m = (omega arith, append-nil (media kind m))

segment-offset :
    (kind : PayloadType) (m : DashMuxer)
    → length (segment kind m) < 2 ^ 32
    → data_offset (length (front kind m)) (segment kind m) ≡ length (fragment kind m) + 8
segment-offset kind m h =
    let at = length (front kind m) in
    let moof = fragment kind m in
    let rest = data_part kind m in
    let size : length (segment kind m) ≡ at + length moof + length rest =
      omega (arith, length-append (front kind m ++ moof) rest, length-append (front kind m) moof) in
    let v = (at + length moof + 8 + 2 ^ 32 - at) % 2 ^ 32 in
    let bytes : take 4 (drop (at + 80) (segment kind m)) ≡ be_bytes 4 v =
      ap (λ xs. take 4 (drop (at + 80) xs)) (append_assoc (front kind m) moof rest)
      ∙ ap (take 4) (drop-front (front kind m) (moof ++ rest) 80)
      ∙ ap (take 4) (drop_le-append 80 moof rest (omega (arith, fragment-long kind m)))
      ∙ take_le-append 4 (drop 80 moof) rest
          (omega (arith, fragment-long kind m, length-drop 80 moof))
      ∙ fragment-offset kind m in
    ap be bytes ∙ be-be_bytes 4 v ∙ omega (arith, h, size, (data_part-media kind m).0)

length-run_entries :
    (kind : PayloadType) (ps : List Payload)
    → length (number_bytes (run_entries kind ps)) ≡ 12 * (length ps - 1)
unfolding run_entries number_bytes
length-run_entries kind [] = refl
length-run_entries kind (p ∷ []) = refl
length-run_entries kind (p ∷ q ∷ ps) = omega (arith, length-run_entries kind (q ∷ ps))

entries-fit :
    (kind : PayloadType) (m : DashMuxer)
    → length (track kind m).samples - 1 ≤ length (fragment kind m)
unfolding movie_fragment_box item_bytes track
entries-fit kind m =
    let xs = number_bytes (run_entries kind (track kind m).samples) in
    let often : length ((((xs ++ []) ++ []) ++ []) ++ []) ≡ length xs = omega (
      arith,
      length-append (((xs ++ []) ++ []) ++ []) [],
      length-append ((xs ++ []) ++ []) [],
      length-append (xs ++ []) [],
      length-append xs [],
    ) in
    omega (arith, often, length-run_entries kind (track kind m).samples)

pub segment-count :
    (kind : PayloadType) (m : DashMuxer)
    → length (segment kind m) < 2 ^ 32
    → sample_count (length (front kind m)) (segment kind m) ≡ length (track kind m).samples - 1
segment-count kind m h =
    let at = length (front kind m) in
    let moof = fragment kind m in
    let rest = data_part kind m in
    let v = length (track kind m).samples - 1 in
    let small : v < 2 ^ 32 = omega (
      arith,
      h,
      entries-fit kind m,
      length-append (front kind m ++ moof) rest,
      length-append (front kind m) moof,
    ) in
    let bytes : take 4 (drop (at + 76) (segment kind m)) ≡ be_bytes 4 v =
      ap (λ xs. take 4 (drop (at + 76) xs)) (append_assoc (front kind m) moof rest)
      ∙ ap (take 4) (drop-front (front kind m) (moof ++ rest) 76)
      ∙ ap (take 4) (drop_le-append 76 moof rest (omega (arith, fragment-long kind m)))
      ∙ take_le-append 4 (drop 76 moof) rest
          (omega (arith, fragment-long kind m, length-drop 76 moof))
      ∙ fragment-count kind m in
    ap be bytes ∙ be-be_bytes 4 v ∙ mod-eq_of_lt small

segment-media :
    (kind : PayloadType) (m : DashMuxer)
    → length (segment kind m) < 2 ^ 32
    → let at = length (front kind m) in
      drop (at + data_offset at (segment kind m)) (segment kind m) ≡ media kind m
segment-media kind m h =
    let lead = front kind m ++ fragment kind m in
    let e : length (front kind m) + data_offset (length (front kind m)) (segment kind m)
        ≡ length lead + 8 =
      omega (arith, segment-offset kind m h, length-append (front kind m) (fragment kind m)) in
    ap (λ k. drop k (segment kind m)) e
    ∙ drop-front lead (data_part kind m) 8
    ∙ (data_part-media kind m).1

-- A half of `Flush`, where the last sample's bytes are in the media data and the buffer has room for the
-- segment, makes the segment of its boxes, each with its size; the run has the count of all samples but the last; and a player that adds the data offset of
-- the run to where the fragment begins finds the media data.
pub write_segment-media :
    (kind : PayloadType) (m : DashMuxer)
    → left_of kind m ≤ length (track kind m).mdat
    → length (segment kind m) ≤ length (track kind m).mdat + 1024 * 128
    → length (segment kind m) < 2 ^ 32
    → (m' : DashMuxer) × (write_segment kind m ≡ some (segment kind m, m'))
      × (sample_count m'.moof_offset (segment kind m) ≡ length (track kind m).samples - 1)
      × (drop (m'.moof_offset + data_offset m'.moof_offset (segment kind m)) (segment kind m)
          ≡ media kind m)
unfolding write_segment
write_segment-media kind m left fits bound =
    let moof = fragment kind m in
    let rest = data_part kind m in
    let size = length (track kind m).mdat + 1024 * 128 in
    let room = size - length (segment kind m) in
    let split : size ≡ length (front kind m) + (length moof + (length rest + room)) =
      omega (arith, length-append (front kind m ++ moof) rest, length-append (front kind m) moof) in
    let made : write_segment kind m ≡ some (segment kind m, located kind m) =
      ap (λ s. then_fragment kind m (write_items (leading kind m) s))
        (of_size-stream size ∙ ap (stream []) split)
      ∙ ap (then_fragment kind m) (
          write_items-stream (leading kind m) [] (length moof + (length rest + room))
            (front-AreWhole kind m))
      ∙ ap (then_media kind) (write_movie_fragment_box-stream kind m (length rest + room))
      ∙ write_media_data_box-stream kind m room left in
    (located kind m, made, segment-count kind m bound, segment-media kind m bound)
