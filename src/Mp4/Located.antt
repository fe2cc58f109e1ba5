-- ===== src/Mp4/Located.antt =====
-- The table of chunk offsets in a file of src/mp4_muxer.cpp, as a player finds it.
use tms.Prelude.{ℕ, ◌^◌, ◌<◌, false, List, [], ◌∷◌, length, refl, arith}
use tms.Any.{same}
use tms.MediaMuxer.{PayloadType, audio, video, unknown}
use tms.Mp4.{Mp4Muxer}
use tms.Mp4.Name
use tms.Mp4.Box.{Item, Items, text, patched, nil, ◌▸◌, items_bytes}
use tms.Mp4.Tables.{chunk_offset_box}
use tms.Mp4.Movie.{Env, from_call}
use tms.Mp4.Track.{track_box, media_box, media_info_box, sample_table_box, movie_box}
use tms.Mp4.Flush.{file_type_box, free_box, media_data_box}
use tms.Mp4.Player.{parts, Leads, step}

abbrev pub body_of : Item → Items
body_of (patched before after (text name ▸ body)) = body
body_of _ = nil

-- The way from a track's box to its table of chunk offsets.
abbrev to_table : List (ℕ × List ℕ)
to_table = (0, Name.stco) ∷ []

abbrev to_info : List (ℕ × List ℕ)
to_info = (0, Name.stbl) ∷ to_table

abbrev to_media : List (ℕ × List ℕ)
to_media = (0, Name.minf) ∷ to_info

abbrev to_track : List (ℕ × List ℕ)
to_track = (0, Name.mdia) ∷ to_media

-- The first track is the video's.
abbrev to_movie : PayloadType → List (ℕ × List ℕ)
to_movie video = (0, Name.trak) ∷ to_track
to_movie _ = (1, Name.trak) ∷ to_track

abbrev pub to_file : PayloadType → List (ℕ × List ℕ)
to_file kind = (0, Name.moov) ∷ to_movie kind

-- A muxer that makes a whole file.
abbrev pub whole_file : Mp4Muxer → Mp4Muxer
whole_file m = record m { segment = false }

table_step :
    (kind : PayloadType) (env : Env) (m : Mp4Muxer) (path : List (ℕ × List ℕ)) (bs : List ℕ)
    → Leads path ((0, Name.stco) ∷ []) bs (body_of (sample_table_box kind env (whole_file m)))
    → Leads path [] bs (body_of (chunk_offset_box kind (whole_file m)))
unfolding sample_table_box same
table_step video env m path bs l =
    let row = body_of (sample_table_box video env (whole_file m)) in
    step path [] bs 0 Name.stco row (body_of (chunk_offset_box video (whole_file m))) (parts row)
      refl (ground arith) (omega arith) (λ at. (_, refl)) l
table_step audio env m path bs l =
    let row = body_of (sample_table_box audio env (whole_file m)) in
    step path [] bs 0 Name.stco row (body_of (chunk_offset_box audio (whole_file m))) (parts row)
      refl (ground arith) (omega arith) (λ at. (_, refl)) l
table_step unknown env m path bs l =
    let row = body_of (sample_table_box unknown env (whole_file m)) in
    step path [] bs 0 Name.stco row (body_of (chunk_offset_box unknown (whole_file m))) (parts row)
      refl (ground arith) (omega arith) (λ at. (_, refl)) l

info_step :
    (kind : PayloadType) (env : Env) (m : Mp4Muxer) (path : List (ℕ × List ℕ)) (bs : List ℕ)
    → Leads path ((0, Name.stbl) ∷ to_table) bs (body_of (media_info_box kind env (whole_file m)))
    → Leads path to_table bs (body_of (sample_table_box kind env (whole_file m)))
unfolding media_info_box same
info_step video env m path bs l =
    let row = body_of (media_info_box video env (whole_file m)) in
    step path to_table bs 0 Name.stbl row (body_of (sample_table_box video env (whole_file m)))
      (parts row) refl (ground arith) (omega arith) (λ at. (_, refl)) l
info_step audio env m path bs l =
    let row = body_of (media_info_box audio env (whole_file m)) in
    step path to_table bs 0 Name.stbl row (body_of (sample_table_box audio env (whole_file m)))
      (parts row) refl (ground arith) (omega arith) (λ at. (_, refl)) l
info_step unknown env m path bs l =
    let row = body_of (media_info_box unknown env (whole_file m)) in
    step path to_table bs 0 Name.stbl row (body_of (sample_table_box unknown env (whole_file m)))
      (parts row) refl (ground arith) (omega arith) (λ at. (_, refl)) l

media_step :
    (kind : PayloadType) (env : Env) (m : Mp4Muxer) (path : List (ℕ × List ℕ)) (bs : List ℕ)
    → Leads path ((0, Name.minf) ∷ to_info) bs (body_of (media_box kind env (whole_file m)))
    → Leads path to_info bs (body_of (media_info_box kind env (whole_file m)))
unfolding media_box same
media_step video env m path bs l =
    let row = body_of (media_box video env (whole_file m)) in
    step path to_info bs 0 Name.minf row (body_of (media_info_box video env (whole_file m)))
      (parts row) refl (ground arith) (omega arith) (λ at. (_, refl)) l
media_step audio env m path bs l =
    let row = body_of (media_box audio env (whole_file m)) in
    step path to_info bs 0 Name.minf row (body_of (media_info_box audio env (whole_file m)))
      (parts row) refl (ground arith) (omega arith) (λ at. (_, refl)) l
media_step unknown env m path bs l =
    let row = body_of (media_box unknown env (whole_file m)) in
    step path to_info bs 0 Name.minf row (body_of (media_info_box unknown env (whole_file m)))
      (parts row) refl (ground arith) (omega arith) (λ at. (_, refl)) l

track_step :
    (kind : PayloadType) (env : Env) (m : Mp4Muxer) (path : List (ℕ × List ℕ)) (bs : List ℕ)
    → Leads path ((0, Name.mdia) ∷ to_media) bs (body_of (track_box kind env (whole_file m)))
    → Leads path to_media bs (body_of (media_box kind (from_call 2 env) (whole_file m)))
unfolding track_box same
track_step video env m path bs l =
    let row = body_of (track_box video env (whole_file m)) in
    step path to_media bs 0 Name.mdia row
      (body_of (media_box video (from_call 2 env) (whole_file m))) (parts row) refl (ground arith)
      (omega arith) (λ at. (_, refl)) l
track_step audio env m path bs l =
    let row = body_of (track_box audio env (whole_file m)) in
    step path to_media bs 0 Name.mdia row
      (body_of (media_box audio (from_call 2 env) (whole_file m))) (parts row) refl (ground arith)
      (omega arith) (λ at. (_, refl)) l
track_step unknown env m path bs l =
    let row = body_of (track_box unknown env (whole_file m)) in
    step path to_media bs 0 Name.mdia row
      (body_of (media_box unknown (from_call 2 env) (whole_file m))) (parts row) refl (ground arith)
      (omega arith) (λ at. (_, refl)) l

table_of :
    (kind : PayloadType) (env : Env) (m : Mp4Muxer) (path : List (ℕ × List ℕ)) (bs : List ℕ)
    → Leads path to_track bs (body_of (track_box kind env (whole_file m)))
    → Leads path [] bs (body_of (chunk_offset_box kind (whole_file m)))
table_of kind env m path bs l = table_step kind (from_call 2 env) m path bs (
    info_step kind (from_call 2 env) m path bs
      (media_step kind (from_call 2 env) m path bs (track_step kind env m path bs l)))

audio_step :
    (env : Env) (m : Mp4Muxer) (path : List (ℕ × List ℕ)) (bs : List ℕ)
    → Leads path (to_movie audio) bs (body_of (movie_box env (whole_file m)))
    → Leads path [] bs (body_of (chunk_offset_box audio (whole_file m)))
unfolding movie_box same
audio_step env m path bs l =
    let row = body_of (movie_box env (whole_file m)) in
    table_of audio (from_call 6 env) m path bs (
      step path to_track bs 1 Name.trak row
        (body_of (track_box audio (from_call 6 env) (whole_file m))) (parts row) refl (ground arith)
        (omega arith) (λ at. (_, refl)) l)

movie_step :
    (kind : PayloadType) (env : Env) (m : Mp4Muxer) (path : List (ℕ × List ℕ)) (bs : List ℕ)
    → Leads path (to_movie kind) bs (body_of (movie_box env (whole_file m)))
    → Leads path [] bs (body_of (chunk_offset_box kind (whole_file m)))
unfolding movie_box chunk_offset_box same
movie_step video env m path bs l =
    let row = body_of (movie_box env (whole_file m)) in
    table_of video (from_call 2 env) m path bs (
      step path to_track bs 0 Name.trak row
        (body_of (track_box video (from_call 2 env) (whole_file m))) (parts row) refl (ground arith)
        (omega arith) (λ at. (_, refl)) l)
movie_step audio env m path bs l = audio_step env m path bs l
movie_step unknown env m path bs l = audio_step env m path bs l

-- The boxes of a file.
abbrev pub top : Env → Mp4Muxer → Items
top env m = file_type_box m ▸ free_box ▸ media_data_box m ▸ movie_box env m ▸ nil

-- The way leads from the file to the table of a track.
pub top-Leads :
    (kind : PayloadType) (env : Env) (m : Mp4Muxer)
    → length (items_bytes 0 (top env (whole_file m))) < 2 ^ 32
    → Leads
        (to_file kind)
        []
        (items_bytes 0 (top env (whole_file m)))
        (body_of (chunk_offset_box kind (whole_file m)))
unfolding file_type_box media_data_box movie_box free_box same
top-Leads kind env m bound =
    let row = top env (whole_file m) in
    let bs = items_bytes 0 row in
    movie_step kind env m (to_file kind) bs (
      step (to_file kind) (to_movie kind) bs 0 Name.moov row
        (body_of (movie_box env (whole_file m))) (parts row) refl (ground arith) (omega arith)
        (λ at. (_, refl)) (record { at = 0; same_end = refl; small = bound }))
