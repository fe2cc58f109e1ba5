-- ===== src/Mp4/Tests.antt =====
-- Runs of src/mp4_muxer.cpp, and its theorems at the frames of a small group of pictures.
use tms.Prelude.{
  ℕ, ◌+◌, ◌≡◌, ◌<◌, refl, List, [], ◌∷◌, Option, none, some, false, arith, length, replicate, inl,
  get_or,
}
use tms.MediaMuxer.{PayloadType, audio, video, Payload}
use tms.Mp4.{Mp4Muxer, Chunk, new_mp4_muxer, reset}
use tms.Mp4.Name
use tms.Mp4.Box.{Items, packed, nil, ◌▸◌, box, full_box, items_bytes}
use tms.Mp4.Tables.{chunk_runs, time_entries}
use tms.Mp4.Tables.Runs.{in_chunk, counts, chunk_runs_lem}
use tms.Mp4.Tables.Times.{total_time, time_entries-even}
use tms.Mp4.Movie.{Env}
use tms.Mp4.Flush.{close_group}
use tms.Mp4.Chunks.Find.{add_all, IsFound, add_all-IsFound, reset-Fresh}

abbrev env : Env
env = record { now = λ k. 1700000000 + k; behind_int = 0xBEEF }

abbrev frame : PayloadType → ℕ → ℕ → Payload
frame kind len at = record {
  all_data = replicate len 7;
  behind = [];
  is_i_frame = false;
  payload_type = kind;
  pts = at;
  dts = at;
}

abbrev group : List Payload
group = frame video 6 0 ∷ frame audio 5 10 ∷ frame audio 4 30 ∷ frame video 7 40 ∷ []

abbrev started : Mp4Muxer
started = reset (new_mp4_muxer 77 88)

abbrev muxer_of : Option Mp4Muxer → Mp4Muxer
muxer_of none = started
muxer_of (some m) = close_group m

abbrev chunk_sizes : List Chunk → List (ℕ × ℕ)
chunk_sizes [] = []
chunk_sizes (c ∷ cs) = (c.count, c.size) ∷ chunk_sizes cs

group_chunks : chunk_sizes (muxer_of (add_all group started)).chunk ≡ (1, 6) ∷ (2, 5) ∷ (1, 7) ∷ []
unfolding add_all reset new_mp4_muxer close_group
group_chunks = refl

group_offsets : (muxer_of (add_all group started)).video_chunk_offset ≡ 0 ∷ 11 ∷ []
unfolding add_all reset new_mp4_muxer close_group
group_offsets = refl

-- The language of a track.
abbrev language : Items
language = packed ((1, 0) ∷ (5, 0x65) ∷ (5, 0x6E) ∷ (5, 0x67) ∷ []) ▸ nil

language_bytes : items_bytes 0 language ≡ 0x15 ∷ 0xC7 ∷ []
unfolding items_bytes
language_bytes = refl

abbrev small : Items
small = box Name.free nil ▸ full_box Name.stsd 0 (language) ▸ nil

small_bytes :
    items_bytes 0 small
    ≡ 0 ∷ 0 ∷ 0 ∷ 8 ∷ 0x66 ∷ 0x72 ∷ 0x65 ∷ 0x65 ∷ 0 ∷ 0 ∷ 0 ∷ 14 ∷ 0x73 ∷ 0x74 ∷ 0x73 ∷ 0x64 ∷ 0 ∷ 0
      ∷ 0 ∷ 0 ∷ 0x15 ∷ 0xC7 ∷ []
unfolding items_bytes box full_box
small_bytes = refl

abbrev row : List (List ℕ × Items)
row = (Name.free, nil) ∷ (Name.stbl, box Name.stsd language ▸ nil) ∷ []

abbrev one_frame : Mp4Muxer
one_frame = record started {
  mdat = replicate 6 7;
  video_samples = frame video 6 0 ∷ [];
  video_chunk_offset = 0 ∷ [];
}

add_all-IsFound_example :
    (m : Mp4Muxer) × (add_all group started ≡ some m) × IsFound (close_group m)
unfolding reset new_mp4_muxer
add_all-IsFound_example =
    add_all-IsFound group started (inl (reset-Fresh (new_mp4_muxer 77 88)))
      (tt, (omega arith, (omega arith, (tt, tt)))) (omega arith)

abbrev chunk_with : ℕ → Chunk
chunk_with n = record { count = n; size = n; payload_type = video; delta = 0; dts = 0 }

abbrev four_chunks : List Chunk
four_chunks = chunk_with 3 ∷ chunk_with 3 ∷ chunk_with 5 ∷ chunk_with 3 ∷ []

chunk_runs_lem_example :
    ((i : ℕ)
      → i < 4
      → in_chunk 0 (chunk_runs four_chunks).0 (i + 1) ≡ get_or (counts four_chunks) i 0)
    × ((chunk_runs four_chunks).1 ≡ length (chunk_runs four_chunks).0)
chunk_runs_lem_example = chunk_runs_lem four_chunks

time_entries-even_example :
    total_time
      (time_entries
        (frame video 1 0 ∷ frame video 1 40 ∷ frame video 1 80 ∷ frame video 1 120 ∷ [])).0
    ≡ 200
time_entries-even_example =
    time_entries-even (frame video 1 0) (frame video 1 40) (frame video 1 80) (frame video 1 120) 40
      (omega arith) refl refl refl (omega arith)
