-- ===== src/Mp4/Offsets.antt =====
-- The file that `Flush` of src/mp4_muxer.cpp makes, as a player reads it: from the table of chunk offsets to
-- the media data.
use tms.Prelude.{ℕ, zero, suc, some, List, [], ◌∷◌, ◌++◌, length, take, drop, map, ◌≡◌, be}
use tms.MediaMuxer.{PayloadType}
use tms.Mp4.{Mp4Muxer}
use tms.Mp4.Box.{item_bytes}
use tms.Mp4.Tables.{chunk_offsets}
use tms.Mp4.Movie.{Env}
use tms.Mp4.Track.{movie_box}
use tms.Mp4.File.{file, media_part, located}
use tms.Mp4.Player.{find_box}
use tms.Mp4.Located.{whole_file, to_file}

-- Numbers of four bytes, and the table of chunk offsets, which has its own count.
abbrev pub words : ℕ → List ℕ → List ℕ
words zero bs = []
words (suc n) bs = be (take 4 bs) ∷ words n (drop 4 bs)

abbrev pub read_offsets : List ℕ → List ℕ
read_offsets table = words (be (take 4 (drop 4 table))) (drop 8 table)

abbrev fours : (ℕ → ℕ) → List ℕ → List (ℕ × ℕ)
fours f os = map (λ o. (4, f o)) os

-- What comes behind the media data.
abbrev movie_bytes : Env → Mp4Muxer → List ℕ
movie_bytes env m =
    item_bytes (length (media_part (whole_file m))) (movie_box env (located (whole_file m)))

-- The table of a track in a file, and that the offsets in it lead to the media data.
abbrev Located : PayloadType → Env → Mp4Muxer → Type 0
Located kind env m =
    (table : List ℕ) × (rest : List ℕ) × (find_box (to_file kind) (file env m) ≡ some table)
    × (map (λ n. drop n (file env m)) (read_offsets table)
        ≡ map (λ o. drop o (m.mdat ++ rest)) (chunk_offsets kind m))
