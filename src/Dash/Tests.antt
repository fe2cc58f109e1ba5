-- ===== src/Dash/Tests.antt =====
-- Runs of src/dash_muxer.cpp, and its theorems at a few frames.
use tms.Prelude.{
  ℕ, ◌+◌, ◌≡◌, ◌++◌, refl, Bool, true, false, List, [], ◌∷◌, Option, none, some, arith, length,
  replicate,
}
use tms.MediaMuxer.{PayloadType, audio, video, Payload}
use tms.Dash.{DashMuxer, new_dash_muxer, new_track, erase_old, find, listed}
use tms.Dash.Flush.{Env, add_segment}
use tms.Dash.Hold.{IsHeld}
use tms.Dash.Same.{OnSome}
use tms.Dash.Events.{Event, audio_frame, video_frame, on_event, on_event-IsHeld}
use tms.Mp4.Tables.{first_dts}
use tms.Dash.Served.{Piece, start, info, add_all, listed-served}

abbrev env : Env
env = record {
  movie = record { now = λ k. 1700000000 + k; behind_int = 0xBEEF };
  chunk_offset = 5;
  media_offset = 6;
}

abbrev frame : PayloadType → Bool → ℕ → ℕ → Payload
frame kind key len at = record {
  all_data = replicate len len;
  behind = [];
  is_i_frame = key;
  payload_type = kind;
  pts = at;
  dts = at;
}

abbrev run : List Event → DashMuxer → Option DashMuxer
run [] m = some m
run (e ∷ es) m = elim (on_event e m) [ none ↦ none | some m' ↦ run es m' ]

abbrev muxer_of : Option DashMuxer → DashMuxer
muxer_of none = new_dash_muxer 0
muxer_of (some m) = m

abbrev frames : DashMuxer
frames = muxer_of (
    run
      (audio_frame (frame audio false 5 0)
        ∷ video_frame env (frame video true 6 0)
        ∷ audio_frame (frame audio false 4 30)
        ∷ video_frame env (frame video false 7 40)
        ∷ audio_frame (frame audio false 8 60)
        ∷ [])
      (new_dash_muxer 99))

frames-audio : frames.audio_track.mdat ≡ replicate 3 5 ++ (replicate 2 4 ++ replicate 6 8)
unfolding new_dash_muxer on_event
frames-audio = refl

on_event-IsHeld_example :
    OnSome IsHeld (on_event (video_frame env (frame video true 6 6000)) frames)
unfolding new_dash_muxer on_event
on_event-IsHeld_example =
    on_event-IsHeld (video_frame env (frame video true 6 6000)) frames
      (refl, (refl, (omega arith, (omega arith, (omega arith, tt))))) (omega arith)

abbrev first_two : List Payload
first_two = frame audio false 5 0 ∷ frame audio false 4 30 ∷ []

abbrev piece : ℕ → Piece
piece at = record {
  file = at ∷ [];
  samples = frame video true 6 at ∷ frame video true 7 (at + 6) ∷ [];
}

abbrev eight : List Piece
eight = piece 0 ∷ piece 10 ∷ piece 20 ∷ piece 30 ∷ piece 40 ∷ piece 50 ∷ piece 60 ∷ piece 70 ∷ []

-- The first three of ten segments are gone.
ten-kept : length (add_all (eight ++ (piece 80 ∷ piece 90 ∷ [])) new_track).m4s ≡ 7
unfolding add_segment erase_old
ten-kept = refl

listed-served_example :
    let t = add_all (piece 0 ∷ piece 10 ∷ piece 20 ∷ piece 30 ∷ []) new_track in
    ((listed t).0 ≡ info (piece 10) ∷ info (piece 20) ∷ info (piece 30) ∷ [])
    × (find (start (piece 10)) t.m4s ≡ some (10 ∷ []))
    × (find (start (piece 20)) t.m4s ≡ some (20 ∷ []))
    × (find (start (piece 30)) t.m4s ≡ some (30 ∷ []))
unfolding first_dts
listed-served_example =
    listed-served (piece 0 ∷ []) (piece 10) (piece 20) (piece 30)
      (
        tt,
        (
          (omega arith, tt),
          ((omega arith, (omega arith, tt)), ((omega arith, (omega arith, (omega arith, tt))), tt)),
        ),
      )
      (omega arith)
