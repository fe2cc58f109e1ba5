-- ===== src/MediaMuxer/Intake.antt =====
-- Frames that arrive, in src/media_muxer.cpp: `OnAudio`, `OnVideo`, and `GetFastOut`, the frames from
-- the last key frame on.
pub mod FastOut
pub mod Keep
use tms.Prelude.{
  ℕ, zero, suc, ◌+◌, ◌-◌, ◌*◌, ◌/◌, ◌%◌, ◌^◌, Bool, true, false, ◌&&◌, ◌||◌, not, List, [], ◌∷◌,
  ◌==◌, ltb, leb, if◌then◌else◌, length,
}
use tms.MediaMuxer.{MediaMuxer, Payload}
use tms.MediaMuxer.Frames.{insert, erase_first, since}
use tms.MediaMuxer.Packet.{Packed, packed, fault, out_of_fuel, packet_ts}
use tms.MediaMuxer.Playlist.{update_m3u8}

-- A change of the muxer after the packets are made.
unfoldable pub afterwards : (MediaMuxer → MediaMuxer) → Packed → Packed
afterwards f (packed ps m) = packed ps (f m)
afterwards f fault = fault
afterwards f out_of_fuel = out_of_fuel

-- Whether a queue of frames loses its first: `calc_fps` frames arrived since the last report.
unfoldable pub is_full : ℕ → ℕ → ℕ → Bool
is_full calc_fps frames segments =
    (not (calc_fps == 0) && ltb (20 * calc_fps % 2 ^ 32) frames || leb 800 frames)
    && ltb 10 segments

unfoldable pub count_audio : MediaMuxer → MediaMuxer
unfolding is_full erase_first
count_audio m =
    let fps = (m.audio_calc_fps + 1) % 2 ^ 32 in
    record m {
      audio_frame_recv_count = (m.audio_frame_recv_count + 1) % 2 ^ 64;
      audio_frame_id = (m.audio_frame_id + 1) % 2 ^ 64;
      audio_calc_fps = fps;
      audio_queue =
          if is_full fps (length m.audio_queue) (length m.ts_queue)
          then erase_first m.audio_queue
          else m.audio_queue;
    }

-- `OnAudio`. What it sends is in the packets.
unfoldable pub on_audio : MediaMuxer → Payload → Packed
unfolding afterwards count_audio insert packet_ts
on_audio m p =
    let queued = record m { audio_queue = insert m.audio_frame_id p m.audio_queue } in
    afterwards count_audio (packet_ts queued p)

abbrev first_is_i_frame : List (ℕ × Payload) → Bool
first_is_i_frame [] = false
first_is_i_frame ((k, p) ∷ q) = p.is_i_frame

unfoldable pub count_video : MediaMuxer → MediaMuxer
unfolding is_full erase_first
count_video m =
    let fps = (m.video_calc_fps + 1) % 2 ^ 32 in
    let counted = record m {
      video_frame_recv_count = (m.video_frame_recv_count + 1) % 2 ^ 64;
      video_frame_id = (m.video_frame_id + 1) % 2 ^ 64;
      video_calc_fps = fps;
    } in
    if is_full fps (length m.video_queue) (length m.ts_queue)
    then record counted {
      ts_queue = if first_is_i_frame m.video_queue then erase_first m.ts_queue else m.ts_queue;
      video_queue = erase_first m.video_queue;
    }
    else counted

module _ (seconds : ℕ → ℕ → List ℕ) where
  -- A key frame begins a segment, unless the last key frame has number 0.
  unfoldable pub on_key_frame : MediaMuxer → MediaMuxer
  unfolding update_m3u8
  on_key_frame m =
      let cut =
        if m.pre_video_key_frame_id == 0
        then m
        else (let listed = update_m3u8 seconds m in
            record listed { ts_seq = (listed.ts_seq + 1) % 2 ^ 64 }) in
      record cut {
        video_key_frame_recv_count = (cut.video_key_frame_recv_count + 1) % 2 ^ 64;
        pre_video_key_frame_id = cut.video_frame_id;
        pre_audio_key_frame_id = cut.audio_frame_id;
      }

  -- `OnVideo`.
  unfoldable pub on_video : MediaMuxer → Payload → Packed
  unfolding afterwards count_video insert packet_ts on_key_frame
  on_video m p =
      let begun = if p.is_i_frame then on_key_frame m else m in
      let queued = record begun { video_queue = insert begun.video_frame_id p begun.video_queue } in
      afterwards count_video (packet_ts queued p)

-- The loop of `GetFastOut` over two iterators: of two frames the one that is earlier, audio first
-- where they are not.
unfoldable pub merge : List Payload → List Payload → List Payload
merge [] vs = vs
merge (a ∷ audios) [] = a ∷ audios
merge (a ∷ audios) (v ∷ vs) =
    let video_first = v ∷ merge (a ∷ audios) vs in
    let audio_first = a ∷ merge audios (v ∷ vs) in
    if ltb v.dts a.dts then video_first else audio_first

-- `GetFastOut`.
unfoldable pub get_fast_out : MediaMuxer → List Payload
unfolding merge since
get_fast_out m =
    merge (since m.pre_audio_key_frame_id m.audio_queue)
      (since m.pre_video_key_frame_id m.video_queue)
