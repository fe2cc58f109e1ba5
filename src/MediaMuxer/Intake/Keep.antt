-- ===== src/MediaMuxer/Intake/Keep.antt =====
-- `OnAudio` and `OnVideo` of src/media_muxer.cpp leave the headers of the stream alone.
use tms.Prelude.{ℕ, Bool, true, false, List, refl, if◌then◌else◌, arith}
use tms.MediaMuxer.{MediaMuxer, Payload}
use tms.MediaMuxer.Frames.{insert}
use tms.MediaMuxer.Packet.{Packed, packed, fault, out_of_fuel, packet_ts}
use tms.MediaMuxer.Packet.Keep.{Keeps, SameHeaders, SameHeaders-trans, Keeps-trans, packet_ts-Keeps}
use tms.MediaMuxer.Playlist.{update_m3u8}
use tms.MediaMuxer.Intake.{afterwards, count_audio, count_video, on_audio, on_video, on_key_frame}

afterwards-Keeps :
    (f : MediaMuxer → MediaMuxer)
    → ((m : MediaMuxer) → SameHeaders m (f m))
    → (m : MediaMuxer) (r : Packed) → Keeps m r
    → Keeps m (afterwards f r)
unfolding afterwards
afterwards-Keeps f h m (packed ps m') k = SameHeaders-trans m m' (f m') k (h m')
afterwards-Keeps f h m fault k = tt
afterwards-Keeps f h m out_of_fuel k = tt

count_audio-SameHeaders : (m : MediaMuxer) → SameHeaders m (count_audio m)
unfolding count_audio
count_audio-SameHeaders m = (refl, refl)

count_video-SameHeaders : (m : MediaMuxer) → SameHeaders m (count_video m)
unfolding count_video
count_video-SameHeaders m = ground arith

pub on_audio-Keeps : (m : MediaMuxer) (p : Payload) → Keeps m (on_audio m p)
unfolding on_audio
on_audio-Keeps m p =
    let queued = record m { audio_queue = insert m.audio_frame_id p m.audio_queue } in
    afterwards-Keeps count_audio count_audio-SameHeaders m (packet_ts queued p)
      (packet_ts-Keeps queued p)

module _ (seconds : ℕ → ℕ → List ℕ) where
  on_key_frame-SameHeaders : (m : MediaMuxer) → SameHeaders m (on_key_frame seconds m)
  unfolding on_key_frame update_m3u8
  on_key_frame-SameHeaders m = ground arith

  begun-SameHeaders :
      (m : MediaMuxer) (b : Bool) → SameHeaders m (if b then on_key_frame seconds m else m)
  begun-SameHeaders m true = on_key_frame-SameHeaders m
  begun-SameHeaders m false = (refl, refl)

  pub on_video-Keeps : (m : MediaMuxer) (p : Payload) → Keeps m (on_video seconds m p)
  unfolding on_video
  on_video-Keeps m p =
      let begun = if p.is_i_frame then on_key_frame seconds m else m in
      let queued = record begun { video_queue = insert begun.video_frame_id p begun.video_queue } in
      afterwards-Keeps count_video count_video-SameHeaders m (packet_ts queued p) (
        Keeps-trans m queued (packet_ts queued p) (begun-SameHeaders m p.is_i_frame)
          (packet_ts-Keeps queued p))
