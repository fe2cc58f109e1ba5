-- ===== src/MediaMuxer/Service.antt =====
-- A publisher of src/media_publisher.cpp at work: subscribers come and go while the muxer of
-- src/media_muxer.cpp receives headers and frames.
use tms.Prelude.{ℕ, List, [], some, ◌≡◌, refl, arith}
use tms.Crc32
use tms.Publisher.{count}
use tms.MediaMuxer.{MediaMuxer, Payload, new_media_muxer, on_meta_data, every_n_second}
use tms.MediaMuxer.Packet.{packed}
use tms.MediaMuxer.Packet.Keep.{Keeps, SameHeaders}
use tms.MediaMuxer.Intake.{on_audio, on_video}
use tms.MediaMuxer.Intake.Keep.{on_audio-Keeps, on_video-Keeps}
use tms.MediaMuxer.Headers.{Live, Calls, subscribe, unsubscribe, on_video_header, on_audio_header}
use tms.MediaMuxer.Headers.Waiting.{
  IsLive, subscribe-IsLive, unsubscribe-IsLive, on_video_header-IsLive, on_audio_header-IsLive,
}
use mathlib.Core.Path.{subst}

-- Before anything happened.
unfoldable pub new_live : Crc32.Tables → Live
unfolding new_media_muxer
new_live t = record {
  subscriber = [];
  wait_header_subscriber = [];
  media_muxer = new_media_muxer t;
}

module _ (seconds : ℕ → ℕ → List ℕ) where
  -- What can happen. A frame or a header that ends in a fault is the end of the program.
  pub data Step : Live → Live → Type 0 where
    joins : (s : ℕ) (l : Live) → Step l (subscribe s l).1
    leaves : (s : ℕ) (l : Live) → Step l (unsubscribe s l)
    video_header :
        (header : List ℕ) (l l' : Live) (calls : Calls)
        → on_video_header header l ≡ some (calls, l')
        → Step l l'
    audio_header : (header : List ℕ) (l : Live) → Step l (on_audio_header header l).1
    meta_data :
        (metadata : List ℕ) (l : Live)
        → Step l (record l { media_muxer = on_meta_data metadata l.media_muxer })
    audio :
        (p : Payload) (l : Live) (ps : List (List ℕ)) (m : MediaMuxer)
        → on_audio l.media_muxer p ≡ packed ps m
        → Step l (record l { media_muxer = m })
    video :
        (p : Payload) (l : Live) (ps : List (List ℕ)) (m : MediaMuxer)
        → on_video seconds l.media_muxer p ≡ packed ps m
        → Step l (record l { media_muxer = m })
    timer :
        (now_in_ms : ℕ) (l : Live)
        → Step l (record l { media_muxer = every_n_second now_in_ms l.media_muxer })

  pub data Reach (t : Crc32.Tables) : Live → Type 0 where
    start : Reach t (new_live t)
    next : {l l' : Live} → Reach t l → Step l l' → Reach t l'

with_muxer-IsLive :
    (l : Live) (m : MediaMuxer)
    → SameHeaders l.media_muxer m
    → IsLive l
    → IsLive (record l { media_muxer = m })
with_muxer-IsLive l m (a, v) ok = record { none_wait = rw (a, v) ok.none_wait; apart = ok.apart }

on_meta_data-SameHeaders : (h : List ℕ) (m : MediaMuxer) → SameHeaders m (on_meta_data h m)
unfolding on_meta_data
on_meta_data-SameHeaders h m = ground arith

every_n_second-SameHeaders : (n : ℕ) (m : MediaMuxer) → SameHeaders m (every_n_second n m)
unfolding every_n_second
every_n_second-SameHeaders n m = ground arith

module _ (seconds : ℕ → ℕ → List ℕ) where
  Step-IsLive : {l l' : Live} → Step seconds l l' → IsLive l → IsLive l'
  Step-IsLive (joins s l) ok = subscribe-IsLive s l ok
  Step-IsLive (leaves s l) ok = unsubscribe-IsLive s l ok
  Step-IsLive (video_header h l l' calls e) ok = on_video_header-IsLive h l l' calls ok e
  Step-IsLive (audio_header h l) ok = on_audio_header-IsLive h l ok
  Step-IsLive (meta_data h l) ok =
      with_muxer-IsLive l (on_meta_data h l.media_muxer) (on_meta_data-SameHeaders h l.media_muxer)
        ok
  Step-IsLive (audio p l ps m e) ok =
      with_muxer-IsLive l m (subst (Keeps l.media_muxer) e (on_audio-Keeps l.media_muxer p)) ok
  Step-IsLive (video p l ps m e) ok =
      with_muxer-IsLive l m (subst (Keeps l.media_muxer) e (on_video-Keeps seconds l.media_muxer p))
        ok
  Step-IsLive (timer n l) ok =
      with_muxer-IsLive l (every_n_second n l.media_muxer)
        (every_n_second-SameHeaders n l.media_muxer) ok

  new_live-IsLive : (t : Crc32.Tables) → IsLive (new_live t)
  unfolding new_live count
  new_live-IsLive t = record { none_wait = refl; apart = λ x. refl }

  -- Whatever happens to a publisher, and in whichever order: once the headers of audio and video are
  -- both there nobody waits for them, and nobody both waits and is subscribed.
  pub Reach-IsLive : (t : Crc32.Tables) {l : Live} → Reach seconds t l → IsLive l
  Reach-IsLive t start = new_live-IsLive t
  Reach-IsLive t (next r step) = Step-IsLive step (Reach-IsLive t r)
