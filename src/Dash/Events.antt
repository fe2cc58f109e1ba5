-- ===== src/Dash/Events.antt =====
-- The calls that give `DashMuxer` of src/dash_muxer.cpp a frame or a header keep the media data of a track
-- in step with its samples.
use tms.Prelude.{
  ℕ, ◌^◌, ◌<◌, Bool, true, false, Option, none, some, List, [], ◌∷◌, ◌++◌, length, take, leb, ◌≡◌,
  refl, sym, ap, ◌∙◌, if◌then◌else◌,
}
use tms.Prelude.{append-nil, All-append, leb→le}
use mathlib.Core.Path.{subst}
use tms.MediaMuxer.{Payload, raw_data, raw_len}
use tms.Mp4.Chunks.Group.{back-snoc}
use tms.Dash.{
  DashMuxer, push_sample, append, on_audio, on_video_header, on_audio_header, keep_last, reset,
  update_mpd,
}
use tms.Dash.Flush.{Env, flush, update_init_mp4, on_key_frame, append_video, on_video}
use tms.Dash.Same.{OnSome, Same, flush-Same, update_init_mp4-Same, update_mpd-Same, Same-trans}
use tms.Dash.Hold.{
  audio_bytes, video_bytes, IsFrame, IsHeld, IsPushed, audio_bytes-append, video_bytes-append,
  Same-IsPushed, reset_audio-HasAudio,
}

-- `Reset` keeps the last sample of each track.
keep_last-snoc : (ps : List Payload) (p : Payload) → keep_last (ps ++ (p ∷ [])) ≡ p ∷ []
unfolding keep_last
keep_last-snoc ps p =
    ap {A = Option Payload} (λ r. elim r [ none ↦ [] | some q ↦ q ∷ [] ]) (back-snoc ps p)

reset-IsPushed :
    (p : Payload) (m : DashMuxer)
    → IsPushed p m
    → length m.audio_track.mdat < 2 ^ 64
    → IsPushed p (reset m)
unfolding reset
reset-IsPushed p m (ps, samples, mdat, held) bound = (
  [],
  ap keep_last samples ∙ keep_last-snoc ps p,
  refl,
  reset_audio-HasAudio m.audio_track held bound,
)

ended-IsPushed :
    (p : Payload) (m : DashMuxer) (r : Option DashMuxer)
    → IsPushed p m
    → length m.audio_track.mdat < 2 ^ 64
    → OnSome (Same m) r
    → OnSome (IsPushed p) (elim r [ none ↦ none | some m2 ↦ some (reset (update_mpd m2)) ])
ended-IsPushed p m none h bound same = tt
ended-IsPushed p m (some m2) h bound same =
    let all : Same m (update_mpd m2) = Same-trans m m2 (update_mpd m2) same (update_mpd-Same m2) in
    reset-IsPushed p (update_mpd m2) (Same-IsPushed p m (update_mpd m2) h all)
      (subst (λ xs. length xs < 2 ^ 64) (sym all.1.1) bound)

after_flush :
    (env : Env) (p : Payload) (m : DashMuxer) (r : Option (Bool × DashMuxer))
    → IsPushed p m
    → length m.audio_track.mdat < 2 ^ 64
    → OnSome {A = Bool × DashMuxer} (λ x. Same m x.1) r
    → OnSome (IsPushed p) (elim r [
      | none ↦ none
      | some (done, m1) ↦
          let ended : Option DashMuxer = elim (update_init_mp4 env m1) [
            | none ↦ none
            | some m2 ↦ some (reset (update_mpd m2))
          ] in
          if done then ended else some m1
    ])
after_flush env p m none h bound same = tt
after_flush env p m (some (true, m1)) h bound same =
    ended-IsPushed p m1 (update_init_mp4 env m1) (Same-IsPushed p m m1 h same)
      (subst (λ xs. length xs < 2 ^ 64) (sym same.1.1) bound) (update_init_mp4-Same env m1)
after_flush env p m (some (false, m1)) h bound same = Same-IsPushed p m m1 h same

on_key_frame-IsPushed :
    (env : Env) (p : Payload) (m : DashMuxer)
    → IsPushed p m
    → length m.audio_track.mdat < 2 ^ 64
    → OnSome (IsPushed p) (on_key_frame env m)
unfolding on_key_frame
on_key_frame-IsPushed env p m h bound = after_flush env p m (flush m) h bound (flush-Same m)

append_video-IsHeld :
    (p : Payload) (r : Option DashMuxer) → OnSome (IsPushed p) r → OnSome IsHeld (append_video p r)
append_video-IsHeld p none h = tt
append_video-IsHeld p (some m) (ps, samples, mdat, held) = (
  ap (λ xs. xs ++ p.all_data) mdat
      ∙ ap (λ xs. video_bytes ps ++ xs) (sym (append-nil p.all_data))
      ∙ sym (video_bytes-append ps (p ∷ []))
      ∙ ap video_bytes (sym samples),
  held,
)

if-IsPushed :
    (p : Payload) (b : Bool) (r : Option DashMuxer) (m : DashMuxer)
    → OnSome (IsPushed p) r
    → IsPushed p m
    → OnSome (IsPushed p) (if b then r else some m)
if-IsPushed p true r m h k = h
if-IsPushed p false r m h k = k

on_video-IsHeld :
    (env : Env) (p : Payload) (m : DashMuxer)
    → IsHeld m
    → length m.audio_track.mdat < 2 ^ 64
    → OnSome IsHeld (on_video env p m)
unfolding on_video
on_video-IsHeld env p m (bytes, held) bound =
    let pushed = record m { video_track = push_sample p m.video_track } in
    let begun : IsPushed p pushed = (m.video_track.samples, refl, bytes, held) in
    append_video-IsHeld p (if p.is_i_frame then on_key_frame env pushed else some pushed) (
      if-IsPushed p p.is_i_frame (on_key_frame env pushed) pushed
        (on_key_frame-IsPushed env p pushed begun bound) begun)

add_audio-IsHeld :
    (p : Payload) (m : DashMuxer) (b : Bool)
    → leb (raw_len p) (length (raw_data p)) ≡ b
    → IsHeld m
    → OnSome IsHeld (
        if b
        then some (record m {
          audio_track = append (take (raw_len p) (raw_data p)) (push_sample p m.audio_track);
        })
        else none)
add_audio-IsHeld p m false e h = tt
add_audio-IsHeld p m true e (bytes, (whole, all)) =
    let new = take (raw_len p) (raw_data p) in
    let ps = m.audio_track.samples in
    (
      bytes,
      (
        ap (λ xs. xs ++ new) whole
            ∙ ap (λ xs. audio_bytes ps ++ xs) (sym (append-nil new))
            ∙ sym (audio_bytes-append ps (p ∷ [])),
        All-append IsFrame ps (p ∷ []) all (leb→le (raw_len p) (length (raw_data p)) e, tt),
      ),
    )

on_audio-IsHeld : (p : Payload) (m : DashMuxer) → IsHeld m → OnSome IsHeld (on_audio p m)
unfolding on_audio
on_audio-IsHeld p m h = add_audio-IsHeld p m (leb (raw_len p) (length (raw_data p))) refl h

-- The calls that give the muxer something.
pub data Event : Type 0 where
  audio_frame : Payload → Event
  video_frame : Env → Payload → Event
  audio_header : List ℕ → Event
  video_header : List ℕ → Event

unfoldable pub on_event : Event → DashMuxer → Option DashMuxer
unfolding on_audio on_video on_audio_header on_video_header
on_event (audio_frame p) m = on_audio p m
on_event (video_frame env p) m = on_video env p m
on_event (audio_header header) m = some (on_audio_header header m)
on_event (video_header header) m = some (on_video_header header m)

-- Where the media data of each track are the bytes of its samples, each audio frame with its header of
-- two bytes, and the audio data are less than 2 ^ 64 bytes, that holds after each call that gives the
-- muxer a frame or a header and comes back, a key frame that ends a segment included.
pub on_event-IsHeld :
    (e : Event) (m : DashMuxer)
    → IsHeld m
    → length m.audio_track.mdat < 2 ^ 64
    → OnSome IsHeld (on_event e m)
unfolding on_event on_audio_header on_video_header
on_event-IsHeld (audio_frame p) m h bound = on_audio-IsHeld p m h
on_event-IsHeld (video_frame env p) m h bound = on_video-IsHeld env p m h bound
on_event-IsHeld (audio_header header) m h bound = h
on_event-IsHeld (video_header header) m h bound = h
