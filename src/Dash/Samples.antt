-- ===== src/Dash/Samples.antt =====
-- A segment of src/dash_muxer.cpp and the samples that its run lists.
use tms.Prelude.{
  ℕ, Option, none, some, List, [], ◌∷◌, ◌++◌, length, take, drop, ◌≡◌, refl, sym, ap, ap₂, ◌∙◌,
  arith, All,
}
use tms.Prelude.{append-nil, length-take}
use mathlib.Core.Path.{subst}
use tms.MediaMuxer.{PayloadType, audio, video, unknown, Payload, raw_data, raw_len}
use tms.Mp4.Chunks.Group.{back-snoc}
use tms.Mp4.Tables.{sample_len}
use tms.Dash.{DashMuxer, track, left_size}
use tms.Dash.Fragment.{left_of}
use tms.Dash.Hold.{
  audio_bytes, video_bytes, IsFrame, HasAudio, IsPushed, audio_bytes-append, All-last,
}

-- The bytes of a frame in the media data of its kind.
abbrev pub frame_bytes : PayloadType → Payload → List ℕ
frame_bytes video p = p.all_data
frame_bytes audio p = take (raw_len p) (raw_data p)
frame_bytes unknown p = []

abbrev pub all_bytes : PayloadType → List Payload → List ℕ
all_bytes kind [] = []
all_bytes kind (p ∷ ps) = frame_bytes kind p ++ all_bytes kind ps

-- What a player makes of the media data by the sizes in a run: each entry is of a duration, a size and
-- an offset.
abbrev pub cut : List (ℕ × ℕ) → List ℕ → List (List ℕ)
cut (_ ∷ (_, size) ∷ _ ∷ es) xs = take size xs ∷ cut es (drop size xs)
cut _ xs = []

-- A track whose data are the bytes of all samples but the last, and then those that wait for the next
-- segment.
abbrev pub IsReady : PayloadType → DashMuxer → List Payload → Payload → Type 0
IsReady kind m ps p =
    (rest : List ℕ) × ((track kind m).samples ≡ ps ++ (p ∷ []))
    × ((track kind m).mdat ≡ all_bytes kind ps ++ rest)
    × (length rest ≡ left_of kind m)
    × All (λ q. sample_len kind q ≡ length (frame_bytes kind q)) ps

all_bytes-video : (ps : List Payload) → video_bytes ps ≡ all_bytes video ps
all_bytes-video [] = refl
all_bytes-video (p ∷ ps) = ap (λ xs. p.all_data ++ xs) (all_bytes-video ps)

all_bytes-audio : (ps : List Payload) → audio_bytes ps ≡ all_bytes audio ps
all_bytes-audio [] = refl
all_bytes-audio (p ∷ ps) = ap (λ xs. take (raw_len p) (raw_data p) ++ xs) (all_bytes-audio ps)

video-sizes : (ps : List Payload) → All (λ q. sample_len video q ≡ length (frame_bytes video q)) ps
unfolding sample_len
video-sizes [] = tt
video-sizes (p ∷ ps) = (refl, video-sizes ps)

audio-sizes :
    (ps : List Payload) (p : Payload)
    → All IsFrame (ps ++ (p ∷ []))
    → All (λ q. sample_len audio q ≡ length (frame_bytes audio q)) ps
unfolding sample_len
audio-sizes [] p h = tt
audio-sizes (q ∷ ps) p (frame, h) =
    (omega (arith, frame, length-take (raw_len q) (raw_data q)), audio-sizes ps p h)

-- A key frame that has been pushed makes both tracks ready.
pub video-IsReady :
    (p : Payload) (m : DashMuxer) → IsPushed p m → (ps : List Payload) × IsReady video m ps p
unfolding track left_of
video-IsReady p m (ps, samples, mdat, held) = (
  ps,
  (
    [],
    samples,
    mdat ∙ all_bytes-video ps ∙ sym (append-nil (all_bytes video ps)),
    refl,
    video-sizes ps,
  ),
)

pub audio-IsReady :
    (m : DashMuxer) (ps : List Payload) (p : Payload)
    → HasAudio m.audio_track
    → m.audio_track.samples ≡ ps ++ (p ∷ [])
    → IsReady audio m ps p
unfolding track left_of left_size
audio-IsReady m ps p (bytes, all) samples =
    let frames : All IsFrame (ps ++ (p ∷ [])) = subst (All IsFrame) samples all in
    let left : left_size m.audio_track.samples ≡ raw_len p =
      ap left_size samples
      ∙ ap {A = Option Payload} (λ r. elim r [ none ↦ 0 | some q ↦ raw_len q ]) (back-snoc ps p) in
    (
      take (raw_len p) (raw_data p),
      samples,
      bytes
          ∙ ap audio_bytes samples
          ∙ audio_bytes-append ps (p ∷ [])
          ∙ ap₂ (λ xs ys. xs ++ ys) (all_bytes-audio ps)
              (append-nil (take (raw_len p) (raw_data p))),
      omega (arith, left, All-last IsFrame ps p frames, length-take (raw_len p) (raw_data p)),
      audio-sizes ps p frames,
    )
