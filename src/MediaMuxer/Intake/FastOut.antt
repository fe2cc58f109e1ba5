-- ===== src/MediaMuxer/Intake/FastOut.antt =====
-- The order of what `GetFastOut` of src/media_muxer.cpp returns.
use tms.Prelude.{ℕ, ◌≤◌, ◌<◌, List, [], ◌∷◌, ltb, ◌≡◌, sym, arith, All, Bool-cases, inl, inr}
use mathlib.Core.Path.{subst}
use tms.MediaMuxer.{MediaMuxer, Payload}
use tms.MediaMuxer.Frames.{since}
use tms.MediaMuxer.Intake.{merge, get_fast_out}

-- The third list has the frames of the first two and no others, each of the two in its order.
pub data Interleaves : List Payload → List Payload → List Payload → Type 0 where
  done : Interleaves [] [] []
  left :
      (a : Payload) {xs ys zs : List Payload}
      → Interleaves xs ys zs
      → Interleaves (a ∷ xs) ys (a ∷ zs)
  right :
      (a : Payload) {xs ys zs : List Payload}
      → Interleaves xs ys zs
      → Interleaves xs (a ∷ ys) (a ∷ zs)

-- Decoding times do not fall.
abbrev pub InOrder : List Payload → Type 0
InOrder [] = Unit
InOrder (p ∷ ps) = All (λ q. p.dts ≤ q.dts) ps × InOrder ps

all_right : (ys : List Payload) → Interleaves [] ys ys
all_right [] = done
all_right (y ∷ ys) = right y (all_right ys)

all_left : (xs : List Payload) → Interleaves xs [] xs
all_left [] = done
all_left (x ∷ xs) = left x (all_left xs)

merge-video :
    (a v : Payload) (xs ys : List Payload)
    → v.dts < a.dts
    → merge (a ∷ xs) (v ∷ ys) ≡ v ∷ merge (a ∷ xs) ys
unfolding merge
merge-video a v xs ys h = ground arith

merge-audio :
    (a v : Payload) (xs ys : List Payload)
    → a.dts ≤ v.dts
    → merge (a ∷ xs) (v ∷ ys) ≡ a ∷ merge xs (v ∷ ys)
unfolding merge
merge-audio a v xs ys h = ground arith

merge-Interleaves : (xs ys : List Payload) → Interleaves xs ys (merge xs ys)
unfolding merge
merge-Interleaves [] ys = all_right ys
merge-Interleaves (a ∷ xs) [] = all_left (a ∷ xs)
merge-Interleaves (a ∷ xs) (v ∷ ys) = elim (Bool-cases (ltb v.dts a.dts)) [
  | inl e ↦
      subst (Interleaves (a ∷ xs) (v ∷ ys)) (sym (merge-video a v xs ys (ground arith)))
        (right v (merge-Interleaves (a ∷ xs) ys))
  | inr e ↦
      subst (Interleaves (a ∷ xs) (v ∷ ys)) (sym (merge-audio a v xs ys (ground arith)))
        (left a (merge-Interleaves xs (v ∷ ys)))
]

-- What holds of the frames of both lists holds of the merged ones.
Interleaves-All :
    (P : Payload → Type 0) {xs ys zs : List Payload}
    → Interleaves xs ys zs
    → All P xs
    → All P ys
    → All P zs
Interleaves-All P done h k = tt
Interleaves-All P (left a i) (p, h) k = (p, Interleaves-All P i h k)
Interleaves-All P (right a i) h (p, k) = (p, Interleaves-All P i h k)

later : (d e : ℕ) (ps : List Payload) → d ≤ e → All (λ q. e ≤ q.dts) ps → All (λ q. d ≤ q.dts) ps
later d e [] h k = tt
later d e (p ∷ ps) h (l, k) = (omega arith, later d e ps h k)

merge-InOrder : (xs ys : List Payload) → InOrder xs → InOrder ys → InOrder (merge xs ys)
unfolding merge
merge-InOrder [] ys hx hy = hy
merge-InOrder (a ∷ xs) [] hx hy = hx
merge-InOrder (a ∷ xs) (v ∷ ys) (ha, hx) (hv, hy) = elim (Bool-cases (ltb v.dts a.dts)) [
  | inl e ↦
      let l : v.dts ≤ a.dts = ground arith in
      subst InOrder (sym (merge-video a v xs ys (ground arith))) (
        Interleaves-All (λ q. v.dts ≤ q.dts) (merge-Interleaves (a ∷ xs) ys)
            (l, later v.dts a.dts xs l ha) hv,
        merge-InOrder (a ∷ xs) ys (ha, hx) hy,
      )
  | inr e ↦
      let l : a.dts ≤ v.dts = ground arith in
      subst InOrder (sym (merge-audio a v xs ys l)) (
        Interleaves-All (λ q. a.dts ≤ q.dts) (merge-Interleaves xs (v ∷ ys)) ha
            (l, later a.dts v.dts ys l hv),
        merge-InOrder xs (v ∷ ys) hx (hv, hy),
      )
]

-- Where the audio frames from the last key frame on and the video frames are each in the order of
-- their decoding times, `GetFastOut` returns all of them and nothing else, each kind in its order,
-- and in the order of decoding times.
pub get_fast_out_lem :
    (m : MediaMuxer)
    → InOrder (since m.pre_audio_key_frame_id m.audio_queue)
    → InOrder (since m.pre_video_key_frame_id m.video_queue)
    → Interleaves
        (since m.pre_audio_key_frame_id m.audio_queue)
        (since m.pre_video_key_frame_id m.video_queue)
        (get_fast_out m)
      × InOrder (get_fast_out m)
unfolding get_fast_out
get_fast_out_lem m ha hv =
    let audios = since m.pre_audio_key_frame_id m.audio_queue in
    let videos = since m.pre_video_key_frame_id m.video_queue in
    (merge-Interleaves audios videos, merge-InOrder audios videos ha hv)
