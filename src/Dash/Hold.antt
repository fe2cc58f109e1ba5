-- ===== src/Dash/Hold.antt =====
-- The media data of a track in src/dash_muxer.cpp and its samples, and what `Reset` leaves of them.
use tms.Prelude.{
  ℕ, ◌+◌, ◌-◌, ◌%◌, ◌^◌, ◌≤◌, ◌<◌, Option, none, some, List, [], ◌∷◌, ◌++◌, length, take, drop, ◌≡◌,
  refl, sym, ap, ◌∙◌, arith, All,
}
use tms.Prelude.{length-append, append_assoc, length-take, drop-length_append}
use mathlib.Core.Path.{subst}
use tms.MediaMuxer.{Payload, raw_data, raw_len}
use tms.Mp4.{back}
use tms.Mp4.Chunks.Group.{back-snoc}
use tms.Dash.{DashMuxer, Track, keep_last, left_size, reset_audio}
use tms.Dash.Same.{Same}

-- The bytes of frames as they go into the media data.
abbrev pub audio_bytes : List Payload → List ℕ
audio_bytes [] = []
audio_bytes (p ∷ ps) = take (raw_len p) (raw_data p) ++ audio_bytes ps

abbrev pub video_bytes : List Payload → List ℕ
video_bytes [] = []
video_bytes (p ∷ ps) = p.all_data ++ video_bytes ps

abbrev pub IsFrame : Payload → Type 0
IsFrame p = raw_len p ≤ length (raw_data p)

abbrev pub HasAudio : Track → Type 0
HasAudio t = (t.mdat ≡ audio_bytes t.samples) × All IsFrame t.samples

-- The media data of each track are the bytes of its samples.
abbrev pub IsHeld : DashMuxer → Type 0
IsHeld m = (m.video_track.mdat ≡ video_bytes m.video_track.samples) × HasAudio m.audio_track

-- The same, where the last video sample's bytes are not there yet.
abbrev pub IsPushed : Payload → DashMuxer → Type 0
IsPushed p m =
    (ps : List Payload) × (m.video_track.samples ≡ ps ++ (p ∷ []))
    × (m.video_track.mdat ≡ video_bytes ps)
    × HasAudio m.audio_track

pub audio_bytes-append :
    (ps qs : List Payload) → audio_bytes (ps ++ qs) ≡ audio_bytes ps ++ audio_bytes qs
audio_bytes-append [] qs = refl
audio_bytes-append (p ∷ ps) qs =
    let bytes = take (raw_len p) (raw_data p) in
    ap (λ xs. bytes ++ xs) (audio_bytes-append ps qs)
    ∙ sym (append_assoc bytes (audio_bytes ps) (audio_bytes qs))

pub video_bytes-append :
    (ps qs : List Payload) → video_bytes (ps ++ qs) ≡ video_bytes ps ++ video_bytes qs
video_bytes-append [] qs = refl
video_bytes-append (p ∷ ps) qs =
    ap (λ xs. p.all_data ++ xs) (video_bytes-append ps qs)
    ∙ sym (append_assoc p.all_data (video_bytes ps) (video_bytes qs))

pub Same-IsPushed : (p : Payload) (m m' : DashMuxer) → IsPushed p m → Same m m' → IsPushed p m'
Same-IsPushed p m m' (ps, samples, mdat, (whole, all)) ((vs, vm), (aps, am)) = (
  ps,
  vs ∙ samples,
  vm ∙ mdat,
  (am ∙ whole ∙ ap audio_bytes (sym aps), subst (All IsFrame) (sym aps) all),
)

-- A list, and its last member.
snoc_cases {ℓ} :
    {A : Type ℓ} (a : A) (xs : List A) → (ys : List A) × (y : A) × (a ∷ xs ≡ ys ++ (y ∷ []))
snoc_cases a [] = ([], a, refl)
snoc_cases a (b ∷ xs) = let (ys, y, e) = snoc_cases b xs in (a ∷ ys, y, ap (λ l. a ∷ l) e)

pub All-last {ℓ κ} :
    {A : Type ℓ} (P : A → Type κ) (xs : List A) (y : A) → All P (xs ++ (y ∷ [])) → P y
All-last P [] y (h, _) = h
All-last P (x ∷ xs) y (_, h) = All-last P xs y h

-- `Reset` of the audio track, by what the last sample is.
abbrev by_back : Track → Option Payload → Track
by_back t none = t
by_back t (some p) = record t {
  samples = p ∷ [];
  mdat = drop ((length t.mdat + 2 ^ 64 - raw_len p) % 2 ^ 64) t.mdat;
}

abbrev at_back : Track → Option Payload → Option Payload → Track
at_back t r s = elim r [
  | none ↦ t
  | some p ↦ record t {
    samples = elim s [ none ↦ [] | some q ↦ q ∷ [] ];
    mdat =
        drop ((length t.mdat + 2 ^ 64 - (elim s [ none ↦ 0 | some q ↦ raw_len q ])) % 2 ^ 64)
          t.mdat;
  }
]

reset_audio-by_back :
    (t : Track) (r : Option Payload) → back t.samples ≡ r → reset_audio t ≡ by_back t r
unfolding reset_audio keep_last left_size
reset_audio-by_back t none e = ap (λ x. at_back t x x) e
reset_audio-by_back t (some p) e = ap (λ x. at_back t x x) e

-- What stays of the audio data are the bytes of the last sample.
by_back-HasAudio :
    (t : Track) (ps : List Payload) (p : Payload)
    → t.samples ≡ ps ++ (p ∷ [])
    → HasAudio t
    → length t.mdat < 2 ^ 64
    → HasAudio (by_back t (some p))
by_back-HasAudio t ps p e (bytes, all) bound =
    let frame : IsFrame p = All-last IsFrame ps p (subst (All IsFrame) e all) in
    let last = take (raw_len p) (raw_data p) ++ [] in
    let whole : t.mdat ≡ audio_bytes ps ++ last =
      bytes ∙ ap audio_bytes e ∙ audio_bytes-append ps (p ∷ []) in
    let size : length last ≡ raw_len p = omega (
      arith,
      frame,
      length-append (take (raw_len p) (raw_data p)) [],
      length-take (raw_len p) (raw_data p),
    ) in
    let before : (length t.mdat + 2 ^ 64 - raw_len p) % 2 ^ 64 ≡ length (audio_bytes ps) =
      omega (arith, bound, size, ap length whole, length-append (audio_bytes ps) last) in
    (
      ap (λ n. drop n t.mdat) before
          ∙ ap (drop (length (audio_bytes ps))) whole
          ∙ drop-length_append (audio_bytes ps) last,
      (frame, tt),
    )

reset-last :
    (t : Track) (ps : List Payload)
    → t.samples ≡ ps
    → HasAudio t
    → length t.mdat < 2 ^ 64
    → HasAudio (reset_audio t)
reset-last t [] e h bound = subst HasAudio (sym (reset_audio-by_back t none (ap back e))) h
reset-last t (q ∷ qs) e h bound =
    let (ps, p, split) = snoc_cases q qs in
    subst HasAudio (sym (reset_audio-by_back t (some p) (ap back (e ∙ split) ∙ back-snoc ps p)))
      (by_back-HasAudio t ps p (e ∙ split) h bound)

pub reset_audio-HasAudio :
    (t : Track) → HasAudio t → length t.mdat < 2 ^ 64 → HasAudio (reset_audio t)
reset_audio-HasAudio t h bound = reset-last t t.samples refl h bound
