-- ===== src/Dash/Adds.antt =====
-- A half of `Flush` of src/dash_muxer.cpp as it changes a track.
use tms.Prelude.{
  ℕ, ◌≤◌, true, Option, none, some, List, length, ltb, ◌≡◌, refl, sym, ap, ◌∙◌, arith,
  if◌then◌else◌,
}
use mathlib.Core.Path.{subst}
use tms.MediaMuxer.{PayloadType, audio, video, unknown}
use tms.Dash.{DashMuxer, Track, track, set_track, erase_old}
use tms.Dash.Flush.{add_segment, flush_track, write_segment}
use tms.Dash.Same.{OnSome, write_segment_keeps}
use tms.Dash.Served.{add}

-- What a half of `Flush` makes of a track: the segment's file, and the track.
abbrev AddsTo : PayloadType → DashMuxer → DashMuxer → Type 0
AddsTo kind m m' =
    (file : List ℕ) × (track kind m'
      ≡ add (record { file = file; samples = (track kind m).samples }) (track kind m))

track-set_track :
    (kind : PayloadType) (t : Track) (m : DashMuxer) → track kind (set_track kind t m) ≡ t
unfolding track set_track
track-set_track video t m = refl
track-set_track audio t m = refl
track-set_track unknown t m = refl

track_moved :
    (kind : PayloadType) (at : ℕ) (m : DashMuxer)
    → track kind (record m { moof_offset = at }) ≡ track kind m
unfolding track
track_moved video at m = refl
track_moved audio at m = refl
track_moved unknown at m = refl

stored-AddsTo :
    (kind : PayloadType) (m : DashMuxer) (t : Track) (r : Option (List ℕ × DashMuxer))
    → OnSome (λ x. track kind x.1 ≡ t) r
    → ((file : List ℕ)
        → add_segment file t
          ≡ add (record { file = file; samples = (track kind m).samples }) (track kind m))
    → OnSome (AddsTo kind m) (elim r [
      | none ↦ none
      | some (file, m') ↦ some (set_track kind (add_segment file (track kind m')) m')
    ])
stored-AddsTo kind m t none h k = tt
stored-AddsTo kind m t (some (file, m')) h k = (
  file,
  track-set_track kind (add_segment file (track kind m')) m' ∙ ap (add_segment file) h ∙ k file,
)

-- A half of `Flush` on two samples or more, where it comes back, does with the track what `add` does
-- with a segment of the samples.
pub flush_track-add :
    (kind : PayloadType) (m : DashMuxer)
    → 2 ≤ length (track kind m).samples
    → OnSome (AddsTo kind m) (flush_track kind m)
unfolding flush_track
flush_track-add kind m two =
    let t : Track = record (track kind m) { m4s = erase_old (track kind m).m4s } in
    let made = write_segment kind (set_track kind t m) in
    let stored : OnSome (AddsTo kind m) (elim made [
      | none ↦ none
      | some (file, m') ↦ some (set_track kind (add_segment file (track kind m')) m')
    ]) =
      stored-AddsTo kind m t made
        (write_segment_keeps (λ x. track kind x ≡ t) kind (set_track kind t m)
          (λ at. track_moved kind at (set_track kind t m) ∙ track-set_track kind t m))
        (λ file. refl) in
    let test : ltb 1 (length (track kind m).samples) ≡ true = ground arith in
    subst
      (λ b. OnSome (AddsTo kind m) (
        if b
        then elim made [
          | none ↦ none
          | some (file, m') ↦ some (set_track kind (add_segment file (track kind m')) m')
        ]
        else some m))
      (sym test) stored
