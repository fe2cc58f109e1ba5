-- ===== src/Dash/Same.antt =====
-- `Flush` and `UpdateInitMp4` of src/dash_muxer.cpp leave the samples and the media data as they are.
use tms.Prelude.{
  ℕ, ◌+◌, ◌*◌, Bool, true, false, Option, none, some, List, ◌||◌, length, ltb, ◌≡◌, refl, arith,
  if◌then◌else◌,
}
use tms.BitStream.{BitStream, size_in_bytes, of_size}
use tms.MediaMuxer.{PayloadType, audio, video, unknown}
use tms.Mp4.Box.{Items, nil, ◌▸◌, write_item, write_items}
use tms.Dash.{DashMuxer, Track, listed, update_mpd, erase_old, track, set_track}
use tms.Dash.Fragment.{movie_fragment_box, write_movie_fragment_box, write_media_data_box}
use tms.Mp4.Tables.{minus32, first_dts}
use tms.Mp4.Movie.{last_dts}
use tms.Mp4.Track.{init_movie_box}
use tms.Mp4.Flush.{file_type_box}
use tms.Dash.Flush.{
  Env, init_muxer, init_file, is_short, leading, write_segment, then_fragment, then_media,
  end_segment, add_segment, flush_track, flush, update_init_track, update_init_mp4,
}

-- What a call leaves, where it does not crash.
abbrev pub OnSome {ℓ} : {A : Type ℓ} → (A → Type 0) → Option A → Type 0
OnSome P none = Unit
OnSome P (some a) = P a

-- The frames of two tracks, and of two muxers, are the same.
abbrev pub SameTrack : Track → Track → Type 0
SameTrack t t' = (t'.samples ≡ t.samples) × (t'.mdat ≡ t.mdat)

abbrev pub Same : DashMuxer → DashMuxer → Type 0
Same m m' = SameTrack m.video_track m'.video_track × SameTrack m.audio_track m'.audio_track

OnSome-bind :
    (P : DashMuxer → Type 0) (Q : DashMuxer → Type 0) (f : DashMuxer → Option DashMuxer)
    (r : Option DashMuxer)
    → OnSome P r
    → ((m : DashMuxer) → P m → OnSome Q (f m))
    → OnSome Q (elim r [ none ↦ none | some m ↦ f m ])
OnSome-bind P Q f none h k = tt
OnSome-bind P Q f (some m) h k = k m h

OnSome-if :
    (P : DashMuxer → Type 0) (b : Bool) (r s : Option DashMuxer)
    → OnSome P r
    → OnSome P s
    → OnSome P (if b then r else s)
OnSome-if P true r s h k = h
OnSome-if P false r s h k = k

-- A segment changes nothing but where the last fragment began.
end_segment_keeps :
    (P : DashMuxer → Type 0) (m : DashMuxer) (r : Option BitStream)
    → P m
    → OnSome (λ x. P x.1) (end_segment m r)
end_segment_keeps P m none h = tt
end_segment_keeps P m (some s) h = h

then_media_keeps :
    (P : DashMuxer → Type 0) (kind : PayloadType) (m : DashMuxer) (r : Option BitStream)
    → P m
    → OnSome (λ x. P x.1) (then_media kind (elim r [ none ↦ none | some s ↦ some (s, m) ]))
then_media_keeps P kind m none h = tt
then_media_keeps P kind m (some s) h = end_segment_keeps P m (write_media_data_box kind m s) h

then_fragment_keeps :
    (P : DashMuxer → Type 0) (kind : PayloadType) (m : DashMuxer) (r : Option BitStream)
    → ((at : ℕ) → P (record m { moof_offset = at }))
    → OnSome (λ x. P x.1) (then_fragment kind m r)
unfolding write_movie_fragment_box
then_fragment_keeps P kind m none h = tt
then_fragment_keeps P kind m (some s) h =
    let m' = record m { moof_offset = size_in_bytes s } in
    then_media_keeps P kind m' (write_item (movie_fragment_box kind m') s) (h (size_in_bytes s))

pub write_segment_keeps :
    (P : DashMuxer → Type 0) (kind : PayloadType) (m : DashMuxer)
    → ((at : ℕ) → P (record m { moof_offset = at }))
    → OnSome (λ x. P x.1) (write_segment kind m)
unfolding write_segment
write_segment_keeps P kind m h =
    then_fragment_keeps P kind m
      (write_items (leading kind m) (of_size (length (track kind m).mdat + 1024 * 128))) h

-- What a half of `Flush` does with the bytes of a segment.
add_segment-Same :
    (kind : PayloadType) (m : DashMuxer) (r : Option (List ℕ × DashMuxer))
    → OnSome (λ x. Same m x.1) r
    → OnSome (Same m) (elim r [
      | none ↦ none
      | some (file, m') ↦ some (set_track kind (add_segment file (track kind m')) m')
    ])
unfolding set_track track add_segment
add_segment-Same kind m none h = tt
add_segment-Same video m (some (file, m')) h = h
add_segment-Same audio m (some (file, m')) h = h
add_segment-Same unknown m (some (file, m')) h = h

set_track-Same :
    (kind : PayloadType) (m : DashMuxer) (t : Track)
    → SameTrack (track kind m) t
    → Same m (set_track kind t m)
unfolding set_track track
set_track-Same video m t h = (h, (refl, refl))
set_track-Same audio m t h = ((refl, refl), h)
set_track-Same unknown m t h = ((refl, refl), h)

pub Same-trans : (a b c : DashMuxer) → Same a b → Same b c → Same a c
Same-trans a b c h k = ground arith

OnSome-weaken {ℓ} :
    {A : Type ℓ} (P Q : A → Type 0) (r : Option A) → ((a : A) → P a → Q a) → OnSome P r → OnSome Q r
OnSome-weaken P Q none f h = tt
OnSome-weaken P Q (some a) f h = f a h

flush_track-Same : (kind : PayloadType) (m : DashMuxer) → OnSome (Same m) (flush_track kind m)
unfolding flush_track
flush_track-Same kind m =
    let m0 = set_track kind (record (track kind m) { m4s = erase_old (track kind m).m4s }) m in
    let r = write_segment kind m0 in
    let begun : Same m m0 =
      set_track-Same kind m (record (track kind m) { m4s = erase_old (track kind m).m4s })
        (refl, refl) in
    let made : OnSome (Same m) (elim r [
      | none ↦ none
      | some (file, m') ↦ some (set_track kind (add_segment file (track kind m')) m')
    ]) =
      add_segment-Same kind m r (
        OnSome-weaken (λ x. Same m0 x.1) (λ x. Same m x.1) r (λ x h. Same-trans m m0 x.1 begun h)
          (write_segment_keeps (Same m0) kind m0 (λ at. ((refl, refl), (refl, refl))))) in
    OnSome-if (Same m) (ltb 1 (length (track kind m).samples))
      (elim r [
        | none ↦ none
        | some (file, m') ↦ some (set_track kind (add_segment file (track kind m')) m')
      ])
      (some m) made ((refl, refl), (refl, refl))

flushed-Same :
    (m m1 : DashMuxer) (r : Option DashMuxer)
    → Same m m1
    → OnSome (Same m1) r
    → OnSome {A = Bool × DashMuxer}
        (λ x. Same m x.1)
        (elim r [ none ↦ none | some m2 ↦ some (true, m2) ])
flushed-Same m m1 none h k = tt
flushed-Same m m1 (some m2) h k = Same-trans m m1 m2 h k

both-Same :
    (m : DashMuxer) (short : Bool) (r : Option DashMuxer)
    → OnSome (Same m) r
    → OnSome {A = Bool × DashMuxer}
        (λ x. Same m x.1)
        (if short then some (false, m) else elim r [
          | none ↦ none
          | some m1 ↦ elim (flush_track audio m1) [ none ↦ none | some m2 ↦ some (true, m2) ]
        ])
both-Same m true r h = ((refl, refl), (refl, refl))
both-Same m false none h = tt
both-Same m false (some m1) h =
    flushed-Same m m1 (flush_track audio m1) h (flush_track-Same audio m1)

pub flush-Same : (m : DashMuxer) → OnSome {A = Bool × DashMuxer} (λ x. Same m x.1) (flush m)
unfolding flush
flush-Same m =
    let ps = m.video_track.samples in
    both-Same m (is_short (minus32 (last_dts ps) (first_dts ps))) (flush_track video m)
      (flush_track-Same video m)

init_file-Same :
    (kind : PayloadType) (m : DashMuxer) (r : Option (List ℕ))
    → OnSome (Same m) (elim r [
      | none ↦ none
      | some file ↦ some (set_track kind (record (track kind m) { init_mp4 = file }) m)
    ])
init_file-Same kind m none = tt
init_file-Same kind m (some file) =
    set_track-Same kind m (record (track kind m) { init_mp4 = file }) (refl, refl)

update_init_track-Same :
    (kind : PayloadType) (env : Env) (m : DashMuxer)
    → OnSome (Same m) (update_init_track kind env m)
unfolding update_init_track
update_init_track-Same kind env m =
    let muxer = init_muxer kind env (track kind m).header in
    let boxes : Items = file_type_box muxer ▸ init_movie_box kind env.movie muxer ▸ nil in
    let r = init_file (write_items boxes (of_size (1024 * 256))) in
    OnSome-if (Same m) (ltb 1 (length (track kind m).samples))
      (elim r [
        | none ↦ none
        | some file ↦ some (set_track kind (record (track kind m) { init_mp4 = file }) m)
      ])
      (some m) (init_file-Same kind m r) ((refl, refl), (refl, refl))

pub update_init_mp4-Same : (env : Env) (m : DashMuxer) → OnSome (Same m) (update_init_mp4 env m)
unfolding update_init_mp4
update_init_mp4-Same env m =
    OnSome-bind (Same m) (Same m) (update_init_track audio env) (update_init_track video env m)
      (update_init_track-Same video env m)
      (λ m1 h.
        OnSome-weaken (Same m1) (Same m) (update_init_track audio env m1)
          (λ m2 k. Same-trans m m1 m2 h k) (update_init_track-Same audio env m1))

if-Same : (b : Bool) (m m' : DashMuxer) → Same m m' → Same m (if b then m else m')
if-Same true m m' h = ((refl, refl), (refl, refl))
if-Same false m m' h = h

pub update_mpd-Same : (m : DashMuxer) → Same m (update_mpd m)
unfolding update_mpd listed
update_mpd-Same m =
    if-Same (ltb m.video_track.sequence 3 || ltb m.audio_track.sequence 3) m
      (record m {
        video_track = (listed m.video_track).1;
        audio_track = (listed m.audio_track).1;
        mpd = some ((listed m.video_track).0, (listed m.audio_track).0);
      })
      ((refl, refl), (refl, refl))
