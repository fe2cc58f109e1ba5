-- ===== src/Mp4/Chunks/Find.antt =====
-- A group of pictures in src/mp4_muxer.cpp: its frames, added one after the other, and what a player
-- finds in its media data.
use tms.Prelude.{
  ℕ, ◌+◌, ◌^◌, ◌≤◌, ◌<◌, true, Option, none, some, List, [], ◌∷◌, ◌++◌, ◌≡◌, refl, sym, ap, ◌∙◌,
  arith, length, take, leb, if◌then◌else◌, append-nil, inl, inr, ◌⊎◌, All,
}
use tms.Prelude.{length-append, length-take, length-drop}
use mathlib.Core.Path.{subst}
use tms.MediaMuxer.{PayloadType, audio, video, unknown, Payload, raw_data, raw_len}
use tms.Mp4.{
  Mp4Muxer, Chunk, is_kind, back, push_offset, cal_chunk, cal_chunk_at, on_audio, add_video, reset,
}
use tms.Mp4.Tables.{samples, chunks_of, chunk_offsets}
use tms.Mp4.Flush.{close_group}
use tms.Mp4.Chunks.{sample_bytes, bytes_of, joined, Filled}
use tms.Mp4.Chunks.Group.{
  IsKnown, Building, Fresh, feed, mdat-feed, back-snoc, chunks_of-snoc, Held-end,
}
use tms.Mp4.Chunks.Step.{chunk_offsets-push_offset}
use tms.Mp4.Chunks.Keep.{cal_chunk-Building}

-- A frame behind the key frame that began the group, by its kind, and frames in a row.
unfoldable pub add_frame : PayloadType → Payload → Mp4Muxer → Option Mp4Muxer
unfolding on_audio add_video
add_frame audio p m = on_audio p m
add_frame video p m = some (add_video p m)
add_frame unknown p m = none

unfoldable pub add_all : List Payload → Mp4Muxer → Option Mp4Muxer
unfolding add_frame
add_all [] m = some m
add_all (p ∷ ps) m = elim (add_frame p.payload_type p m) [ none ↦ none | some m' ↦ add_all ps m' ]

-- A frame of audio has its two bytes of header.
abbrev pub IsFrameOf : PayloadType → Payload → Type 0
IsFrameOf audio p = 2 ≤ length p.all_data
IsFrameOf video p = Unit
IsFrameOf unknown p = ⊥

abbrev pub IsFrame : Payload → Type 0
IsFrame p = IsFrameOf p.payload_type p

abbrev pub total_len : List Payload → ℕ
total_len [] = 0
total_len (p ∷ ps) = length p.all_data + total_len ps

cal_chunk_at-more :
    (dts len : ℕ) (k : PayloadType) (o : Option Chunk) (n : Mp4Muxer) (ps : List Payload)
    → (let m = cal_chunk_at dts len k o n in record m { video_samples = m.video_samples ++ ps })
      ≡ cal_chunk_at dts len k o (record n { video_samples = n.video_samples ++ ps })
unfolding cal_chunk_at
cal_chunk_at-more dts len k none n ps = refl
cal_chunk_at-more dts len k (some c) n ps = ground arith

add_video-feed :
    (p : Payload) (m : Mp4Muxer)
    → add_video p m ≡ cal_chunk p.dts (length p.all_data) video (feed video p m)
unfolding add_video cal_chunk sample_bytes
add_video-feed p m =
    cal_chunk_at-more p.dts (length p.all_data) video (back m.chunk)
      (record m { mdat = m.mdat ++ p.all_data }) (p ∷ [])

raw_data-le : (p : Payload) → length (raw_data p) ≤ length p.all_data
unfolding raw_data
raw_data-le p = ground (arith, length-drop 2 p.all_data, length-drop 4 p.all_data)

raw_len-le :
    (p : Payload) → p.payload_type ≡ audio → 2 ≤ length p.all_data → raw_len p ≤ length (raw_data p)
unfolding raw_len raw_data
raw_len-le p a h = ground (arith, length-drop 2 p.all_data)

on_audio-feed :
    (p : Payload) (m : Mp4Muxer)
    → p.payload_type ≡ audio
    → 2 ≤ length p.all_data
    → on_audio p m ≡ some (cal_chunk p.dts (length (sample_bytes audio p)) audio (feed audio p m))
unfolding on_audio sample_bytes raw_data raw_len is_kind
on_audio-feed p m a h =
    let bs = take (raw_len p) (raw_data p) in
    let l = raw_len-le p a h in
    let fits : leb (raw_len p) (length (raw_data p)) ≡ true = ground arith in
    let len : raw_len p ≡ length bs = omega (arith, length-take (raw_len p) (raw_data p)) in
    ap (λ b. if b then some (cal_chunk p.dts (raw_len p) audio (feed audio p m)) else none) fits
    ∙ ap (λ k. some (cal_chunk p.dts k audio (feed audio p m))) len

-- Once the group is closed, the offsets and counts of each track lead to the samples of the track, in
-- order and to all of them.
abbrev pub IsFound : Mp4Muxer → Type 0
IsFound m =
    (kind : PayloadType)
    → IsKnown kind
    → Filled (chunk_offsets kind m) (chunks_of kind m.chunk) (bytes_of kind (samples kind m)) m.mdat

Filled-cong :
    (os os' : List ℕ) (cs cs' : List Chunk) (ss ss' : List (List ℕ)) (d d' : List ℕ)
    → os ≡ os'
    → cs ≡ cs'
    → ss ≡ ss'
    → d ≡ d'
    → Filled os cs ss d
    → Filled os' cs' ss' d'
Filled-cong os os' cs cs' ss ss' d d' o c s e h =
    subst (λ x. Filled os' cs' ss' x) e
      (subst (λ x. Filled os' cs' x d) s
        (subst (λ x. Filled os' x ss d) c (subst (λ x. Filled x cs ss d) o h)))

module _ (m : Mp4Muxer) (kind : PayloadType) (offset : ℕ) where
  mdat-push_offset : (push_offset kind offset m).mdat ≡ m.mdat
  unfolding push_offset
  mdat-push_offset = ground arith

  chunk-push_offset : (push_offset kind offset m).chunk ≡ m.chunk
  unfolding push_offset
  chunk-push_offset = ground arith

  samples-push_offset :
      (track : PayloadType) → samples track (push_offset kind offset m) ≡ samples track m
  unfolding push_offset samples
  samples-push_offset track = ground arith

abbrev close_at : Mp4Muxer → Option Chunk → Mp4Muxer
close_at m o = elim o [ none ↦ m | some c ↦ push_offset c.payload_type m.chunk_offset m ]

Fresh-IsFound : (m : Mp4Muxer) → Fresh m → IsFound (close_group m)
unfolding close_group chunks_of
Fresh-IsFound m f kind h =
    let none_closed : close_group m ≡ m = ap (λ cs. close_at m (back cs)) f.no_chunk in
    subst
      (λ n.
        Filled (chunk_offsets kind n) (chunks_of kind n.chunk) (bytes_of kind (samples kind n))
          n.mdat)
      (sym none_closed)
      (Filled-cong [] (chunk_offsets kind m) [] (chunks_of kind m.chunk) []
        (bytes_of kind (samples kind m)) m.mdat m.mdat (sym (f.no_track kind h).1)
        (ap (chunks_of kind) (sym f.no_chunk)) (ap (bytes_of kind) (sym (f.no_track kind h).0)) refl
        refl)

Building-IsFound : (m : Mp4Muxer) → Building m → IsFound (close_group m)
unfolding close_group
Building-IsFound m b kind h =
    let last = ap back b.chunks ∙ back-snoc b.old b.cur in
    let n = push_offset b.cur.payload_type m.chunk_offset m in
    let closed : close_group m ≡ n = ap (close_at m) last in
    let is = is_kind b.cur.payload_type kind in
    let before = bytes_of kind (samples kind m) in
    let (done, split, filled) =
      Held-end is before (chunk_offsets kind m) (chunks_of kind b.old) b.new b.front b.cur b.size
        b.count (b.tracks kind h) in
    subst
      (λ k.
        Filled (chunk_offsets kind k) (chunks_of kind k.chunk) (bytes_of kind (samples kind k))
          k.mdat)
      (sym closed)
      (Filled-cong (chunk_offsets kind m ++ (if is then length b.front ∷ [] else []))
        (chunk_offsets kind n) (chunks_of kind b.old ++ (if is then b.cur ∷ [] else []))
        (chunks_of kind n.chunk) done (bytes_of kind (samples kind n)) (b.front ++ joined b.new)
        n.mdat
        (ap (λ o. chunk_offsets kind m ++ (if is then o ∷ [] else [])) (sym b.offset)
          ∙ sym (chunk_offsets-push_offset b.cur.payload_type kind m.chunk_offset m b.known h))
        (sym (chunks_of-snoc kind b.old b.cur)
          ∙ ap (chunks_of kind)
              (sym (chunk-push_offset m b.cur.payload_type m.chunk_offset ∙ b.chunks)))
        (sym (
          ap (bytes_of kind) (samples-push_offset m b.cur.payload_type m.chunk_offset kind)
          ∙ split
          ∙ append-nil done))
        (sym (mdat-push_offset m b.cur.payload_type m.chunk_offset ∙ b.data_split)) filled)

pub reset-Fresh : (m : Mp4Muxer) → Fresh (reset m)
unfolding reset samples chunk_offsets
reset-Fresh m = record {
  no_chunk = refl;
  no_data = refl;
  at_start = refl;
  no_track = λ kind h. ground arith;
}

mdat-cal_chunk_at :
    (dts len : ℕ) (k : PayloadType) (o : Option Chunk) (n : Mp4Muxer)
    → (cal_chunk_at dts len k o n).mdat ≡ n.mdat
unfolding cal_chunk_at
mdat-cal_chunk_at dts len k none n = refl
mdat-cal_chunk_at dts len k (some c) n = ground arith

length-cal_chunk :
    (dts len : ℕ) (k : PayloadType) (p : Payload) (m : Mp4Muxer)
    → IsKnown k
    → length (cal_chunk dts len k (feed k p m)).mdat ≡ length m.mdat + length (sample_bytes k p)
unfolding cal_chunk
length-cal_chunk dts len k p m h =
    ap length
      (mdat-cal_chunk_at dts len k (back (feed k p m).chunk) (feed k p m) ∙ mdat-feed k p m h)
    ∙ length-append m.mdat (sample_bytes k p)

add_frame-Building :
    (k : PayloadType) (p : Payload) (m : Mp4Muxer)
    → p.payload_type ≡ k
    → IsFrameOf k p
    → Fresh m ⊎ Building m
    → length m.mdat < 2 ^ 32
    → (m' : Mp4Muxer) × (add_frame k p m ≡ some m')
      × Building m'
      × (length m'.mdat ≤ length m.mdat + length p.all_data)
unfolding add_frame sample_bytes is_kind raw_data
add_frame-Building audio p m e f g small = (
  cal_chunk p.dts (length (sample_bytes audio p)) audio (feed audio p m),
  on_audio-feed p m e f,
  cal_chunk-Building p.dts audio p m tt small g,
  omega (
    arith,
    length-cal_chunk p.dts (length (sample_bytes audio p)) audio p m tt,
    length-take (raw_len p) (raw_data p),
    raw_data-le p,
  ),
)
add_frame-Building video p m e f g small = (
  cal_chunk p.dts (length p.all_data) video (feed video p m),
  ap some (add_video-feed p m),
  cal_chunk-Building p.dts video p m tt small g,
  omega (arith, length-cal_chunk p.dts (length p.all_data) video p m tt),
)
add_frame-Building unknown p m e f g small = absurd f

-- Frames of audio with their two bytes of header, and frames of video, can be added one after the other
-- to a group that is new or in step, as long as the data stay below 2^32 bytes. When the group is then
-- closed, each chunk of a track has an offset, at which stand the next samples of that
-- track, as many as the chunk counts, and so all samples of the track are found in order.
pub add_all-IsFound :
    (ps : List Payload) (m : Mp4Muxer)
    → Fresh m ⊎ Building m
    → All IsFrame ps
    → length m.mdat + total_len ps < 2 ^ 32
    → (m' : Mp4Muxer) × (add_all ps m ≡ some m') × IsFound (close_group m')
unfolding add_all
add_all-IsFound [] m (inl f) fs small = (m, refl, Fresh-IsFound m f)
add_all-IsFound [] m (inr b) fs small = (m, refl, Building-IsFound m b)
add_all-IsFound (p ∷ ps) m g (f, fs) small =
    let (n, e, b, l) = add_frame-Building p.payload_type p m refl f g (omega arith) in
    let (m', e', found) = add_all-IsFound ps n (inr b) fs (omega arith) in
    (m', ap (λ o. elim o [ none ↦ none | some k ↦ add_all ps k ]) e ∙ e', found)
