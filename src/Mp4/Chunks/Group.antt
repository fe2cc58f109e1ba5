-- ===== src/Mp4/Chunks/Group.antt =====
-- `CalChunk` of src/mp4_muxer.cpp keeps the chunks of a group in step with its media data.
use tms.Prelude.{
  ℕ, ◌+◌, ◌*◌, Bool, true, false, ◌&&◌, some, List, [], ◌∷◌, ◌++◌, ◌≡◌, refl, sym, ap, ap₂, ◌∙◌,
  arith, length, take, leb, if◌then◌else◌, append_assoc, append-nil, Bool-cases, inl, inr, ◌⊎◌,
}
use tms.Prelude.{length-append, take_all, drop-length_append}
use mathlib.Core.Path.{subst}
use tms.MediaMuxer.{PayloadType, audio, video, unknown, Payload}
use tms.Mp4.{
  Mp4Muxer, Chunk, is_kind, back, set_back, end_chunk, cal_chunk, cal_chunk_at, push_chunk,
  extend_chunk,
}
use tms.Mp4.Tables.{samples, chunks_of, chunk_offsets}
use tms.Mp4.Chunks.{
  sample_bytes, bytes_of, joined, Filled, Filled-append, Filled-snoc, bytes_of-append,
}

abbrev pub IsKnown : PayloadType → Type 0
IsKnown video = Unit
IsKnown audio = Unit
IsKnown unknown = ⊥

-- The samples in the chunk in progress that are of a kind.
abbrev pub in_progress : PayloadType → Chunk → List (List ℕ) → List (List ℕ)
in_progress kind c new = if is_kind c.payload_type kind then new else []

-- A track: its ended chunks are filled, and its other samples are in the chunk in progress.
abbrev pub Held : List (List ℕ) → List ℕ → List Chunk → List (List ℕ) → List ℕ → Type 0
Held bytes offsets ended current front =
    (done : List (List ℕ)) × (bytes ≡ done ++ current) × Filled offsets ended done front

abbrev pub Track : PayloadType → Mp4Muxer → List Chunk → Chunk → List ℕ → List (List ℕ) → Type 0
Track kind m old cur front new =
    Held (bytes_of kind (samples kind m)) (chunk_offsets kind m) (chunks_of kind old)
      (in_progress kind cur new) front

-- A group with a chunk in progress: the data are those of the ended chunks, up to its offset, and its
-- own samples.
pub record Building (m : Mp4Muxer) : Type 0 where
  pub old : List Chunk
  pub cur : Chunk
  pub front : List ℕ
  pub new : List (List ℕ)
  pub chunks : m.chunk ≡ old ++ (cur ∷ [])
  pub data_split : m.mdat ≡ front ++ joined new
  pub offset : m.chunk_offset ≡ length front
  pub size : cur.size ≡ length (joined new)
  pub count : cur.count ≡ length new
  pub known : IsKnown cur.payload_type
  pub tracks : (kind : PayloadType) → IsKnown kind → Track kind m old cur front new

-- A group without frames.
pub record Fresh (m : Mp4Muxer) : Type 0 where
  pub no_chunk : m.chunk ≡ []
  pub no_data : m.mdat ≡ []
  pub at_start : m.chunk_offset ≡ 0
  pub no_track :
      (kind : PayloadType) → IsKnown kind → (samples kind m ≡ []) × (chunk_offsets kind m ≡ [])

-- A frame in the data and among the samples, before its chunk is known.
abbrev pub feed : PayloadType → Payload → Mp4Muxer → Mp4Muxer
feed video p m = record m {
  mdat = m.mdat ++ sample_bytes video p;
  video_samples = m.video_samples ++ (p ∷ []);
}
feed audio p m = record m {
  mdat = m.mdat ++ sample_bytes audio p;
  audio_samples = m.audio_samples ++ (p ∷ []);
}
feed unknown p m = m

pub back-snoc {ℓ} : {A : Type ℓ} (cs : List A) (c : A) → back (cs ++ (c ∷ [])) ≡ some c
back-snoc [] c = refl
back-snoc (d ∷ []) c = refl
back-snoc (d ∷ e ∷ cs) c = back-snoc (e ∷ cs) c

pub set_back-snoc : (cs : List Chunk) (a c : Chunk) → set_back a (cs ++ (c ∷ [])) ≡ cs ++ (a ∷ [])
set_back-snoc [] a c = refl
set_back-snoc (d ∷ []) a c = refl
set_back-snoc (d ∷ e ∷ cs) a c = ap (λ l. d ∷ l) (set_back-snoc (e ∷ cs) a c)

pub chunks_of-snoc :
    (kind : PayloadType) (cs : List Chunk) (c : Chunk)
    → chunks_of kind (cs ++ (c ∷ []))
      ≡ chunks_of kind cs ++ (if is_kind c.payload_type kind then c ∷ [] else [])
unfolding chunks_of
chunks_of-snoc kind [] c = ground arith
chunks_of-snoc kind (d ∷ cs) c = ground (arith, chunks_of-snoc kind cs c)

pub cal_chunk_cases :
    (dts len : ℕ) (kind : PayloadType) (m : Mp4Muxer) (c : Chunk)
    → back m.chunk ≡ some c
    → ((is_kind c.payload_type kind ≡ true) × (cal_chunk dts len kind m ≡ extend_chunk len c m))
      ⊎ (cal_chunk dts len kind m ≡ push_chunk dts len kind (end_chunk dts c m))
unfolding cal_chunk
cal_chunk_cases dts len kind m c e =
    let small = leb (c.size + len) (1024 * 1024) in
    let at : cal_chunk dts len kind m ≡ cal_chunk_at dts len kind (some c) m =
      ap (λ o. cal_chunk_at dts len kind o m) e in
    let choose : Bool → Mp4Muxer =
      λ b. if b then extend_chunk len c m else push_chunk dts len kind (end_chunk dts c m) in
    elim (Bool-cases (is_kind c.payload_type kind)) [
      | inr no_kind ↦ inr (at ∙ ap (λ b. choose (b && small)) no_kind)
      | inl yes_kind ↦ elim (Bool-cases small) [
        | inl fits ↦ inl (yes_kind, at ∙ ap₂ (λ a b. choose (a && b)) yes_kind fits)
        | inr large ↦ inr (at ∙ ap₂ (λ a b. choose (a && b)) yes_kind large)
      ]
    ]

pub Held-more :
    (bytes : List (List ℕ)) (offsets : List ℕ) (ended : List Chunk) (current more : List (List ℕ))
    (front : List ℕ)
    → Held bytes offsets ended current front
    → Held (bytes ++ more) offsets ended (current ++ more) front
Held-more bytes offsets ended current more front (done, split, filled) =
    (done, ap (λ l. l ++ more) split ∙ append_assoc done current more, filled)

-- The chunk in progress ends, of this track or of the other.
pub Held-end :
    (b : Bool) (bytes : List (List ℕ)) (offsets : List ℕ) (ended : List Chunk) (new : List (List ℕ))
    (front : List ℕ) (c : Chunk)
    → c.size ≡ length (joined new)
    → c.count ≡ length new
    → Held bytes offsets ended (if b then new else []) front
    → Held bytes
        (offsets ++ (if b then length front ∷ [] else []))
        (ended ++ (if b then c ∷ [] else []))
        []
        (front ++ joined new)
Held-end true bytes offsets ended new front c size count (done, split, filled) = (
  done ++ new,
  split ∙ sym (append-nil (done ++ new)),
  Filled-snoc offsets ended done new (front ++ joined new) (length front) c
      (Filled-append offsets ended done front (joined new) filled)
      (omega (arith, length-append front (joined new))) count
      (ap (take c.size) (drop-length_append front (joined new))
        ∙ take_all c.size (joined new) (omega arith)),
)
Held-end false bytes offsets ended new front c size count (done, split, filled) = (
  done,
  split,
  subst (λ os. Filled os (ended ++ []) done (front ++ joined new)) (sym (append-nil offsets))
      (subst (λ cs. Filled offsets cs done (front ++ joined new)) (sym (append-nil ended))
        (Filled-append offsets ended done front (joined new) filled)),
)

pub is_kind-same : (a k kind : PayloadType) → is_kind a k ≡ true → is_kind a kind ≡ is_kind k kind
unfolding is_kind
is_kind-same a k kind e = ground arith

module _ (k : PayloadType) (p : Payload) (m : Mp4Muxer) where
  pub chunk-feed : (feed k p m).chunk ≡ m.chunk
  chunk-feed = ground arith

  pub chunk_offset-feed : (feed k p m).chunk_offset ≡ m.chunk_offset
  chunk_offset-feed = ground arith

  pub mdat-feed : IsKnown k → (feed k p m).mdat ≡ m.mdat ++ sample_bytes k p
  mdat-feed h = ground arith

  pub chunk_offsets-feed :
      (kind : PayloadType) → chunk_offsets kind (feed k p m) ≡ chunk_offsets kind m
  unfolding chunk_offsets
  chunk_offsets-feed kind = ground arith

pub bytes_of-feed :
    (k kind : PayloadType) (p : Payload) (m : Mp4Muxer)
    → IsKnown k
    → IsKnown kind
    → bytes_of kind (samples kind (feed k p m))
      ≡ bytes_of kind (samples kind m) ++ (if is_kind k kind then sample_bytes k p ∷ [] else [])
unfolding samples is_kind
bytes_of-feed video video p m h h' = bytes_of-append video m.video_samples (p ∷ [])
bytes_of-feed video audio p m h h' = sym (append-nil (bytes_of audio m.audio_samples))
bytes_of-feed audio video p m h h' = sym (append-nil (bytes_of video m.video_samples))
bytes_of-feed audio audio p m h h' = bytes_of-append audio m.audio_samples (p ∷ [])
bytes_of-feed unknown kind p m h h' = absurd h
bytes_of-feed video unknown p m h h' = absurd h'
bytes_of-feed audio unknown p m h h' = absurd h'
