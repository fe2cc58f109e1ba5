-- ===== src/Mp4/Chunks/Step.antt =====
-- A frame that `OnAudio` or `OnVideo` of src/mp4_muxer.cpp adds keeps the chunks in step with the data.
use tms.Prelude.{
  ℕ, ◌+◌, ◌-◌, ◌%◌, ◌^◌, true, List, [], ◌∷◌, ◌++◌, ◌≡◌, refl, sym, ap, ap₂, ◌∙◌, arith, length,
  if◌then◌else◌, append_assoc, append-nil, Bool-cases, inl, inr,
}
use tms.Prelude.{length-append}
use mathlib.Core.Path.{subst}
use tms.MediaMuxer.{PayloadType, audio, video, unknown, Payload}
use tms.Mp4.{Mp4Muxer, Chunk, is_kind, set_back, push_offset, end_chunk, extend_chunk}
use tms.Mp4.Tables.{samples, chunks_of, chunk_offsets}
use tms.Mp4.Chunks.{sample_bytes, bytes_of, joined, joined-append}
use tms.Mp4.Chunks.Group.{
  IsKnown, in_progress, Held, Building, feed, set_back-snoc, chunks_of-snoc, Held-more, Held-end,
  is_kind-same, chunk-feed, chunk_offset-feed, mdat-feed, chunk_offsets-feed, bytes_of-feed,
}

-- What a frame adds to the samples of a kind.
abbrev pub added : PayloadType → PayloadType → Payload → List (List ℕ)
added kind k p = if is_kind k kind then sample_bytes k p ∷ [] else []

pub Track-feed :
    (kind k : PayloadType) (p : Payload) (m : Mp4Muxer) (ended : List Chunk)
    (current : List (List ℕ)) (front : List ℕ)
    → IsKnown k
    → IsKnown kind
    → Held (bytes_of kind (samples kind m)) (chunk_offsets kind m) ended current front
    → Held
        (bytes_of kind (samples kind (feed k p m)))
        (chunk_offsets kind (feed k p m))
        ended
        (current ++ added kind k p)
        front
Track-feed kind k p m ended current front h h' held =
    subst (λ l. Held l (chunk_offsets kind (feed k p m)) ended (current ++ added kind k p) front)
      (sym (bytes_of-feed k kind p m h h'))
      (subst
        (λ os.
          Held (bytes_of kind (samples kind m) ++ added kind k p) os ended
            (current ++ added kind k p) front)
        (sym (chunk_offsets-feed k p m kind))
        (Held-more (bytes_of kind (samples kind m)) (chunk_offsets kind m) ended current
          (added kind k p) front held))

joined-snoc : (xs : List (List ℕ)) (x : List ℕ) → joined (xs ++ (x ∷ [])) ≡ joined xs ++ x
joined-snoc xs x = joined-append xs (x ∷ []) ∙ ap (λ l. joined xs ++ l) (append-nil x)

in_progress-snoc :
    (kind k : PayloadType) (p : Payload) (c : Chunk) (new : List (List ℕ))
    → is_kind c.payload_type kind ≡ is_kind k kind
    → in_progress kind c new ++ added kind k p ≡ in_progress kind c (new ++ (sample_bytes k p ∷ []))
in_progress-snoc kind k p c new e = elim (Bool-cases (is_kind k kind)) [
  | inl yes_kind ↦
      ap₂ (λ a b. (if a then new else []) ++ (if b then sample_bytes k p ∷ [] else []))
        (e ∙ yes_kind) yes_kind
      ∙ ap (λ a. if a then new ++ (sample_bytes k p ∷ []) else []) (sym (e ∙ yes_kind))
  | inr no_kind ↦
      ap₂ (λ a b. (if a then new else []) ++ (if b then sample_bytes k p ∷ [] else []))
        (e ∙ no_kind) no_kind
      ∙ ap (λ a. if a then new ++ (sample_bytes k p ∷ []) else []) (sym (e ∙ no_kind))
]

pub extend_chunk-Building :
    (k : PayloadType) (p : Payload) (m : Mp4Muxer) (b : Building m)
    → IsKnown k
    → is_kind b.cur.payload_type k ≡ true
    → Building (extend_chunk (length (sample_bytes k p)) b.cur (feed k p m))
unfolding extend_chunk samples chunk_offsets
extend_chunk-Building k p m b h same =
    let bs = sample_bytes k p in
    record {
      old = b.old;
      cur = record b.cur { size = b.cur.size + length bs; count = b.cur.count + 1 };
      front = b.front;
      new = b.new ++ (bs ∷ []);
      chunks =
          ap (set_back (record b.cur { size = b.cur.size + length bs; count = b.cur.count + 1 }))
            (chunk-feed k p m ∙ b.chunks)
          ∙ set_back-snoc b.old
              (record b.cur { size = b.cur.size + length bs; count = b.cur.count + 1 }) b.cur;
      data_split =
          mdat-feed k p m h
          ∙ ap (λ l. l ++ bs) b.data_split
          ∙ append_assoc b.front (joined b.new) bs
          ∙ ap (λ l. b.front ++ l) (sym (joined-snoc b.new bs));
      offset = chunk_offset-feed k p m ∙ b.offset;
      size =
          omega (arith, b.size, ap length (joined-snoc b.new bs), length-append (joined b.new) bs);
      count = omega (arith, b.count, length-append b.new (bs ∷ []));
      known = b.known;
      tracks = λ kind h'.
          subst
            (λ l.
              Held (bytes_of kind (samples kind (feed k p m))) (chunk_offsets kind (feed k p m))
                (chunks_of kind b.old) l b.front)
            (in_progress-snoc kind k p b.cur b.new (is_kind-same b.cur.payload_type k kind same))
            (Track-feed kind k p m (chunks_of kind b.old) (in_progress kind b.cur b.new) b.front h
              h' (b.tracks kind h'));
    }

pub chunk_offsets-push_offset :
    (ended kind : PayloadType) (offset : ℕ) (n : Mp4Muxer)
    → IsKnown ended
    → IsKnown kind
    → chunk_offsets kind (push_offset ended offset n)
      ≡ chunk_offsets kind n ++ (if is_kind ended kind then offset ∷ [] else [])
unfolding push_offset chunk_offsets is_kind
chunk_offsets-push_offset video video offset n h h' = refl
chunk_offsets-push_offset video audio offset n h h' = sym (append-nil n.audio_chunk_offset)
chunk_offsets-push_offset audio video offset n h h' = sym (append-nil n.video_chunk_offset)
chunk_offsets-push_offset audio audio offset n h h' = refl
chunk_offsets-push_offset unknown kind offset n h h' = absurd h
chunk_offsets-push_offset video unknown offset n h h' = absurd h'
chunk_offsets-push_offset audio unknown offset n h h' = absurd h'

module _ (dts : ℕ) (c : Chunk) (n : Mp4Muxer) where
  pub mdat-end_chunk : (end_chunk dts c n).mdat ≡ n.mdat
  unfolding end_chunk
  mdat-end_chunk = ground arith

  pub chunk_offset-end_chunk : (end_chunk dts c n).chunk_offset ≡ (n.chunk_offset + c.size) % 2 ^ 32
  unfolding end_chunk
  chunk_offset-end_chunk = ground arith

  samples-end_chunk : (kind : PayloadType) → samples kind (end_chunk dts c n) ≡ samples kind n
  unfolding end_chunk samples
  samples-end_chunk kind = ground arith

abbrev pub ended : ℕ → Chunk → Chunk
ended dts c = record c { delta = (dts + 2 ^ 64 - c.dts) % 2 ^ 32 }

-- The track of a kind, once the chunk in progress has ended.
pub Track-end_chunk :
    (kind : PayloadType) (dts : ℕ) (m : Mp4Muxer) (b : Building m)
    → IsKnown kind
    → Held
        (bytes_of kind (samples kind (end_chunk dts b.cur m)))
        (chunk_offsets kind (end_chunk dts b.cur m))
        (chunks_of kind (b.old ++ (ended dts b.cur ∷ [])))
        []
        (b.front ++ joined b.new)
unfolding end_chunk chunk_offsets
Track-end_chunk kind dts m b h =
    let front = b.front ++ joined b.new in
    let is = is_kind b.cur.payload_type kind in
    let before = bytes_of kind (samples kind m) in
    let held =
      Held-end is before (chunk_offsets kind m) (chunks_of kind b.old) b.new b.front
        (ended dts b.cur) b.size b.count (b.tracks kind h) in
    let offsets : chunk_offsets kind m ++ (if is then length b.front ∷ [] else [])
        ≡ chunk_offsets kind (end_chunk dts b.cur m) =
      ap (λ o. chunk_offsets kind m ++ (if is then o ∷ [] else [])) (sym b.offset)
      ∙ sym (chunk_offsets-push_offset b.cur.payload_type kind m.chunk_offset m b.known h) in
    subst
      (λ l.
        Held l (chunk_offsets kind (end_chunk dts b.cur m))
          (chunks_of kind (b.old ++ (ended dts b.cur ∷ []))) [] front)
      (ap (bytes_of kind) (sym (samples-end_chunk dts b.cur m kind)))
      (subst (λ cs. Held before (chunk_offsets kind (end_chunk dts b.cur m)) cs [] front)
        (sym (chunks_of-snoc kind b.old (ended dts b.cur)))
        (subst
          (λ os.
            Held before os (chunks_of kind b.old ++ (if is then ended dts b.cur ∷ [] else [])) []
              front)
          offsets held))
