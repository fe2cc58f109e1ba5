-- ===== src/Mp4/Chunks/Keep.antt =====
-- `OnAudio`, `OnVideo` and the end of a group in src/mp4_muxer.cpp, against the media data.
use tms.Prelude.{
  ℕ, ◌^◌, ◌<◌, List, [], ◌∷◌, ◌++◌, ◌≡◌, refl, sym, ap, ◌∙◌, arith, length, append-nil, inl, inr,
  ◌⊎◌,
}
use tms.Prelude.{length-append}
use mathlib.Core.Path.{subst}
use tms.MediaMuxer.{PayloadType, audio, video, unknown, Payload}
use tms.Mp4.{
  Mp4Muxer, Chunk, back, set_back, push_offset, new_chunk, end_chunk, cal_chunk, cal_chunk_at,
  push_chunk,
}
use tms.Mp4.Tables.{samples, chunks_of, chunk_offsets}
use tms.Mp4.Chunks.{sample_bytes, bytes_of, joined, Filled}
use tms.Mp4.Chunks.Group.{
  IsKnown, Held, Building, Fresh, feed, back-snoc, set_back-snoc, cal_chunk_cases, chunk-feed,
  chunk_offset-feed, mdat-feed,
}
use tms.Mp4.Chunks.Step.{
  ended, Track-feed, Track-end_chunk, extend_chunk-Building, mdat-end_chunk, chunk_offset-end_chunk,
}

-- No chunk is in progress, and the ended ones hold all the data.
record Between (m : Mp4Muxer) (old : List Chunk) (front : List ℕ) : Type 0 where
  chunks : m.chunk ≡ old
  all_data : m.mdat ≡ front
  offset : m.chunk_offset ≡ length front
  tracks :
      (kind : PayloadType)
      → IsKnown kind
      → Held (bytes_of kind (samples kind m)) (chunk_offsets kind m) (chunks_of kind old) [] front

push_chunk-Building :
    (dts : ℕ) (k : PayloadType) (p : Payload) (m : Mp4Muxer) (old : List Chunk) (front : List ℕ)
    → IsKnown k
    → Between m old front
    → Building (push_chunk dts (length (sample_bytes k p)) k (feed k p m))
unfolding push_chunk new_chunk samples chunk_offsets
push_chunk-Building dts k p m old front h b =
    let bs = sample_bytes k p in
    record {
      old = old;
      cur = new_chunk dts (length bs) k;
      front = front;
      new = bs ∷ [];
      chunks = ap (λ cs. cs ++ (new_chunk dts (length bs) k ∷ [])) (chunk-feed k p m ∙ b.chunks);
      data_split =
          mdat-feed k p m h
          ∙ ap (λ l. l ++ bs) b.all_data
          ∙ ap (λ l. front ++ l) (sym (append-nil bs));
      offset = chunk_offset-feed k p m ∙ b.offset;
      size = ap length (sym (append-nil bs));
      count = refl;
      known = h;
      tracks =
          λ kind h'. Track-feed kind k p m (chunks_of kind old) [] front h h' (b.tracks kind h');
    }

Fresh-Between : (m : Mp4Muxer) → Fresh m → Between m [] []
unfolding chunks_of
Fresh-Between m f = record {
  chunks = f.no_chunk;
  all_data = f.no_data;
  offset = f.at_start;
  tracks = λ kind h. (
    [],
    ap (bytes_of kind) (f.no_track kind h).0,
    subst (λ os. Filled os [] [] []) (sym (f.no_track kind h).1) refl,
  );
}

end_chunk-Between :
    (dts : ℕ) (m : Mp4Muxer) (b : Building m)
    → length m.mdat < 2 ^ 32
    → Between (end_chunk dts b.cur m) (b.old ++ (ended dts b.cur ∷ [])) (b.front ++ joined b.new)
unfolding end_chunk
end_chunk-Between dts m b small = record {
  chunks = ap (set_back (ended dts b.cur)) b.chunks ∙ set_back-snoc b.old (ended dts b.cur) b.cur;
  all_data = mdat-end_chunk dts b.cur m ∙ b.data_split;
  offset =
      chunk_offset-end_chunk dts b.cur m
      ∙ omega
          (arith, b.offset, b.size, length-append b.front (joined b.new), ap length b.data_split);
  tracks = λ kind h. Track-end_chunk kind dts m b h;
}

end_chunk-feed :
    (dts : ℕ) (c : Chunk) (k : PayloadType) (p : Payload) (m : Mp4Muxer)
    → end_chunk dts c (feed k p m) ≡ feed k p (end_chunk dts c m)
unfolding end_chunk push_offset
end_chunk-feed dts c video p m = ground arith
end_chunk-feed dts c audio p m = ground arith
end_chunk-feed dts c unknown p m = refl

-- `CalChunk` for a frame that is in the data and among the samples.
pub cal_chunk-Building :
    (dts : ℕ) (k : PayloadType) (p : Payload) (m : Mp4Muxer)
    → IsKnown k
    → length m.mdat < 2 ^ 32
    → Fresh m ⊎ Building m
    → Building (cal_chunk dts (length (sample_bytes k p)) k (feed k p m))
unfolding cal_chunk
cal_chunk-Building dts k p m h small (inl f) =
    let len = length (sample_bytes k p) in
    let e : cal_chunk dts len k (feed k p m) ≡ push_chunk dts len k (feed k p m) =
      ap (λ cs. cal_chunk_at dts len k (back cs) (feed k p m)) (chunk-feed k p m ∙ f.no_chunk) in
    subst Building (sym e) (push_chunk-Building dts k p m [] [] h (Fresh-Between m f))
cal_chunk-Building dts k p m h small (inr b) =
    let len = length (sample_bytes k p) in
    let last = ap back (chunk-feed k p m ∙ b.chunks) ∙ back-snoc b.old b.cur in
    elim (cal_chunk_cases dts len k (feed k p m) b.cur last) [
      | inl (same, e) ↦ subst Building (sym e) (extend_chunk-Building k p m b h same)
      | inr e ↦
          subst Building (sym (e ∙ ap (push_chunk dts len k) (end_chunk-feed dts b.cur k p m))) (
            push_chunk-Building dts k p (end_chunk dts b.cur m) (b.old ++ (ended dts b.cur ∷ []))
              (b.front ++ joined b.new) h (end_chunk-Between dts m b small))
    ]
