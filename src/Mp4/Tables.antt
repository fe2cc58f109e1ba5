-- ===== src/Mp4/Tables.antt =====
-- The tables over the samples of a track: `WriteDecodingTimeToSampleBox`,
-- `WriteCompositionTimeToSampleBox`, `WriteSampleToChunkBox`, `WriteChunkOffsetBox` and
-- `WriteSampleSizeBox` of src/mp4_muxer.cpp.
pub mod Runs
pub mod Times
use tms.Prelude.{
  ℕ, zero, suc, ◌+◌, ◌-◌, ◌*◌, ◌/◌, ◌%◌, ◌^◌, Bool, true, false, ◌&&◌, Option, none, some, List, [],
  ◌∷◌, ◌++◌, map, ◌==◌, if◌then◌else◌, length,
}
use tms.MediaMuxer.{PayloadType, audio, video, unknown, Payload, raw_len}
use tms.Mp4.{Mp4Muxer, Chunk, is_kind}
use tms.Mp4.Name
use tms.Mp4.Box.{Item, Items, numbers, text, patched, nil, ◌▸◌, box, full_box}

-- The samples of a track.
unfoldable pub samples : PayloadType → Mp4Muxer → List Payload
unfolding is_kind
samples kind m = if is_kind kind video then m.video_samples else m.audio_samples

-- A difference of time stamps on 32 bits.
unfoldable pub minus32 : ℕ → ℕ → ℕ
minus32 a b = (a % 2 ^ 32 + 2 ^ 32 - b % 2 ^ 32) % 2 ^ 32

-- The loop over the decoding times: the pairs of a count and a difference that it writes, and the count
-- of entries. `later` says that a sample is not the first.
unfoldable pub times_loop : Bool → ℕ → ℕ → ℕ → ℕ → List Payload → List (ℕ × ℕ) × ℕ
unfolding minus32
times_loop later pre_sample_time pre_sample_delta sample_count entry_count [] = ([], entry_count)
times_loop later pre_sample_time pre_sample_delta sample_count entry_count (p ∷ ps) =
    let sample_delta = minus32 p.dts pre_sample_time in
    let skipped =
      times_loop true pre_sample_time pre_sample_delta (sample_count + 1) (entry_count - 1) ps in
    let rest = times_loop true (p.dts % 2 ^ 32) sample_delta 1 entry_count ps in
    if later && sample_delta == pre_sample_delta
    then skipped
    else ((sample_count, sample_delta) ∷ rest.0, rest.1)

unfoldable pub first_dts : List Payload → ℕ
first_dts [] = 0
first_dts (p ∷ ps) = p.dts % 2 ^ 32

unfoldable pub time_entries : List Payload → List (ℕ × ℕ) × ℕ
unfolding times_loop first_dts
time_entries ps = times_loop false (first_dts ps) 0 1 (length ps) ps

-- Pairs of numbers of four bytes.
abbrev pub pairs : List (ℕ × ℕ) → List (ℕ × ℕ)
pairs [] = []
pairs ((a, b) ∷ es) = (4, a) ∷ (4, b) ∷ pairs es

-- `WriteDecodingTimeToSampleBox`.
unfoldable pub decoding_time_to_sample_box : PayloadType → Mp4Muxer → Item
unfolding full_box samples time_entries
decoding_time_to_sample_box kind m =
    let ps = samples kind m in
    let (entries, entry_count) = time_entries ps in
    full_box Name.stts 0
      (patched (length ps) (λ start end. entry_count) (numbers (pairs entries) ▸ nil) ▸ nil)

-- `WriteCompositionTimeToSampleBox`.
unfoldable pub composition_time_to_sample_box : Mp4Muxer → Item
unfolding full_box minus32
composition_time_to_sample_box m = full_box Name.ctts 0 (
    numbers
      ((4, length m.video_samples) ∷ pairs (map (λ p. (1, minus32 p.pts p.dts)) m.video_samples))
    ▸ nil)

-- The chunks of a track.
unfoldable pub chunks_of : PayloadType → List Chunk → List Chunk
unfolding is_kind
chunks_of kind [] = []
chunks_of kind (c ∷ cs) =
    let rest = chunks_of kind cs in if is_kind c.payload_type kind then c ∷ rest else rest

-- The loop over the chunks behind the first: the number of the next chunk and the samples in the one
-- before are given.
unfoldable pub runs_loop : ℕ → ℕ → ℕ → List Chunk → List (ℕ × ℕ) × ℕ
runs_loop first_chunk before entry_count [] = ([], entry_count)
runs_loop first_chunk before entry_count (c ∷ cs) =
    let skipped = runs_loop (first_chunk + 1) c.count (entry_count - 1) cs in
    let rest = runs_loop (first_chunk + 1) c.count entry_count cs in
    if c.count == before then skipped else ((first_chunk, c.count) ∷ rest.0, rest.1)

unfoldable pub chunk_runs : List Chunk → List (ℕ × ℕ) × ℕ
unfolding runs_loop
chunk_runs [] = ([], 0)
chunk_runs (c ∷ cs) =
    let rest = runs_loop 2 c.count (length (c ∷ cs)) cs in ((1, c.count) ∷ rest.0, rest.1)

abbrev pub triples : List (ℕ × ℕ) → List (ℕ × ℕ)
triples [] = []
triples ((first_chunk, samples_per_chunk) ∷ es) =
    (4, first_chunk) ∷ (4, samples_per_chunk) ∷ (4, 1) ∷ triples es

-- `WriteSampleToChunkBox`, as it is built.
unfoldable pub sample_to_chunk_box : PayloadType → Mp4Muxer → Item
unfolding full_box chunks_of chunk_runs
sample_to_chunk_box kind m =
    let cs = chunks_of kind m.chunk in
    let (entries, entry_count) = chunk_runs cs in
    full_box Name.stsc 0
      (patched (length cs) (λ start end. entry_count) (numbers (triples entries) ▸ nil) ▸ nil)

unfoldable pub chunk_offsets : PayloadType → Mp4Muxer → List ℕ
unfolding is_kind
chunk_offsets kind m = if is_kind kind video then m.video_chunk_offset else m.audio_chunk_offset

-- `WriteChunkOffsetBox`.
unfoldable pub chunk_offset_box : PayloadType → Mp4Muxer → Item
unfolding full_box chunk_offsets
chunk_offset_box kind m =
    let offsets = chunk_offsets kind m in
    full_box Name.stco 0
      (numbers ((4, length offsets) ∷ map (λ o. (4, (o + m.media_offset) % 2 ^ 32)) offsets) ▸ nil)

unfoldable pub sample_len : PayloadType → Payload → ℕ
unfolding is_kind raw_len
sample_len kind p = if is_kind kind video then length p.all_data else raw_len p

-- `WriteSampleSizeBox`.
unfoldable pub sample_size_box : PayloadType → Mp4Muxer → Item
unfolding full_box samples sample_len
sample_size_box kind m =
    let ps = samples kind m in
    full_box Name.stsz 0
      (numbers ((4, 0) ∷ (4, length ps) ∷ map (λ p. (4, sample_len kind p)) ps) ▸ nil)
