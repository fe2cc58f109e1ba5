-- ===== src/Mp4/Tables/Runs.antt =====
-- The sample-to-chunk table of src/mp4_muxer.cpp, as a player reads it.
use tms.Prelude.{
  ℕ, zero, suc, ◌+◌, ◌-◌, ◌≤◌, ◌<◌, List, [], ◌∷◌, ◌≡◌, refl, ap, ◌∙◌, arith, length, get_or, leb,
  if◌then◌else◌,
}
use tms.Mp4.{Chunk}
use tms.Mp4.Tables.{runs_loop, chunk_runs}

-- The samples in a chunk: the last entry that begins at it or before it says how many.
unfoldable pub in_chunk : ℕ → List (ℕ × ℕ) → ℕ → ℕ
in_chunk before [] k = before
in_chunk before ((first_chunk, samples) ∷ es) k =
    let rest = in_chunk samples es k in if leb first_chunk k then rest else before

abbrev pub counts : List Chunk → List ℕ
counts [] = []
counts (c ∷ cs) = c.count ∷ counts cs

in_chunk-before :
    (first before n k : ℕ) (cs : List Chunk)
    → k < first
    → in_chunk before (runs_loop first before n cs).0 k ≡ before
unfolding in_chunk runs_loop
in_chunk-before first before n k [] h = refl
in_chunk-before first before n k (c ∷ cs) h =
    ground (arith, in_chunk-before (first + 1) c.count (n - 1) k cs (omega arith))

in_chunk-runs_loop :
    (first before n i : ℕ) (cs : List Chunk)
    → i < length cs
    → in_chunk before (runs_loop first before n cs).0 (first + i) ≡ get_or (counts cs) i 0
unfolding in_chunk runs_loop
in_chunk-runs_loop first before n i [] h = absurd (omega arith)
in_chunk-runs_loop first before n zero (c ∷ cs) h =
    let here : first + 0 ≡ first = omega arith in
    ap (in_chunk before (runs_loop first before n (c ∷ cs)).0) here
    ∙ ground (
      arith,
      in_chunk-before (first + 1) c.count (n - 1) first cs (omega arith),
      in_chunk-before (first + 1) c.count n first cs (omega arith),
    )
in_chunk-runs_loop first before n (suc i) (c ∷ cs) h =
    let here : first + suc i ≡ first + 1 + i = omega arith in
    ap (in_chunk before (runs_loop first before n (c ∷ cs)).0) here
    ∙ ground (
      arith,
      in_chunk-runs_loop (first + 1) c.count (n - 1) i cs (omega arith),
      in_chunk-runs_loop (first + 1) c.count n i cs (omega arith),
    )

entry_count-runs_loop :
    (first before n : ℕ) (cs : List Chunk)
    → length cs ≤ n
    → (runs_loop first before n cs).1 + length cs ≡ n + length (runs_loop first before n cs).0
unfolding runs_loop
entry_count-runs_loop first before n [] h = omega arith
entry_count-runs_loop first before n (c ∷ cs) h = ground (
  arith,
  entry_count-runs_loop (first + 1) c.count (n - 1) cs (omega arith),
  entry_count-runs_loop (first + 1) c.count n cs (omega arith),
)

in_chunk-chunk_runs :
    (cs : List Chunk) (i : ℕ)
    → i < length cs
    → in_chunk 0 (chunk_runs cs).0 (i + 1) ≡ get_or (counts cs) i 0
unfolding chunk_runs in_chunk
in_chunk-chunk_runs [] i h = absurd (omega arith)
in_chunk-chunk_runs (c ∷ cs) zero h =
    ground (arith, in_chunk-before 2 c.count (length (c ∷ cs)) 1 cs (omega arith))
in_chunk-chunk_runs (c ∷ cs) (suc i) h =
    let here : suc i + 1 ≡ 2 + i = omega arith in
    ap (in_chunk 0 (chunk_runs (c ∷ cs)).0) here
    ∙ ground (arith, in_chunk-runs_loop 2 c.count (length (c ∷ cs)) i cs (omega arith))

-- The table of the chunks of a track says of each chunk, numbered from 1, how many samples are in it,
-- and the count of entries that is patched in is the number of entries written.
pub chunk_runs_lem :
    (cs : List Chunk)
    → ((i : ℕ) → i < length cs → in_chunk 0 (chunk_runs cs).0 (i + 1) ≡ get_or (counts cs) i 0)
      × ((chunk_runs cs).1 ≡ length (chunk_runs cs).0)
unfolding chunk_runs
chunk_runs_lem [] = (in_chunk-chunk_runs [], refl)
chunk_runs_lem (c ∷ cs) = (
  in_chunk-chunk_runs (c ∷ cs),
  omega (arith, entry_count-runs_loop 2 c.count (length (c ∷ cs)) cs (omega arith)),
)
