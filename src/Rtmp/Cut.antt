-- ===== src/Rtmp/Cut.antt =====
-- The bytes that `SendData` sends for a message that is no video frame.
use tms.Prelude.{
  ℕ, zero, suc, ◌+◌, ◌-◌, ◌*◌, ◌/◌, ◌%◌, ◌^◌, ◌<◌, ◌≤◌, false, List, [], ◌∷◌, ◌++◌, ◌==◌, ltb,
  if◌then◌else◌, take, drop, length, ◌≡◌, refl, sym, ap, ap₂, ◌∙◌, arith, append-nil, length-drop,
  take_all, drop-drop, Bool-cases, inl, inr,
}
use tms.Rtmp.{Message}
use tms.Rtmp.Send.{
  other, basic_header, message_header, video_tag, data_len, send_len_at, send_chunks, chunk_header,
  chunk_count,
}
use tms.Rtmp.Chunks.{rest_chunks, Fits}
use mathlib.Core.Path.{subst}
use native.Mathlib.Nat.{div-add-mod', mod-lt}

counted :
    (len size q r : ℕ)
    → q * size + r ≡ len
    → r < size
    → size < len
    → (n : ℕ) × (q + (if r == 0 then 0 else 1) ≡ suc n) × (n * size < len) × (len ≤ n * size + size)
counted len size zero r e l h = absurd (omega arith)
counted len size (suc k) r e l h = elim (Bool-cases (r == 0)) [
  | inl z ↦ rw z (k, omega arith, ground arith, ground arith)
  | inr z ↦ rw z (suc k, omega arith, ground arith, omega arith)
]

pub chunk_count_lem :
    (len size : ℕ)
    → 0 < len
    → 0 < size
    → (n : ℕ) × (chunk_count len size ≡ suc n) × (n * size < len) × (len ≤ n * size + size)
unfolding chunk_count
chunk_count_lem len size l z = elim (Bool-cases (ltb size len)) [
  | inl h ↦ rw h (
      counted len size (len / size) (len % size) (omega (arith, div-add-mod' len size))
        (mod-lt len z) (ground arith))
  | inr h ↦ rw h (0, refl, omega arith, ground arith)
]

-- As many chunks as are counted are those that the bytes take.
pub Fits-between :
    (n size : ℕ) (body : List ℕ)
    → 0 < size
    → n * size < length body
    → length body ≤ n * size + size
    → Fits (suc n) size body
unfolding Fits
Fits-between zero size body z l h = omega arith
Fits-between (suc n) size body z l h =
    let step : suc n * size ≡ n * size + size = omega arith in
    (
      omega arith,
      Fits-between n size (drop size body) z (omega (arith, length-drop size body))
          (omega (arith, length-drop size body)),
    )

send_len_lem :
    (len size i pos : ℕ)
    → i * size ≡ pos
    → pos < len
    → len < 2 ^ 24
    → ((size < len - pos) → send_len_at len size i ≡ size)
      × ((len - pos ≤ size) → send_len_at len size i ≡ len - pos)
unfolding send_len_at
send_len_lem len size i pos e h l = rw e ((λ k. ground arith), (λ k. ground arith))

no_chunks : (i pos fmt size : ℕ) (cur : Message) → send_chunks size fmt 0 i pos cur other ≡ []
unfolding send_chunks
no_chunks i pos fmt size cur = refl

later_step :
    (n i pos fmt size sent : ℕ) (cur : Message)
    → 0 < i
    → send_len_at cur.message_length size i ≡ sent
    → send_chunks size fmt (suc n) i pos cur other
      ≡ basic_header 3 cur.cs_id ∷ take sent (drop pos cur.msg)
        ++ send_chunks size fmt n (i + 1) (pos + sent) cur other
unfolding send_chunks data_len chunk_header
later_step n i pos fmt size sent cur p e =
    let later : (i == 0) ≡ false = ground arith in
    rw (later, chunk_header)
      (ap
        (λ s.
          basic_header 3 cur.cs_id ∷ take s (drop pos cur.msg)
          ++ send_chunks size fmt n (i + 1) (pos + s) cur other)
        e)

-- From the second chunk on.
later_chunks :
    (n i pos fmt size : ℕ) (cur : Message)
    → i * size ≡ pos
    → 0 < i
    → cur.message_length ≡ length cur.msg
    → cur.message_length < 2 ^ 24
    → Fits n size (drop pos cur.msg)
    → send_chunks size fmt n i pos cur other ≡ rest_chunks n cur.cs_id size (drop pos cur.msg)
unfolding rest_chunks Fits
later_chunks zero i pos fmt size cur e p k l fits = absurd fits
later_chunks (suc zero) i pos fmt size cur e p k l (some_left, fits) =
    let left : List ℕ = drop pos cur.msg in
    let count : length left ≡ length cur.msg - pos = length-drop pos cur.msg in
    later_step 0 i pos fmt size (cur.message_length - pos) cur p (
      (send_len_lem cur.message_length size i pos e (omega (arith, count)) l).1
        (omega (arith, count)))
    ∙ ap₂ (λ s t. basic_header 3 cur.cs_id ∷ s ++ t)
        (take_all (cur.message_length - pos) left (omega (arith, count))
          ∙ sym (take_all size left fits))
        (no_chunks (i + 1) (pos + (cur.message_length - pos)) fmt size cur)
later_chunks (suc (suc n)) i pos fmt size cur e p k l (long, fits) =
    let left : List ℕ = drop pos cur.msg in
    let count : length left ≡ length cur.msg - pos = length-drop pos cur.msg in
    let next : (i + 1) * size ≡ pos + size = omega arith in
    later_step (suc n) i pos fmt size size cur p (
      (send_len_lem cur.message_length size i pos e (omega (arith, count)) l).0
        (omega (arith, count)))
    ∙ ap (λ t. basic_header 3 cur.cs_id ∷ take size left ++ t)
        (later_chunks (suc n) (i + 1) (pos + size) fmt size cur next (omega arith) k l
            (subst (Fits (suc n) size) (drop-drop size pos cur.msg) fits)
          ∙ ap (rest_chunks (suc n) cur.cs_id size) (sym (drop-drop size pos cur.msg)))

first_step :
    (n fmt size sent : ℕ) (cur : Message)
    → send_len_at cur.message_length size 0 ≡ sent
    → send_chunks size fmt (suc n) 0 0 cur other
      ≡ basic_header fmt cur.cs_id ∷ message_header fmt cur
        ++ (take sent cur.msg ++ send_chunks size fmt n 1 sent cur other)
unfolding send_chunks data_len chunk_header video_tag
first_step n fmt size sent cur e =
    let b : ℕ = basic_header fmt cur.cs_id in
    let h : List ℕ = message_header fmt cur in
    ap₂ (λ t s. b ∷ (t ++ (take s cur.msg ++ send_chunks size fmt n 1 (0 + s) cur other)))
      (append-nil h) e
    ∙ ap (λ x. b ∷ (h ++ (take sent cur.msg ++ send_chunks size fmt n 1 x cur other))) (omega arith)

-- The message in its chunks: the headers of the first one, and its bytes.
pub send_chunks_lem :
    (n fmt size : ℕ) (cur : Message)
    → cur.message_length ≡ length cur.msg
    → cur.message_length < 2 ^ 24
    → Fits (suc n) size cur.msg
    → send_chunks size fmt (suc n) 0 0 cur other
      ≡ basic_header fmt cur.cs_id ∷ message_header fmt cur
        ++ (take size cur.msg ++ rest_chunks n cur.cs_id size (drop size cur.msg))
unfolding Fits rest_chunks
send_chunks_lem zero fmt size cur k l (some_left, fits) =
    first_step 0 fmt size cur.message_length cur (
      (send_len_lem cur.message_length size 0 0 (omega arith) (omega arith) l).1 (omega arith)
      ∙ omega arith)
    ∙ ap₂ (λ s t. basic_header fmt cur.cs_id ∷ message_header fmt cur ++ (s ++ t))
        (take_all cur.message_length cur.msg (omega arith) ∙ sym (take_all size cur.msg fits))
        (no_chunks 1 cur.message_length fmt size cur)
send_chunks_lem (suc n) fmt size cur k l (long, fits) =
    first_step (suc n) fmt size size cur
      ((send_len_lem cur.message_length size 0 0 (omega arith) (omega arith) l).0 (omega arith))
    ∙ ap (λ t. basic_header fmt cur.cs_id ∷ message_header fmt cur ++ (take size cur.msg ++ t))
        (later_chunks (suc n) 1 size fmt size cur (omega arith) (omega arith) k l fits)
