-- ===== src/Dash/Served.antt =====
-- The segments that the playlist of src/dash_muxer.cpp lists are there for players.
use tms.Prelude.{
  ℕ, ◌+◌, ◌-◌, ◌%◌, ◌^◌, ◌≤◌, ◌<◌, Option, none, some, List, [], ◌∷◌, ◌++◌, map, length, drop, ◌≡◌,
  refl, sym, ap, ap₂, ◌∙◌, arith, All,
}
use tms.Prelude.{
  length-append, append_assoc, append-nil, drop_le-append, drop-drop, length-drop, length-map,
}
use mathlib.Core.Path.{subst}
use tms.MediaMuxer.{Payload}
use tms.Mp4.Tables.{minus32, first_dts}
use tms.Mp4.Movie.{last_dts}
use tms.Dash.{Track, MpdInfo, new_track, store, find, erase_old, index, listed}
use tms.Dash.Flush.{add_segment}
use tms.Dash.Keyed.{
  numbered, numbered-append, numbered-below, store-last, find-skip, find-first, erase_old-drop,
  map_snoc, All-drop,
}

-- A segment as `Flush` makes it: its file, of its samples.
pub record Piece : Type 0 where
  pub file : List ℕ
  pub samples : List Payload

abbrev pub start : Piece → ℕ
start s = first_dts s.samples

abbrev pub info : Piece → MpdInfo
info s = record { start_time = start s; duration = minus32 (last_dts s.samples) (start s) }

abbrev pub entry : Piece → ℕ × List ℕ
entry s = (start s, s.file)

-- What a half of `Flush` does with a segment.
abbrev pub add : Piece → Track → Track
add s t = add_segment s.file (record t { samples = s.samples; m4s = erase_old t.m4s })

abbrev pub add_all : List Piece → Track → Track
add_all [] t = t
add_all (s ∷ ss) t = add_all ss (add s t)

-- Segments that each begin later than all before.
abbrev pub AreLater : List Piece → List Piece → Type 0
AreLater done [] = Unit
AreLater done (s ∷ ss) = All (λ d. start d < start s) done × AreLater (done ++ (s ∷ [])) ss

-- What a track has of the segments so far: the times of all, and the files of the last seven.
abbrev IsKept : List Piece → Track → Type 0
IsKept done t =
    (t.sequence ≡ length done)
    × (t.mpd_info ≡ numbered 0 (map info done))
    × (t.m4s ≡ drop (length done - 7) (map entry done))

All-entry :
    (k : ℕ) (ss : List Piece) → All (λ d. start d < k) ss → All (λ e. e.0 < k) (map entry ss)
All-entry k [] h = tt
All-entry k (s ∷ ss) (less, h) = (less, All-entry k ss h)

add-IsKept :
    (s : Piece) (done : List Piece) (t : Track)
    → IsKept done t
    → All (λ d. start d < start s) done
    → length done + 1 < 2 ^ 32
    → IsKept (done ++ (s ∷ [])) (add s t)
unfolding add_segment
add-IsKept s done t (sequence, infos, files) later bound =
    let n = length done in
    let ns : length (done ++ (s ∷ [])) ≡ n + 1 = length-append done (s ∷ []) in
    let es = drop (n - 7) (map entry done) in
    let size : length es ≡ n - (n - 7) =
      omega (arith, length-drop (n - 7) (map entry done), length-map done entry) in
    let erased : erase_old t.m4s ≡ drop (n - 6) (map entry done) =
      ap erase_old files
      ∙ erase_old-drop es
      ∙ drop-drop (length es - 6) (n - 7) (map entry done)
      ∙ ap (λ k. drop k (map entry done)) (omega (arith, size)) in
    let count : 0 + length (map info done) ≡ t.sequence =
      omega (arith, length-map done info, sequence) in
    let info_less : All (λ e. e.0 < t.sequence) t.mpd_info =
      subst (All (λ e. e.0 < t.sequence)) (sym infos) (
        subst (λ i. All (λ e. e.0 < i) (numbered 0 (map info done))) count
          (numbered-below 0 (map info done))) in
    (
      ap (λ k. (k + 1) % 2 ^ 32) sequence ∙ omega (arith, ns, bound),
      store-last t.sequence (info s) t.mpd_info info_less
          ∙ ap₂ (λ es k. es ++ ((k, info s) ∷ [])) infos (sym count)
          ∙ sym (
              ap (numbered 0) (map_snoc info done (s ∷ []))
              ∙ numbered-append 0 (map info done) (info s ∷ [])),
      ap (store (start s) s.file) erased
          ∙ store-last (start s) s.file (drop (n - 6) (map entry done)) (
              All-drop (λ e. e.0 < start s) (n - 6) (map entry done)
                (All-entry (start s) done later))
          ∙ sym (
              drop_le-append (n - 6) (map entry done) (entry s ∷ [])
                (omega (arith, length-map done entry)))
          ∙ ap₂ (λ k es. drop k es) (omega (arith, ns)) (sym (map_snoc entry done (s ∷ []))),
    )

add_all-IsKept :
    (done ss : List Piece) (t : Track)
    → IsKept done t
    → AreLater done ss
    → length done + length ss < 2 ^ 32
    → IsKept (done ++ ss) (add_all ss t)
add_all-IsKept done [] t h later bound = subst (λ xs. IsKept xs t) (sym (append-nil done)) h
add_all-IsKept done (s ∷ ss) t h (later, more) bound =
    subst (λ xs. IsKept xs (add_all ss (add s t))) (append_assoc done (s ∷ []) ss)
      (add_all-IsKept (done ++ (s ∷ [])) ss (add s t) (add-IsKept s done t h later (omega arith))
        more (omega (arith, bound, length-append done (s ∷ []))))

later_at :
    (done xs : List Piece) (s : Piece) (ys : List Piece)
    → AreLater done (xs ++ (s ∷ ys))
    → All (λ d. start d < start s) (done ++ xs)
later_at done [] s ys (h, _) = subst (All (λ d. start d < start s)) (sym (append-nil done)) h
later_at done (x ∷ xs) s ys (_, h) =
    subst (All (λ d. start d < start s)) (append_assoc done (x ∷ []) xs)
      (later_at (done ++ (x ∷ [])) xs s ys h)

find-entry :
    (n : ℕ) (pre : List Piece) (s : Piece) (post : List Piece)
    → n ≤ length pre
    → All (λ d. start d < start s) pre
    → find (start s) (drop n (map entry (pre ++ (s ∷ post)))) ≡ some s.file
find-entry n pre s post h later =
    let rest = map entry (s ∷ post) in
    ap (λ es. find (start s) (drop n es)) (map_snoc entry pre (s ∷ post))
    ∙ ap (find (start s))
        (drop_le-append n (map entry pre) rest (omega (arith, length-map pre entry)))
    ∙ find-skip (start s) (drop n (map entry pre)) rest
        (All-drop (λ e. e.0 < start s) n (map entry pre) (All-entry (start s) pre later))
    ∙ find-first (start s) s.file (map entry post)

find-numbered :
    (pre : List Piece) (s : Piece) (post : List Piece)
    → find (length pre) (numbered 0 (map info (pre ++ (s ∷ post)))) ≡ some (info s)
find-numbered pre s post =
    let n = length pre in
    let count : 0 + length (map info pre) ≡ n = omega (arith, length-map pre info) in
    let rest = numbered n (map info (s ∷ post)) in
    ap (λ is. find n (numbered 0 is)) (map_snoc info pre (s ∷ post))
    ∙ ap (find n) (numbered-append 0 (map info pre) (map info (s ∷ post)))
    ∙ ap (λ k. find n (numbered 0 (map info pre) ++ numbered k (map info (s ∷ post)))) count
    ∙ find-skip n (numbered 0 (map info pre)) rest (
        subst (λ k. All (λ e. e.0 < k) (numbered 0 (map info pre))) count
          (numbered-below 0 (map info pre)))
    ∙ find-first n (info s) (numbered (n + 1) (map info post))

index-found :
    (key : ℕ) (es : List (ℕ × MpdInfo)) (i : MpdInfo)
    → find key es ≡ some i
    → index key es ≡ (i, es)
unfolding index
index-found key es i e =
    ap {A = Option MpdInfo} {B = MpdInfo × List (ℕ × MpdInfo)}
      (λ r. elim r [
        | none ↦
            let new : MpdInfo = record { start_time = 0; duration = 0 } in (new, store key new es)
        | some old ↦ (old, es)
      ])
      e

listed-found :
    (t : Track) (x y z : MpdInfo)
    → find (t.sequence - 3) t.mpd_info ≡ some x
    → find (t.sequence - 2) t.mpd_info ≡ some y
    → find (t.sequence - 1) t.mpd_info ≡ some z
    → (listed t).0 ≡ x ∷ y ∷ z ∷ []
unfolding listed
listed-found t x y z hx hy hz =
    let third : List (ℕ × MpdInfo) → MpdInfo = λ es. (index (t.sequence - 1) es).0 in
    let second : MpdInfo × List (ℕ × MpdInfo) → List MpdInfo = λ r. r.0 ∷ third r.1 ∷ [] in
    let first : MpdInfo × List (ℕ × MpdInfo) → List MpdInfo =
      λ r. r.0 ∷ second (index (t.sequence - 2) r.1) in
    ap first (index-found (t.sequence - 3) t.mpd_info x hx)
    ∙ ap (λ r. x ∷ second r) (index-found (t.sequence - 2) t.mpd_info y hy)
    ∙ ap (λ r. x ∷ y ∷ r.0 ∷ []) (index-found (t.sequence - 1) t.mpd_info z hz)

-- A segment, one of the last seven, that a track keeps.
IsKept-found :
    (all pre : List Piece) (s : Piece) (post : List Piece) (t : Track)
    → all ≡ pre ++ (s ∷ post)
    → length post ≤ 6
    → IsKept all t
    → AreLater [] all
    → (find (length pre) t.mpd_info ≡ some (info s)) × (find (start s) t.m4s ≡ some s.file)
IsKept-found all pre s post t split few (sequence, infos, files) later =
    let size : length all ≡ length pre + (1 + length post) =
      ap length split ∙ omega (arith, length-append pre (s ∷ post)) in
    (
      ap (find (length pre)) (infos ∙ ap (λ ss. numbered 0 (map info ss)) split)
          ∙ find-numbered pre s post,
      ap (find (start s)) (files ∙ ap (λ ss. drop (length all - 7) (map entry ss)) split)
          ∙ find-entry (length all - 7) pre s post (omega (arith, size, few))
              (later_at [] pre s post (subst (AreLater []) split later)),
    )

-- After segments of a track that each begin later than all before, at least three and less than 2 ^ 32,
-- where each time, as `Flush` does, the oldest go while there are more than six, the three that
-- `UpdateMpd` lists are the last three, and the file of each of them is found under the time that the
-- list has for it.
pub listed-served :
    (pre : List Piece) (a b c : Piece)
    → AreLater [] (pre ++ (a ∷ b ∷ c ∷ []))
    → length pre + 3 < 2 ^ 32
    → let t = add_all (pre ++ (a ∷ b ∷ c ∷ [])) new_track in
      ((listed t).0 ≡ info a ∷ info b ∷ info c ∷ [])
      × (find (start a) t.m4s ≡ some a.file)
      × (find (start b) t.m4s ≡ some b.file)
      × (find (start c) t.m4s ≡ some c.file)
listed-served pre a b c later bound =
    let all = pre ++ (a ∷ b ∷ c ∷ []) in
    let t = add_all all new_track in
    let size : length all ≡ length pre + 3 = length-append pre (a ∷ b ∷ c ∷ []) in
    let kept : IsKept all t =
      add_all-IsKept [] all new_track (refl, refl, refl) later (omega (arith, size, bound)) in
    let two : all ≡ (pre ++ (a ∷ [])) ++ (b ∷ c ∷ []) =
      sym (append_assoc pre (a ∷ []) (b ∷ c ∷ [])) in
    let one : all ≡ (pre ++ (a ∷ b ∷ [])) ++ (c ∷ []) =
      sym (append_assoc pre (a ∷ b ∷ []) (c ∷ [])) in
    let (info_a, file_a) = IsKept-found all pre a (b ∷ c ∷ []) t refl (omega arith) kept later in
    let (info_b, file_b) =
      IsKept-found all (pre ++ (a ∷ [])) b (c ∷ []) t two (omega arith) kept later in
    let (info_c, file_c) =
      IsKept-found all (pre ++ (a ∷ b ∷ [])) c [] t one (omega arith) kept later in
    let at_a : t.sequence - 3 ≡ length pre = omega (arith, kept.0, size) in
    let at_b : t.sequence - 2 ≡ length (pre ++ (a ∷ [])) =
      omega (arith, kept.0, size, length-append pre (a ∷ [])) in
    let at_c : t.sequence - 1 ≡ length (pre ++ (a ∷ b ∷ [])) =
      omega (arith, kept.0, size, length-append pre (a ∷ b ∷ [])) in
    let look : ℕ → Option MpdInfo = λ k. find k t.mpd_info in
    (
      listed-found t (info a) (info b) (info c) (ap look at_a ∙ info_a) (ap look at_b ∙ info_b)
          (ap look at_c ∙ info_c),
      file_a,
      file_b,
      file_c,
    )
