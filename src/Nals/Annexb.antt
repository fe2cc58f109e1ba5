-- ===== src/Nals/Annexb.antt =====
-- The loop of src/media_muxer.cpp and src/ts_reader.cpp finds the units that a stream is made of.
use tms.Prelude.{
  ℕ, ◌+◌, ◌-◌, ◌<◌, Bool, true, false, ◌&&◌, Option, none, some, List, [], ◌∷◌, ◌++◌, map,
  if◌then◌else◌, ◌≡◌, refl, sym, ap, ap₂, ◌∙◌, arith, length, All, append_assoc, append-nil,
}
use tms.Prelude.{length-append, drop-length_append, take-length_append}
use tms.Nals.{Span, is_start, close, close_last, scan, nal_spans, unit}

-- The stream of some units, each behind a start code of four bytes.
unfoldable pub annexb : List (List ℕ) → List ℕ
annexb [] = []
annexb (u ∷ us) = 0 ∷ 0 ∷ 0 ∷ 1 ∷ (u ++ annexb us)

-- No start code stands inside the bytes.
abbrev pub no_start : List ℕ → Bool
no_start [] = true
no_start (a ∷ []) = true
no_start (a ∷ b ∷ []) = true
no_start (a ∷ b ∷ c ∷ p) = (if is_start a b c then false else true) && no_start (b ∷ c ∷ p)

-- What a unit is: at least a byte, and no start code.
abbrev pub IsUnit : List ℕ → Type 0
IsUnit u = (0 < length u) × (no_start u ≡ true)

scan-skip :
    (i : ℕ) (nal : Option ℕ) (a b c : ℕ) (p q : List ℕ)
    → 0 < length q
    → is_start a b c ≡ false
    → scan i nal (a ∷ b ∷ c ∷ q) ≡ scan (i + 1) nal (b ∷ c ∷ q)
unfolding scan
scan-skip i nal a b c p [] l h = absurd (omega arith)
scan-skip i nal a b c p (d ∷ q) l h = rw h

no_start-head : (a b c : ℕ) (u : List ℕ) → no_start (a ∷ b ∷ c ∷ u) ≡ true → is_start a b c ≡ false
no_start-head a b c u h = ground arith

no_start-tail :
    (a b c : ℕ) (u : List ℕ) → no_start (a ∷ b ∷ c ∷ u) ≡ true → no_start (b ∷ c ∷ u) ≡ true
no_start-tail a b c u h = ground arith

length-tail : (u p : List ℕ) (x : ℕ) → 0 < length (u ++ (x ∷ p))
length-tail u p x = omega (arith, length-append u (x ∷ p))

-- The loop passes over a unit to the start code behind it.
scan-unit :
    (i : ℕ) (nal : Option ℕ) (u p : List ℕ)
    → no_start u ≡ true
    → scan i nal (u ++ (0 ∷ 0 ∷ 0 ∷ 1 ∷ p)) ≡ scan (i + length u) nal (0 ∷ 0 ∷ 0 ∷ 1 ∷ p)
scan-unit i nal [] p h = ap (λ k. scan k nal (0 ∷ 0 ∷ 0 ∷ 1 ∷ p)) (omega arith)
scan-unit i nal (a ∷ []) p h =
    scan-skip i nal a 0 0 p (0 ∷ 1 ∷ p) (omega arith) (unfold is_start in ground arith)
scan-unit i nal (a ∷ b ∷ []) p h =
    scan-skip i nal a b 0 p (0 ∷ 0 ∷ 1 ∷ p) (omega arith) (unfold is_start in ground arith)
    ∙ scan-unit (i + 1) nal (b ∷ []) p refl
    ∙ ap (λ k. scan k nal (0 ∷ 0 ∷ 0 ∷ 1 ∷ p)) (omega arith)
scan-unit i nal (a ∷ b ∷ c ∷ u) p h =
    scan-skip i nal a b c p (u ++ (0 ∷ 0 ∷ 0 ∷ 1 ∷ p)) (length-tail u (0 ∷ 0 ∷ 1 ∷ p) 0)
      (no_start-head a b c u h)
    ∙ scan-unit (i + 1) nal (b ∷ c ∷ u) p (no_start-tail a b c u h)
    ∙ ap (λ k. scan k nal (0 ∷ 0 ∷ 0 ∷ 1 ∷ p)) (omega arith)

scan-last :
    (i nal : ℕ) (u : List ℕ) → no_start u ≡ true → scan i (some nal) u ≡ (nal, i + length u) ∷ []
unfolding scan close_last
scan-last i nal [] h = ap (λ k. (nal, k) ∷ []) (omega arith)
scan-last i nal (a ∷ []) h = refl
scan-last i nal (a ∷ b ∷ []) h = refl
scan-last i nal (a ∷ b ∷ c ∷ []) h = refl
scan-last i nal (a ∷ b ∷ c ∷ d ∷ u) h =
    scan-skip i (some nal) a b c u (d ∷ u) (omega arith) (no_start-head a b c (d ∷ u) h)
    ∙ scan-last (i + 1) nal (b ∷ c ∷ d ∷ u) (no_start-tail a b c (d ∷ u) h)
    ∙ ap (λ k. (nal, k) ∷ []) (omega arith)

-- A start code closes the unit before it and opens the next.
scan-code :
    (i : ℕ) (nal : Option ℕ) (p : List ℕ)
    → 0 < length p
    → scan i nal (0 ∷ 0 ∷ 0 ∷ 1 ∷ p) ≡ close nal (i + 1) (scan (i + 4) (some (i + 4)) p)
unfolding scan is_start
scan-code i nal [] l = absurd (omega arith)
scan-code i nal (d ∷ p) l = let e : i + 1 + 3 ≡ i + 4 = omega arith in rw e refl

-- Where the units of a stream stand that begins at `i`.
abbrev pub spans : ℕ → List (List ℕ) → List Span
spans i [] = []
spans i (u ∷ us) = (i + 4, i + 4 + length u) ∷ spans (i + 4 + length u) us

length-annexb : (u : List ℕ) (us : List (List ℕ)) → 0 < length u → 0 < length (u ++ annexb us)
length-annexb u us h = omega (arith, length-append u (annexb us))

scan-annexb :
    (i nal : ℕ) (u : List ℕ) (us : List (List ℕ))
    → no_start u ≡ true
    → All IsUnit us
    → scan i (some nal) (u ++ annexb us) ≡ (nal, i + length u) ∷ spans (i + length u) us
unfolding annexb close
scan-annexb i nal u [] h hs = ap (scan i (some nal)) (append-nil u) ∙ scan-last i nal u h
scan-annexb i nal u (v ∷ us) h (hv, hs) =
    scan-unit i (some nal) u (v ++ annexb us) h
    ∙ scan-code (i + length u) (some nal) (v ++ annexb us) (length-annexb v us hv.0)
    ∙ ap₂ (λ k (r : List Span). (nal, k) ∷ r) (omega arith)
        (scan-annexb (i + length u + 4) (i + length u + 4) v us hv.1 hs)

pub nal_spans-spans : (us : List (List ℕ)) → All IsUnit us → nal_spans (annexb us) ≡ spans 0 us
unfolding nal_spans annexb close scan
nal_spans-spans [] h = refl
nal_spans-spans (u ∷ us) (hu, h) =
    scan-code 0 none (u ++ annexb us) (length-annexb u us hu.0) ∙ scan-annexb 4 4 u us hu.1 h

unit-at :
    (pre u post p : List ℕ) (i : ℕ)
    → p ≡ pre ++ (u ++ post)
    → i ≡ length pre
    → unit p (i, i + length u) ≡ u
unfolding unit
unit-at pre u post p i e l =
    let n : length pre + length u - length pre ≡ length u = omega arith in
    rw (e, l) (rw (drop-length_append pre (u ++ post)) (rw n (take-length_append u post)))

units-spans :
    (us : List (List ℕ)) (pre p : List ℕ) (i : ℕ)
    → p ≡ pre ++ annexb us
    → i ≡ length pre
    → map (unit p) (spans i us) ≡ us
unfolding annexb
units-spans [] pre p i e l = refl
units-spans (u ∷ us) pre p i e l =
    let code = 0 ∷ 0 ∷ 0 ∷ 1 ∷ [] in
    let behind : p ≡ (pre ++ code) ++ (u ++ annexb us) =
      e ∙ sym (append_assoc pre code (u ++ annexb us)) in
    ap₂ (λ (x : List ℕ) (r : List (List ℕ)). x ∷ r)
      (unit-at (pre ++ code) u (annexb us) p (i + 4) behind (omega (arith, length-append pre code)))
      (units-spans us ((pre ++ code) ++ u) p (i + 4 + length u)
        (behind ∙ sym (append_assoc (pre ++ code) u (annexb us)))
        (omega (arith, length-append pre code, length-append (pre ++ code) u)))

-- Of a stream that is made of units behind start codes of four bytes, each with at least a byte and
-- with no start code inside, the loop finds exactly those units, in order.
pub units-annexb :
    (us : List (List ℕ)) → All IsUnit us → map (unit (annexb us)) (nal_spans (annexb us)) ≡ us
units-annexb us h =
    ap (map (unit (annexb us))) (nal_spans-spans us h) ∙ units-spans us [] (annexb us) 0 refl refl
