-- ===== src/MediaMuxer/Headers/Units.antt =====
-- The parameter sets that `OnVideoHeader` of src/media_muxer.cpp finds behind start codes.
use tms.Prelude.{ℕ, ◌+◌, true, some, List, [], ◌∷◌, map, ◌≡◌, refl, sym, ap, ◌∙◌, arith, length}
use tms.Nals.{Span, has_start_code, unit}
use tms.Nals.Annexb.{annexb, IsUnit, nal_spans-spans, units-annexb}
use tms.MediaMuxer.{MediaMuxer}
use tms.MediaMuxer.Headers.{assign, take_units, read_video_header}

assign-span : (header : List ℕ) (i n : ℕ) → assign header (i, i + n) ≡ some (unit header (i, i + n))
unfolding assign
assign-span header i n = ground arith

annexb-has_start_code : (u : List ℕ) (us : List (List ℕ)) → has_start_code (annexb (u ∷ us)) ≡ true
unfolding annexb has_start_code
annexb-has_start_code u us = refl

two : {A : Type 0} (a b c d : A) → ◌≡◌ {A = List A} (a ∷ b ∷ []) (c ∷ d ∷ []) → (a ≡ c) × (b ≡ d)
two a b c d e = (cc, cc)

take_units-two :
    (header : List ℕ) (s p : Span) (m : MediaMuxer) {sps pps : List ℕ}
    → assign header s ≡ some sps
    → assign header p ≡ some pps
    → take_units header (s ∷ p ∷ []) m ≡ some (record m { sps = sps; pps = pps })
unfolding take_units
take_units-two header s p m e e' = rw (e, take_units) (rw e' refl)

-- A video header of two units behind start codes, each with at least a byte and with no start code
-- inside, gives the two parameter sets, and changes nothing else.
pub read_video_header-annexb :
    (sps pps : List ℕ) (m : MediaMuxer)
    → IsUnit sps
    → IsUnit pps
    → read_video_header (annexb (sps ∷ pps ∷ [])) m ≡ some (record m { sps = sps; pps = pps })
unfolding read_video_header
read_video_header-annexb sps pps m hs hp =
    let header = annexb (sps ∷ pps ∷ []) in
    let found = nal_spans-spans (sps ∷ pps ∷ []) (hs, (hp, tt)) in
    let units = units-annexb (sps ∷ pps ∷ []) (hs, (hp, tt)) in
    let i = 4 + length sps + 4 in
    let (s, p) =
      two (unit header (4, 4 + length sps)) (unit header (i, i + length pps)) sps pps
        (ap (map (unit header)) (sym found) ∙ units) in
    rw (annexb-has_start_code sps (pps ∷ [])) (
      ap (λ r. take_units header r m) found
      ∙ take_units-two header (4, 4 + length sps) (i, i + length pps) m
          (assign-span header 4 (length sps) ∙ ap some s)
          (assign-span header i (length pps) ∙ ap some p))
