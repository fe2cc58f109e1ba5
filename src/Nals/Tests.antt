-- ===== src/Nals/Tests.antt =====
-- Runs of the loop of src/media_muxer.cpp and src/ts_reader.cpp.
use tms.Prelude.{ℕ, ◌≡◌, refl, List, [], ◌∷◌, map, arith}
use tms.Nals.{nal_spans, unit, is_start}
use tms.Nals.Annexb.{annexb, units-annexb}

abbrev sps_pps : List (List ℕ)
sps_pps = (0x67 ∷ 0x42 ∷ 0 ∷ 0 ∷ 3 ∷ []) ∷ (0x68 ∷ 0xCE ∷ 0 ∷ []) ∷ []

-- Start codes of three bytes take the last byte of the unit before them.
three_bytes :
    map
      (unit (0 ∷ 0 ∷ 0 ∷ 1 ∷ 9 ∷ 8 ∷ 0 ∷ 0 ∷ 1 ∷ 7 ∷ []))
      (nal_spans (0 ∷ 0 ∷ 0 ∷ 1 ∷ 9 ∷ 8 ∷ 0 ∷ 0 ∷ 1 ∷ 7 ∷ []))
    ≡ (9 ∷ []) ∷ (7 ∷ []) ∷ []
unfolding unit nal_spans
three_bytes = refl

units-annexb_example : map (unit (annexb sps_pps)) (nal_spans (annexb sps_pps)) ≡ sps_pps
unfolding is_start
units-annexb_example = units-annexb sps_pps ((omega arith, refl), ((omega arith, refl), tt))
