-- ===== src/Mp4/Tables/Times.antt =====
-- The table of decoding times of src/mp4_muxer.cpp on evenly spaced samples.
use tms.Prelude.{ℕ, ◌+◌, ◌*◌, ◌%◌, ◌^◌, ◌<◌, List, [], ◌∷◌, ◌≡◌, arith}
use tms.MediaMuxer.{Payload}
use tms.Mp4.Tables.{times_loop, time_entries, first_dts, minus32}

-- How long the samples of a table last together.
abbrev pub total_time : List (ℕ × ℕ) → ℕ
total_time [] = 0
total_time ((count, delta) ∷ es) = count * delta + total_time es

minus32-same : (a : ℕ) → minus32 a (a % 2 ^ 32) ≡ 0
unfolding minus32
minus32-same a = omega arith

minus32-add : (a b d : ℕ) → b ≡ a + d → b < 2 ^ 32 → minus32 b (a % 2 ^ 32) ≡ d
unfolding minus32
minus32-add a b d e h = omega arith

-- Four samples that follow each other at the same distance, on 32 bits, come out with five times that
-- distance in all.
pub time_entries-even :
    (p q r s : Payload) (d : ℕ)
    → 0 < d
    → q.dts ≡ p.dts + d
    → r.dts ≡ q.dts + d
    → s.dts ≡ r.dts + d
    → s.dts < 2 ^ 32
    → total_time (time_entries (p ∷ q ∷ r ∷ s ∷ [])).0 ≡ 5 * d
unfolding time_entries times_loop first_dts
time_entries-even p q r s d some_time eq er es small =
    rw
      (
        minus32-same p.dts,
        minus32-add p.dts q.dts d eq (omega arith),
        minus32-add q.dts r.dts d er (omega arith),
        minus32-add q.dts s.dts (2 * d) (omega arith) small,
      )
      (ground arith)
