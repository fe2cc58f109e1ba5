-- ===== src/TsReader/Pes/Stamps.antt =====
-- `ParsePES` of src/ts_reader.cpp on the PES header that `PacketTs` of src/media_muxer.cpp writes.
use tms.Prelude.{
  ℕ, ◌+◌, ◌*◌, ◌/◌, ◌%◌, ◌^◌, ◌<◌, ◌≤◌, List, [], ◌∷◌, ◌++◌, ◌≡◌, refl, sym, ap, ◌∙◌, arith, Option,
  some, none, length, take, drop, true, if◌then◌else◌,
}
use mathlib.Core.Path.{subst}
use tms.BitBuffer.{BitBuffer, bit, of_bytes}
use tms.BitBuffer.Value.{bits_value}
use tms.BitStream.{BitStream, Write, bits, bytes, write_all, of_size, written}
use tms.BitStream.Size.{cost, cost_all}
use tms.BitStream.Wrote.{value, ProperAll}
use tms.BitStream.RoundTrip.{at}
use tms.BitStream.Field.{value_at, write_all-of_size}
use tms.MediaMuxer.Packet.{pes_header}
use tms.TsReader.{get, pass}
use tms.TsReader.Pat.{get-at, pass-at}
use tms.TsReader.Segment.{pass_if}
use tms.TsReader.Pes.{
  join_stamp, read_stamp, read_stamps, PesHeader, pes_fields, parse_pes_header, has_no_header,
}

join_stamp-parts : (t : ℕ) → t < 2 ^ 30 → join_stamp 0 (t / 2 ^ 15) (t % 2 ^ 15) ≡ t
unfolding join_stamp
join_stamp-parts t small = ground arith

-- What stands in the bits of a time stamp at a place.
record Stamp (bs : List ℕ) (pos t : ℕ) : Type 0 where
  high : bits_value bs 3 (pos + 4) 0 ≡ t / 2 ^ 30 % 2 ^ 3 % 2 ^ 3
  middle : bits_value bs 15 (pos + 8) 0 ≡ t / 2 ^ 15 % 2 ^ 15 % 2 ^ 15
  low : bits_value bs 15 (pos + 24) 0 ≡ t % 2 ^ 15 % 2 ^ 15

pass-to :
    (n : ℕ) (bs : List ℕ) (pos end : ℕ)
    → pos + n ≡ end
    → end ≤ length bs * 8
    → pass (n ∷ []) (at bs pos) ≡ at bs end
pass-to n bs pos end e fits = pass-at (n ∷ []) bs pos (omega arith) ∙ ap (at bs) (omega arith)

get-to :
    (w n : ℕ) (bs : List ℕ) (pos end v : ℕ)
    → pos + n ≡ end
    → end ≤ length bs * 8
    → bits_value bs n pos 0 % 2 ^ w ≡ v
    → get w n (at bs pos) ≡ (v, at bs end)
get-to w n bs pos end v e fits read =
    get-at w n bs pos (omega arith)
    ∙ ap (λ k. (bits_value bs n pos 0 % 2 ^ w, at bs k)) e
    ∙ ap (λ k. (k, at bs end)) read

read_stamp-at :
    (bs : List ℕ) (pos t : ℕ)
    → pos + 40 ≤ length bs * 8
    → t < 2 ^ 30
    → Stamp bs pos t
    → read_stamp (at bs pos) ≡ (t, at bs (pos + 40))
unfolding read_stamp
read_stamp-at bs pos t fits small st =
    rw
      (
        pass-to 4 bs pos (pos + 4) refl (omega arith),
        get-to 32 3 bs (pos + 4) (pos + 7) 0 (omega arith) (omega arith) (omega (arith, st.high)),
        pass-to 1 bs (pos + 7) (pos + 8) (omega arith) (omega arith),
        get-to 32 15 bs (pos + 8) (pos + 23) (t / 2 ^ 15) (omega arith) (omega arith)
            (omega (arith, st.middle)),
        pass-to 1 bs (pos + 23) (pos + 24) (omega arith) (omega arith),
        get-to 32 15 bs (pos + 24) (pos + 39) (t % 2 ^ 15) (omega arith) (omega arith)
            (omega (arith, st.low)),
        pass-to 1 bs (pos + 39) (pos + 40) (omega arith) (omega arith),
        join_stamp-parts t small,
      )
      refl

-- The calls for the header of a video frame.
abbrev calls : ℕ → ℕ → ℕ → List Write
calls raw_len pts dts = pes_header true raw_len pts dts

calls-Proper : (raw_len pts dts : ℕ) → ProperAll 0 (calls raw_len pts dts)
unfolding pes_header cost
calls-Proper raw_len pts dts = (
  refl,
  (
    refl,
    (
      refl,
      (
        refl,
        (
          refl,
          (
            refl,
            (
              tt,
              (
                tt,
                (
                  tt,
                  (
                    tt,
                    (
                      tt,
                      (
                        tt,
                        (tt, (tt, (tt, (tt, (tt, (tt, (tt, (tt, (refl, (refl, (refl, tt))))))))))),
                      ),
                    ),
                  ),
                ),
              ),
            ),
          ),
        ),
      ),
    ),
  ),
)

cost_all-calls : (raw_len pts dts : ℕ) → cost_all (calls raw_len pts dts) ≡ 200
unfolding pes_header cost_all
cost_all-calls raw_len pts dts = refl

call-value :
    (raw_len pts dts : ℕ) (s : BitStream) (ws vs : List Write) (w : Write)
    → calls raw_len pts dts ≡ ws ++ w ∷ vs
    → write_all (calls raw_len pts dts) (of_size 16384) ≡ some s
    → bits_value (written s) (cost w) (cost_all ws) 0 ≡ value w
call-value raw_len pts dts s ws vs w split made =
    let c = cost_all-calls raw_len pts dts in
    let split_made = ap (λ all. write_all all (of_size 16384)) (sym split) ∙ made in
    value_at 16384 ws vs w s (subst (ProperAll 0) split (calls-Proper raw_len pts dts))
      (rw (sym split) (omega arith)) (rw (sym split) (omega arith)) split_made

pts-Stamp :
    (raw_len pts dts : ℕ) (s : BitStream)
    → write_all (calls raw_len pts dts) (of_size 16384) ≡ some s
    → Stamp (written s) 72 (pts * 90 % 2 ^ 64)
unfolding pes_header cost cost_all
pts-Stamp raw_len pts dts s made =
    let all = calls raw_len pts dts in
    let t = pts * 90 % 2 ^ 64 in
    record {
      high =
          call-value raw_len pts dts s (take 7 all) (drop 8 all) (bits 3 (t / 2 ^ 30 % 2 ^ 3)) refl
            made;
      middle =
          call-value raw_len pts dts s (take 9 all) (drop 10 all) (bits 15 (t / 2 ^ 15 % 2 ^ 15))
            refl made;
      low =
          call-value raw_len pts dts s (take 11 all) (drop 12 all) (bits 15 (t % 2 ^ 15)) refl made;
    }

dts-Stamp :
    (raw_len pts dts : ℕ) (s : BitStream)
    → write_all (calls raw_len pts dts) (of_size 16384) ≡ some s
    → Stamp (written s) 112 (dts * 90 % 2 ^ 64)
unfolding pes_header cost cost_all
dts-Stamp raw_len pts dts s made =
    let all = calls raw_len pts dts in
    let t = dts * 90 % 2 ^ 64 in
    record {
      high =
          call-value raw_len pts dts s (take 14 all) (drop 15 all) (bits 3 (t / 2 ^ 30 % 2 ^ 3))
            refl made;
      middle =
          call-value raw_len pts dts s (take 16 all) (drop 17 all) (bits 15 (t / 2 ^ 15 % 2 ^ 15))
            refl made;
      low =
          call-value raw_len pts dts s (take 18 all) (drop 19 all) (bits 15 (t % 2 ^ 15)) refl made;
    }

-- The byte 0xC0 of flags: both time stamps are there, and nothing else.
flags-c0 :
    (bs : List ℕ)
    → bits_value bs 8 56 0 ≡ 0xC0
    → (bits_value bs 2 56 0 ≡ 3)
      × (bits_value bs 1 58 0 ≡ 0)
      × (bits_value bs 1 59 0 ≡ 0)
      × (bits_value bs 1 60 0 ≡ 0)
      × (bits_value bs 1 61 0 ≡ 0)
      × (bits_value bs 1 62 0 ≡ 0)
      × (bits_value bs 1 63 0 ≡ 0)
unfolding bits_value bit
flags-c0 bs e = omega arith

read_stamps-at :
    (bs : List ℕ) (pts dts : ℕ)
    → 152 ≤ length bs * 8
    → pts < 2 ^ 30
    → dts < 2 ^ 30
    → Stamp bs 72 pts
    → Stamp bs 112 dts
    → read_stamps 3 (at bs 72) ≡ (pts, dts, at bs 152)
unfolding read_stamps
read_stamps-at bs pts dts fits p d sp sd =
    ap {A = ℕ × BitBuffer} {B = ℕ × ℕ × BitBuffer}
      (λ r. (r.0, (read_stamp r.1).0, (read_stamp r.1).1))
      (read_stamp-at bs 72 pts (omega arith) p sp)
    ∙ ap {A = ℕ × BitBuffer} {B = ℕ × ℕ × BitBuffer} (λ r. (pts, r.0, r.1))
        (read_stamp-at bs 112 dts (omega arith) d sd)

pes_fields-at :
    (bs : List ℕ) (pts dts : ℕ)
    → 152 ≤ length bs * 8
    → bits_value bs 8 56 0 ≡ 0xC0
    → read_stamps 3 (at bs 72) ≡ (pts, dts, at bs 152)
    → pes_fields 0xE0 (at bs 48)
      ≡ record { stream_id = 0xE0; pts = pts; dts = dts; rest = at bs 152 }
unfolding pes_fields pass_if
pes_fields-at bs pts dts fits e stamps =
    let (both, escr, rate, trick, copy, crc, extension) = flags-c0 bs e in
    rw
      (
        pass-at (2 ∷ 2 ∷ 1 ∷ 1 ∷ 1 ∷ 1 ∷ []) bs 48 (omega arith),
        get-to 8 2 bs 56 58 3 refl (omega arith) (omega (arith, both)),
        get-to 8 1 bs 58 59 0 refl (omega arith) (omega (arith, escr)),
        get-to 8 1 bs 59 60 0 refl (omega arith) (omega (arith, rate)),
        get-to 8 1 bs 60 61 0 refl (omega arith) (omega (arith, trick)),
        get-to 8 1 bs 61 62 0 refl (omega arith) (omega (arith, copy)),
        get-to 8 1 bs 62 63 0 refl (omega arith) (omega (arith, crc)),
        get-to 8 1 bs 63 64 0 refl (omega arith) (omega (arith, extension)),
        pass-to 8 bs 64 72 refl (omega arith),
      )
      (ap {A = ℕ × ℕ × BitBuffer} {B = PesHeader}
        (λ r. record { stream_id = 0xE0; pts = r.0; dts = r.1; rest = r.2 }) stamps)

frame-flags :
    (raw_len pts dts : ℕ) (s : BitStream)
    → write_all (calls raw_len pts dts) (of_size 16384) ≡ some s
    → (bits_value (written s) 8 24 0 ≡ 0xE0) × (bits_value (written s) 8 56 0 ≡ 0xC0)
unfolding pes_header cost cost_all
frame-flags raw_len pts dts s made =
    let all = calls raw_len pts dts in
    (
      call-value raw_len pts dts s (take 1 all) (drop 2 all) (bytes 1 0xE0) refl made,
      call-value raw_len pts dts s (take 4 all) (drop 5 all) (bytes 1 0xC0) refl made,
    )

parse_pes_header-at :
    (bs : List ℕ) (h : PesHeader)
    → 48 ≤ length bs * 8
    → bits_value bs 8 24 0 ≡ 0xE0
    → pes_fields 0xE0 (at bs 48) ≡ h
    → parse_pes_header bs ≡ some h
unfolding parse_pes_header has_no_header of_bytes
parse_pes_header-at bs h fits id fields =
    let start : get 8 8 (pass (24 ∷ []) (at bs 0)) ≡ (0xE0, at bs 32) =
      ap (get 8 8) (pass-to 24 bs 0 24 refl (omega arith))
      ∙ get-to 8 8 bs 24 32 0xE0 refl (omega arith) (omega (arith, id)) in
    ap {A = ℕ × BitBuffer} {B = Option PesHeader}
      (λ r. if has_no_header r.0 then none else some (pes_fields r.0 (pass (16 ∷ []) r.1))) start
    ∙ ap (λ b. some (pes_fields 0xE0 b)) (pass-to 16 bs 32 48 refl (omega arith))
    ∙ ap some fields

-- The header of a video frame, written at the start of a buffer with time stamps of less than 2^30
-- ticks of 90 kHz, is parsed to the id of a video stream, the same time stamps, and a frame that
-- begins where the header ends.
pub parse_pes_header-pes_header :
    (raw_len pts dts : ℕ)
    → pts * 90 < 2 ^ 30
    → dts * 90 < 2 ^ 30
    → (s : BitStream) × (write_all (pes_header true raw_len pts dts) (of_size 16384) ≡ some s)
      × (parse_pes_header (written s)
          ≡ some (record {
            stream_id = 0xE0;
            pts = pts * 90;
            dts = dts * 90;
            rest = record (of_bytes (written s)) { cur_pos = 152 };
          }))
unfolding of_bytes
parse_pes_header-pes_header raw_len pts dts p d =
    let c = cost_all-calls raw_len pts dts in
    let (s, made, l) =
      write_all-of_size 16384 (calls raw_len pts dts) (calls-Proper raw_len pts dts) (omega arith)
        (omega arith) in
    let (id, flags) = frame-flags raw_len pts dts s made in
    let wide : pts * 90 % 2 ^ 64 ≡ pts * 90 = omega arith in
    let wide' : dts * 90 % 2 ^ 64 ≡ dts * 90 = omega arith in
    let stamps =
      read_stamps-at (written s) (pts * 90) (dts * 90) (omega arith) p d
        (subst (Stamp (written s) 72) wide (pts-Stamp raw_len pts dts s made))
        (subst (Stamp (written s) 112) wide' (dts-Stamp raw_len pts dts s made)) in
    (
      s,
      made,
      parse_pes_header-at (written s)
          (record {
            stream_id = 0xE0;
            pts = pts * 90;
            dts = dts * 90;
            rest = record (of_bytes (written s)) { cur_pos = 152 };
          })
          (omega arith) id
          (pes_fields-at (written s) (pts * 90) (dts * 90) (omega arith) flags stamps),
    )
