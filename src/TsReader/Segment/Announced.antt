-- ===== src/TsReader/Segment/Announced.antt =====
-- `ParseTsSegment` of src/ts_reader.cpp on the packet that `PacketTsPat` of src/media_muxer.cpp makes.
use tms.Prelude.{
  ℕ, ◌/◌, ◌^◌, ◌<◌, List, [], ◌∷◌, ◌++◌, ◌≡◌, refl, sym, ap, ◌∙◌, arith, some, length, take, drop,
  get_or, true, ◌&&◌, ◌==◌, if◌then◌else◌,
}
use mathlib.Core.Path.{subst}
use tms.BitBuffer.{of_bytes}
use tms.BitBuffer.Value.{bits_value}
use tms.BitStream.{
  overwrite, BitStream, Write, bits, bytes, write_all, of_size, written, size_in_bytes,
}
use tms.BitStream.Bits.{get_or-take}
use tms.BitStream.Size.{cost, cost_all}
use tms.BitStream.Wrote.{value, wrote, ProperAll}
use tms.BitStream.RoundTrip.{
  at, wrote_all, Ready-start, Ready-tail, write_all-wrote_all, cur_pos-wrote_all,
}
use tms.BitStream.Field.{value_at}
use tms.BitStream.First.{get_or-wrote_all}
use tms.MediaMuxer.{MediaMuxer}
use tms.MediaMuxer.Tables.{pat_section, packet_ts_pat}
use tms.TsReader.{TsReader, parse_pat}
use tms.TsReader.Pat.{
  get-at, pass-at, calls, calls-Proper, cost_all-calls, parse_pat-at, table_packet-calls,
  program-calls, pid-calls, packet_ts_pat-first,
}
use tms.TsReader.Segment.{
  table, refused, parse_ts_segment, segment_head, segment_body, adapted, dispatch, skip_pointer,
}

segment_head-at :
    (bs : List ℕ)
    → length bs ≡ 188
    → bits_value bs 1 9 0 ≡ 1
    → bits_value bs 13 11 0 ≡ 0
    → bits_value bs 2 26 0 ≡ 1
    → segment_head (at bs 0) ≡ (1, 0, 1, at bs 32)
unfolding segment_head
segment_head-at bs l start pid control =
    rw
      (
        pass-at (8 ∷ 1 ∷ []) bs 0 (omega arith),
        get-at 8 1 bs 9 (omega arith),
        pass-at (1 ∷ []) bs 10 (omega arith),
        get-at 16 13 bs 11 (omega arith),
        pass-at (2 ∷ []) bs 24 (omega arith),
        get-at 8 2 bs 26 (omega arith),
        pass-at (4 ∷ []) bs 28 (omega arith),
        start,
        pid,
        control,
      )
      refl

segment_body-at :
    (fuel : ℕ) (bs : List ℕ) (r : TsReader)
    → length bs ≡ 188
    → segment_body fuel (1, 0, 1, at bs 32) r ≡ table (parse_pat (at bs 40) r).0
unfolding segment_body dispatch skip_pointer adapted
segment_body-at fuel bs r l =
    ap (λ b. table (parse_pat b r).0) (pass-at (8 ∷ []) bs 32 (omega arith))

parse_ts_segment-at :
    (fuel : ℕ) (bs : List ℕ) (r : TsReader)
    → length bs ≡ 188
    → get_or bs 0 0 ≡ 0x47
    → segment_head (at bs 0) ≡ (1, 0, 1, at bs 32)
    → parse_ts_segment fuel bs r ≡ table (parse_pat (at bs 40) r).0
unfolding parse_ts_segment of_bytes
parse_ts_segment-at fuel bs r l sync head =
    let valid : (length bs == 188 && get_or bs 0 0 == 0x47) ≡ true = ground arith in
    ap (λ c. if c then segment_body fuel (segment_head (at bs 0)) r else refused r) valid
    ∙ ap (λ h. segment_body fuel h r) head
    ∙ segment_body-at fuel bs r l

-- A call's value in the packet.
call-value :
    (pid counter sum : ℕ) (s : BitStream) (ws vs : List Write) (w : Write)
    → calls pid counter sum ≡ ws ++ w ∷ vs
    → write_all (calls pid counter sum) (of_size 16384) ≡ some s
    → bits_value (written s) (cost w) (cost_all ws) 0 ≡ value w
call-value pid counter sum s ws vs w split made =
    let c = cost_all-calls pid counter sum in
    let split_made = ap (λ all. write_all all (of_size 16384)) (sym split) ∙ made in
    value_at 16384 ws vs w s (subst (ProperAll 0) split (calls-Proper pid counter sum))
      (rw (sym split) (omega arith)) (rw (sym split) (omega arith)) split_made

head-calls :
    (pid counter sum : ℕ) (s : BitStream)
    → length (written s) ≡ 188
    → write_all (calls pid counter sum) (of_size 16384) ≡ some s
    → segment_head (at (written s) 0) ≡ (1, 0, 1, at (written s) 32)
unfolding pat_section cost cost_all
head-calls pid counter sum s l made =
    let all = calls pid counter sum in
    segment_head-at (written s) l
      (call-value pid counter sum s (take 2 all) (drop 3 all) (bits 1 1) refl made)
      (call-value pid counter sum s (take 4 all) (drop 5 all) (bits 13 0) refl made)
      (call-value pid counter sum s (take 6 all) (drop 7 all) (bits 2 1) refl made)

abbrev after_sync : ℕ → ℕ → ℕ → List Write
after_sync pid counter sum = drop 1 (calls pid counter sum)

sync-calls :
    (pid counter sum : ℕ) (s : BitStream)
    → write_all (calls pid counter sum) (of_size 16384) ≡ some s
    → get_or (written s) 0 0 ≡ 0x47
unfolding written size_in_bytes of_size cost_all pat_section overwrite
sync-calls pid counter sum s made =
    let all = calls pid counter sum in
    let start = of_size 16384 in
    let ok =
      Ready-start 16384 all (calls-Proper pid counter sum)
        (omega (arith, cost_all-calls pid counter sum)) in
    let same : wrote_all all start ≡ s = cc (write_all-wrote_all all start ok, made) in
    let long : s.cur_pos ≡ 1504 =
      ap (λ t. t.cur_pos) (sym same)
      ∙ cur_pos-wrote_all all start
      ∙ cost_all-calls pid counter sum in
    get_or-take (s.cur_pos / 8) 0 s.buf 0 (omega arith)
    ∙ ap (λ t. get_or t.buf 0 0) (sym same)
    ∙ get_or-wrote_all (after_sync pid counter sum) (wrote (bytes 1 0x47) start)
        (Ready-tail (bytes 1 0x47) (after_sync pid counter sum) start ok) (omega arith)
    ∙ refl

-- A muxer that has not made its association table, with a number of its program map table below
-- 2^13, makes a packet of which `ParseTsSegment` sets that number in the reader and nothing else.
pub parse_ts_segment-packet_ts_pat :
    (fuel : ℕ) (m : MediaMuxer) (r : TsReader)
    → length m.ts_pat < 4
    → m.ts_pmt_pid < 2 ^ 13
    → (pat : List ℕ) × (m' : MediaMuxer) × (packet_ts_pat m ≡ some (pat, m'))
      × (parse_ts_segment fuel pat r ≡ table (record r { pmt_pid = m.ts_pmt_pid }))
parse_ts_segment-packet_ts_pat fuel m r first small =
    let counter = m.ts_pat_continuity_counter in
    let pid = m.ts_pmt_pid in
    let (sum, s, made, l, e) = table_packet-calls m.crc_32 pid counter in
    let pat = written s in
    let (m', called) = packet_ts_pat-first m pat first e in
    let head = head-calls pid counter sum s l made in
    let read = parse_pat-at pat r l (program-calls pid counter sum s made) in
    let number = pid-calls pid counter sum s made in
    (
      pat,
      m',
      called,
      parse_ts_segment-at fuel pat r l (sync-calls pid counter sum s made) head
          ∙ ap table (read ∙ ap (λ k. record r { pmt_pid = k }) (omega (arith, number))),
    )
