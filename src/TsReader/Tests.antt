-- ===== src/TsReader/Tests.antt =====
-- Runs of src/ts_reader.cpp, on tables that src/media_muxer.cpp writes, too.
use tms.Prelude.{
  ℕ, true, ◌≡◌, refl, List, [], ◌∷◌, Option, none, some, arith, drop, replicate, ◌++◌,
}
use tms.Crc32
use tms.BitBuffer.{BitBuffer, of_bytes, bits_left}
use tms.MediaMuxer.{MediaMuxer, new_media_muxer}
use tms.MediaMuxer.Tables.{packet_ts_pat, packet_ts_pmt}
use tms.TsReader.{
  TsReader, new_ts_reader, parse_pat, parse_pmt, Parsed, parsed, failed, out_of_fuel, pmt_head,
}
use tms.BitStream.{BitStream, write_all, of_size, written}
use tms.MediaMuxer.Packet.{pes_header}
use tms.TsReader.Pes.{read_stamp, parse_pes_header}
use tms.TsReader.Pes.Stamps.{parse_pes_header-pes_header}
use tms.TsReader.Hang.{parse_pmt-hangs}
use tms.TsReader.Segment.{Segment, refused, fault, hangs, table, payload, parse_ts_segment}
use tms.TsReader.Segment.Announced.{parse_ts_segment-packet_ts_pat}

abbrev fresh : MediaMuxer
fresh = new_media_muxer Crc32.static_tables

-- The packet behind its header and the byte that the reader skips there.
abbrev section : {M : Type 0} → Option (List ℕ × M) → BitBuffer
section none = of_bytes []
section (some (bs, m)) = of_bytes (drop 5 bs)

abbrev reader_of : Parsed (TsReader × BitBuffer) → Option TsReader
reader_of (parsed (r, b)) = some r
reader_of (failed (r, b)) = none
reader_of out_of_fuel = none

pat_read : (parse_pat (section (packet_ts_pat fresh)) new_ts_reader).0.pmt_pid ≡ 0xABC
unfolding parse_pat packet_ts_pat new_media_muxer Crc32.static_tables new_ts_reader of_bytes
pat_read = refl

pmt_read :
    reader_of (parse_pmt 3 (section (packet_ts_pmt fresh)) new_ts_reader)
    ≡ some (record new_ts_reader {
      video_pid = 0x100;
      audio_pid = 0x101;
      video_stream_type = some 0x1B;
      audio_stream_type = some 0x0F;
    })
unfolding parse_pmt packet_ts_pmt new_media_muxer Crc32.static_tables new_ts_reader of_bytes
pmt_read = refl

-- The head of a program map table that ends with the length of its descriptors, 9.
abbrev cut_table : BitBuffer
cut_table = of_bytes (2 ∷ 0xB0 ∷ 23 ∷ 0 ∷ 1 ∷ 0xC1 ∷ 0 ∷ 0 ∷ 0xE1 ∷ 0 ∷ 0xF0 ∷ 9 ∷ [])

parse_pmt-hangs_example : parse_pmt 1000 cut_table new_ts_reader ≡ out_of_fuel
unfolding of_bytes pmt_head bits_left
parse_pmt-hangs_example =
    parse_pmt-hangs 1000 cut_table new_ts_reader (omega arith) (omega arith) (omega arith)

parse_ts_segment-packet_ts_pat_example :
    (pat : List ℕ) × (m' : MediaMuxer) × (packet_ts_pat fresh ≡ some (pat, m'))
    × (parse_ts_segment 3 pat new_ts_reader ≡ table (record new_ts_reader { pmt_pid = 0xABC }))
unfolding new_media_muxer
parse_ts_segment-packet_ts_pat_example =
    parse_ts_segment-packet_ts_pat 3 fresh new_ts_reader (omega arith) (omega arith)

-- A packet with an adaptation field of seven bytes, with a clock, whose payload begins behind it.
abbrev clocked : List ℕ
clocked = 0x47 ∷ 0x41 ∷ 0 ∷ 0x30 ∷ 7 ∷ 0x10 ∷ replicate 6 0 ++ replicate 176 0xAA

payload_cursor : Segment → ℕ
payload_cursor (payload pid start b) = b.cur_pos
payload_cursor (refused r) = 0
payload_cursor fault = 0
payload_cursor hangs = 0
payload_cursor (table r) = 0

clocked_payload : payload_cursor (parse_ts_segment 3 clocked new_ts_reader) ≡ 96
unfolding payload_cursor parse_ts_segment new_ts_reader
clocked_payload = refl

cut_packet : parse_ts_segment 3 (replicate 187 0x47) new_ts_reader ≡ refused new_ts_reader
unfolding parse_ts_segment
cut_packet = refl

parse_pes_header-pes_header_example :
    (s : BitStream) × (write_all (pes_header true 160 80 40) (of_size 16384) ≡ some s)
    × (parse_pes_header (written s)
        ≡ some (record {
          stream_id = 0xE0;
          pts = 7200;
          dts = 3600;
          rest = record (of_bytes (written s)) { cur_pos = 152 };
        }))
parse_pes_header-pes_header_example =
    parse_pes_header-pes_header 160 80 40 (omega arith) (omega arith)

-- A time stamp of 2^30 is written and read back as one of 2^29.
abbrev late : ℕ × BitBuffer → ℕ
late (t, b) = t

late_stamp : late (read_stamp (of_bytes (0x23 ∷ 0 ∷ 1 ∷ 0 ∷ 1 ∷ []))) ≡ 536870912
unfolding read_stamp of_bytes
late_stamp = refl
