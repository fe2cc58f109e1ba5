-- ===== src/MediaMuxer/Tables.antt =====
-- The two tables of a TS stream that src/media_muxer.cpp writes: `PacketTsPat` and `PacketTsPmt`.
use tms.Prelude.{
  ℕ, ◌+◌, ◌-◌, Option, none, some, List, [], ◌∷◌, ◌++◌, leb, if◌then◌else◌, length, drop, set,
  replicate,
}
use tms.Crc32
use tms.BitStream.{
  BitStream, Write, bits, bytes, text, write_all, new_stream, written, size_in_bytes,
}
use tms.MediaMuxer.{MediaMuxer, next_counter}

abbrev pub ts_header : ℕ → ℕ → List Write
ts_header pid counter =
    bytes 1 0x47
    ∷ bits 1 0
    ∷ bits 1 1
    ∷ bits 1 0
    ∷ bits 13 pid
    ∷ bits 2 0
    ∷ bits 2 1
    ∷ bits 4 counter
    ∷ []

-- What stands between the header and the checksum of the program association table.
unfoldable pub pat_section : ℕ → List Write
pat_section ts_pmt_pid =
    bytes 2 0x0000
    ∷ bits 1 1
    ∷ bits 1 0
    ∷ bits 2 0x03
    ∷ bits 12 13
    ∷ bits 16 0x0001
    ∷ bits 2 0x03
    ∷ bits 5 0
    ∷ bits 1 1
    ∷ bits 8 0
    ∷ bits 8 0
    ∷ bits 16 0x0001
    ∷ bits 3 0x07
    ∷ bits 13 ts_pmt_pid
    ∷ []

-- The same of the program map table.
unfoldable pub pmt_section : ℕ → ℕ → List Write
pmt_section ts_video_pid ts_audio_pid =
    bytes 2 0x0002
    ∷ bits 1 1
    ∷ bits 1 0
    ∷ bits 2 0x03
    ∷ bits 12 23
    ∷ bits 16 0x0001
    ∷ bits 2 0x03
    ∷ bits 5 0
    ∷ bits 1 1
    ∷ bits 8 0
    ∷ bits 8 0
    ∷ bits 3 0x07
    ∷ bits 13 ts_video_pid
    ∷ bits 4 0x0F
    ∷ bits 12 0
    ∷ bits 8 0x1b
    ∷ bits 3 0x07
    ∷ bits 13 ts_video_pid
    ∷ bits 4 0x0F
    ∷ bits 12 0x0000
    ∷ bits 8 0x0f
    ∷ bits 3 0x07
    ∷ bits 13 ts_audio_pid
    ∷ bits 4 0x0F
    ∷ bits 12 0x0000
    ∷ []

-- The checksum of what follows the first five bytes, and 0xFF up to the end of the packet.
unfoldable pub finish : Crc32.Tables → BitStream → Option BitStream
unfolding write_all written size_in_bytes Crc32.get_crc32
finish t s =
    write_all
      (bytes 4 (Crc32.get_crc32 Crc32.hls_type t (drop 5 (written s)))
        ∷ text (replicate (188 - (size_in_bytes s + 4)) 0xFF)
        ∷ [])
      s

unfoldable pub table_packet : Crc32.Tables → ℕ → ℕ → List Write → Option (List ℕ)
unfolding write_all new_stream written finish
table_packet t pid counter section =
    elim (write_all (ts_header pid counter ++ section) new_stream) [
      | none ↦ none
      | some s ↦ elim (finish t s) [ none ↦ none | some s' ↦ some (written s') ]
    ]

-- `PacketTsPat`. The table is made once; later calls renew its continuity counter.
unfoldable pub packet_ts_pat : MediaMuxer → Option (List ℕ × MediaMuxer)
unfolding next_counter table_packet pat_section
packet_ts_pat m =
    let counter = m.ts_pat_continuity_counter in
    let m' = record m { ts_pat_continuity_counter = next_counter counter } in
    if leb 4 (length m.ts_pat)
    then (let pat = set m.ts_pat 3 (0x10 + counter) in some (pat, record m' { ts_pat = pat }))
    else elim (table_packet m.crc_32 0 counter (pat_section m.ts_pmt_pid)) [
      | none ↦ none
      | some pat ↦ some (pat, record m' { ts_pat = pat })
    ]

-- `PacketTsPmt`.
unfoldable pub packet_ts_pmt : MediaMuxer → Option (List ℕ × MediaMuxer)
unfolding next_counter table_packet pmt_section
packet_ts_pmt m =
    let counter = m.ts_pmt_continuity_counter in
    let m' = record m { ts_pmt_continuity_counter = next_counter counter } in
    if leb 4 (length m.ts_pmt)
    then (let pmt = set m.ts_pmt 3 (0x10 + counter) in some (pmt, record m' { ts_pmt = pmt }))
    else elim (table_packet m.crc_32 m.ts_pmt_pid counter
        (pmt_section m.ts_video_pid m.ts_audio_pid)) [
          | none ↦ none
          | some pmt ↦ some (pmt, record m' { ts_pmt = pmt })
        ]
