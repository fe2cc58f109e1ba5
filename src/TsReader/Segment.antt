-- ===== src/TsReader/Segment.antt =====
-- `TsReader::ParseTsSegment` and `TsReader::ParseAdaptation` (src/ts_reader.cpp): a packet of a TS
-- stream, up to where `ParsePES` and `CollectPES` take it.
pub mod Announced
use tms.Prelude.{
  ℕ, zero, suc, ◌+◌, ◌-◌, ◌*◌, ◌%◌, ◌^◌, Bool, ◌&&◌, ◌||◌, Option, none, some, List, [], ◌∷◌, ◌==◌,
  length, get_or, replicate, if◌then◌else◌,
}
use tms.BitBuffer.{BitBuffer, get_bits, bytes_left, of_bytes}
use tms.TsReader.{TsReader, get, pass, parse_pat, parse_pmt, Parsed, parsed, failed, out_of_fuel}

-- Fields that are there only if a flag is set.
unfoldable pub pass_if : ℕ → List ℕ → BitBuffer → BitBuffer
unfolding pass
pass_if flag widths b = if flag == 1 then pass widths b else b

-- `length -= begin - end`, on a length of 8 bits.
unfoldable pub remaining : ℕ → BitBuffer → BitBuffer → ℕ
unfolding bytes_left
remaining length b b' = (length + (2 ^ 8 - (bytes_left b - bytes_left b') % 2 ^ 8)) % 2 ^ 8

-- The private data: their length, and as many bytes.
unfoldable pub private_data : BitBuffer → BitBuffer
unfolding get pass
private_data b = let (length, b1) = get 8 8 b in pass (replicate length 8) b1

-- The extension of an adaptation field. Its length and flags have no value where they are not read,
-- which is `none`.
unfoldable pub parse_extension : BitBuffer → Option BitBuffer
unfolding get_bits pass pass_if remaining
parse_extension b = elim (get_bits 8 8 b) [
  | none ↦ none
  | some (length, b1) ↦ elim (get_bits 8 1 b1) [
    | none ↦ none
    | some (ltw_flag, b2) ↦ elim (get_bits 8 1 b2) [
      | none ↦ none
      | some (piecewise_rate_flag, b3) ↦ elim (get_bits 8 1 b3) [
        | none ↦ none
        | some (seamless_splice_flag, b4) ↦
            let b5 = pass (5 ∷ []) b4 in
            let b6 = pass_if ltw_flag (1 ∷ 15 ∷ []) b5 in
            let b7 = pass_if piecewise_rate_flag (2 ∷ 22 ∷ []) b6 in
            let b8 = pass_if seamless_splice_flag (4 ∷ 3 ∷ 1 ∷ 15 ∷ 15 ∷ 1 ∷ []) b7 in
            some (pass (replicate (remaining length b1 b8) 8) b8)
      ]
    ]
  ]
]

-- The stuffing, each byte of which is asserted to be 0xFF.
unfoldable pub stuffing : ℕ → BitBuffer → Option BitBuffer
unfolding get
stuffing zero b = some b
stuffing (suc n) b =
    let (stuffing_byte, b') = get 8 8 b in
    let rest = stuffing n b' in if stuffing_byte == 0xFF then rest else none

-- The fields of an adaptation field that is not empty, behind its length.
unfoldable pub adaptation_fields : BitBuffer → Option BitBuffer
unfolding get pass pass_if private_data parse_extension
adaptation_fields b =
    let b1 = pass (1 ∷ 1 ∷ 1 ∷ []) b in
    let (pcr_flag, b2) = get 8 1 b1 in
    let (opcr_flag, b3) = get 8 1 b2 in
    let (splicing_point_flag, b4) = get 8 1 b3 in
    let (private_data_flag, b5) = get 8 1 b4 in
    let (extension_flag, b6) = get 8 1 b5 in
    let b7 = pass_if pcr_flag (33 ∷ 6 ∷ 9 ∷ []) b6 in
    let b8 = pass_if opcr_flag (33 ∷ 6 ∷ 9 ∷ []) b7 in
    let b9 = pass_if splicing_point_flag (8 ∷ []) b8 in
    let b10 = if private_data_flag == 1 then private_data b9 else b9 in
    if extension_flag == 1 then parse_extension b10 else some b10

-- `ParseAdaptation`. `none` is an assertion that fails.
unfoldable pub parse_adaptation : BitBuffer → Option BitBuffer
unfolding get adaptation_fields stuffing remaining
parse_adaptation b =
    let (length, b1) = get 8 8 b in
    if length == 0 then some b1 else elim (adaptation_fields b1) [
      | none ↦ none
      | some b2 ↦ stuffing (remaining length b1 b2) b2
    ]

-- What becomes of a packet: it is refused, an assertion fails, a loop does not end, its table is
-- read, or its payload, with its pid and the flag that a unit starts, goes on to the PES part.
pub data Segment : Type 0 where
  refused : TsReader → Segment
  fault : Segment
  hangs : Segment
  table : TsReader → Segment
  payload : ℕ → ℕ → BitBuffer → Segment

unfoldable pub of_parsed : Parsed (TsReader × BitBuffer) → Segment
of_parsed (parsed (r, b)) = table r
of_parsed (failed (r, b)) = refused r
of_parsed out_of_fuel = hangs

unfoldable pub dispatch : ℕ → ℕ → ℕ → BitBuffer → TsReader → Segment
unfolding parse_pat parse_pmt of_parsed
dispatch fuel pid start b r =
    if pid == 0
    then table (parse_pat b r).0
    else if pid == r.pmt_pid
    then of_parsed (parse_pmt fuel b r)
    else payload pid start b

-- The byte in front of a table.
unfoldable pub skip_pointer : ℕ → ℕ → TsReader → BitBuffer → BitBuffer
unfolding pass
skip_pointer start pid r b =
    if start == 1 && (pid == 0 || pid == r.pmt_pid) then pass (8 ∷ []) b else b

-- The fields of a packet's header that are used: that a unit starts, the pid, and which of adaptation
-- field and payload are there.
unfoldable pub segment_head : BitBuffer → ℕ × ℕ × ℕ × BitBuffer
unfolding get pass
segment_head b =
    let (start, b1) = get 8 1 (pass (8 ∷ 1 ∷ []) b) in
    let (pid, b2) = get 16 13 (pass (1 ∷ []) b1) in
    let (adaptation_field_control, b3) = get 8 2 (pass (2 ∷ []) b2) in
    (start, pid, adaptation_field_control, pass (4 ∷ []) b3)

unfoldable pub adapted : ℕ → BitBuffer → Option BitBuffer
unfolding parse_adaptation
adapted adaptation_field_control b =
    if adaptation_field_control == 2 || adaptation_field_control == 3
    then parse_adaptation b
    else some b

-- What follows the header.
unfoldable pub segment_body : ℕ → ℕ × ℕ × ℕ × BitBuffer → TsReader → Segment
unfolding skip_pointer adapted dispatch
segment_body fuel (start, pid, adaptation_field_control, b) r =
    elim (adapted adaptation_field_control (skip_pointer start pid r b)) [
      | none ↦ fault
      | some b' ↦ dispatch fuel pid start b' r
    ]

-- `ParseTsSegment`.
unfoldable pub parse_ts_segment : ℕ → List ℕ → TsReader → Segment
unfolding of_bytes segment_head segment_body
parse_ts_segment fuel bytes r =
    if length bytes == 188 && get_or bytes 0 0 == 0x47
    then segment_body fuel (segment_head (of_bytes bytes)) r
    else refused r
