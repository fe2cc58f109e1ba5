-- ===== src/TsReader/Pes.antt =====
-- The header of a PES packet, as `TsReader::ParsePES` (src/ts_reader.cpp) reads it, up to the calls of
-- `OnVideo` and `OnAudio`.
pub mod Stamps
use tms.Prelude.{
  ℕ, zero, suc, ◌+◌, ◌-◌, ◌*◌, ◌/◌, ◌%◌, ◌^◌, Bool, ◌||◌, Option, none, some, List, [], ◌∷◌, ◌==◌,
  replicate, if◌then◌else◌,
}
use tms.BitBuffer.{BitBuffer, peek_bits, skip_bytes, bits_left, of_bytes}
use tms.TsReader.{get, pass}
use tms.TsReader.Segment.{pass_if}

-- `(high << 29) | (middle << 15) | low` of 3, 15 and 15 bits, where the first two share a place.
unfoldable pub join_stamp : ℕ → ℕ → ℕ → ℕ
join_stamp high middle low =
    high / 2 * 2 ^ 30
    + (if high % 2 == 1 || middle / 2 ^ 14 == 1 then 2 ^ 29 else 0)
    + middle % 2 ^ 14 * 2 ^ 15
    + low

-- A PTS or a DTS with its marker bits.
unfoldable pub read_stamp : BitBuffer → ℕ × BitBuffer
unfolding get pass join_stamp
read_stamp b =
    let (high, b1) = get 32 3 (pass (4 ∷ []) b) in
    let (middle, b2) = get 32 15 (pass (1 ∷ []) b1) in
    let (low, b3) = get 32 15 (pass (1 ∷ []) b2) in (join_stamp high middle low, pass (1 ∷ []) b3)

-- PTS and DTS, by `PTS_DTS_flags`.
unfoldable pub read_stamps : ℕ → BitBuffer → ℕ × ℕ × BitBuffer
unfolding read_stamp
read_stamps flags b =
    let (pts, b1) = read_stamp b in
    let (dts, b2) = read_stamp b1 in
    if flags == 2 then (pts, pts, b1) else if flags == 3 then (pts, dts, b2) else (0, 0, b)

-- The trick mode: three bits say which five follow.
unfoldable pub trick_mode : BitBuffer → BitBuffer
unfolding get pass
trick_mode b =
    let (control, b1) = get 8 3 b in
    if control == 0 || control == 3
    then pass (2 ∷ 1 ∷ 2 ∷ []) b1
    else if control == 2
    then pass (2 ∷ 3 ∷ []) b1
    else pass (5 ∷ []) b1

-- The loop of `SystemHeader`. A round takes a bit at least, so that there are at most as many rounds
-- as bits.
unfoldable pub bounds_loop : ℕ → BitBuffer → BitBuffer
unfolding peek_bits pass
bounds_loop zero b = b
bounds_loop (suc fuel) b =
    let rest = bounds_loop fuel (pass (8 ∷ 2 ∷ 1 ∷ 13 ∷ []) b) in
    elim (peek_bits 1 b) [ none ↦ b | some (r, bit) ↦ if bit == 1 then rest else b ]

-- `SystemHeader`.
unfoldable pub system_header : BitBuffer → BitBuffer
unfolding pass bounds_loop bits_left
system_header b =
    let b1 = pass (32 ∷ 16 ∷ 1 ∷ 22 ∷ 1 ∷ 6 ∷ 1 ∷ 1 ∷ 1 ∷ 1 ∷ 1 ∷ 5 ∷ 1 ∷ 7 ∷ []) b in
    bounds_loop (bits_left b1) b1

-- `PackHead`.
unfoldable pub pack_head : BitBuffer → BitBuffer
unfolding get pass system_header
pack_head b =
    let b1 = pass (32 ∷ 2 ∷ 3 ∷ 1 ∷ 15 ∷ 1 ∷ 15 ∷ 1 ∷ 9 ∷ 1 ∷ 22 ∷ 1 ∷ 1 ∷ 5 ∷ []) b in
    let (stuffing_length, b2) = get 8 3 b1 in
    let (start_code, b3) = get 32 32 (pass (replicate stuffing_length 8) b2) in
    if start_code == 0x1BA then system_header b3 else b3

unfoldable pub second_extension : BitBuffer → BitBuffer
unfolding get pass
second_extension b = let (length, b1) = get 8 7 (pass (1 ∷ []) b) in pass (replicate length 8) b1

-- The extension of the header.
unfoldable pub pes_extension : BitBuffer → BitBuffer
unfolding get pass pass_if skip_bytes pack_head second_extension
pes_extension b =
    let (private_data_flag, b1) = get 8 1 b in
    let (pack_header_field_flag, b2) = get 8 1 b1 in
    let (sequence_counter_flag, b3) = get 8 1 b2 in
    let (std_buffer_flag, b4) = get 8 1 b3 in
    let (extension_flag_2, b5) = get 8 1 (pass (3 ∷ []) b4) in
    let b6 = if private_data_flag == 1 then skip_bytes 16 b5 else b5 in
    let b7 = if pack_header_field_flag == 1 then pack_head b6 else b6 in
    let b8 = pass_if sequence_counter_flag (1 ∷ 7 ∷ 1 ∷ 1 ∷ 6 ∷ []) b7 in
    let b9 = pass_if std_buffer_flag (2 ∷ 1 ∷ 13 ∷ []) b8 in
    if extension_flag_2 == 1 then second_extension b9 else b9

-- The stream's id, the time stamps, and where the frame begins.
pub record PesHeader : Type 0 where
  pub stream_id : ℕ
  pub pts : ℕ
  pub dts : ℕ
  pub rest : BitBuffer

-- The fields behind the packet's length.
unfoldable pub pes_fields : ℕ → BitBuffer → PesHeader
unfolding get pass pass_if read_stamps trick_mode pes_extension
pes_fields stream_id b =
    let (pts_dts_flags, b1) = get 8 2 (pass (2 ∷ 2 ∷ 1 ∷ 1 ∷ 1 ∷ 1 ∷ []) b) in
    let (escr_flag, b2) = get 8 1 b1 in
    let (es_rate_flag, b3) = get 8 1 b2 in
    let (trick_mode_flag, b4) = get 8 1 b3 in
    let (copy_info_flag, b5) = get 8 1 b4 in
    let (crc_flag, b6) = get 8 1 b5 in
    let (extension_flag, b7) = get 8 1 b6 in
    let (pts, dts, b8) = read_stamps pts_dts_flags (pass (8 ∷ []) b7) in
    let b9 = pass_if escr_flag (2 ∷ 3 ∷ 1 ∷ 15 ∷ 1 ∷ 15 ∷ 1 ∷ 9 ∷ 1 ∷ []) b8 in
    let b10 = pass_if es_rate_flag (1 ∷ 22 ∷ 1 ∷ []) b9 in
    let b11 = if trick_mode_flag == 1 then trick_mode b10 else b10 in
    let b12 = pass_if copy_info_flag (1 ∷ 7 ∷ []) b11 in
    let b13 = pass_if crc_flag (16 ∷ []) b12 in
    let b14 = if extension_flag == 1 then pes_extension b13 else b13 in
    record { stream_id = stream_id; pts = pts; dts = dts; rest = b14 }

-- The streams whose packets have no such header.
unfoldable pub has_no_header : ℕ → Bool
has_no_header id =
    id == 188
    || id == 190
    || id == 191
    || id == 240
    || id == 241
    || id == 255
    || id == 242
    || id == 248

-- The header of a packet that is not empty, or `none` for a stream that has none and is dropped. A
-- packet has the four bytes of the start code and the id.
unfoldable pub parse_pes_header : List ℕ → Option PesHeader
unfolding of_bytes get pass has_no_header pes_fields
parse_pes_header pes =
    let (stream_id, b1) = get 8 8 (pass (24 ∷ []) (of_bytes pes)) in
    if has_no_header stream_id then none else some (pes_fields stream_id (pass (16 ∷ []) b1))
