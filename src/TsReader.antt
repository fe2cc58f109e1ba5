-- ===== src/TsReader.antt =====
-- `TsReader` (src/ts_reader.h, src/ts_reader.cpp): the tables of a TS stream that it reads, which say
-- where audio and video are. The functions read from a `BitBuffer` and go on where a read fails.
pub mod Hang
pub mod Pat
pub mod Segment
pub mod Pes
mod Tests
use tms.Prelude.{
  ℕ, zero, suc, ◌+◌, ◌-◌, ◌*◌, ◌/◌, ◌%◌, ◌^◌, Bool, true, false, ◌&&◌, ◌||◌, not, Option, none,
  some, List, [], ◌∷◌, ◌==◌, ltb, leb, if◌then◌else◌,
}
use tms.BitBuffer.{BitBuffer, get_bits, bytes_left, skip_bytes}

-- The fields of the reader that the tables set. A stream type has no value before a table gives one.
pub record TsReader : Type 0 where
  pub pmt_pid : ℕ
  pub video_pid : ℕ
  pub audio_pid : ℕ
  pub video_stream_type : Option ℕ
  pub audio_stream_type : Option ℕ

-- The constructor.
unfoldable pub new_ts_reader : TsReader
new_ts_reader = record {
  pmt_pid = 0xFFFF;
  video_pid = 0xFFFF;
  audio_pid = 0xFFFF;
  video_stream_type = none;
  audio_stream_type = none;
}

-- `GetBits` into a variable of `w` bits that is 0 before.
unfoldable pub get : ℕ → ℕ → BitBuffer → ℕ × BitBuffer
unfolding get_bits
get w n b = elim (get_bits w n b) [ none ↦ (0, b) | some (v, b') ↦ (v, b') ]

-- `GetBits` into variables that are not used, in a row.
unfoldable pub pass : List ℕ → BitBuffer → BitBuffer
unfolding get
pass [] b = b
pass (n ∷ ns) b = pass ns (get 64 n b).1

unfoldable pub is_video_stream_type : ℕ → Bool
is_video_stream_type t = t == 0x1B || t == 0x24

unfoldable pub is_audio_stream_type : ℕ → Bool
is_audio_stream_type t = t == 0x0F

-- `ParsePAT`. Before the program number stand the table id, four flags, the length of the section, the
-- stream's id, and the version and numbers of the section.
unfoldable pub parse_pat : BitBuffer → TsReader → TsReader × BitBuffer
unfolding get pass
parse_pat b r =
    let b1 = pass (8 ∷ 1 ∷ 1 ∷ 2 ∷ 12 ∷ 16 ∷ 2 ∷ 5 ∷ 1 ∷ 8 ∷ 8 ∷ []) b in
    let (program_number, b2) = get 16 16 b1 in
    let b3 = pass (3 ∷ []) b2 in
    let (pid, b4) = get 16 13 b3 in
    let b5 = pass (32 ∷ []) b4 in
    (if program_number == 0 then (r, b5) else (record r { pmt_pid = pid }, b5))

-- `ParseDescriptor`. `none` is -1. The switch over the tag skips in each case.
unfoldable pub parse_descriptor : BitBuffer → Option BitBuffer
unfolding get bytes_left skip_bytes
parse_descriptor b =
    let (descriptor_tag, b1) = get 8 8 b in
    let (descriptor_length, b2) = get 8 8 b1 in
    if ltb (bytes_left b2) descriptor_length then none else some (skip_bytes descriptor_length b2)

-- How a loop over descriptors ends, with the state that it leaves. The buffer that a failure leaves
-- is not read again.
pub data Parsed {ℓ} (A : Type ℓ) : Type ℓ where
  parsed : A → Parsed A
  failed : A → Parsed A
  out_of_fuel : Parsed A

-- `while (length > 0)`, on a length of 16 bits, from which each round takes the bytes it has read.
unfoldable pub descriptors : ℕ → ℕ → BitBuffer → Parsed BitBuffer
unfolding parse_descriptor bytes_left
descriptors zero length b = out_of_fuel
descriptors (suc fuel) length b =
    let round : Parsed BitBuffer = elim (parse_descriptor b) [
      | none ↦ failed b
      | some b' ↦ descriptors fuel ((length + 2 ^ 16 - (bytes_left b - bytes_left b')) % 2 ^ 16) b'
    ] in
    if length == 0 then parsed b else round

-- An entry of the program map table.
unfoldable pub set_stream : ℕ → ℕ → TsReader → TsReader
unfolding is_video_stream_type is_audio_stream_type
set_stream stream_type pid r =
    if is_video_stream_type stream_type
    then record r { video_stream_type = some stream_type; video_pid = pid }
    else if is_audio_stream_type stream_type
    then record r { audio_stream_type = some stream_type; audio_pid = pid }
    else r

-- The loop over the entries. `es_info_bytes` is an `int`: a round that has read more than it shows
-- makes it negative, which ends the loop as 0 does.
unfoldable pub entries : ℕ → ℕ → BitBuffer → TsReader → Parsed (TsReader × BitBuffer)
unfolding get pass descriptors set_stream bytes_left
entries zero es_info_bytes b r = out_of_fuel
entries (suc fuel) es_info_bytes b r =
    let (stream_type, b1) = get 8 8 b in
    let b2 = pass (3 ∷ []) b1 in
    let (elementary_pid, b3) = get 16 13 b2 in
    let b4 = pass (4 ∷ []) b3 in
    let (es_info_length, b5) = get 16 12 b4 in
    let round : Parsed (TsReader × BitBuffer) = elim (descriptors (suc fuel) es_info_length b5) [
      | failed b6 ↦ failed (set_stream stream_type elementary_pid r, b6)
      | out_of_fuel ↦ out_of_fuel
      | parsed b6 ↦
          entries fuel (es_info_bytes - (bytes_left b - bytes_left b6)) b6
            (set_stream stream_type elementary_pid r)
    ] in
    if ltb 4 (bytes_left b) && ltb 0 es_info_bytes then round else parsed (r, b)

-- `section_length -= 9`, on 16 bits, and then `int es_info_bytes = section_length - 4`, of which
-- only whether it is above 0 counts where it is not.
unfoldable pub es_info_bytes_of : ℕ → ℕ
es_info_bytes_of section_length = (section_length + 2 ^ 16 - 9) % 2 ^ 16 - 4

-- `ParsePMT`, up to the length of the program's descriptors: the length of the section, that of the
-- descriptors, and the buffer.
unfoldable pub pmt_head : BitBuffer → ℕ × ℕ × BitBuffer
unfolding get pass
pmt_head b =
    let b1 = pass (8 ∷ 1 ∷ 1 ∷ 2 ∷ []) b in
    let (section_length, b2) = get 16 12 b1 in
    let b3 = pass (16 ∷ 2 ∷ 5 ∷ 1 ∷ 8 ∷ 8 ∷ 3 ∷ 13 ∷ 4 ∷ []) b2 in
    let (program_info_length, b4) = get 16 12 b3 in (section_length, program_info_length, b4)

-- `ParsePMT`.
unfoldable pub parse_pmt : ℕ → BitBuffer → TsReader → Parsed (TsReader × BitBuffer)
unfolding pmt_head pass descriptors entries es_info_bytes_of
parse_pmt fuel b r =
    let (section_length, program_info_length, b4) = pmt_head b in
    elim (descriptors fuel program_info_length b4) [
      | failed b5 ↦ failed (r, b5)
      | out_of_fuel ↦ out_of_fuel
      | parsed b5 ↦ elim (entries fuel (es_info_bytes_of section_length) b5 r) [
        | failed end ↦ failed end
        | out_of_fuel ↦ out_of_fuel
        | parsed (r', b6) ↦ parsed (r', pass (32 ∷ []) b6)
      ]
    ]
