-- ===== src/Rtmp/Parse.antt =====
-- `RtmpProtocol::Parse` once the handshake is done. The `IoBuffer` enters as the queue of its
-- unread bytes. A whole message is a result, for `OnRtmpMessage` of Handle.
use tms.Prelude.{
  ℕ, zero, suc, ◌+◌, ◌-◌, ◌%◌, ◌^◌, Option, none, some, not, List, [], ◌++◌, ◌==◌, leb, ltb,
  if◌then◌else◌, take, drop, length,
}
use tms.BitBuffer.{BitBuffer, of_bytes, get_bits, get_bytes}
use tms.Rtmp.{Message, at_id, put_id, Rtmp, swap32}

-- `GetBits` into a variable that holds 0.
unfoldable pub bits_or_zero : ℕ → ℕ → BitBuffer → ℕ × BitBuffer
unfolding get_bits
bits_or_zero w n b = elim (get_bits w n b) [ none ↦ (0, b) | some (x, b') ↦ (x, b') ]

-- The chunk stream id of one, two or three bytes, of which the first has given `cs_id`.
unfoldable pub read_cs_id : ℕ → ℕ → List ℕ → Option (ℕ × ℕ × ℕ)
unfolding of_bytes bits_or_zero
read_cs_id fmt cs_id q =
    if cs_id == 0
    then (if leb 2 (length q)
        then some (fmt, (bits_or_zero 32 8 (of_bytes (take 1 (drop 1 q)))).0 + 64, 2)
        else none)
    else if cs_id == 1
    then (if leb 3 (length q)
        then some (fmt, (bits_or_zero 32 16 (of_bytes (take 2 (drop 1 q)))).0 + 64, 3)
        else none)
    else some (fmt, cs_id, 1)

-- The format, the chunk stream id and the size of the basic header.
unfoldable pub read_basic : List ℕ → Option (ℕ × ℕ × ℕ)
unfolding of_bytes bits_or_zero read_cs_id
read_basic q =
    if not (leb 1 (length q))
    then none
    else let (fmt, b) = bits_or_zero 8 2 (of_bytes (take 1 q)) in
      read_cs_id fmt (bits_or_zero 32 6 b).0 q

unfoldable pub header_len : ℕ → ℕ
header_len fmt = if fmt == 0 then 11 else if fmt == 1 then 7 else if fmt == 2 then 3 else 0

-- The fields of the message header, read into the message of that chunk stream.
unfoldable pub set_header : ℕ → List ℕ → Message → Message
unfolding of_bytes swap32
set_header fmt p m =
    if fmt == 0
    then (let (_, timestamp, b₁) = get_bytes 32 3 (of_bytes p) in
        let (_, message_length, b₂) = get_bytes 32 3 b₁ in
        let (_, message_type_id, b₃) = get_bytes 8 1 b₂ in
        let (_, message_stream_id, _) = get_bytes 32 4 b₃ in
        record m {
          timestamp = timestamp;
          timestamp_calc = timestamp;
          message_length = message_length;
          message_type_id = message_type_id;
          message_stream_id = swap32 message_stream_id;
        })
    else if fmt == 1
    then (let (_, timestamp_delta, b₁) = get_bytes 32 3 (of_bytes p) in
        let (_, message_length, b₂) = get_bytes 32 3 b₁ in
        let (_, message_type_id, _) = get_bytes 8 1 b₂ in
        record m {
          timestamp_delta = timestamp_delta;
          message_length = message_length;
          message_type_id = message_type_id;
        })
    else if fmt == 2
    then (let (_, timestamp_delta, _) = get_bytes 32 3 (of_bytes p) in
        record m { timestamp_delta = timestamp_delta })
    else m

-- kNoEnoughData, kSuccess after a chunk, or a whole message for `OnRtmpMessage`; with the members
-- and the unread bytes after it.
pub data Parsed : Type 0 where
  no_enough_data : Rtmp → List ℕ → Parsed
  chunk : Rtmp → List ℕ → Parsed
  message : Message → Rtmp → List ℕ → Parsed

abbrev pub put_head : ℕ → Message → Rtmp → Rtmp
put_head cs_id m r = record r { csid_head = put_id cs_id m r.csid_head }

-- How much of the message this chunk has. The subtraction wraps.
unfoldable pub read_len : ℕ → Message → ℕ
read_len in_chunk_size m =
    let left = (2 ^ 32 + m.message_length - m.len) % 2 ^ 32 in
    if ltb in_chunk_size left then in_chunk_size else left

-- The message after `n` more bytes: whole, or not yet.
unfoldable pub store_chunk : ℕ → Message → List ℕ → Rtmp → List ℕ → Parsed
store_chunk cs_id m bytes r rest =
    let m' = record m {
      msg = (if m.len == 0 then [] else m.msg) ++ bytes;
      len = (m.len + length bytes) % 2 ^ 32;
    } in
    if m'.len == m'.message_length
    then (let whole = record m' {
      timestamp_calc = (m'.timestamp_calc + m'.timestamp_delta) % 2 ^ 32;
      cs_id = cs_id;
    } in
        message whole (put_head cs_id (record whole { msg = []; len = 0 }) r) rest)
    else chunk (put_head cs_id m' r) rest

-- The part of `Parse` after the message header, whose last byte is number `skip`; `n` is the
-- `read_len`.
unfoldable pub receive_len : ℕ → ℕ → ℕ → Message → Rtmp → List ℕ → Parsed
unfolding store_chunk
receive_len n cs_id skip m r q =
    if not (leb (skip + n) (length q))
    then no_enough_data (put_head cs_id m r) q
    else store_chunk cs_id m (take n (drop skip q)) r (drop (skip + n) q)

unfoldable pub receive : ℕ → ℕ → Message → Rtmp → List ℕ → Parsed
unfolding read_len receive_len
receive cs_id skip m r q = receive_len (read_len r.in_chunk_size m) cs_id skip m r q

unfoldable pub parse_header : ℕ → ℕ → ℕ → Rtmp → List ℕ → Parsed
unfolding header_len set_header receive
parse_header fmt cs_id chunk_header_len r q =
    let n = header_len fmt in
    let m = at_id cs_id r.csid_head in
    if not (leb (chunk_header_len + n) (length q))
    then no_enough_data (put_head cs_id m r) q
    else receive cs_id (chunk_header_len + n) (set_header fmt (take n (drop chunk_header_len q)) m)
        r q

unfoldable pub parse : Rtmp → List ℕ → Parsed
unfolding read_basic parse_header
parse r q = elim (read_basic q) [
  | none ↦ no_enough_data r q
  | some (fmt, cs_id, chunk_header_len) ↦ parse_header fmt cs_id chunk_header_len r q
]

-- `HandleRead` up to the first message: `Parse` again and again while it returns kSuccess. None is
-- a queue that ends before the message does, or fuel that ran out.
unfoldable pub read_message : ℕ → Rtmp → List ℕ → Option (Message × Rtmp × List ℕ)
unfolding parse
read_message zero r q = none
read_message (suc f) r q = elim (parse r q) [
  | no_enough_data r' q' ↦ none
  | chunk r' q' ↦ read_message f r' q'
  | message m r' q' ↦ some (m, r', q')
]
