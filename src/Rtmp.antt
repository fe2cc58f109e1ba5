-- ===== src/Rtmp.antt =====
-- The chunk stream of `RtmpProtocol` (src/rtmp_protocol.h, src/rtmp_protocol.cpp): messages cut
-- into chunks by `SendData`, and put together by `Parse` once the handshake is done.
pub mod Send
pub mod Parse
pub mod Handle
pub mod Header
pub mod Receive
pub mod Chunks
pub mod Cut
pub mod RoundTrip
pub mod Announce
pub mod Conversation
mod Tests
use tms.Prelude.{ℕ, ◌+◌, ◌*◌, ◌/◌, ◌%◌, ◌^◌, Option, none, some, List, [], ◌==◌, if◌then◌else◌}

-- `RtmpMessage`. The block that `msg` points to is the list of the bytes stored in it.
pub record Message : Type 0 where
  pub cs_id : ℕ
  pub timestamp : ℕ
  pub timestamp_delta : ℕ
  pub timestamp_calc : ℕ
  pub message_length : ℕ
  pub message_type_id : ℕ
  pub message_stream_id : ℕ
  pub msg : List ℕ
  pub len : ℕ

abbrev pub new_message : Message
new_message = record {
  cs_id = 0;
  timestamp = 0;
  timestamp_delta = 0;
  timestamp_calc = 0;
  message_length = 0;
  message_type_id = 0;
  message_stream_id = 0;
  msg = [];
  len = 0;
}

-- A `std::map<uint32_t, RtmpMessage>`.
abbrev pub Messages : Type 0
Messages = ℕ → Option Message

-- `operator[]`.
abbrev pub at_id : ℕ → Messages → Message
at_id cs_id ms = elim (ms cs_id) [ none ↦ new_message | some m ↦ m ]

abbrev pub put_id : ℕ → Message → Messages → Messages
put_id cs_id m ms = λ k. if k == cs_id then some m else ms k

-- The members that the chunk stream uses.
pub record Rtmp : Type 0 where
  pub in_chunk_size : ℕ
  pub out_chunk_size : ℕ
  pub csid_head : Messages
  pub csid_pre_info : Messages

-- `htobe32` and `be32toh` on a little-endian machine.
unfoldable pub swap32 : ℕ → ℕ
swap32 n = n % 256 * 2 ^ 24 + n / 2 ^ 8 % 256 * 2 ^ 16 + n / 2 ^ 16 % 256 * 2 ^ 8 + n / 2 ^ 24 % 256
