-- ===== src/Rtmp/Send.antt =====
-- `RtmpProtocol::SendData` and its callers. What `socket_->Send` is given is the list of bytes that
-- the call returns; a header that is built in an `IoBuffer` is the list of its bytes.
use tms.Prelude.{
  ℕ, zero, suc, ◌+◌, ◌-◌, ◌*◌, ◌/◌, ◌%◌, ◌^◌, max, Bool, not, List, [], ◌∷◌, ◌++◌, ◌==◌, ltb, ◌&&◌,
  ◌||◌, if◌then◌else◌, be_bytes, take, drop, length,
}
use tms.Rtmp.{Message, at_id, put_id, Rtmp, swap32}

-- What `SendData` asks of its `Payload`.
pub data Payload : Type 0 where
  video : Bool → ℕ → ℕ → Payload
  other : Payload

abbrev pub audio_type : ℕ
audio_type = 8

abbrev pub video_type : ℕ
video_type = 9

unfoldable pub chunk_count : ℕ → ℕ → ℕ
chunk_count len size = if ltb size len then len / size + (if len % size == 0 then 0 else 1) else 1

-- The header format: 0 is whole, 1 to 3 leave out what is as in the message before.
unfoldable pub choose_fmt : Message → Message → Bool → ℕ
choose_fmt pre cur force_fmt0 =
    if (pre.message_length == 0) || force_fmt0
    then 0
    else if pre.message_length == cur.message_length
    then (if pre.message_type_id == cur.message_type_id
        then (if pre.timestamp_delta == cur.timestamp_delta then 3 else 2)
        else 1)
    else 1

-- `|` on two bits.
abbrev or2 : ℕ → ℕ → ℕ
or2 a b = max (a / 2 % 2) (b / 2 % 2) * 2 + max (a % 2) (b % 2)

-- `fmt << 6 | cs_id`, cut to a byte.
unfoldable pub basic_header : ℕ → ℕ → ℕ
basic_header fmt cs_id = or2 fmt (cs_id / 64) * 64 + cs_id % 64

-- The message header. The stream id goes through `htobe32` twice, once in `WriteU32`.
unfoldable pub message_header : ℕ → Message → List ℕ
unfolding swap32
message_header fmt cur =
    if fmt == 0
    then be_bytes 3 cur.timestamp_delta
      ++ (be_bytes 3 cur.message_length
          ++ (be_bytes 1 cur.message_type_id ++ be_bytes 4 (swap32 cur.message_stream_id)))
    else if fmt == 1
    then be_bytes 3 cur.timestamp_delta
      ++ (be_bytes 3 cur.message_length ++ be_bytes 1 cur.message_type_id)
    else if fmt == 2
    then be_bytes 3 cur.timestamp_delta
    else []

-- The tag of an AVC frame that goes before the data of a video payload.
unfoldable pub video_tag : Payload → List ℕ
video_tag other = []
video_tag (video i_frame pts dts) =
    (if i_frame then 23 else 39) ∷ 1 ∷ be_bytes 3 ((2 ^ 32 + pts % 2 ^ 32 - dts % 2 ^ 32) % 2 ^ 32)

-- The bytes of the message that go into a chunk: in the first one of a video 5 are the tag's.
unfoldable pub data_len : Payload → ℕ → ℕ → ℕ
data_len other i send_len = send_len
data_len (video i_frame pts dts) i send_len =
    if i == 0 then (2 ^ 64 + send_len - 5) % 2 ^ 64 else send_len

unfoldable pub send_len_at : ℕ → ℕ → ℕ → ℕ
send_len_at len size i =
    let left = (2 ^ 32 + len - i * size % 2 ^ 32) % 2 ^ 32 in if ltb size left then size else left

-- The header of chunk `i`.
unfoldable pub chunk_header : ℕ → ℕ → Message → Payload → List ℕ
unfolding basic_header message_header video_tag
chunk_header fmt i cur payload =
    if i == 0
    then basic_header fmt cur.cs_id ∷ message_header fmt cur ++ video_tag payload
    else basic_header 3 cur.cs_id ∷ []

-- The loop over the chunks, with `n` rounds to go.
unfoldable pub send_chunks : ℕ → ℕ → ℕ → ℕ → ℕ → Message → Payload → List ℕ
unfolding chunk_header data_len send_len_at
send_chunks size fmt zero i data_pos cur payload = []
send_chunks size fmt (suc n) i data_pos cur payload =
    let sent = data_len payload i (send_len_at cur.message_length size i) in
    chunk_header fmt i cur payload
    ++ (take sent (drop data_pos cur.msg)
        ++ send_chunks size fmt n (i + 1) (data_pos + sent) cur payload)

-- `SendData`: the bytes sent, and the members after it.
unfoldable pub send_data : Message → Payload → Bool → Rtmp → List ℕ × Rtmp
unfolding chunk_count choose_fmt send_chunks
send_data cur payload force_fmt0 r =
    let size = r.out_chunk_size in
    let fmt = choose_fmt (at_id cur.cs_id r.csid_pre_info) cur force_fmt0 in
    (
      send_chunks size fmt (chunk_count cur.message_length size) 0 0 cur payload,
      record r {
        csid_pre_info = put_id cur.cs_id (record cur { msg = []; len = 0 }) r.csid_pre_info;
      },
    )

-- `SendRtmpMessage`.
unfoldable pub send_rtmp_message : ℕ → ℕ → ℕ → List ℕ → Rtmp → List ℕ × Rtmp
unfolding send_data
send_rtmp_message cs_id message_stream_id message_type_id bytes =
    send_data
      (record {
        cs_id = cs_id;
        timestamp = 0;
        timestamp_delta = 0;
        timestamp_calc = 0;
        message_length = length bytes % 2 ^ 32;
        message_type_id = message_type_id;
        message_stream_id = message_stream_id;
        msg = bytes;
        len = length bytes % 2 ^ 32;
      })
      other (not (message_type_id == audio_type) && not (message_type_id == video_type))

-- `SetOutChunkSize`: the new size holds for the message that announces it.
unfoldable pub set_out_chunk_size : ℕ → Rtmp → List ℕ × Rtmp
unfolding send_rtmp_message
set_out_chunk_size chunk_size r =
    send_rtmp_message 2 0 1 (be_bytes 4 chunk_size) (record r { out_chunk_size = chunk_size })
