-- ===== src/Lib.antt =====
-- The core of the streaming server tms: its byte buffers, the RTMP chunk stream, the AMF 0 values
-- that RTMP commands and metadata are made of, the directory of the streams that are published, and
-- the muxers that make TS packets, MP4 files and DASH segments of their frames.
--
-- A connection reads bytes from its socket into an `IoBuffer` (common/io_buffer.h,
-- common/io_buffer.cpp) and takes them from its front; what it sends it writes into another one. A
-- protocol looks into bytes with a `BitBuffer` (src/bit_buffer.h, src/bit_buffer.cpp). RTMP
-- (src/rtmp_protocol.h, src/rtmp_protocol.cpp) cuts messages into chunks and puts them together. The
-- body of an RTMP command is a sequence of AMF 0 values (src/amf_0.h, src/amf_0.cpp), read from a
-- `BitBuffer` into a tree of `any::Any` (src/any.h, src/any.cpp) and written from one into an
-- `IoBuffer`. A publisher enters its stream into the `LocalStreamCenter`
-- (src/local_stream_center.h, src/local_stream_center.cpp), where players of every protocol look it
-- up; `MediaPublisher` (src/media_publisher.h, src/media_publisher.cpp) keeps who plays it. WebRTC
-- sessions are kept in `WebrtcSessionMgr` (src/webrtc_session_mgr.h,
-- src/webrtc_session_mgr.cpp). HTTP and WebSocket connections begin with a request head, which
-- `HttpParse` (src/http_parse.h, src/http_parse.cpp) reads from the `IoBuffer`; `Base64`
-- (src/base_64.h, src/base_64.cpp) is for the answer to a WebSocket upgrade.
--
-- Which module models what, with the methods under their names in small letters:
--   - BitBuffer: the class `BitBuffer`. Its children: Value (the loop of `GetBits` as a number),
--     Aligned (calls at a byte boundary), Bounds (the cursor), Number (the result of `GetBits`),
--     Progress (what a call uses up).
--   - IoBuffer: the class `IoBuffer`. Its children: Valid (well-formed buffers, and `Write`), Queue
--     (`Read` and `Size`), Look (`Peek` and `Skip`), Words (numbers), Fifo (the buffer as a queue of
--     bytes), Example (an allocator).
--   - Any: the class `any::Any` and its subclasses, as one data type.
--   - Amf0: the class `Amf0`. Its children: Encode and Decode (the code), Wire (the format), Emit,
--     RoundTrip, Array, Lost, Message, Masked and Fuel (the proofs).
--   - Rtmp: the state of the chunk streams. Its children: Send (`SendData`, `SetOutChunkSize`), Parse
--     (`Parse` after the handshake) and Handle (`HandleRead`, `OnRtmpMessage`), and the proofs: Header
--     (one header), Receive (one chunk), Chunks and Cut (a message in chunks, read and sent), RoundTrip
--     (one message), Announce (a new chunk size), Conversation (many).
--   - StdMap: `std::map` with strings as keys. Its child Laws: lookups after each operation.
--   - Streams: the class `LocalStreamCenter`. Its children: Keep, Register and Unregister (what each
--     call keeps), Directory (the center as a table).
--   - Sessions: the class `WebrtcSessionMgr`.
--   - Publisher: the class `MediaPublisher`.
--   - MediaMuxer: the class `MediaMuxer` (src/media_muxer.h, src/media_muxer.cpp), `Payload`
--     (src/ref_ptr.h) and `TsMedia` (src/media_struct.h). Its children: Frames (the maps with numbers
--     as keys), Tables (`PacketTsPat`, `PacketTsPmt`), Packet (`PacketTs`; below it Size, Loop, Carry,
--     OverRead and Keep, the proofs), Playlist (`UpdateM3U8`), Intake (`OnAudio`, `OnVideo`,
--     `GetFastOut`; below it FastOut and Keep, the proofs), Headers (`OnVideoHeader`, `OnAudioHeader`;
--     below it Units and Waiting, the proofs) and Service (a publisher as a transition system).
--   - Nals: the loop that cuts a stream at its start codes, in `OnVideoHeader` and in
--     `TsReader::OnH264Video` (src/ts_reader.cpp). Its child Annexb: the stream of some units.
--   - TsReader: of the class `TsReader` (src/ts_reader.h, src/ts_reader.cpp) a packet and the tables. Its
--     children: Segment (`ParseTsSegment`, `ParseAdaptation`; below it Announced, the packet that the
--     muxer makes), Pes (the header of `ParsePES`, `PackHead`, `SystemHeader`; below it Stamps, the
--     header that the muxer makes), Hang (a loop that does not end) and Pat (the table that the muxer
--     makes).
--   - Mp4: the class `Mp4Muxer` (src/mp4_muxer.h, src/mp4_muxer.cpp). Its children: Name (names of boxes),
--     Box (boxes as calls of a `BitStream` and as bytes; below it Stream, Packed, Encode and Walk,
--     the proofs), Tables (the tables of samples; below it Runs and Times, what a player reads in them),
--     Movie and Track (the other boxes of a movie), Flush (`Flush`, `OnVideo`), File (its file),
--     Player, Located and Offsets (the way of a player through the file) and Chunks (the samples in
--     the media data; below it Group, Step, Keep and Find, the proofs).
--   - Dash: the class `DashMuxer` (src/dash_muxer.h, src/dash_muxer.cpp), with the boxes of Mp4. Its
--     children: Fragment (the boxes of a segment), Flush (`Flush`, `UpdateInitMp4`, `OnVideo`), Segment
--     (the bytes of a segment), Same, Hold and Events (the media data and the samples), Samples (the
--     frames that a player gets from a segment), Keyed, Served and Adds (the
--     segments that are kept).
--   - BitStream: the class `BitStream` (src/bit_stream.h). Its children: Bits and Overwrite (the bits of
--     the buffer after bits or bytes are written), Size (how far calls move the cursor), Wrote (a call,
--     and what it leaves), RoundTrip (calls in a row) Field (one of them) and First
--     (the first byte).
--   - Crc32: the class `CRC32` (src/crc32.h, src/crc32.cpp). Its child Sctp: a table of constants.
--   - HttpParse: the class `HttpParse`. Its children: Pieces (a head in several reads), Header (a
--     header line).
--   - Base64: the class `Base64`. Its child RoundTrip.
--   - Prelude: shared names, lists and bytes.
--
-- A byte is a number below 256, a string the list of its bytes, a double the number of its 64 bits.
-- Pointers into a buffer are offsets. malloc and realloc are a parameter, the record `Allocator`,
-- whose laws are those of the C standard: a block has the size asked for, and a block that grows
-- keeps its bytes. Theorems about a buffer that grows assume that requests below 2 GiB are served
-- (`HasMemory`), and that it stays below that size (`HasRoom`), where `int` is wide enough for all
-- that the code computes.
--
-- `Decode` recurses on what an inner call leaves of the input, so the model recurses on fuel: the
-- bits that are left and 2 ^ 32 more, since an array loop at the end of the input may go round
-- without reading as often as its 32-bit count says.
--
-- `Parse` of RTMP and `Decode` of HTTP take the unread bytes of the `IoBuffer` as a list; a header
-- that `SendData` builds in an `IoBuffer` is the list of its bytes.
-- `read_message` calls `Parse` on fuel: as many calls as the message has chunks are enough. Of
-- `OnRtmpMessage`, `on_rtmp_message` has the types 0 and 1; the handlers of the other types are a
-- parameter, the function `Handlers`, of any results: they may fail, and by what they send change the
-- members for the other direction, and no others.
--
-- `MediaMuxer` keeps what a new player of a stream needs first, the headers and the frames from the
-- last key frame on, tells the publisher when the headers are complete, and cuts the frames into TS
-- packets with a `BitStream`. A failed assertion, an exception, and a read or write that runs over a
-- buffer are `none` or `fault`. What lies behind the buffer of a frame is a field of the payload,
-- since `PacketTs` reads it. The loop of `PacketTs` has a round of fuel for each byte of the frame,
-- and one more: each round carries at least a byte. A segment's duration, a double, is kept as the
-- two time stamps of which it is the difference; its text in a playlist is a parameter.
--
-- `TsReader` reads from a `BitBuffer` and goes on where a read fails, with 0 in the variable, which
-- most have before. `ParsePMT` runs on fuel: its loop over descriptors need not end. Where the payload
-- of a packet goes, to `ParsePES` and `CollectPES`, is a result of the model.
--
-- `Mp4Muxer` gathers the frames of a group of pictures and makes a file of them at the next key frame.
-- A box is a tree of calls; `ModifyBytes` puts the size of a box in front of it once the box is
-- written. The file, which `Flush` frees, is its result in the model. The clock and what lies behind
-- an `int` on the stack are the record `Env`.
--
-- `DashMuxer` cuts the frames of each kind into segments of five seconds or more at key frames. What it
-- has twice, for video and for audio, is a record `Track`. Where `GetM4s` reads through the end of a
-- map, it is `none`. Of the playlist's text it keeps the segments that are listed.
--
-- Not modelled: `CollectPES` and what `ParsePES` does with a frame; the text of the DASH playlist;
-- output to the log; the calls of `IoBuffer` that read and write a descriptor; the
-- ownership of `Any` pointers; the sockets, timers and event loop; and the protocols and muxers
-- other than those above.
pub mod Prelude
pub mod BitBuffer
pub mod BitStream
pub mod IoBuffer
pub mod Any
pub mod Amf0
pub mod StdMap
pub mod Streams
pub mod Sessions
pub mod Rtmp
pub mod Base64
pub mod HttpParse
pub mod Publisher
pub mod Nals
pub mod Crc32
pub mod MediaMuxer
pub mod TsReader
pub mod Mp4
pub mod Dash
