-- ===== src/Rtmp/Handle.antt =====
-- `HandleRead` with `OnRtmpMessage` between the messages, in src/rtmp_protocol.cpp, as far as they
-- change the members that the chunk stream uses.
use tms.Prelude.{ℕ, zero, suc, Option, none, some, List, [], ◌∷◌, ◌==◌, if◌then◌else◌, take}
use tms.BitBuffer.{of_bytes, get_bytes}
use tms.Rtmp.{Message, Messages, Rtmp}
use tms.Rtmp.Parse.{read_message}
use mathlib.Core.Option

-- `OnSetChunkSize`.
unfoldable pub on_set_chunk_size : Message → Rtmp → Rtmp
unfolding of_bytes get_bytes
on_set_chunk_size m r =
    let (_, chunk_size, _) = get_bytes 32 4 (of_bytes (take m.len m.msg)) in
    record r { in_chunk_size = chunk_size }

-- What the handlers of the other types return, none where it is not kSuccess, and what the messages that
-- they send make of the members for the other direction. `SetOutChunkSize` and `SendData`, through which
-- they send, change no others.
abbrev pub Handlers : Type 0
Handlers = Message → Rtmp → Option (ℕ × Messages)

-- `OnRtmpMessage`.
unfoldable pub on_rtmp_message : Handlers → Message → Rtmp → Option Rtmp
unfolding on_set_chunk_size
on_rtmp_message handlers m r =
    if m.message_type_id == 0
    then some r
    else if m.message_type_id == 1
    then some (on_set_chunk_size m r)
    else elim (handlers m r) [
      | none ↦ none
      | some (size, sent) ↦ some (record r { out_chunk_size = size; csid_pre_info = sent })
    ]

-- `HandleRead` over the first `n` messages, each whole after at most `f` calls of `Parse`, of which the
-- last hands it to `OnRtmpMessage`: the messages, if it comes so far.
unfoldable pub read_all : Handlers → ℕ → ℕ → Rtmp → List ℕ → Option (List Message)
unfolding on_rtmp_message
read_all handlers zero f r q = some []
read_all handlers (suc n) f r q = elim (read_message f r q) [
  | none ↦ none
  | some (m, r', q') ↦ elim (on_rtmp_message handlers m r') [
    | none ↦ none
    | some r'' ↦ Option.map (λ ms. m ∷ ms) (read_all handlers n f r'' q')
  ]
]
