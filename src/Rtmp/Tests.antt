-- ===== src/Rtmp/Tests.antt =====
-- Messages in chunks, on examples.
use tms.Prelude.{none, some, true, false, List, [], ◌∷◌, ◌++◌, ◌≡◌, refl, arith, length, inl, inr}
use tms.Rtmp.{Message, Messages, new_message, Rtmp}
use tms.Rtmp.Send.{other, chunk_count, send_data, message_header, basic_header}
use tms.Rtmp.Parse.{read_message, set_header, header_len, read_basic}
use tms.Rtmp.Header.{IsSendable, heard, set_header-message_header, read_basic-basic_header}
use tms.Rtmp.RoundTrip.{InSync, IsMessage, Receives, Known, read_message-send_data}
use tms.Rtmp.Handle.{Handlers, read_all}
use tms.Rtmp.Conversation.{
  Turn, say, resize, send_all, content, turn_content, IsHandled, read_all-send_all,
}
use mathlib.Core.List

abbrev nothing : Messages
nothing = λ k. none

-- Chunks of two bytes each way.
abbrev side : Rtmp
side = record {
  in_chunk_size = 2;
  out_chunk_size = 2;
  csid_head = nothing;
  csid_pre_info = nothing;
}

abbrev five : Message
five = record new_message {
  cs_id = 4;
  timestamp_delta = 40;
  message_length = 5;
  message_type_id = 8;
  message_stream_id = 1;
  msg = 11 ∷ 12 ∷ 13 ∷ 14 ∷ 15 ∷ [];
  len = 5;
}

abbrev three : Message
three = record five { message_length = 3; msg = 1 ∷ 2 ∷ 3 ∷ []; cs_id = 3; message_type_id = 20 }

five-IsSendable : IsSendable five
five-IsSendable = omega arith

five-IsMessage : IsMessage five
five-IsMessage = record { sendable = five-IsSendable; measured = refl; some_bytes = omega arith }

three-IsMessage : IsMessage three
three-IsMessage = record { sendable = omega arith; measured = refl; some_bytes = omega arith }

side-InSync : InSync side side
unfolding Known
side-InSync = record {
  sizes = refl;
  some_size = omega arith;
  idle = λ k. refl;
  known = λ k. inl refl;
}

sent_five :
    (send_data five other false side).0
    ≡ 4 ∷ 0 ∷ 0 ∷ 40 ∷ 0 ∷ 0 ∷ 5 ∷ 8 ∷ 1 ∷ 0 ∷ 0 ∷ 0 ∷ 11 ∷ 12 ∷ 196 ∷ 13 ∷ 14 ∷ 196 ∷ 15 ∷ []
unfolding send_data
sent_five = refl

read_basic-basic_header_example : read_basic (basic_header 2 5 ∷ 7 ∷ []) ≡ some (2, 5, 1)
read_basic-basic_header_example =
    read_basic-basic_header 2 5 (7 ∷ []) (omega arith) (omega arith) (omega arith)

set_header-message_header_example :
    (set_header 1 (message_header 1 five) new_message ≡ heard 1 five new_message)
    × (length (message_header 1 five) ≡ header_len 1)
set_header-message_header_example =
    set_header-message_header 1 five new_message (omega arith) five-IsSendable

read_message-send_data_example :
    Receives five
      (send_data five other false side).1
      (9 ∷ [])
      (read_message 3 side ((send_data five other false side).0 ++ (9 ∷ [])))
unfolding chunk_count
read_message-send_data_example =
    read_message-send_data five false side side 3 (9 ∷ []) five-IsMessage side-InSync (omega arith)

-- Chunks of five bytes each way, and a server that answers nothing.
abbrev wide : Rtmp
wide = record side { in_chunk_size = 5; out_chunk_size = 5 }

wide-InSync : InSync wide wide
unfolding Known
wide-InSync = record {
  sizes = refl;
  some_size = omega arith;
  idle = λ k. refl;
  known = λ k. inl refl;
}

abbrev quiet : Handlers
quiet m r = some (r.out_chunk_size, r.csid_pre_info)

quiet-IsHandled : (cur : Message) → IsHandled quiet cur
quiet-IsHandled cur m r e = ((r.out_chunk_size, r.csid_pre_info), refl)

abbrev talk : List Turn
talk = say five false ∷ say three true ∷ resize 4 ∷ say five false ∷ []

read_all-send_all_example :
    (got : List Message) × (read_all quiet 4 2 wide (send_all talk wide) ≡ some got)
    × (List.map content got ≡ List.map turn_content talk)
unfolding chunk_count
read_all-send_all_example =
    let of_five = quiet-IsHandled five in
    read_all-send_all quiet talk 2 wide wide wide-InSync (
      five-IsMessage,
      ground arith,
      inr of_five,
      omega arith,
      (
        three-IsMessage,
        ground arith,
        inr (quiet-IsHandled three),
        omega arith,
        (
          omega arith,
          omega arith,
          omega arith,
          omega arith,
          (five-IsMessage, ground arith, inr of_five, omega arith, tt),
        ),
      ),
    )
