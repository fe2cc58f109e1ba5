-- ===== src/Rtmp/Announce.antt =====
-- A chunk size that `SetOutChunkSize` announces, and `OnSetChunkSize` takes over.
use tms.Prelude.{
  ℕ, Option, ◌^◌, ◌<◌, ◌≤◌, some, true, List, [], ◌++◌, take, ◌≡◌, refl, sym, ap, ap₂, ◌∙◌, arith,
  be, be_bytes, be_bytes-IsByte, be-be_bytes,
}
use tms.BitBuffer.{of_bytes, get_bytes}
use tms.BitBuffer.Aligned.{get_bytes-at}
use mathlib.Core.Path.{subst}
use native.Mathlib.Nat.{mod-eq_of_lt}
use tms.Rtmp.{Message, Rtmp, at_id}
use tms.Rtmp.Send.{
  other, data_len, chunk_header, choose_fmt, chunk_count, send_len_at, send_chunks, send_data,
  set_out_chunk_size,
}
use tms.Rtmp.Handle.{on_set_chunk_size}
use tms.Rtmp.Parse.{read_message}
use tms.Rtmp.RoundTrip.{InSync, IsMessage, Receives, read_message-send_data}

-- The message that announces a size.
abbrev pub size_message : ℕ → Message
size_message n = record {
  cs_id = 2;
  timestamp = 0;
  timestamp_delta = 0;
  timestamp_calc = 0;
  message_length = 4;
  message_type_id = 1;
  message_stream_id = 0;
  msg = be_bytes 4 n;
  len = 4;
}

size_message-IsMessage : (n : ℕ) → IsMessage (size_message n)
size_message-IsMessage n = record {
  sendable = omega arith;
  measured = refl;
  some_bytes = omega arith;
}

one_chunk : (size : ℕ) → 4 ≤ size → chunk_count 4 size ≡ 1
unfolding chunk_count
one_chunk size h = ground arith

whole_chunk : (size : ℕ) → 4 ≤ size → send_len_at 4 size 0 ≡ 4
unfolding send_len_at
whole_chunk size h = ground arith

-- In one chunk, the size is not seen.
size_chunk :
    (n fmt size size' : ℕ)
    → 4 ≤ size
    → 4 ≤ size'
    → send_chunks size fmt 1 0 0 (size_message n) other
      ≡ send_chunks size' fmt 1 0 0 (size_message n) other
unfolding send_chunks data_len
size_chunk n fmt size size' h h' =
    ap (λ k. chunk_header fmt 0 (size_message n) other ++ (take k (be_bytes 4 n) ++ []))
      (whole_chunk size h ∙ sym (whole_chunk size' h'))

set_out_chunk_size-send_data :
    (n : ℕ) (s : Rtmp)
    → 4 ≤ s.out_chunk_size
    → 4 ≤ n
    → (set_out_chunk_size n s).0 ≡ (send_data (size_message n) other true s).0
unfolding set_out_chunk_size send_data
set_out_chunk_size-send_data n s h k =
    let cur = size_message n in
    let fmt = choose_fmt (at_id 2 s.csid_pre_info) cur true in
    ap (λ c. send_chunks n fmt c 0 0 cur other) (one_chunk n k)
    ∙ size_chunk n fmt n s.out_chunk_size k h
    ∙ sym
        (ap (λ c. send_chunks s.out_chunk_size fmt c 0 0 cur other) (one_chunk s.out_chunk_size h))

set_out_chunk_size-sender :
    (n : ℕ) (s : Rtmp)
    → (set_out_chunk_size n s).1
      ≡ record (send_data (size_message n) other true s).1 { out_chunk_size = n }
unfolding set_out_chunk_size send_data
set_out_chunk_size-sender n s = refl

-- The receiver takes the size out of the bytes.
on_set_chunk_size_lem :
    (n : ℕ) (m : Message) (r : Rtmp)
    → n < 2 ^ 32
    → m.msg ≡ be_bytes 4 n
    → m.len ≡ 4
    → on_set_chunk_size m r ≡ record r { in_chunk_size = n }
unfolding on_set_chunk_size of_bytes
on_set_chunk_size_lem n m r h e l =
    let number : be (be_bytes 4 n) ≡ n = be-be_bytes 4 n ∙ mod-eq_of_lt h in
    let read : (get_bytes 32 4 (of_bytes (be_bytes 4 n))).1 ≡ be (be_bytes 4 n) =
      ap (λ x. x.1)
        (get_bytes-at 32 [] (be_bytes 4 n) [] (be_bytes-IsByte 4 n) (omega (arith, number, h))
          (omega (arith, number, h))) in
    ap₂ (λ k bs. record r { in_chunk_size = (get_bytes 32 4 (of_bytes (take k bs))).1 }) l e
    ∙ ap (λ k. record r { in_chunk_size = k }) (read ∙ number)

InSync-resized :
    (n : ℕ) (s r : Rtmp)
    → 0 < n
    → InSync s r
    → InSync (record s { out_chunk_size = n }) (record r { in_chunk_size = n })
InSync-resized n s r h sync = record {
  sizes = refl;
  some_size = h;
  idle = sync.idle;
  known = sync.known;
}

-- The call gave the message of a size, and the two sides go on with that size.
pub record Announced (n : ℕ) (sender : Rtmp) (rest : List ℕ)
    (out : Option (Message × Rtmp × List ℕ)) : Type 0 where
  pub got : Message
  pub after : Rtmp
  pub returned : out ≡ some (got, after, rest)
  pub same_bytes : got.msg ≡ be_bytes 4 n
  pub same_type : got.message_type_id ≡ 1
  pub same_stream : got.cs_id ≡ 2
  pub in_sync : InSync sender (on_set_chunk_size got after)
  pub size : (on_set_chunk_size got after).in_chunk_size ≡ n

announced :
    (n : ℕ) (s : Rtmp) (rest : List ℕ) (out : Option (Message × Rtmp × List ℕ))
    → 4 ≤ n
    → n < 2 ^ 32
    → Receives (size_message n) (send_data (size_message n) other true s).1 rest out
    → Announced n (set_out_chunk_size n s).1 rest out
announced n s rest out low high one =
    let set : on_set_chunk_size one.got one.after ≡ record one.after { in_chunk_size = n } =
      on_set_chunk_size_lem n one.got one.after high one.same_bytes one.same_len in
    record {
      got = one.got;
      after = one.after;
      returned = one.returned;
      same_bytes = one.same_bytes;
      same_type = one.same_type;
      same_stream = one.same_stream;
      in_sync =
          subst (λ x. InSync x (on_set_chunk_size one.got one.after))
            (sym (set_out_chunk_size-sender n s))
            (subst
              (λ x.
                InSync (record (send_data (size_message n) other true s).1 { out_chunk_size = n })
                  x)
              (sym set)
              (InSync-resized n (send_data (size_message n) other true s).1 one.after (omega arith)
                one.in_sync));
      size = ap (λ x. x.in_chunk_size) set;
    }

-- A size of four or more, announced where the size so far is so too, is taken over by the receiver.
pub set_out_chunk_size-Announced :
    (n f : ℕ) (s r : Rtmp) (rest : List ℕ)
    → InSync s r
    → 4 ≤ r.in_chunk_size
    → 4 ≤ n
    → n < 2 ^ 32
    → 1 ≤ f
    → Announced n
        (set_out_chunk_size n s).1
        rest
        (read_message f r ((set_out_chunk_size n s).0 ++ rest))
set_out_chunk_size-Announced n f s r rest sync old low high fuel =
    subst (λ bs. Announced n (set_out_chunk_size n s).1 rest (read_message f r (bs ++ rest)))
      (sym (set_out_chunk_size-send_data n s (omega (arith, sync.sizes, old)) low))
      (announced n s rest (read_message f r ((send_data (size_message n) other true s).0 ++ rest))
        low high
        (read_message-send_data (size_message n) true s r f rest (size_message-IsMessage n) sync
          (omega (arith, one_chunk r.in_chunk_size old, fuel))))
