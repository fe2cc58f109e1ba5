-- ===== src/Rtmp/Conversation.antt =====
-- Any number of messages on any chunk streams, sent one after the other, with new chunk sizes between
-- them.
use tms.Prelude.{
  ℕ, suc, ◌^◌, ◌<◌, ◌≤◌, some, Bool, true, false, List, [], ◌∷◌, ◌++◌, length, ◌==◌, be_bytes, ◌≡◌,
  ◌≢◌, refl, sym, ap, ap₂, ◌∙◌, arith, ◌⊎◌, inl, inr, Bool-cases,
}
use tms.Rtmp.{Message, Messages, Rtmp}
use tms.Rtmp.Send.{other, chunk_count, send_data, set_out_chunk_size}
use tms.Rtmp.Parse.{read_message}
use tms.Rtmp.Handle.{Handlers, on_set_chunk_size, on_rtmp_message, read_all}
use tms.Rtmp.RoundTrip.{InSync, IsMessage, Receives, read_message-send_data}
use tms.Rtmp.Announce.{Announced, set_out_chunk_size-Announced}
use mathlib.Core.List
use mathlib.Core.Option
use mathlib.Core.Path.{subst}

-- What a sender does: a message by `SendData`, with its `force_fmt0`, or a call of `SetOutChunkSize`.
pub data Turn : Type 0 where
  say : Message → Bool → Turn
  resize : ℕ → Turn

unfoldable pub take_turn : Turn → Rtmp → List ℕ × Rtmp
unfolding send_data set_out_chunk_size
take_turn (say cur force) s = send_data cur other force s
take_turn (resize n) s = set_out_chunk_size n s

-- The bytes of one turn after the other.
unfoldable pub send_all : List Turn → Rtmp → List ℕ
unfolding take_turn
send_all [] s = []
send_all (t ∷ ts) s = (take_turn t s).0 ++ send_all ts (take_turn t s).1

-- What a receiver goes by: the chunk stream, the type and the bytes.
abbrev pub content : Message → ℕ × ℕ × List ℕ
content m = (m.cs_id, m.message_type_id, m.msg)

abbrev pub turn_content : Turn → ℕ × ℕ × List ℕ
turn_content (say cur force) = content cur
turn_content (resize n) = (2, 1, be_bytes 4 n)

-- The handler of a message returns kSuccess, whatever the state.
abbrev pub IsHandled : Handlers → Message → Type 0
IsHandled handlers cur =
    (m : Message) (r : Rtmp)
    → content m ≡ content cur
    → (o : ℕ × Messages) × (handlers m r ≡ some o)

-- Turns that can be taken one after the other where chunks are of `size` so far, and for each of which
-- `f` calls of `Parse` are enough.
abbrev pub Goes : Handlers → ℕ → ℕ → List Turn → Type 0
Goes handlers f size [] = Unit
Goes handlers f size (say cur force ∷ ts) =
    IsMessage cur
    × (cur.message_type_id ≢ 1)
    × ((cur.message_type_id ≡ 0) ⊎ IsHandled handlers cur)
    × (chunk_count cur.message_length size ≤ f)
    × Goes handlers f size ts
Goes handlers f size (resize n ∷ ts) =
    (4 ≤ size) × (4 ≤ n) × (n < 2 ^ 32) × (1 ≤ f) × Goes handlers f n ts

-- A message that has arrived, been handled and left the two sides in sync.
record Next (handlers : Handlers) (f : ℕ) (r : Rtmp) (q : List ℕ) (sender : Rtmp) (rest : List ℕ)
    (sent : ℕ × ℕ × List ℕ) (size : ℕ) : Type 0 where
  got : Message
  read : Rtmp
  after : Rtmp
  returned : read_message f r q ≡ some (got, read, rest)
  handled : on_rtmp_message handlers got read ≡ some after
  same : content got ≡ sent
  in_sync : InSync sender after
  sized : sender.out_chunk_size ≡ size

handled_lem :
    (handlers : Handlers) (cur m : Message) (r : Rtmp)
    → content m ≡ content cur
    → cur.message_type_id ≢ 1
    → (cur.message_type_id ≡ 0) ⊎ IsHandled handlers cur
    → (size : ℕ) × (sent : Messages) × (on_rtmp_message handlers m r
        ≡ some (record r { out_chunk_size = size; csid_pre_info = sent }))
unfolding on_rtmp_message
handled_lem handlers cur m r e other_type (inl z) =
    let kind : m.message_type_id ≡ cur.message_type_id = ap (λ x. x.1) e in
    let test : (m.message_type_id == 0) ≡ true = ground (arith, kind, z) in
    (r.out_chunk_size, r.csid_pre_info, rw test refl)
handled_lem handlers cur m r e other_type (inr h) =
    let kind : m.message_type_id ≡ cur.message_type_id = ap (λ x. x.1) e in
    let not_1 : (m.message_type_id == 1) ≡ false = ground (arith, kind) in
    let (o, done) = h m r e in
    elim (Bool-cases (m.message_type_id == 0)) [
      | inl test ↦ (r.out_chunk_size, r.csid_pre_info, rw test refl)
      | inr test ↦ (o.0, o.1, rw (test, not_1, done) refl)
    ]

said_lem :
    (handlers : Handlers) (f : ℕ) (cur : Message) (force : Bool) (s r : Rtmp) (q rest : List ℕ)
    → cur.message_type_id ≢ 1
    → (cur.message_type_id ≡ 0) ⊎ IsHandled handlers cur
    → Receives cur (send_data cur other force s).1 rest (read_message f r q)
    → Next handlers f r q (send_data cur other force s).1 rest (content cur) s.out_chunk_size
unfolding send_data
said_lem handlers f cur force s r q rest other_type h one =
    let same : content one.got ≡ content cur =
      ap₂ (λ x y. (x, y, one.got.msg)) one.same_stream one.same_type
      ∙ ap (λ z. (cur.cs_id, cur.message_type_id, z)) one.same_bytes in
    let (size, sent, done) = handled_lem handlers cur one.got one.after same other_type h in
    record {
      got = one.got;
      read = one.after;
      after = record one.after { out_chunk_size = size; csid_pre_info = sent };
      returned = one.returned;
      handled = done;
      same = same;
      in_sync = record {
        sizes = one.in_sync.sizes;
        some_size = one.in_sync.some_size;
        idle = one.in_sync.idle;
        known = one.in_sync.known;
      };
      sized = refl;
    }

on_rtmp_message-set :
    (handlers : Handlers) (m : Message) (r : Rtmp)
    → m.message_type_id ≡ 1
    → on_rtmp_message handlers m r ≡ some (on_set_chunk_size m r)
unfolding on_rtmp_message
on_rtmp_message-set handlers m r e =
    let not_0 : (m.message_type_id == 0) ≡ false = ground arith in
    let is_1 : (m.message_type_id == 1) ≡ true = ground arith in rw (not_0, is_1) refl

resized_lem :
    (handlers : Handlers) (n f : ℕ) (s r : Rtmp) (q rest : List ℕ)
    → Announced n (set_out_chunk_size n s).1 rest (read_message f r q)
    → Next handlers f r q (set_out_chunk_size n s).1 rest (2, 1, be_bytes 4 n) n
resized_lem handlers n f s r q rest one = record {
  got = one.got;
  read = one.after;
  after = on_set_chunk_size one.got one.after;
  returned = one.returned;
  handled = on_rtmp_message-set handlers one.got one.after one.same_type;
  same =
      ap₂ (λ x y. (x, y, one.got.msg)) one.same_stream one.same_type
      ∙ ap (λ z. (2, 1, z)) one.same_bytes;
  in_sync = one.in_sync;
  sized = one.in_sync.sizes ∙ one.size;
}

read_next :
    (handlers : Handlers) (n f : ℕ) (r r' r'' : Rtmp) (q q' : List ℕ) (m : Message)
    (ms : List Message)
    → read_message f r q ≡ some (m, r', q')
    → on_rtmp_message handlers m r' ≡ some r''
    → read_all handlers n f r'' q' ≡ some ms
    → read_all handlers (suc n) f r q ≡ some (m ∷ ms)
unfolding read_all
read_next handlers n f r r' r'' q q' m ms e h g =
    rw (e, read_all) (rw (h, read_all) (ap (Option.map (λ x. m ∷ x)) g))

-- All that is sent from here on arrives.
abbrev Arrives : Handlers → ℕ → Rtmp → Rtmp → List Turn → Type 0
Arrives handlers f s r ts =
    (got : List Message) × (read_all handlers (length ts) f r (send_all ts s) ≡ some got)
    × (List.map content got ≡ List.map turn_content ts)

onward_lem :
    (handlers : Handlers) (f : ℕ) (s r : Rtmp) (t : Turn) (ts : List Turn) (size : ℕ)
    (one : Next handlers f r
      (send_all (t ∷ ts) s)
      (take_turn t s).1
      (send_all ts (take_turn t s).1)
      (turn_content t)
      size)
    → Arrives handlers f (take_turn t s).1 one.after ts
    → Arrives handlers f s r (t ∷ ts)
onward_lem handlers f s r t ts size one (got, e, same) = (
  one.got ∷ got,
  read_next handlers (length ts) f r one.read one.after (send_all (t ∷ ts) s)
      (send_all ts (take_turn t s).1) one.got got one.returned one.handled e,
  ap₂ ◌∷◌ one.same same,
)

-- Messages of at least one byte that are no video frames and no announcements of a chunk size, and calls
-- of `SetOutChunkSize` with sizes from four to below 2 ^ 32 while chunks have four bytes or more, in any
-- order, on chunk streams from 2 to 63, by a sender that is in sync with the receiver, no message in more
-- than `f` chunks: where the receiver's handlers of those messages return kSuccess, `HandleRead` gets to
-- all of them in that order, each with its chunk stream, type and bytes, whichever headers were left out
-- on the way and whatever the handlers send, with each new chunk size in force from the message behind it
-- on.
pub read_all-send_all :
    (handlers : Handlers) (ts : List Turn) (f : ℕ) (s r : Rtmp)
    → InSync s r
    → Goes handlers f s.out_chunk_size ts
    → (got : List Message) × (read_all handlers (length ts) f r (send_all ts s) ≡ some got)
      × (List.map content got ≡ List.map turn_content ts)
unfolding send_all read_all take_turn
read_all-send_all handlers [] f s r sync goes = ([], refl, refl)
read_all-send_all handlers (say cur force ∷ ts) f s r sync (h, other_type, handled, fuel, goes) =
    let after = (send_data cur other force s).1 in
    let rest = send_all ts after in
    let one =
      said_lem handlers f cur force s r ((send_data cur other force s).0 ++ rest) rest other_type
        handled
        (read_message-send_data cur force s r f rest h sync
          (subst (λ z. chunk_count cur.message_length z ≤ f) sync.sizes fuel)) in
    onward_lem handlers f s r (say cur force) ts s.out_chunk_size one (
      read_all-send_all handlers ts f after one.after one.in_sync
        (subst (λ z. Goes handlers f z ts) (sym one.sized) goes))
read_all-send_all handlers (resize n ∷ ts) f s r sync (old, low, high, fuel, goes) =
    let after = (set_out_chunk_size n s).1 in
    let rest = send_all ts after in
    let one = resized_lem handlers n f s r ((set_out_chunk_size n s).0 ++ rest) rest (
      set_out_chunk_size-Announced n f s r rest sync (omega (arith, sync.sizes, old)) low high
        fuel) in
    onward_lem handlers f s r (resize n) ts n one (
      read_all-send_all handlers ts f after one.after one.in_sync
        (subst (λ z. Goes handlers f z ts) (sym one.sized) goes))
