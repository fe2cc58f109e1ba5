-- ===== src/Rtmp/RoundTrip.antt =====
-- What one side sends the other side receives.
use tms.Prelude.{
  ℕ, zero, suc, ◌<◌, ◌≤◌, Option, none, some, Bool, true, false, List, [], ◌∷◌, ◌++◌, ◌==◌,
  if◌then◌else◌, take, drop, length, ◌≡◌, ◌≢◌, refl, sym, ap, ◌∙◌, arith, append_assoc, ◌||◌,
  Bool-cases, ◌⊎◌, inl, inr,
}
use tms.Rtmp.{Message, Messages, new_message, at_id, put_id, Rtmp}
use tms.Rtmp.Send.{
  other, basic_header, message_header, chunk_count, choose_fmt, send_chunks, send_data,
}
use tms.Rtmp.Parse.{receive, parse, read_message}
use tms.Rtmp.Header.{heard, IsSendable, set_header-message_header}
use tms.Rtmp.Receive.{emptied}
use tms.Rtmp.Chunks.{
  rest_chunks, Fits, Delivers, whole, parse-headers, chunks-Delivers, at-put, put_elsewhere,
}
use tms.Rtmp.Cut.{chunk_count_lem, Fits-between, send_chunks_lem}
use mathlib.Core.Path.{subst}

-- Which format `SendData` takes after `pre`: the lengths and types that it leaves out are the same.
pub data Choice (pre cur : Message) : ℕ → Type 0 where
  all_fields : Choice pre cur zero
  no_stream : Choice pre cur (suc zero)
  new_delta :
      (pre.message_length ≢ 0)
      → (pre.message_length ≡ cur.message_length)
      → (pre.message_type_id ≡ cur.message_type_id)
      → Choice pre cur (suc (suc zero))
  no_fields :
      (pre.message_length ≢ 0)
      → (pre.message_length ≡ cur.message_length)
      → (pre.message_type_id ≡ cur.message_type_id)
      → Choice pre cur (suc (suc (suc zero)))

choose_fmt-Choice : (pre cur : Message) (force : Bool) → Choice pre cur (choose_fmt pre cur force)
unfolding choose_fmt
choose_fmt-Choice pre cur force = elim (Bool-cases ((pre.message_length == 0) || force)) [
  | inl a ↦ rw a all_fields
  | inr a ↦ elim (Bool-cases (pre.message_length == cur.message_length)) [
    | inl b ↦ elim (Bool-cases (pre.message_type_id == cur.message_type_id)) [
      | inl c ↦ elim (Bool-cases (pre.timestamp_delta == cur.timestamp_delta)) [
        | inl d ↦ rw (a, b, c, d) (no_fields (ground arith) (ground arith) (ground arith))
        | inr d ↦ rw (a, b, c, d) (new_delta (ground arith) (ground arith) (ground arith))
      ]
      | inr c ↦ rw (a, b, c) no_stream
    ]
    | inr b ↦ rw (a, b) no_stream
  ]
]

-- The receiver has, for a chunk stream, the length and the type of the last message sent on it.
unfoldable pub Known : Message → Message → Type 0
Known pre old =
    (pre.message_length ≡ 0)
    ⊎ ((old.message_length ≡ pre.message_length) × (old.message_type_id ≡ pre.message_type_id))

heard_lem :
    (pre cur old : Message) (fmt : ℕ)
    → Choice pre cur fmt
    → Known pre old
    → ((heard fmt cur old).message_length ≡ cur.message_length)
      × ((heard fmt cur old).message_type_id ≡ cur.message_type_id)
      × ((heard fmt cur old).len ≡ old.len)
      × (fmt < 4)
unfolding Known
heard_lem pre cur old zero all_fields k = (refl, refl, refl, omega arith)
heard_lem pre cur old (suc zero) no_stream k = (refl, refl, refl, omega arith)
heard_lem pre cur old (suc (suc zero)) (new_delta n l t) (inl z) = absurd (n z)
heard_lem pre cur old (suc (suc zero)) (new_delta n l t) (inr (a, b)) =
    (a ∙ l, b ∙ t, refl, omega arith)
heard_lem pre cur old (suc (suc (suc zero))) (no_fields n l t) (inl z) = absurd (n z)
heard_lem pre cur old (suc (suc (suc zero))) (no_fields n l t) (inr (a, b)) =
    (a ∙ l, b ∙ t, refl, omega arith)
heard_lem pre cur old (suc (suc (suc (suc _)))) c k = elim c [ ]

-- A sender and a receiver between two messages.
pub record InSync (s r : Rtmp) : Type 0 where
  pub sizes : s.out_chunk_size ≡ r.in_chunk_size
  pub some_size : 0 < r.in_chunk_size
  pub idle : (k : ℕ) → (at_id k r.csid_head).len ≡ 0
  pub known : (k : ℕ) → Known (at_id k s.csid_pre_info) (at_id k r.csid_head)

-- A message for `SendData` whose length is that of its bytes, of which there is one at least.
pub record IsMessage (cur : Message) : Type 0 where
  pub sendable : IsSendable cur
  pub measured : cur.message_length ≡ length cur.msg
  pub some_bytes : 0 < length cur.msg

-- The call gave a message with the bytes, the length, the type and the chunk stream of `cur`, left
-- `rest`, and the two sides are in sync again.
pub record Receives (cur : Message) (sender : Rtmp) (rest : List ℕ)
    (out : Option (Message × Rtmp × List ℕ)) : Type 0 where
  pub got : Message
  pub after : Rtmp
  pub returned : out ≡ some (got, after, rest)
  pub same_bytes : got.msg ≡ cur.msg
  pub same_len : got.len ≡ length cur.msg
  pub same_length : got.message_length ≡ cur.message_length
  pub same_type : got.message_type_id ≡ cur.message_type_id
  pub same_stream : got.cs_id ≡ cur.cs_id
  pub in_sync : InSync sender after

at_alike : (k : ℕ) (a b : Messages) → a k ≡ b k → at_id k a ≡ at_id k b
at_alike k a b e = ap (λ x. elim x [ none ↦ new_message | some m ↦ m ]) e

abbrev fmt_of : Message → Bool → Rtmp → ℕ
fmt_of cur force s = choose_fmt (at_id cur.cs_id s.csid_pre_info) cur force

abbrev front : Message → Bool → Rtmp → List ℕ
front cur force s =
    basic_header (fmt_of cur force s) cur.cs_id ∷ message_header (fmt_of cur force s) cur

abbrev heard_of : Message → Bool → Rtmp → Rtmp → Message
heard_of cur force s r = heard (fmt_of cur force s) cur (at_id cur.cs_id r.csid_head)

module _ (cur : Message) (force : Bool) (s r : Rtmp) (h : IsMessage cur) (sync : InSync s r) where
  now_heard :
      ((heard_of cur force s r).message_length ≡ cur.message_length)
      × ((heard_of cur force s r).message_type_id ≡ cur.message_type_id)
      × ((heard_of cur force s r).len ≡ (at_id cur.cs_id r.csid_head).len)
      × (fmt_of cur force s < 4)
  now_heard =
      heard_lem (at_id cur.cs_id s.csid_pre_info) cur (at_id cur.cs_id r.csid_head)
        (fmt_of cur force s) (choose_fmt-Choice (at_id cur.cs_id s.csid_pre_info) cur force)
        (sync.known cur.cs_id)

  parse-front :
      (t : List ℕ)
      → parse r (front cur force s ++ t)
        ≡ receive cur.cs_id
            (length (front cur force s))
            (heard_of cur force s r)
            r
            (front cur force s ++ t)
  parse-front t =
      let (_, _, _, few) = now_heard in
      let (read, size) =
        set_header-message_header (fmt_of cur force s) cur (at_id cur.cs_id r.csid_head) few
          h.sendable in
      parse-headers (fmt_of cur force s) cur.cs_id r (message_header (fmt_of cur force s) cur) t
        (heard_of cur force s r) few h.sendable.two_le h.sendable.one_byte size read
      ∙ ap (λ n. receive cur.cs_id n (heard_of cur force s r) r (front cur force s ++ t))
          (omega arith)

  sent_bytes :
      (n : ℕ)
      → chunk_count cur.message_length r.in_chunk_size ≡ suc n
      → Fits (suc n) r.in_chunk_size cur.msg
      → (send_data cur other force s).0
        ≡ front cur force s
          ++ (take r.in_chunk_size cur.msg
              ++ rest_chunks n cur.cs_id r.in_chunk_size (drop r.in_chunk_size cur.msg))
  unfolding send_data
  sent_bytes n e fits =
      ap (λ z. send_chunks z (fmt_of cur force s) (chunk_count cur.message_length z) 0 0 cur other)
        sync.sizes
      ∙ ap (λ z. send_chunks r.in_chunk_size (fmt_of cur force s) z 0 0 cur other) e
      ∙ send_chunks_lem n (fmt_of cur force s) r.in_chunk_size cur h.measured
          h.sendable.length_small fits

  delivers :
      (n f : ℕ) (rest : List ℕ)
      → chunk_count cur.message_length r.in_chunk_size ≡ suc n
      → Fits (suc n) r.in_chunk_size cur.msg
      → n < f
      → Delivers cur.cs_id
          (whole cur.cs_id (heard_of cur force s r) cur.msg)
          r
          rest
          (read_message f r ((send_data cur other force s).0 ++ rest))
  delivers n f rest e fits fuel =
      let (long, _, empty_now, _) = now_heard in
      let tail : List ℕ = rest_chunks n cur.cs_id r.in_chunk_size (drop r.in_chunk_size cur.msg) in
      let start : List ℕ = take r.in_chunk_size cur.msg in
      let idle : (at_id cur.cs_id r.csid_head).len ≡ 0 = sync.idle cur.cs_id in
      let shape : front cur force s ++ (start ++ (tail ++ rest))
          ≡ (send_data cur other force s).0 ++ rest =
        ap (λ t. front cur force s ++ t) (sym (append_assoc start tail rest))
        ∙ sym (append_assoc (front cur force s) (start ++ tail) rest)
        ∙ ap (λ t. t ++ rest) (sym (sent_bytes n e fits)) in
      subst
        (λ q.
          Delivers cur.cs_id (whole cur.cs_id (heard_of cur force s r) cur.msg) r rest
            (read_message f r q))
        shape
        (chunks-Delivers n f cur.cs_id r (heard_of cur force s r) (front cur force s) cur.msg rest
          h.sendable.two_le h.sendable.one_byte sync.some_size fits fuel (omega (arith, h.measured))
          (omega (arith, h.sendable.length_small)) parse-front)

  -- Another chunk stream keeps its messages on both sides.
  Known-elsewhere :
      (k : ℕ) (after : Rtmp)
      → (k == cur.cs_id) ≡ false
      → after.csid_head k ≡ r.csid_head k
      → Known (at_id k (send_data cur other force s).1.csid_pre_info) (at_id k after.csid_head)
  unfolding send_data
  Known-elsewhere k after e g =
      subst (λ o. Known (at_id k (send_data cur other force s).1.csid_pre_info) o)
        (sym (at_alike k after.csid_head r.csid_head g))
        (subst (λ o. Known o (at_id k r.csid_head))
          (sym (
            at_alike k (put_id cur.cs_id (record cur { msg = []; len = 0 }) s.csid_pre_info)
              s.csid_pre_info
              (put_elsewhere cur.cs_id k (record cur { msg = []; len = 0 }) s.csid_pre_info e)))
          (sync.known k))

  Known-here :
      (after : Rtmp)
      → at_id cur.cs_id after.csid_head ≡ emptied (whole cur.cs_id (heard_of cur force s r) cur.msg)
      → Known
          (at_id cur.cs_id (send_data cur other force s).1.csid_pre_info)
          (at_id cur.cs_id after.csid_head)
  unfolding send_data Known
  Known-here after e =
      let (long, kind, _, _) = now_heard in
      let put = at-put cur.cs_id (record cur { msg = []; len = 0 }) s.csid_pre_info in
      inr (
        ap (λ m. m.message_length) e ∙ long ∙ sym (ap (λ m. m.message_length) put),
        ap (λ m. m.message_type_id) e ∙ kind ∙ sym (ap (λ m. m.message_type_id) put),
      )

  synced :
      (rest : List ℕ) (out : Option (Message × Rtmp × List ℕ))
      (d : Delivers cur.cs_id (whole cur.cs_id (heard_of cur force s r) cur.msg) r rest out)
      → InSync (send_data cur other force s).1 d.after
  unfolding send_data
  synced rest out d = record {
    sizes = sync.sizes ∙ sym d.same_size;
    some_size = omega (arith, sync.some_size, d.same_size);
    idle = λ k. idle_at k;
    known = λ k. known_at k;
  }
    where
      idle_at : (k : ℕ) → (at_id k d.after.csid_head).len ≡ 0
      idle_at k = elim (Bool-cases (k == cur.cs_id)) [
        | inl e ↦
            let here : k ≡ cur.cs_id = ground arith in
            ap (λ j. (at_id j d.after.csid_head).len) here ∙ ap (λ m. m.len) d.cleared
        | inr e ↦
            ap (λ m. m.len) (at_alike k d.after.csid_head r.csid_head (d.elsewhere k e))
            ∙ sync.idle k
      ]

      known_at :
          (k : ℕ)
          → Known
              (at_id k (send_data cur other force s).1.csid_pre_info)
              (at_id k d.after.csid_head)
      known_at k = elim (Bool-cases (k == cur.cs_id)) [
        | inl e ↦
            let here : k ≡ cur.cs_id = ground arith in
            subst
              (λ j.
                Known (at_id j (send_data cur other force s).1.csid_pre_info)
                  (at_id j d.after.csid_head))
              (sym here) (Known-here d.after d.cleared)
        | inr e ↦ Known-elsewhere k d.after e (d.elsewhere k e)
      ]

  receives :
      (rest : List ℕ) (out : Option (Message × Rtmp × List ℕ))
      → Delivers cur.cs_id (whole cur.cs_id (heard_of cur force s r) cur.msg) r rest out
      → Receives cur (send_data cur other force s).1 rest out
  receives rest out d =
      let (long, kind, unread, _) = now_heard in
      let nothing_before : ((heard_of cur force s r).len == 0) ≡ true =
        ground (arith, unread, sync.idle cur.cs_id) in
      record {
        got = whole cur.cs_id (heard_of cur force s r) cur.msg;
        after = d.after;
        returned = d.returned;
        same_bytes =
            ap (λ x. (if x then [] else (heard_of cur force s r).msg) ++ cur.msg) nothing_before;
        same_len = omega (arith, unread, sync.idle cur.cs_id);
        same_length = long;
        same_type = kind;
        same_stream = refl;
        in_sync = synced rest out d;
      }

-- A message of at least one byte that is no video frame, on a chunk stream from 2 to 63, is sent
-- by `SendData` in chunks of which `Parse`, called as often as there are chunks, makes a message
-- with the same bytes, length, type and chunk stream. It stops right behind them. Sender and
-- receiver, if in sync before on every chunk stream, are so again.
pub read_message-send_data :
    (cur : Message) (force : Bool) (s r : Rtmp) (f : ℕ) (rest : List ℕ)
    → IsMessage cur
    → InSync s r
    → chunk_count cur.message_length r.in_chunk_size ≤ f
    → Receives cur
        (send_data cur other force s).1
        rest
        (read_message f r ((send_data cur other force s).0 ++ rest))
read_message-send_data cur force s r f rest h sync fuel =
    let (n, e, low, high) =
      chunk_count_lem cur.message_length r.in_chunk_size (omega (arith, h.measured, h.some_bytes))
        sync.some_size in
    receives cur force s r h sync rest (read_message f r ((send_data cur other force s).0 ++ rest))
      (delivers cur force s r h sync n f rest e
        (Fits-between n r.in_chunk_size cur.msg sync.some_size (omega (arith, h.measured))
          (omega (arith, h.measured)))
        (omega arith))
