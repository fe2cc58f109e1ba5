-- ===== src/Rtmp/Receive.antt =====
-- One chunk after another: what `Parse` stores.
use tms.Prelude.{
  ℕ, ◌+◌, ◌%◌, ◌^◌, ◌<◌, ◌≤◌, true, false, List, [], ◌++◌, ◌==◌, leb, if◌then◌else◌, take, drop,
  length, ◌≡◌, refl, sym, ap, ap₂, ◌∙◌, arith, append_assoc, length-append, take-length_append,
  drop-length_append,
}
use tms.Rtmp.{Message, Rtmp}
use tms.Rtmp.Parse.{read_len, store_chunk, receive_len, receive, chunk, message, put_head}

-- The message with the bytes of one more chunk.
abbrev pub grown : Message → List ℕ → Message
grown m bytes = record m {
  msg = (if m.len == 0 then [] else m.msg) ++ bytes;
  len = m.len + length bytes;
}

abbrev pub finished : ℕ → Message → Message
finished cs_id m = record m {
  timestamp_calc = (m.timestamp_calc + m.timestamp_delta) % 2 ^ 32;
  cs_id = cs_id;
}

abbrev pub emptied : Message → Message
emptied m = record m { msg = []; len = 0 }

store_more :
    (cs_id : ℕ) (m : Message) (bytes : List ℕ) (r : Rtmp) (rest : List ℕ)
    → m.len + length bytes < m.message_length
    → m.message_length < 2 ^ 24
    → store_chunk cs_id m bytes r rest ≡ chunk (put_head cs_id (grown m bytes) r) rest
unfolding store_chunk
store_more cs_id m bytes r rest h l =
    let small : (m.len + length bytes) % 2 ^ 32 ≡ m.len + length bytes = omega arith in
    let unlike : (m.len + length bytes == m.message_length) ≡ false = ground arith in
    rw small (rw unlike refl)

store_last :
    (cs_id : ℕ) (m : Message) (bytes : List ℕ) (r : Rtmp) (rest : List ℕ)
    → m.len + length bytes ≡ m.message_length
    → m.message_length < 2 ^ 24
    → store_chunk cs_id m bytes r rest
      ≡ message
          (finished cs_id (grown m bytes))
          (put_head cs_id (emptied (finished cs_id (grown m bytes))) r)
          rest
unfolding store_chunk
store_last cs_id m bytes r rest h l =
    let small : (m.len + length bytes) % 2 ^ 32 ≡ m.len + length bytes = omega arith in
    let alike : (m.len + length bytes == m.message_length) ≡ true = ground arith in
    rw small (rw alike refl)

receive_len_lem :
    (cs_id : ℕ) (m : Message) (r : Rtmp) (pre bytes rest : List ℕ)
    → receive_len (length bytes) cs_id (length pre) m r (pre ++ (bytes ++ rest))
      ≡ store_chunk cs_id m bytes r rest
unfolding receive_len
receive_len_lem cs_id m r pre bytes rest =
    let there : leb (length pre + length bytes) (length (pre ++ (bytes ++ rest))) ≡ true =
      ground (arith, length-append pre (bytes ++ rest), length-append bytes rest) in
    let mine : take (length bytes) (drop (length pre) (pre ++ (bytes ++ rest))) ≡ bytes =
      ap (take (length bytes)) (drop-length_append pre (bytes ++ rest))
      ∙ take-length_append bytes rest in
    let behind : drop (length pre + length bytes) (pre ++ (bytes ++ rest)) ≡ rest =
      ap₂ drop (sym (length-append pre bytes)) (sym (append_assoc pre bytes rest))
      ∙ drop-length_append (pre ++ bytes) rest in
    rw (there, receive_len) (ap₂ (λ x y. store_chunk cs_id m x r y) mine behind)

receive_lem :
    (cs_id n : ℕ) (m : Message) (r : Rtmp) (pre bytes rest : List ℕ)
    → read_len r.in_chunk_size m ≡ length bytes
    → n ≡ length pre
    → receive cs_id n m r (pre ++ (bytes ++ rest)) ≡ store_chunk cs_id m bytes r rest
unfolding receive
receive_lem cs_id n m r pre bytes rest e k =
    ap₂ (λ x y. receive_len x cs_id y m r (pre ++ (bytes ++ rest))) e k
    ∙ receive_len_lem cs_id m r pre bytes rest

pub receive_more :
    (cs_id n : ℕ) (m : Message) (r : Rtmp) (pre bytes rest : List ℕ)
    → n ≡ length pre
    → length bytes ≡ r.in_chunk_size
    → m.len + length bytes < m.message_length
    → m.message_length < 2 ^ 24
    → receive cs_id n m r (pre ++ (bytes ++ rest)) ≡ chunk (put_head cs_id (grown m bytes) r) rest
unfolding read_len
receive_more cs_id n m r pre bytes rest k e h l =
    receive_lem cs_id n m r pre bytes rest (ground arith) k ∙ store_more cs_id m bytes r rest h l

pub receive_last :
    (cs_id n : ℕ) (m : Message) (r : Rtmp) (pre bytes rest : List ℕ)
    → n ≡ length pre
    → length bytes ≤ r.in_chunk_size
    → m.len + length bytes ≡ m.message_length
    → m.message_length < 2 ^ 24
    → receive cs_id n m r (pre ++ (bytes ++ rest))
      ≡ message
          (finished cs_id (grown m bytes))
          (put_head cs_id (emptied (finished cs_id (grown m bytes))) r)
          rest
unfolding read_len
receive_last cs_id n m r pre bytes rest k e h l =
    receive_lem cs_id n m r pre bytes rest (ground arith) k ∙ store_last cs_id m bytes r rest h l
