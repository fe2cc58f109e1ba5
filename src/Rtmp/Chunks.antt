-- ===== src/Rtmp/Chunks.antt =====
-- A message in chunks, put together by `Parse` called again and again.
use tms.Prelude.{
  ℕ, zero, suc, ◌+◌, ◌^◌, ◌<◌, ◌≤◌, Option, some, true, false, List, [], ◌∷◌, ◌++◌, ◌==◌, leb,
  if◌then◌else◌, take, drop, length, ◌≡◌, refl, sym, ap, ap₂, ◌∙◌, arith, append_assoc,
  length-append, length-take, length-drop, take-append-drop, take_all, take-length_append,
}
use tms.Rtmp.{Message, Messages, at_id, put_id, Rtmp}
use tms.Rtmp.Send.{basic_header}
use tms.Rtmp.Parse.{
  header_len, set_header, receive, parse_header, parse, read_message, chunk, message, put_head,
}
use tms.Rtmp.Header.{read_basic-basic_header}
use tms.Rtmp.Receive.{grown, finished, emptied, receive_more, receive_last}
use mathlib.Core.Path.{subst}

-- `body` in `n` chunks of the format 3, none longer than `size`.
unfoldable pub rest_chunks : ℕ → ℕ → ℕ → List ℕ → List ℕ
rest_chunks zero cs_id size body = []
rest_chunks (suc n) cs_id size body =
    basic_header 3 cs_id ∷ take size body ++ rest_chunks n cs_id size (drop size body)

-- `n` chunks of at most `size` bytes are what `body` takes.
unfoldable pub Fits : ℕ → ℕ → List ℕ → Type 0
Fits zero size body = ⊥
Fits (suc zero) size body = (0 < length body) × (length body ≤ size)
Fits (suc (suc n)) size body = (size < length body) × Fits (suc n) size (drop size body)

-- The calls of `Parse` give the message `m` and leave `rest`; the message of the chunk stream is
-- empty again, and nothing of another chunk stream is changed.
pub record Delivers (cs_id : ℕ) (m : Message) (r : Rtmp) (rest : List ℕ)
    (out : Option (Message × Rtmp × List ℕ)) : Type 0 where
  pub after : Rtmp
  pub returned : out ≡ some (m, after, rest)
  pub cleared : at_id cs_id after.csid_head ≡ emptied m
  pub elsewhere : (k : ℕ) → (k == cs_id) ≡ false → after.csid_head k ≡ r.csid_head k
  pub same_size : after.in_chunk_size ≡ r.in_chunk_size

grown-grown : (m : Message) (a b : List ℕ) → 0 < length a → grown (grown m a) b ≡ grown m (a ++ b)
grown-grown m a b h =
    let held : (m.len + length a == 0) ≡ false = ground arith in
    rw held (
      ap₂ (λ x y. record m { msg = x; len = y })
        (append_assoc (if m.len == 0 then [] else m.msg) a b) (omega (arith, length-append a b)))

pub at-put : (cs_id : ℕ) (m : Message) (ms : Messages) → at_id cs_id (put_id cs_id m ms) ≡ m
at-put cs_id m ms = let same : (cs_id == cs_id) ≡ true = ground arith in rw (same, at_id) refl

pub put_elsewhere :
    (cs_id k : ℕ) (m : Message) (ms : Messages) → (k == cs_id) ≡ false → put_id cs_id m ms k ≡ ms k
put_elsewhere cs_id k m ms e = rw e refl

parse_header_lem :
    (fmt cs_id : ℕ) (r : Rtmp) (x : ℕ) (h rest : List ℕ) (m : Message)
    → length h ≡ header_len fmt
    → set_header fmt h (at_id cs_id r.csid_head) ≡ m
    → parse_header fmt cs_id 1 r (x ∷ h ++ rest) ≡ receive cs_id (1 + length h) m r (x ∷ h ++ rest)
unfolding parse_header
parse_header_lem fmt cs_id r x h rest m e s =
    let there : leb (1 + header_len fmt) (length (x ∷ h ++ rest)) ≡ true =
      ground (arith, length-append h rest) in
    let mine : take (header_len fmt) (h ++ rest) ≡ h =
      ap (λ n. take n (h ++ rest)) (sym e) ∙ take-length_append h rest in
    rw (there, parse_header)
      (ap₂ (λ n p. receive cs_id (1 + n) p r (x ∷ h ++ rest)) (sym e)
        (ap (λ t. set_header fmt t (at_id cs_id r.csid_head)) mine ∙ s))

-- A chunk with its headers read.
pub parse-headers :
    (fmt cs_id : ℕ) (r : Rtmp) (h rest : List ℕ) (m : Message)
    → fmt < 4
    → 2 ≤ cs_id
    → cs_id < 64
    → length h ≡ header_len fmt
    → set_header fmt h (at_id cs_id r.csid_head) ≡ m
    → parse r (basic_header fmt cs_id ∷ h ++ rest)
      ≡ receive cs_id (1 + length h) m r (basic_header fmt cs_id ∷ h ++ rest)
unfolding parse
parse-headers fmt cs_id r h rest m f l c e s =
    rw (read_basic-basic_header fmt cs_id (h ++ rest) f l c, parse)
      (parse_header_lem fmt cs_id r (basic_header fmt cs_id) h rest m e s)

parse_rest :
    (cs_id : ℕ) (r : Rtmp) (rest : List ℕ) (m : Message)
    → 2 ≤ cs_id
    → cs_id < 64
    → at_id cs_id r.csid_head ≡ m
    → parse r (basic_header 3 cs_id ∷ rest) ≡ receive cs_id 1 m r (basic_header 3 cs_id ∷ rest)
unfolding header_len set_header
parse_rest cs_id r rest m l c e = parse-headers 3 cs_id r [] rest m (omega arith) l c refl e

next_chunk :
    (f : ℕ) (r r' : Rtmp) (q q' : List ℕ)
    → parse r q ≡ chunk r' q'
    → read_message (suc f) r q ≡ read_message f r' q'
unfolding read_message
next_chunk f r r' q q' e = rw (e, read_message) refl

last_chunk :
    (f : ℕ) (m : Message) (r r' : Rtmp) (q q' : List ℕ)
    → parse r q ≡ message m r' q'
    → read_message (suc f) r q ≡ some (m, r', q')
unfolding read_message
last_chunk f m r r' q q' e = rw (e, read_message) refl

-- What a message is once `body` has come in.
abbrev pub whole : ℕ → Message → List ℕ → Message
whole cs_id m body = finished cs_id (grown m body)

delivered :
    (f cs_id : ℕ) (r : Rtmp) (m : Message) (q rest : List ℕ)
    → parse r q ≡ message m (put_head cs_id (emptied m) r) rest
    → Delivers cs_id m r rest (read_message (suc f) r q)
delivered f cs_id r m q rest e = record {
  after = put_head cs_id (emptied m) r;
  returned = last_chunk f m r (put_head cs_id (emptied m) r) q rest e;
  cleared = at-put cs_id (emptied m) r.csid_head;
  elsewhere = λ k d. put_elsewhere cs_id k (emptied m) r.csid_head d;
  same_size = refl;
}

one_more :
    (f cs_id : ℕ) (r : Rtmp) (m m' : Message) (q q' rest : List ℕ)
    → parse r q ≡ chunk (put_head cs_id m' r) q'
    → Delivers cs_id m (put_head cs_id m' r) rest (read_message f (put_head cs_id m' r) q')
    → Delivers cs_id m r rest (read_message (suc f) r q)
one_more f cs_id r m m' q q' rest e d = record {
  after = d.after;
  returned = next_chunk f r (put_head cs_id m' r) q q' e ∙ d.returned;
  cleared = d.cleared;
  elsewhere = λ k n. d.elsewhere k n ∙ put_elsewhere cs_id k m' r.csid_head n;
  same_size = d.same_size;
}

-- From a chunk on whose headers are `pre`.
pub chunks-Delivers :
    (n f cs_id : ℕ) (r : Rtmp) (m : Message) (pre body rest : List ℕ)
    → 2 ≤ cs_id
    → cs_id < 64
    → 0 < r.in_chunk_size
    → Fits (suc n) r.in_chunk_size body
    → n < f
    → m.len + length body ≡ m.message_length
    → m.message_length < 2 ^ 24
    → ((t : List ℕ) → parse r (pre ++ t) ≡ receive cs_id (length pre) m r (pre ++ t))
    → Delivers cs_id (whole cs_id m body) r rest (
        read_message f r (
          pre
          ++ (take r.in_chunk_size body
              ++ (rest_chunks n cs_id r.in_chunk_size (drop r.in_chunk_size body) ++ rest))))
unfolding Fits rest_chunks
chunks-Delivers n zero cs_id r m pre body rest l c z fits fuel e small p = absurd (omega arith)
chunks-Delivers zero (suc f) cs_id r m pre body rest l c z (some_left, fits) fuel e small p =
    subst
      (λ t.
        Delivers cs_id (whole cs_id m body) r rest (read_message (suc f) r (pre ++ (t ++ rest))))
      (sym (take_all r.in_chunk_size body fits))
      (delivered f cs_id r (whole cs_id m body) (pre ++ (body ++ rest)) rest
        (p (body ++ rest) ∙ receive_last cs_id (length pre) m r pre body rest refl fits e small))
chunks-Delivers (suc n) (suc f) cs_id r m pre body rest l c z (long, fits) fuel e small p =
    let size : ℕ = r.in_chunk_size in
    let bytes : List ℕ = take size body in
    let left : List ℕ = drop size body in
    let m' : Message = grown m bytes in
    let r' : Rtmp = put_head cs_id m' r in
    let tail : List ℕ = rest_chunks n cs_id size (drop size left) in
    let full : length bytes ≡ size = omega (arith, length-take size body) in
    let more : List ℕ = (basic_header 3 cs_id ∷ take size left ++ tail) ++ rest in
    let ih : Delivers cs_id (whole cs_id m' left) r' rest
        (read_message f r' ((basic_header 3 cs_id ∷ []) ++ (take size left ++ (tail ++ rest)))) =
      chunks-Delivers n f cs_id r' m' (basic_header 3 cs_id ∷ []) left rest l c z fits (omega arith)
        (omega (arith, full, length-drop size body)) small
        (λ t. parse_rest cs_id r' t m' l c (at-put cs_id m' r.csid_head)) in
    let joined : whole cs_id m' left ≡ whole cs_id m body =
      ap (finished cs_id)
        (grown-grown m bytes left (omega arith) ∙ ap (grown m) (take-append-drop size body)) in
    let shape : (basic_header 3 cs_id ∷ []) ++ (take size left ++ (tail ++ rest)) ≡ more =
      ap (λ t. basic_header 3 cs_id ∷ t) (sym (append_assoc (take size left) tail rest)) in
    one_more f cs_id r (whole cs_id m body) m' (pre ++ (bytes ++ more)) more rest
      (p (bytes ++ more)
        ∙ receive_more cs_id (length pre) m r pre bytes more refl full (omega (arith, full)) small)
      (subst (λ x. Delivers cs_id x r' rest (read_message f r' more)) joined
        (subst (λ q. Delivers cs_id (whole cs_id m' left) r' rest (read_message f r' q)) shape ih))
