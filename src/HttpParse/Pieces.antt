-- ===== src/HttpParse/Pieces.antt =====
-- A request head that arrives in pieces.
use tms.Prelude.{ℕ, ◌+◌, List, [], ◌∷◌, ◌++◌, ◌≡◌, refl, sym, ap, ◌∙◌, append-nil, append_assoc}
use tms.HttpParse.{
  HttpParse, Step, next, finished, failed, step, Outcome, success, error, no_enough_data, feed,
  decode,
}

-- What `Decode` comes to when `more` arrives after a call: a head that is done or refused stays so,
-- and else the next call goes on with `more`.
unfoldable pub and_then : Outcome → List ℕ → Outcome
and_then (success h rest) more = success h (rest ++ more)
and_then (error h) more = error h
and_then (no_enough_data h next_pos) more = decode next_pos h more

step-and_then :
    (s : Step) (n : ℕ) (cs more : List ℕ)
    → ((h : HttpParse) → feed n h (cs ++ more) ≡ and_then (feed n h cs) more)
    → elim s [
      | next h ↦ feed n h (cs ++ more)
      | finished h ↦ success h (cs ++ more)
      | failed h ↦ error h
    ]
      ≡ and_then
          (elim s [ next h ↦ feed n h cs | finished h ↦ success h cs | failed h ↦ error h ])
          more
unfolding and_then
step-and_then (next h) n cs more ih = ih h
step-and_then (finished h) n cs more ih = refl
step-and_then (failed h) n cs more ih = refl

feed-append :
    (n : ℕ) (h : HttpParse) (cs more : List ℕ) → feed n h (cs ++ more) ≡ and_then (feed n h cs) more
unfolding feed decode and_then
feed-append n h [] more = refl
feed-append n h (c ∷ cs) more =
    step-and_then (step n c h) (n + 1) cs more (λ h'. feed-append (n + 1) h' cs more)

-- `Decode` of bytes that arrive in two reads, cut anywhere, has the same result, leaves the same
-- bytes unread and the same members as of all the bytes at once, but for the place that is kept for
-- the next call: bytes behind a head that is done stay unread, and a refused head stays refused.
pub decode-append :
    (next_pos : ℕ) (h : HttpParse) (bytes more : List ℕ)
    → decode next_pos h (bytes ++ more) ≡ and_then (decode next_pos h bytes) more
unfolding decode
decode-append next_pos h bytes more = feed-append next_pos h bytes more

-- The whole of many reads.
abbrev pub joined : List (List ℕ) → List ℕ
joined [] = []
joined (p ∷ ps) = p ++ joined ps

-- `Decode` after each read.
unfoldable pub each : Outcome → List (List ℕ) → Outcome
each r [] = r
each r (p ∷ ps) = each (and_then r p) ps

after_all : (r : Outcome) (ps : List (List ℕ)) → each r ps ≡ and_then r (joined ps)
unfolding each and_then decode
after_all (success h rest) [] = ap (success h) (sym (append-nil rest))
after_all (error h) [] = refl
after_all (no_enough_data h n) [] = unfold feed in refl
after_all (success h rest) (p ∷ ps) =
    after_all (success h (rest ++ p)) ps ∙ ap (success h) (append_assoc rest p (joined ps))
after_all (error h) (p ∷ ps) = after_all (error h) ps
after_all (no_enough_data h n) (p ∷ ps) =
    after_all (feed n h p) ps ∙ sym (feed-append n h p (joined ps))

-- `Decode` called after each of any number of reads, of any sizes, has the outcome of one call with
-- all their bytes.
pub decode-joined :
    (next_pos : ℕ) (h : HttpParse) (first : List ℕ) (ps : List (List ℕ))
    → each (decode next_pos h first) ps ≡ decode next_pos h (first ++ joined ps)
decode-joined next_pos h first ps =
    after_all (decode next_pos h first) ps ∙ sym (decode-append next_pos h first (joined ps))
