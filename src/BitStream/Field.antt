-- ===== src/BitStream/Field.antt =====
-- One of the writes of src/bit_stream.h among others: what stands at its place in the end.
use tms.Prelude.{
  ℕ, ◌+◌, ◌*◌, ◌%◌, ◌<◌, ◌≤◌, List, [], ◌∷◌, ◌++◌, ◌≡◌, refl, sym, ap, ◌∙◌, arith, some, none,
  length, Option-cases, inl, inr,
}
use tms.BitBuffer.{bit}
use tms.BitBuffer.Value.{bits_value}
use tms.BitStream.{BitStream, Write, write, write_all, of_size, written}
use tms.BitStream.Size.{cost, cost_all}
use tms.BitStream.Wrote.{ProperAll, value, wrote, cur_pos-wrote}
use tms.BitStream.RoundTrip.{
  wrote_all, Ready, Ready-tail, Ready-start, field_value, bit-written, write_all-wrote_all,
  length-written,
}

value_at_from :
    (ws vs : List Write) (w : Write) (s : BitStream) (bs : List ℕ)
    → Ready (ws ++ w ∷ vs) s
    → ((q : ℕ)
        → q < s.cur_pos + cost_all (ws ++ w ∷ vs)
        → bit bs q ≡ bit (wrote_all (ws ++ w ∷ vs) s).buf q)
    → bits_value bs (cost w) (s.cur_pos + cost_all ws) 0 ≡ value w
unfolding cost_all
value_at_from [] vs w s bs ok same =
    ap (λ k. bits_value bs (cost w) k 0) (omega arith) ∙ field_value w vs s bs ok same
value_at_from (u ∷ ws) vs w s bs ok same =
    let moved = cur_pos-wrote u s in
    ap (λ k. bits_value bs (cost w) k 0) (omega arith)
    ∙ value_at_from ws vs w (wrote u s) bs (Ready-tail u (ws ++ w ∷ vs) s ok)
        (λ q l. same q (omega arith))

-- Calls that fit into the buffer, whole bytes in all, succeed.
pub write_all-of_size :
    (size : ℕ) (ws : List Write)
    → ProperAll 0 ws
    → cost_all ws ≤ size * 8
    → cost_all ws % 8 ≡ 0
    → (s : BitStream) × (write_all ws (of_size size) ≡ some s)
      × (length (written s) * 8 ≡ cost_all ws)
write_all-of_size size ws p h e = (
  wrote_all ws (of_size size),
  write_all-wrote_all ws (of_size size) (Ready-start size ws p h),
  length-written size ws p h e,
)

-- In what such calls wrote, each has its value where the calls before it end.
pub value_at :
    (size : ℕ) (ws vs : List Write) (w : Write) (s : BitStream)
    → ProperAll 0 (ws ++ w ∷ vs)
    → cost_all (ws ++ w ∷ vs) ≤ size * 8
    → cost_all (ws ++ w ∷ vs) % 8 ≡ 0
    → write_all (ws ++ w ∷ vs) (of_size size) ≡ some s
    → bits_value (written s) (cost w) (cost_all ws) 0 ≡ value w
unfolding of_size
value_at size ws vs w s p h e made =
    let all = ws ++ w ∷ vs in
    let ok = Ready-start size all p h in
    let same : wrote_all all (of_size size) ≡ s =
      cc (write_all-wrote_all all (of_size size) ok, made) in
    ap (λ t. bits_value (written t) (cost w) (cost_all ws) 0) (sym same)
    ∙ ap (λ k. bits_value (written (wrote_all all (of_size size))) (cost w) k 0) (omega arith)
    ∙ value_at_from ws vs w (of_size size) (written (wrote_all all (of_size size))) ok
        (λ q l. bit-written size all q e (omega arith))

-- Calls in two parts.
pub write_all-append :
    (ws vs : List Write) (s t : BitStream)
    → write_all ws s ≡ some t
    → write_all (ws ++ vs) s ≡ write_all vs t
unfolding write_all
write_all-append [] vs s t e = cc (e)
write_all-append (w ∷ ws) vs s t e = elim (Option-cases (write w s)) [
  | inl gone ↦ let stop : write_all (w ∷ ws) s ≡ none = rw (gone, write_all) refl in cc (stop, e)
  | inr (u, first) ↦
      rw (first, write_all) (write_all-append ws vs u t (sym (rw (first, write_all) refl) ∙ e))
]
