-- ===== src/HttpParse/Header.antt =====
-- One header line.
use tms.Prelude.{
  ℕ, ◌+◌, ◌<◌, ◌≤◌, ◌≢◌, some, true, false, List, [], ◌∷◌, ◌++◌, ◌==◌, ◌≡◌, refl, sym, ap, ap₂, ◌∙◌,
  arith, length, append_assoc, append-nil, All, Bool-cases, inl, inr, if◌then◌else◌, ◌&&◌,
}
use tms.Any.{same}
use tms.StdMap.{find, assign}
use tms.StdMap.Laws.{find-assign}
use tms.HttpParse.{
  HttpParse, next, step, line_feed, end_line, has_get, add_char, no_enough_data, feed, decode,
  get_header_key_value,
}

-- Neither a colon nor a line end; and no space either.
abbrev pub IsValueChar : ℕ → Type 0
IsValueChar c = (c ≢ 13) × (c ≢ 10) × (c ≢ 58)

abbrev pub IsKeyChar : ℕ → Type 0
IsKeyChar c = IsValueChar c × (c ≢ 32)

step_char :
    (n c : ℕ) (h : HttpParse)
    → IsValueChar c
    → (c == 32) && (h.m_pos == n) ≡ false
    → step n c h ≡ next (add_char c h)
unfolding step
step_char n c h (a, b, d) e =
    let not_cr : (c == 13) ≡ false = ground arith in
    let not_lf : (c == 10) ≡ false = ground arith in
    let not_colon : (c == 58) ≡ false = ground arith in
    elim (Bool-cases (c == 32)) [
      | inl q ↦
          let apart : (h.m_pos == n) ≡ false = ground arith in
          rw (not_cr, step)
            (rw (not_lf, step) (rw (not_colon, step) (rw (q, step) (rw (apart, step) refl))))
      | inr q ↦ rw (not_cr, step) (rw (not_lf, step) (rw (not_colon, step) (rw (q, step) refl)))
    ]

add_key :
    (c : ℕ) (h : HttpParse)
    → h.key_value ≡ false
    → add_char c h ≡ record h { key = h.key ++ (c ∷ []) }
add_key c h e = rw (e, add_char) refl

add_value :
    (c : ℕ) (h : HttpParse)
    → h.key_value ≡ true
    → add_char c h ≡ record h { value = h.value ++ (c ∷ []) }
add_value c h e = rw (e, add_char) refl

feed_next :
    (n c : ℕ) (h h' : HttpParse) (cs : List ℕ)
    → step n c h ≡ next h'
    → feed n h (c ∷ cs) ≡ feed (n + 1) h' cs
unfolding feed
feed_next n c h h' cs e = rw (e, feed) refl

feed_key :
    (k : List ℕ) (n : ℕ) (h : HttpParse) (rest : List ℕ)
    → All IsKeyChar k
    → h.key_value ≡ false
    → feed n h (k ++ rest) ≡ feed (n + length k) (record h { key = h.key ++ k }) rest
feed_key [] n h rest a e =
    ap₂ (λ (x : ℕ) y. feed x (record h { key = y }) rest) (omega arith) (sym (append-nil h.key))
feed_key (c ∷ k) n h rest ((a, b), ks) e =
    let h' : HttpParse = record h { key = h.key ++ (c ∷ []) } in
    let no_space : (c == 32) && (h.m_pos == n) ≡ false = ground arith in
    feed_next n c h h' (k ++ rest) (step_char n c h a no_space ∙ ap next (add_key c h e))
    ∙ feed_key k (n + 1) h' rest ks e
    ∙ ap₂ (λ (x : ℕ) y. feed x (record h { key = y }) rest) (omega arith)
        (append_assoc h.key (c ∷ []) k)

feed_value :
    (v : List ℕ) (n : ℕ) (h : HttpParse) (rest : List ℕ)
    → All IsValueChar v
    → h.key_value ≡ true
    → h.m_pos < n
    → feed n h (v ++ rest) ≡ feed (n + length v) (record h { value = h.value ++ v }) rest
feed_value [] n h rest a e m =
    ap₂ (λ (x : ℕ) y. feed x (record h { value = y }) rest) (omega arith) (sym (append-nil h.value))
feed_value (c ∷ v) n h rest (a, vs) e m =
    let h' : HttpParse = record h { value = h.value ++ (c ∷ []) } in
    let apart : (c == 32) && (h.m_pos == n) ≡ false = ground arith in
    feed_next n c h h' (v ++ rest) (step_char n c h a apart ∙ ap next (add_value c h e))
    ∙ feed_value v (n + 1) h' rest vs e (omega arith)
    ∙ ap₂ (λ (x : ℕ) y. feed x (record h { value = y }) rest) (omega arith)
        (append_assoc h.value (c ∷ []) v)

step_colon :
    (n : ℕ) (h : HttpParse)
    → h.key_value ≡ false
    → step n 58 h ≡ next (record h { m_pos = n + 1; key_value = true })
unfolding step
step_colon n h e = rw e refl

step_space : (n : ℕ) (h : HttpParse) → h.m_pos ≡ n → step n 32 h ≡ next h
unfolding step
step_space n h e = let here : (h.m_pos == n) ≡ true = ground arith in rw here refl

-- The line feed of a header line, right behind a carriage return.
step_line :
    (n : ℕ) (h : HttpParse)
    → h.r_pos ≡ n
    → h.n_pos < n
    → h.n_pos + 1 ≢ n
    → has_get h.key ≡ false
    → step n 10 h
      ≡ next (record h {
        key_value = false;
        header_kv = assign h.key h.value h.header_kv;
        key = [];
        value = [];
        n_pos = n + 1;
      })
unfolding step line_feed end_line
step_line n h e l d g =
    let here : (n == h.r_pos) ≡ true = ground arith in
    let not_done : (n == h.n_pos + 1) ≡ false = ground arith in
    rw (here, line_feed) (rw (not_done, line_feed) (rw (g, end_line) refl))

-- Between two lines of a head, with the position `n` next.
pub record IsAtLine (n : ℕ) (h : HttpParse) : Type 0 where
  pub no_key : h.key ≡ []
  pub no_value : h.value ≡ []
  pub in_key : h.key_value ≡ false
  pub line_before : h.n_pos ≤ n

abbrev pub header_line : List ℕ → List ℕ → List ℕ
header_line k v = k ++ (58 ∷ 32 ∷ v ++ (13 ∷ 10 ∷ []))

step_return : (n : ℕ) (h : HttpParse) → step n 13 h ≡ next (record h { r_pos = n + 1 })
unfolding step
step_return n h = refl

-- The members after a header line that ends before the position `m`.
abbrev after_line : ℕ → ℕ → List ℕ → List ℕ → HttpParse → HttpParse
after_line n m k v h = record h {
  m_pos = n + length k + 1;
  r_pos = m;
  key_value = false;
  header_kv = assign (h.key ++ k) (h.value ++ v) h.header_kv;
  key = [];
  value = [];
  n_pos = m + 1;
}

feed-header_line :
    (n : ℕ) (h : HttpParse) (k v : List ℕ)
    → All IsKeyChar k
    → All IsValueChar v
    → has_get k ≡ false
    → IsAtLine n h
    → feed n h (header_line k v)
      ≡ no_enough_data
          (after_line n (n + length k + 1 + 1 + length v + 1) k v h)
          (n + length k + 1 + 1 + length v + 1 + 1)
unfolding feed
feed-header_line n h k v hk hv hg line =
    let p₁ : ℕ = n + length k in
    let p₂ : ℕ = p₁ + 1 + 1 + length v in
    let h₁ : HttpParse = record h { key = h.key ++ k } in
    let h₂ : HttpParse = record h₁ { m_pos = p₁ + 1; key_value = true } in
    let h₃ : HttpParse = record h₂ { value = h.value ++ v } in
    let h₄ : HttpParse = record h₃ { r_pos = p₂ + 1 } in
    feed_key k n h (58 ∷ 32 ∷ v ++ (13 ∷ 10 ∷ [])) hk line.in_key
    ∙ feed_next p₁ 58 h₁ h₂ (32 ∷ v ++ (13 ∷ 10 ∷ [])) (step_colon p₁ h₁ line.in_key)
    ∙ feed_next (p₁ + 1) 32 h₂ h₂ (v ++ (13 ∷ 10 ∷ [])) (step_space (p₁ + 1) h₂ refl)
    ∙ feed_value v (p₁ + 1 + 1) h₂ (13 ∷ 10 ∷ []) hv refl (omega arith)
    ∙ feed_next p₂ 13 h₃ h₄ (10 ∷ []) (step_return p₂ h₃)
    ∙ feed_next (p₂ + 1) 10 h₄ (after_line n (p₂ + 1) k v h) [] (
        step_line (p₂ + 1) h₄ refl (omega (arith, line.line_before))
          (λ e. omega (arith, line.line_before)) (ap (λ t. has_get (t ++ k)) line.no_key ∙ hg))

-- A line of a key, a colon, a space, a value and the line end, between two lines of a head, makes
-- the value that of the key, whatever stood there, and changes no other header; `Decode` then asks
-- for more and is between two lines again. The key has no space and no GET in it, and key and value
-- have no colon and no line end.
pub decode-header_line :
    (n : ℕ) (h : HttpParse) (k v : List ℕ)
    → All IsKeyChar k
    → All IsValueChar v
    → has_get k ≡ false
    → IsAtLine n h
    → (h' : HttpParse) × (m : ℕ) × (decode n h (header_line k v) ≡ no_enough_data h' m)
      × ((j : List ℕ)
          → get_header_key_value j h' ≡ (if same k j then some v else get_header_key_value j h))
      × IsAtLine m h'
unfolding decode get_header_key_value
decode-header_line n h k v hk hv hg line =
    let m : ℕ = n + length k + 1 + 1 + length v + 1 in
    (
      after_line n m k v h,
      m + 1,
      feed-header_line n h k v hk hv hg line,
      (λ j.
          ap₂ (λ x y. find j (assign (x ++ k) (y ++ v) h.header_kv)) line.no_key line.no_value
          ∙ find-assign k j v h.header_kv),
      record { no_key = refl; no_value = refl; in_key = refl; line_before = omega arith },
    )
