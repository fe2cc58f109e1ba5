-- ===== src/Streams/Directory.antt =====
-- A client of `LocalStreamCenter` cannot tell it from a table of publishers.
use tms.Prelude.{
  ℕ, Option, none, some, Bool, true, false, not, List, [], ◌∷◌, if◌then◌else◌, ◌≡◌, refl, ap, ap₂,
  ◌∙◌, arith, ◌&&◌, ◌||◌,
}
use tms.Any.{same}
use tms.Streams.{
  Center, no_text, register_stream, unregister_stream, get_media_publisher, is_app_stream_exist,
}
use tms.Streams.Keep.{IsValid, is_app_stream_exist-get}
use tms.Streams.Register.{register_stream_lem}
use tms.Streams.Unregister.{unregister_stream_lem}

pub data Request {ℓ} (P : Type ℓ) : Type ℓ where
  register : List ℕ → List ℕ → P → Request P
  unregister : List ℕ → List ℕ → Request P
  look_up : List ℕ → List ℕ → Request P

pub data Answer {ℓ} (P : Type ℓ) : Type ℓ where
  done : Bool → Answer P
  found : Option P → Answer P

-- The publisher of each stream of each application.
abbrev pub Table {ℓ} : Type ℓ → Type ℓ
Table P = List ℕ → List ℕ → Option P

module _ {ℓ} {P : Type ℓ} where
  unfoldable pub serve : List (Request P) → Center P → List (Answer P)
  serve [] c = []
  serve (register app stream p ∷ rs) c =
      let (ok, c') = register_stream app stream p c in done ok ∷ serve rs c'
  serve (unregister app stream ∷ rs) c =
      let (ok, c') = unregister_stream app stream c in done ok ∷ serve rs c'
  serve (look_up app stream ∷ rs) c = found (get_media_publisher app stream c) ∷ serve rs c

  abbrev pub has : List ℕ → List ℕ → Table P → Bool
  has app stream t = elim (t app stream) [ none ↦ false | some _ ↦ true ]

  abbrev pub write_at : List ℕ → List ℕ → Option P → Table P → Table P
  write_at app stream v t = λ a s. if same app a && same stream s then v else t a s

  -- The answers of a table: a name must not be empty, and a stream has one publisher at a time.
  unfoldable pub serve_table : List (Request P) → Table P → List (Answer P)
  serve_table [] t = []
  serve_table (register app stream p ∷ rs) t =
      let ok = not (no_text app || no_text stream || has app stream t) in
      done ok ∷ serve_table rs (if ok then write_at app stream (some p) t else t)
  serve_table (unregister app stream ∷ rs) t =
      let ok = has app stream t in
      done ok ∷ serve_table rs (if ok then write_at app stream none t else t)
  serve_table (look_up app stream ∷ rs) t = found (t app stream) ∷ serve_table rs t

  -- The table holds what the center finds.
  Same : Center P → Table P → Type ℓ
  Same c t = (a s : List ℕ) → get_media_publisher a s c ≡ t a s

  has-exist :
      (app stream : List ℕ) (c : Center P) (t : Table P)
      → Same c t
      → is_app_stream_exist app stream c ≡ has app stream t
  unfolding Same
  has-exist app stream c t h =
      is_app_stream_exist-get app stream c
      ∙ ap (λ x. elim x [ none ↦ false | some _ ↦ true ]) (h app stream)

  write_same :
      (app stream : List ℕ) (v : Option P) (c c' : Center P) (t : Table P) (ok ok' : Bool)
      → Same c t
      → ok ≡ ok'
      → ((a s : List ℕ)
          → get_media_publisher a s c'
            ≡ (if ok && (same app a && same stream s) then v else get_media_publisher a s c))
      → Same c' (if ok' then write_at app stream v t else t)
  unfolding Same
  write_same app stream v c c' t true true h e g a s =
      g a s ∙ ap (λ x. if same app a && same stream s then v else x) (h a s)
  write_same app stream v c c' t true false h e g a s = absurd (ground arith)
  write_same app stream v c c' t false true h e g a s = absurd (ground arith)
  write_same app stream v c c' t false false h e g a s = g a s ∙ h a s

  serve-Same :
      (rs : List (Request P)) (c : Center P) (t : Table P)
      → IsValid c
      → Same c t
      → serve rs c ≡ serve_table rs t
  unfolding serve serve_table
  serve-Same [] c t v h = refl
  serve-Same (register app stream p ∷ rs) c t v h =
      let (r, g, v') = register_stream_lem app stream p c v in
      let same_ok =
        r ∙ ap (λ x. not (no_text app || no_text stream || x)) (has-exist app stream c t h) in
      ap₂ ◌∷◌ (ap done same_ok) (
        serve-Same rs (register_stream app stream p c).1 _ v' (
          write_same app stream (some p) c (register_stream app stream p c).1 t
            (register_stream app stream p c).0 _ h same_ok g))
  serve-Same (unregister app stream ∷ rs) c t v h =
      let (r, g, v') = unregister_stream_lem app stream c v in
      let same_ok = r ∙ has-exist app stream c t h in
      ap₂ ◌∷◌ (ap done same_ok) (
        serve-Same rs (unregister_stream app stream c).1 _ v' (
          write_same app stream none c (unregister_stream app stream c).1 t
            (unregister_stream app stream c).0 _ h same_ok g))
  serve-Same (look_up app stream ∷ rs) c t v h =
      ap₂ ◌∷◌ (ap found (unfold Same in h app stream)) (serve-Same rs c t v h)

  -- Every sequence of `RegisterStream`, `UnRegisterStream` and `GetMediaPublisherByAppStream` on a
  -- well-formed center gets the answers that a table gives which holds what the center finds.
  pub serve_refines :
      (rs : List (Request P)) (c : Center P)
      → IsValid c
      → serve rs c ≡ serve_table rs (λ a s. get_media_publisher a s c)
  unfolding Same
  serve_refines rs c v = serve-Same rs c (λ a s. get_media_publisher a s c) v (λ a s. refl)
