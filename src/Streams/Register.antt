-- ===== src/Streams/Register.antt =====
-- `RegisterStream`.
use tms.Prelude.{
  ℕ, none, some, Bool, true, false, not, List, if◌then◌else◌, ◌≡◌, refl, sym, ap, ◌∙◌, arith,
  Bool-cases, Option-cases, inl, inr, ◌&&◌, ◌||◌,
}
use tms.Any.{same}
use tms.StdMap.{StdMap, empty, entry, find, insert, assign, is_empty}
use tms.StdMap.Laws.{Distinct, find-insert, insert-Distinct}
use tms.Streams.{
  Center, no_text, slot, register_in, register_stream, get_media_publisher, is_app_stream_exist,
}
use tms.Streams.Keep.{
  IsValid, get_at, get-assign, OthersValid, assign-IsValid, no_app, missing, present, get_no_app,
  get_alike, others_valid,
}
use mathlib.Core.Path.{subst}

module _ {ℓ} {P : Type ℓ} where
  insert_not_empty : (k : List ℕ) (v : P) (m : StdMap P) → is_empty (insert k v m) ≡ false
  unfolding insert
  insert_not_empty k v empty = refl
  insert_not_empty k v (entry j w m) = ground arith

  place-get :
      (app stream a s : List ℕ) (p : P) (m : StdMap P) (d : Center P)
      → find stream m ≡ none
      → get_media_publisher a s (assign app (insert stream p m) d) ≡ (
          if same app a && same stream s
          then some p
          else if same app a
          then find s m
          else get_media_publisher a s d)
  place-get app stream a s p m d e =
      ground (arith, get-assign app a s (insert stream p m) d, find-insert stream s p m)

  get-insert :
      (app a s : List ℕ) (c : Center P)
      → find app c ≡ none
      → same app a ≡ false
      → get_media_publisher a s (insert app empty c) ≡ get_media_publisher a s c
  unfolding get_media_publisher
  get-insert app a s c e f = rw (find-insert app a empty c e, get_media_publisher) (rw f refl)

  -- What a call to register has done, and what it says.
  abbrev pub Registered : List ℕ → List ℕ → P → Center P → Bool × Center P → Type ℓ
  Registered app stream p c r =
      (r.0 ≡ not (no_text app || no_text stream || is_app_stream_exist app stream c))
      × ((a s : List ℕ)
          → get_media_publisher a s r.1
            ≡ (if r.0 && (same app a && same stream s) then some p else get_media_publisher a s c))
      × IsValid r.1

  refuses :
      (app stream : List ℕ) (p : P) (c : Center P)
      → IsValid c
      → no_text app || no_text stream || is_app_stream_exist app stream c ≡ true
      → Registered app stream p c (false, c)
  refuses app stream p c v e = (rw e refl, (λ a s. refl), v)

  -- The new stream in the map `m` that a center `d` with the streams of `c` has for `app`.
  places :
      (app stream : List ℕ) (p : P) (c d : Center P) (m : StdMap P)
      → no_text app || no_text stream || is_app_stream_exist app stream c ≡ false
      → Distinct d
      → Distinct m
      → OthersValid app d
      → find stream m ≡ none
      → ((a s : List ℕ)
          → (if same app a then find s m else get_media_publisher a s d)
            ≡ get_media_publisher a s c)
      → Registered app stream p c (true, assign app (insert stream p m) d)
  places app stream p c d m ok h k others e same_streams = (
    rw ok refl,
    (λ a s.
        place-get app stream a s p m d e
        ∙ ap (λ t. if same app a && same stream s then some p else t) (same_streams a s)),
    assign-IsValid app (insert stream p m) d h (insert-Distinct stream p m e k)
        (insert_not_empty stream p m) others,
  )

  unnamed :
      (app stream : List ℕ) (p : P) (c : Center P)
      → no_text app || no_text stream ≡ true
      → register_stream app stream p c ≡ (false, c)
  unfolding register_stream
  unnamed app stream p c e = rw (e, register_stream) refl

  in_map :
      (app stream : List ℕ) (p : P) (c d : Center P) (m : StdMap P)
      → no_text app || no_text stream ≡ false
      → slot app c ≡ (m, d)
      → register_stream app stream p c ≡ register_in app stream p (m, d)
  unfolding register_stream
  in_map app stream p c d m e f = rw (e, register_stream) (rw f refl)

  new_map :
      (app : List ℕ) (c : Center P) → find app c ≡ none → slot app c ≡ (empty, insert app empty c)
  unfolding slot
  new_map app c e = rw (e, slot) refl

  old_map : (app : List ℕ) (c : Center P) (m : StdMap P) → find app c ≡ some m → slot app c ≡ (m, c)
  unfolding slot
  old_map app c m e = rw (e, slot) refl

  into_new :
      (app stream : List ℕ) (p : P) (c : Center P)
      → IsValid c
      → no_text app || no_text stream ≡ false
      → find app c ≡ none
      → Registered app stream p c (register_in app stream p (empty, insert app empty c))
  unfolding register_in find OthersValid
  into_new app stream p c v e f =
      places app stream p c (insert app empty c) empty (ground (arith, no_app app stream c f))
        (insert-Distinct app empty c f v.apps) tt
        (λ a m' q r. v.streams a m' (ground (arith, find-insert app a empty c f))) refl
        (λ a s. ground (arith, get_alike app a s c, get_no_app app s c f, get-insert app a s c f))

  into_old :
      (app stream : List ℕ) (p : P) (c : Center P) (m : StdMap P)
      → IsValid c
      → no_text app || no_text stream ≡ false
      → find app c ≡ some m
      → find stream m ≡ none
      → Registered app stream p c (true, assign app (insert stream p m) c)
  into_old app stream p c m v e f g =
      places app stream p c c m (ground (arith, missing app stream c m f g)) v.apps
        (v.streams app m f).0 (others_valid app c v) g (λ a s. same_or_not a s)
    where
      same_or_not :
          (a s : List ℕ)
          → (if same app a then find s m else get_media_publisher a s c) ≡ get_media_publisher a s c
      same_or_not a s = ground (arith, get_alike app a s c, get_at app s c m f)

  into_known :
      (app stream : List ℕ) (p : P) (c : Center P) (m : StdMap P)
      → IsValid c
      → no_text app || no_text stream ≡ false
      → find app c ≡ some m
      → Registered app stream p c (register_in app stream p (m, c))
  unfolding register_in
  into_known app stream p c m v e f = elim (Option-cases (find stream m)) [
    | inl g ↦ subst (Registered app stream p c) (sym (taken g)) (into_old app stream p c m v e f g)
    | inr (x, g) ↦
        subst (Registered app stream p c) (sym (there x g))
          (refuses app stream p c v (ground (arith, present app stream c m x f g)))
  ]
    where
      taken :
          find stream m ≡ none
          → register_in app stream p (m, c) ≡ (true, assign app (insert stream p m) c)
      taken g = rw (g, register_in) refl

      there : (x : P) → find stream m ≡ some x → register_in app stream p (m, c) ≡ (false, c)
      there x g = rw (g, register_in) refl

  -- `RegisterStream` succeeds exactly if both names are not empty and the stream is not there.
  -- Then the publisher is found under that application and stream, whatever else is looked up is
  -- as before, and on failure all is; the map stays well formed.
  pub register_stream_lem :
      (app stream : List ℕ) (p : P) (c : Center P)
      → IsValid c
      → Registered app stream p c (register_stream app stream p c)
  register_stream_lem app stream p c v = elim (Bool-cases (no_text app || no_text stream)) [
    | inl e ↦
        subst (Registered app stream p c) (sym (unnamed app stream p c e))
          (refuses app stream p c v (ground arith))
    | inr e ↦ elim (Option-cases (find app c)) [
      | inl f ↦
          subst (Registered app stream p c) (sym (in_map app stream p c _ _ e (new_map app c f)))
            (into_new app stream p c v e f)
      | inr (m, f) ↦
          subst (Registered app stream p c) (sym (in_map app stream p c _ _ e (old_map app c m f)))
            (into_known app stream p c m v e f)
    ]
  ]
