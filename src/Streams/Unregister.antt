-- ===== src/Streams/Unregister.antt =====
-- `UnRegisterStream`.
use tms.Prelude.{
  ℕ, none, some, Bool, true, false, List, if◌then◌else◌, ◌≡◌, refl, sym, arith, Bool-cases,
  Option-cases, inl, inr, ◌&&◌,
}
use tms.Any.{same}
use tms.StdMap.{StdMap, empty, entry, find, assign, erase, is_empty}
use tms.StdMap.Laws.{Distinct, find-erase, erase-Distinct}
use tms.Streams.{Center, drop_stream, unregister_stream, get_media_publisher, is_app_stream_exist}
use tms.Streams.Keep.{
  IsValid, get_at, get-assign, assign-IsValid, no_app, missing, present, get_alike, others_valid,
}
use mathlib.Core.Path.{subst}

module _ {ℓ} {P : Type ℓ} where
  -- What a call to unregister has done, and what it says.
  abbrev pub Unregistered : List ℕ → List ℕ → Center P → Bool × Center P → Type ℓ
  Unregistered app stream c r =
      (r.0 ≡ is_app_stream_exist app stream c)
      × ((a s : List ℕ)
          → get_media_publisher a s r.1
            ≡ (if r.0 && (same app a && same stream s) then none else get_media_publisher a s c))
      × IsValid r.1

  get-erase :
      (app a s : List ℕ) (c : Center P)
      → Distinct c
      → get_media_publisher a s (erase app c)
        ≡ (if same app a then none else get_media_publisher a s c)
  unfolding get_media_publisher
  get-erase app a s c d = elim (Bool-cases (same app a)) [
    | inl e ↦ rw (find-erase app a c d, get_media_publisher) (rw e refl)
    | inr e ↦ rw (find-erase app a c d, get_media_publisher) (rw e refl)
  ]

  find_in_empty : (s : List ℕ) (m : StdMap P) → is_empty m ≡ true → find s m ≡ none
  unfolding find
  find_in_empty s empty e = refl
  find_in_empty s (entry k v m) e = cc

  -- The last stream of its application goes, and the application with it.
  last_gone :
      (app stream : List ℕ) (c : Center P) (m : StdMap P)
      → IsValid c
      → find app c ≡ some m
      → is_app_stream_exist app stream c ≡ true
      → is_empty (erase stream m) ≡ true
      → Unregistered app stream c (true, erase app c)
  last_gone app stream c m v f e z = (
    sym e,
    (λ a s. gone a s),
    record {
      apps = erase-Distinct app c v.apps;
      streams = λ a m' q. v.streams a m' (ground (arith, find-erase app a c v.apps));
    },
  )
    where
      gone :
          (a s : List ℕ)
          → get_media_publisher a s (erase app c)
            ≡ (if same app a && same stream s then none else get_media_publisher a s c)
      gone a s = ground (
        arith,
        get-erase app a s c v.apps,
        get_alike app a s c,
        get_at app s c m f,
        find-erase stream s m (v.streams app m f).0,
        find_in_empty s (erase stream m) z,
      )

  -- One of several goes.
  one_gone :
      (app stream : List ℕ) (c : Center P) (m : StdMap P)
      → IsValid c
      → find app c ≡ some m
      → is_app_stream_exist app stream c ≡ true
      → is_empty (erase stream m) ≡ false
      → Unregistered app stream c (true, assign app (erase stream m) c)
  one_gone app stream c m v f e z = (
    sym e,
    (λ a s. gone a s),
    assign-IsValid app (erase stream m) c v.apps (erase-Distinct stream m (v.streams app m f).0) z
        (others_valid app c v),
  )
    where
      gone :
          (a s : List ℕ)
          → get_media_publisher a s (assign app (erase stream m) c)
            ≡ (if same app a && same stream s then none else get_media_publisher a s c)
      gone a s = ground (
        arith,
        get-assign app a s (erase stream m) c,
        get_alike app a s c,
        get_at app s c m f,
        find-erase stream s m (v.streams app m f).0,
      )

  stays :
      (app stream : List ℕ) (c : Center P)
      → IsValid c
      → is_app_stream_exist app stream c ≡ false
      → Unregistered app stream c (false, c)
  stays app stream c v e = (sym e, (λ a s. refl), v)

  dropped :
      (app stream : List ℕ) (c : Center P) (m : StdMap P)
      → IsValid c
      → find app c ≡ some m
      → is_app_stream_exist app stream c ≡ true
      → Unregistered app stream c (true, drop_stream app stream m c)
  unfolding drop_stream
  dropped app stream c m v f e = elim (Bool-cases (is_empty (erase stream m))) [
    | inl z ↦ rw z (last_gone app stream c m v f e z)
    | inr z ↦ rw z (one_gone app stream c m v f e z)
  ]

  in_app :
      (app stream : List ℕ) (c : Center P) (m : StdMap P) (x : P)
      → find app c ≡ some m
      → find stream m ≡ some x
      → unregister_stream app stream c ≡ (true, drop_stream app stream m c)
  unfolding unregister_stream
  in_app app stream c m x e f = rw (e, unregister_stream) (rw f refl)

  not_in_app :
      (app stream : List ℕ) (c : Center P) (m : StdMap P)
      → find app c ≡ some m
      → find stream m ≡ none
      → unregister_stream app stream c ≡ (false, c)
  unfolding unregister_stream
  not_in_app app stream c m e f = rw (e, unregister_stream) (rw f refl)

  not_there :
      (app stream : List ℕ) (c : Center P)
      → find app c ≡ none
      → unregister_stream app stream c ≡ (false, c)
  unfolding unregister_stream
  not_there app stream c e = rw (e, unregister_stream) refl

  -- `UnRegisterStream` succeeds exactly if the stream is there, whoever published it. Then it is
  -- found no more, whatever else is looked up is as before, and on failure all is; the map stays
  -- well formed: no application is left without a stream.
  pub unregister_stream_lem :
      (app stream : List ℕ) (c : Center P)
      → IsValid c
      → Unregistered app stream c (unregister_stream app stream c)
  unregister_stream_lem app stream c v = elim (Option-cases (find app c)) [
    | inl e ↦
        subst (Unregistered app stream c) (sym (not_there app stream c e))
          (stays app stream c v (no_app app stream c e))
    | inr (m, e) ↦ elim (Option-cases (find stream m)) [
      | inl f ↦
          subst (Unregistered app stream c) (sym (not_in_app app stream c m e f))
            (stays app stream c v (missing app stream c m e f))
      | inr (x, f) ↦
          subst (Unregistered app stream c) (sym (in_app app stream c m x e f))
            (dropped app stream c m v e (present app stream c m x e f))
    ]
  ]
