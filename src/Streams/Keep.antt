-- ===== src/Streams/Keep.antt =====
-- What the calls of `LocalStreamCenter` change, and what they keep.
use tms.Prelude.{
  ℕ, none, some, true, false, List, if◌then◌else◌, ◌≡◌, refl, sym, ap, arith, Bool-cases,
  Option-cases, inl, inr,
}
use tms.Any.{same}
use tms.StdMap.{StdMap, find, assign, is_empty}
use tms.StdMap.Laws.{Distinct, find-assign, assign-Distinct, same-eq}
use tms.Streams.{Center, get_media_publisher, is_app_stream_exist}
use mathlib.Core.Option.{some-injective}
use mathlib.Core.Path.{subst}

module _ {ℓ} {P : Type ℓ} where
  -- Every application once and with at least one stream, every stream of it once.
  pub record IsValid (c : Center P) : Type ℓ where
    pub apps : Distinct c
    pub streams :
        (app : List ℕ) (m : StdMap P) → find app c ≡ some m → Distinct m × (is_empty m ≡ false)

  -- One stream of a center.
  pub get_at :
      (app stream : List ℕ) (c : Center P) (m : StdMap P)
      → find app c ≡ some m
      → get_media_publisher app stream c ≡ find stream m
  unfolding get_media_publisher
  get_at app stream c m e = rw (e, get_media_publisher) refl

  -- `IsAppStreamExist` says whether `GetMediaPublisherByAppStream` finds a publisher.
  pub is_app_stream_exist-get :
      (app stream : List ℕ) (c : Center P)
      → is_app_stream_exist app stream c
        ≡ elim (get_media_publisher app stream c) [ none ↦ false | some _ ↦ true ]
  unfolding get_media_publisher is_app_stream_exist
  is_app_stream_exist-get app stream c = elim (Option-cases (find app c)) [
    | inl e ↦ rw (e, get_media_publisher) (rw (e, is_app_stream_exist) refl)
    | inr (m, e) ↦ rw (e, get_media_publisher) (rw (e, is_app_stream_exist) refl)
  ]

  -- A center that differs from `c` in the map of one application alone.
  pub get-assign :
      (app a s : List ℕ) (m : StdMap P) (c : Center P)
      → get_media_publisher a s (assign app m c)
        ≡ (if same app a then find s m else get_media_publisher a s c)
  unfolding get_media_publisher
  get-assign app a s m c = elim (Bool-cases (same app a)) [
    | inl e ↦ rw (find-assign app a m c, get_media_publisher) (rw e refl)
    | inr e ↦ rw (find-assign app a m c, get_media_publisher) (rw e refl)
  ]

  -- The streams of a center that are not of `app`.
  unfoldable pub OthersValid : List ℕ → Center P → Type ℓ
  OthersValid app d =
      (a : List ℕ) (m : StdMap P)
      → same app a ≡ false
      → find a d ≡ some m
      → Distinct m × (is_empty m ≡ false)

  pub assign-IsValid :
      (app : List ℕ) (m : StdMap P) (d : Center P)
      → Distinct d
      → Distinct m
      → is_empty m ≡ false
      → OthersValid app d
      → IsValid (assign app m d)
  unfolding OthersValid
  assign-IsValid app m d h k n others = record {
    apps = assign-Distinct app m d h;
    streams = λ a m' e. elim (Bool-cases (same app a)) [
      | inl p ↦
          subst (λ t. Distinct t × (is_empty t ≡ false))
            (some-injective m m' (ground (arith, find-assign app a m d))) (k, n)
      | inr p ↦ others a m' p (ground (arith, find-assign app a m d))
    ];
  }

  pub no_app :
      (app stream : List ℕ) (c : Center P)
      → find app c ≡ none
      → is_app_stream_exist app stream c ≡ false
  unfolding is_app_stream_exist
  no_app app stream c e = rw (e, is_app_stream_exist) refl

  pub missing :
      (app stream : List ℕ) (c : Center P) (m : StdMap P)
      → find app c ≡ some m
      → find stream m ≡ none
      → is_app_stream_exist app stream c ≡ false
  unfolding is_app_stream_exist
  missing app stream c m e f = rw (e, is_app_stream_exist) (rw f refl)

  pub present :
      (app stream : List ℕ) (c : Center P) (m : StdMap P) (x : P)
      → find app c ≡ some m
      → find stream m ≡ some x
      → is_app_stream_exist app stream c ≡ true
  unfolding is_app_stream_exist
  present app stream c m x e f = rw (e, is_app_stream_exist) (rw f refl)

  pub get_no_app :
      (app s : List ℕ) (c : Center P) → find app c ≡ none → get_media_publisher app s c ≡ none
  unfolding get_media_publisher
  get_no_app app s c e = rw (e, get_media_publisher) refl

  pub get_alike :
      (app a s : List ℕ) (c : Center P)
      → same app a ≡ true
      → get_media_publisher a s c ≡ get_media_publisher app s c
  get_alike app a s c e = ap (λ t. get_media_publisher t s c) (sym (same-eq app a e))

  pub others_valid : (app : List ℕ) (c : Center P) → IsValid c → OthersValid app c
  unfolding OthersValid
  others_valid app c v a m p e = v.streams a m e
