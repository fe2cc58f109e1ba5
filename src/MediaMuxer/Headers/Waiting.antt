-- ===== src/MediaMuxer/Headers/Waiting.antt =====
-- Who waits for the headers in src/media_publisher.cpp while src/media_muxer.cpp receives them.
use tms.Prelude.{
  ℕ, Bool, true, false, ◌&&◌, ◌||◌, not, Option, some, List, [], ◌∷◌, ◌==◌, ◌≡◌, refl, sym, ap, ◌∙◌,
  arith, Bool-cases, Option-cases, inl, inr,
}
use mathlib.Core.Path.{subst}
use tms.Any.{same}
use tms.Publisher.{
  Publisher, Call, count, add_subscriber, on_new_subscriber, enter, has_headers, no_text,
  add_subscriber_lem, remove_subscriber, erase, count-erase, on_new_subscriber-has_headers, add-old,
  add-new, get_and_clear_wait_header_subscriber,
}
use tms.MediaMuxer.{MediaMuxer, Payload}
use tms.MediaMuxer.Headers.{
  Live, Calls, as_publisher, with_sets, add_all, promote, pending_arrive, set_video_header,
  set_audio_header, read_video_header, on_video_header, on_audio_header, arrive, with_adts,
  with_units, subscribe, unsubscribe,
}

-- Both headers are there.
abbrev pub Ready : Publisher Payload → Type 0
Ready p = has_headers p.muxer ≡ true

enter-Ready :
    (s : ℕ) (r : Bool × List (Call Payload)) (p : Publisher Payload)
    → r.0 ≡ true
    → ((enter s r p).2.wait_header_subscriber ≡ p.wait_header_subscriber)
      × ((enter s r p).2.muxer ≡ p.muxer)
unfolding enter
enter-Ready s (true, calls) p h = (refl, refl)
enter-Ready s (false, calls) p h = cc

-- Once the headers are there an addition changes nothing but the set of subscribers.
add_subscriber-Ready :
    (s : ℕ) (p : Publisher Payload)
    → Ready p
    → ((add_subscriber s p).2.wait_header_subscriber ≡ p.wait_header_subscriber)
      × ((add_subscriber s p).2.muxer ≡ p.muxer)
add_subscriber-Ready s p h = elim (Bool-cases (count s p.subscriber)) [
  | inl e ↦ rw (add-old s p e) (refl, refl)
  | inr e ↦ rw (add-new s p e) (
      enter-Ready s (on_new_subscriber p.muxer) p (sym (on_new_subscriber-has_headers p.muxer) ∙ h))
]

count-add_subscriber :
    (s x : ℕ) (p : Publisher Payload)
    → Ready p
    → count x (add_subscriber s p).2.subscriber ≡ (s == x) || count x p.subscriber
count-add_subscriber s x p h =
    let (r, joined, waits, calls) = add_subscriber_lem s p in ground (arith, joined x)

add_all-Ready :
    (waiting : List ℕ) (p : Publisher Payload)
    → Ready p
    → ((add_all waiting p).1.wait_header_subscriber ≡ p.wait_header_subscriber)
      × ((x : ℕ)
          → count x (add_all waiting p).1.subscriber ≡ count x waiting || count x p.subscriber)
unfolding add_all count
add_all-Ready [] p h = (refl, λ x. refl)
add_all-Ready (s ∷ waiting) p h =
    let p' = (add_subscriber s p).2 in
    let (w, m) = add_subscriber-Ready s p h in
    let (w', c) = add_all-Ready waiting p' (ap has_headers m ∙ h) in
    (w' ∙ w, λ x. ground (arith, c x, count-add_subscriber s x p h))

promote-Ready :
    (l : Live)
    → Ready (as_publisher l)
    → ((promote l).1.wait_header_subscriber ≡ [])
      × ((promote l).1.media_muxer ≡ l.media_muxer)
      × ((x : ℕ)
          → count x (promote l).1.subscriber
            ≡ count x l.wait_header_subscriber || count x l.subscriber)
unfolding promote with_sets as_publisher get_and_clear_wait_header_subscriber
promote-Ready l h =
    let p = (get_and_clear_wait_header_subscriber (as_publisher l)).1 in
    let (w, c) = add_all-Ready l.wait_header_subscriber p h in (w, refl, c)

abbrev pub ready : Live → Bool
ready l = not (no_text l.media_muxer.audio_header || no_text l.media_muxer.video_header)

-- What keeps the sets in order: once both headers are there nobody waits for them, and nobody both
-- waits and is subscribed.
pub record IsLive (l : Live) : Type 0 where
  pub none_wait : ready l && not (no_text l.wait_header_subscriber) ≡ false
  pub apart : (x : ℕ) → count x l.subscriber && count x l.wait_header_subscriber ≡ false

-- It depends on the sets and the headers alone.
IsLive-same :
    (l l' : Live)
    → l'.subscriber ≡ l.subscriber
    → l'.wait_header_subscriber ≡ l.wait_header_subscriber
    → l'.media_muxer.audio_header ≡ l.media_muxer.audio_header
    → l'.media_muxer.video_header ≡ l.media_muxer.video_header
    → IsLive l
    → IsLive l'
IsLive-same l l' s w a v ok = record {
  none_wait = rw (w, a, v) ok.none_wait;
  apart = λ x. rw (s, w) (ok.apart x);
}

nobody : (l : Live) → l.wait_header_subscriber ≡ [] → IsLive l
unfolding count
nobody l e = record { none_wait = ground arith; apart = λ x. ground arith }

waits-nil : (xs : List ℕ) → true && not (no_text xs) ≡ false → xs ≡ []
waits-nil [] h = refl
waits-nil (x ∷ xs) h = cc

pub subscribe-IsLive : (s : ℕ) (l : Live) → IsLive l → IsLive (subscribe s l).1
unfolding subscribe with_sets as_publisher
subscribe-IsLive s l ok = elim (Bool-cases (ready l)) [
  | inl h ↦ nobody (subscribe s l).1 (
      (add_subscriber-Ready s (as_publisher l) h).0
      ∙ waits-nil l.wait_header_subscriber (rw h at ok.none_wait))
  | inr h ↦
      let (r, joined, waits, calls) = add_subscriber_lem s (as_publisher l) in
      record { none_wait = rw h; apart = λ x. ground (arith, joined x, waits x, ok.apart x) }
]

erased :
    (b : Bool) (s : ℕ) (xs : List ℕ)
    → b && not (no_text xs) ≡ false
    → b && not (no_text (erase s xs)) ≡ false
unfolding erase
erased false s xs h = refl
erased true s [] h = refl
erased true s (x ∷ xs) h = cc

pub unsubscribe-IsLive : (s : ℕ) (l : Live) → IsLive l → IsLive (unsubscribe s l)
unfolding unsubscribe with_sets as_publisher remove_subscriber
unsubscribe-IsLive s l ok = record {
  none_wait = erased (ready l) s l.wait_header_subscriber ok.none_wait;
  apart = λ x.
      ground
        (arith, count-erase x s l.subscriber, count-erase x s l.wait_header_subscriber, ok.apart x);
}

-- A header that arrives: the sets are in order after the promotion, or if nobody was waiting for it.
arrive-IsLive :
    (b : Bool) (l : Live)
    → (b ≡ true → ready l ≡ true)
    → (b ≡ false → IsLive l)
    → IsLive (arrive b l).1
unfolding arrive as_publisher
arrive-IsLive true l h k = nobody (promote l).1 (promote-Ready l (h refl)).0
arrive-IsLive false l h k = k refl

pending_ready :
    (old new other : List ℕ)
    → pending_arrive old new other ≡ true
    → not (no_text other || no_text new) ≡ true
unfolding pending_arrive
pending_ready old new other h = ground arith

pending_ready' :
    (old new other : List ℕ)
    → pending_arrive old new other ≡ true
    → not (no_text new || no_text other) ≡ true
unfolding pending_arrive
pending_ready' old new other h = ground arith

set_video_header-IsLive :
    (header : List ℕ) (l : Live)
    → IsLive l
    → pending_arrive l.media_muxer.video_header header l.media_muxer.audio_header ≡ false
    → IsLive (set_video_header header l)
unfolding set_video_header pending_arrive
set_video_header-IsLive header l ok h = record { none_wait = ground arith; apart = ok.apart }

set_audio_header-IsLive :
    (header : List ℕ) (l : Live)
    → IsLive l
    → pending_arrive l.media_muxer.audio_header header l.media_muxer.video_header ≡ false
    → IsLive (set_audio_header header l)
unfolding set_audio_header pending_arrive
set_audio_header-IsLive header l ok h = record { none_wait = ground arith; apart = ok.apart }

read_video_header-headers :
    (header : List ℕ) (m m' : MediaMuxer)
    → read_video_header header m ≡ some m'
    → (m'.audio_header ≡ m.audio_header) × (m'.video_header ≡ m.video_header)
unfolding read_video_header
read_video_header-headers header m m' e = ground arith

with_adts-IsLive : (header : List ℕ) (r : Calls × Live) → IsLive r.1 → IsLive (with_adts header r).1
unfolding with_adts
with_adts-IsLive header (calls, l) ok = record { none_wait = ok.none_wait; apart = ok.apart }

pub on_audio_header-IsLive :
    (header : List ℕ) (l : Live) → IsLive l → IsLive (on_audio_header header l).1
unfolding on_audio_header
on_audio_header-IsLive header l ok = elim (Bool-cases (same l.media_muxer.audio_header header)) [
  | inl e ↦ rw e ok
  | inr e ↦
      let old = l.media_muxer.audio_header in
      let other = l.media_muxer.video_header in
      let stored = set_audio_header header l in
      rw e (
        with_adts-IsLive header (arrive (pending_arrive old header other) stored) (
          arrive-IsLive (pending_arrive old header other) stored
            (λ h. pending_ready' old header other h) (λ h. set_audio_header-IsLive header l ok h)))
]

with_units-IsLive :
    (header : List ℕ) (r : Calls × Live) (calls : Calls) (l : Live)
    → IsLive r.1
    → with_units header r ≡ some (calls, l)
    → IsLive l
unfolding with_units
with_units-IsLive header (calls', l') calls l ok e =
    elim (Option-cases (read_video_header header l'.media_muxer)) [
      | inl gone ↦ absurd (ground arith)
      | inr (m, read) ↦
          let (a, v) = read_video_header-headers header l'.media_muxer m read in
          let now : record l' { media_muxer = m } ≡ l = ground arith in
          subst IsLive now (IsLive-same l' (record l' { media_muxer = m }) refl refl a v ok)
    ]

on_video_header-old :
    (header : List ℕ) (l : Live)
    → same l.media_muxer.video_header header ≡ true
    → on_video_header header l ≡ some ([], l)
unfolding on_video_header
on_video_header-old header l h = rw h

on_video_header-new :
    (header : List ℕ) (l : Live)
    → same l.media_muxer.video_header header ≡ false
    → on_video_header header l
      ≡ with_units header (
          arrive
            (pending_arrive l.media_muxer.video_header header l.media_muxer.audio_header)
            (set_video_header header l))
unfolding on_video_header
on_video_header-new header l h = rw h

outcome-live :
    (a b : Calls) (l l' : Live)
    → ◌≡◌ {A = Option (Calls × Live)} (some (a, l)) (some (b, l'))
    → l ≡ l'
outcome-live a b l l' e = cc

pub on_video_header-IsLive :
    (header : List ℕ) (l l' : Live) (calls : Calls)
    → IsLive l
    → on_video_header header l ≡ some (calls, l')
    → IsLive l'
unfolding set_video_header
on_video_header-IsLive header l l' calls ok e =
    elim (Bool-cases (same l.media_muxer.video_header header)) [
      | inl h ↦
          subst IsLive (outcome-live [] calls l l' (sym (on_video_header-old header l h) ∙ e)) ok
      | inr h ↦
          let old = l.media_muxer.video_header in
          let other = l.media_muxer.audio_header in
          let stored = set_video_header header l in
          with_units-IsLive header (arrive (pending_arrive old header other) stored) calls l'
            (arrive-IsLive (pending_arrive old header other) stored
              (λ h. pending_ready old header other h) (λ h. set_video_header-IsLive header l ok h))
            (sym (on_video_header-new header l h) ∙ e)
    ]

same-first : (a b : List ℕ) → no_text a ≡ true → no_text b ≡ false → same a b ≡ false
unfolding same
same-first [] [] h k = cc
same-first [] (y ∷ ys) h k = refl
same-first (x ∷ xs) b h k = cc

first_pending :
    (old new other : List ℕ)
    → no_text old ≡ true
    → no_text new ≡ false
    → no_text other ≡ false
    → pending_arrive old new other ≡ true
unfolding pending_arrive
first_pending old new other h k r = ground arith

on_audio_header-first :
    (header : List ℕ) (l : Live)
    → no_text l.media_muxer.audio_header ≡ true
    → no_text header ≡ false
    → no_text l.media_muxer.video_header ≡ false
    → on_audio_header header l ≡ with_adts header (promote (set_audio_header header l))
unfolding on_audio_header arrive
on_audio_header-first header l h k r =
    rw (same-first l.media_muxer.audio_header header h k)
      (rw (first_pending l.media_muxer.audio_header header l.media_muxer.video_header h k r) refl)

promoted :
    (header : List ℕ) (r : Calls × Live) (x : ℕ)
    → ((with_adts header r).1.subscriber ≡ r.1.subscriber)
      × ((with_adts header r).1.wait_header_subscriber ≡ r.1.wait_header_subscriber)
unfolding with_adts
promoted header (calls, l) x = (refl, refl)

-- The first audio header, where the video header is there, makes subscribers of all who wait:
-- afterwards the subscribers are those from before and those who waited, and nobody waits.
pub on_audio_header-promotes :
    (header : List ℕ) (l : Live) (x : ℕ)
    → no_text l.media_muxer.audio_header ≡ true
    → no_text header ≡ false
    → no_text l.media_muxer.video_header ≡ false
    → (count x (on_audio_header header l).1.subscriber
        ≡ count x l.wait_header_subscriber || count x l.subscriber)
      × ((on_audio_header header l).1.wait_header_subscriber ≡ [])
unfolding set_audio_header as_publisher
on_audio_header-promotes header l x h k r =
    let stored = set_audio_header header l in
    let ready_now : Ready (as_publisher stored) = rw (k, r) refl in
    let (w, m, c) = promote-Ready stored ready_now in
    let (s, t) = promoted header (promote stored) x in
    let e = on_audio_header-first header l h k r in
    (
      ap (λ (o : Calls × Live). count x o.1.subscriber) e ∙ ap (count x) s ∙ c x,
      ap (λ (o : Calls × Live). o.1.wait_header_subscriber) e ∙ t ∙ w,
    )
