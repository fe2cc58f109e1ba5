-- ===== src/Publisher.antt =====
-- `MediaPublisher` (src/media_publisher.h, src/media_publisher.cpp): who gets a stream, and what a
-- new subscriber is sent first. A subscriber is its address, a `std::set` of them the list of the
-- addresses in order. `GetFastOut` of the muxer is the list `fast_out`.
use tms.Prelude.{
  ℕ, Bool, true, false, not, List, [], ◌∷◌, ◌++◌, ◌==◌, ltb, ◌&&◌, ◌||◌, if◌then◌else◌, ◌≡◌, refl,
  sym, ap, arith, Bool-cases, inl, inr,
}
use mathlib.Core.List
use mathlib.Core.Path.{subst}

-- `count` of a set.
unfoldable pub count : ℕ → List ℕ → Bool
count x [] = false
count x (y ∷ ys) = (y == x) || count x ys

unfoldable pub insert : ℕ → List ℕ → List ℕ
insert x [] = x ∷ []
insert x (y ∷ ys) = if y == x then y ∷ ys else if ltb x y then x ∷ y ∷ ys else y ∷ insert x ys

-- `erase` of a value, which stands in a set at most once.
unfoldable pub erase : ℕ → List ℕ → List ℕ
erase x [] = []
erase x (y ∷ ys) = if y == x then erase x ys else y ∷ erase x ys

-- What the publisher knows of its muxer; a header that is not there is empty.
pub record Muxer (P : Type 0) : Type 0 where
  pub metadata : List ℕ
  pub audio_header : List ℕ
  pub video_header : List ℕ
  pub fast_out : List P

-- A call of the subscriber.
pub data Call (P : Type 0) : Type 0 where
  send_meta_data : List ℕ → Call P
  send_audio_header : List ℕ → Call P
  send_video_header : List ℕ → Call P
  send_media_data : P → Call P
  set_publisher : Call P

pub record Publisher (P : Type 0) : Type 0 where
  pub subscriber : List ℕ
  pub wait_header_subscriber : List ℕ
  pub muxer : Muxer P

abbrev pub no_text : List ℕ → Bool
no_text [] = true
no_text (c ∷ cs) = false

-- `HasAudioHeader` and `HasVideoHeader`.
abbrev pub has_headers : {P : Type 0} → Muxer P → Bool
has_headers m = not (no_text m.audio_header || no_text m.video_header)

module _ {P : Type 0} where
  -- `OnNewSubscriber`: kSuccess (true) or kPending, and the calls made.
  unfoldable pub on_new_subscriber : Muxer P → Bool × List (Call P)
  on_new_subscriber m =
      let meta = if no_text m.metadata then [] else send_meta_data m.metadata ∷ [] in
      if no_text m.audio_header || no_text m.video_header then (false, meta) else (
        true,
        meta
            ++ (send_audio_header m.audio_header
                ∷ send_video_header m.video_header
                ∷ List.map send_media_data m.fast_out),
      )

  unfoldable pub enter : ℕ → Bool × List (Call P) → Publisher P → Bool × List (Call P) × Publisher P
  unfolding insert
  enter s (true, calls) p =
      (true, calls ++ (set_publisher ∷ []), record p { subscriber = insert s p.subscriber })
  enter s (false, calls) p = (
    true,
    calls ++ (set_publisher ∷ []),
    record p { wait_header_subscriber = insert s p.wait_header_subscriber },
  )

  -- `AddSubscriber`: the result, the calls made, and the members after it.
  unfoldable pub add_subscriber : ℕ → Publisher P → Bool × List (Call P) × Publisher P
  unfolding count on_new_subscriber enter
  add_subscriber s p =
      if count s p.subscriber then (false, [], p) else enter s (on_new_subscriber p.muxer) p

  unfoldable pub remove_subscriber : ℕ → Publisher P → Publisher P
  unfolding erase
  remove_subscriber s p = record p {
    subscriber = erase s p.subscriber;
    wait_header_subscriber = erase s p.wait_header_subscriber;
  }

  -- `GetAndClearWaitHeaderSubscriber`.
  unfoldable pub get_and_clear_wait_header_subscriber : Publisher P → List ℕ × Publisher P
  get_and_clear_wait_header_subscriber p =
      (p.wait_header_subscriber, record p { wait_header_subscriber = [] })

count-insert : (x y : ℕ) (ys : List ℕ) → count x (insert y ys) ≡ (y == x) || count x ys
unfolding count insert
count-insert x y [] = refl
count-insert x y (z ∷ ys) = ground (arith, count-insert x y ys)

pub count-erase : (x y : ℕ) (ys : List ℕ) → count x (erase y ys) ≡ not (y == x) && count x ys
unfolding count erase
count-erase x y [] = ground arith
count-erase x y (z ∷ ys) = ground (arith, count-erase x y ys)

module _ {P : Type 0} where
  -- What a call to add has done: who is subscribed and who waits after it, and what was sent.
  abbrev pub Added : ℕ → Publisher P → Bool × List (Call P) × Publisher P → Type 0
  Added s p (r, calls, p') =
      (r ≡ not (count s p.subscriber))
      × ((x : ℕ)
          → count x p'.subscriber
            ≡ (r && (has_headers p.muxer && (s == x))) || count x p.subscriber)
      × ((x : ℕ)
          → count x p'.wait_header_subscriber
            ≡ (r && (not (has_headers p.muxer) && (s == x))) || count x p.wait_header_subscriber)
      × (calls ≡ (if r then (on_new_subscriber p.muxer).1 ++ (set_publisher ∷ []) else []))

  enter-Added :
      (s : ℕ) (p : Publisher P) (r : Bool × List (Call P))
      → count s p.subscriber ≡ false
      → has_headers p.muxer ≡ r.0
      → r.1 ≡ (on_new_subscriber p.muxer).1
      → Added s p (enter s r p)
  unfolding enter
  enter-Added s p (true, calls) e h c = (
    rw e refl,
    (λ x. rw h (count-insert x s p.subscriber)),
    (λ x. rw h refl),
    ap (λ k. k ++ (set_publisher ∷ [])) c,
  )
  enter-Added s p (false, calls) e h c = (
    rw e refl,
    (λ x. rw h refl),
    (λ x. rw h (count-insert x s p.wait_header_subscriber)),
    ap (λ k. k ++ (set_publisher ∷ [])) c,
  )

  kept : (s : ℕ) (p : Publisher P) → count s p.subscriber ≡ true → Added s p (false, [], p)
  kept s p e = (rw e refl, (λ x. refl), (λ x. refl), refl)

  pub on_new_subscriber-has_headers : (m : Muxer P) → has_headers m ≡ (on_new_subscriber m).0
  unfolding on_new_subscriber
  on_new_subscriber-has_headers m =
      elim (Bool-cases (no_text m.audio_header || no_text m.video_header)) [
        | inl e ↦ rw e refl
        | inr e ↦ rw e refl
      ]

  pub add-new :
      (s : ℕ) (p : Publisher P)
      → count s p.subscriber ≡ false
      → add_subscriber s p ≡ enter s (on_new_subscriber p.muxer) p
  unfolding add_subscriber
  add-new s p e = rw e refl

  pub add-old :
      (s : ℕ) (p : Publisher P) → count s p.subscriber ≡ true → add_subscriber s p ≡ (false, [], p)
  unfolding add_subscriber
  add-old s p e = rw e refl

  -- A subscriber that is in the set is refused: nothing is sent and nothing changes. Any other is
  -- accepted. It joins the subscribers when the muxer has the headers of audio and video, else those
  -- that wait for a header, and no other membership changes. It is sent what `on_new_subscriber`
  -- sends, and then its publisher is set.
  pub add_subscriber_lem : (s : ℕ) (p : Publisher P) → Added s p (add_subscriber s p)
  add_subscriber_lem s p = elim (Bool-cases (count s p.subscriber)) [
    | inl e ↦ subst (Added s p) (sym (add-old s p e)) (kept s p e)
    | inr e ↦
        subst (Added s p) (sym (add-new s p e)) (
          enter-Added s p (on_new_subscriber p.muxer) e (on_new_subscriber-has_headers p.muxer)
            refl)
  ]

  -- After `remove_subscriber` a subscriber is in neither set, and every other one is in the sets it
  -- was in before; whatever the muxer is, it stays.
  remove_subscriber_lem :
      (s x : ℕ) (p : Publisher P)
      → (count x (remove_subscriber s p).subscriber ≡ not (s == x) && count x p.subscriber)
        × (count x (remove_subscriber s p).wait_header_subscriber
            ≡ not (s == x) && count x p.wait_header_subscriber)
        × ((remove_subscriber s p).muxer ≡ p.muxer)
  unfolding remove_subscriber
  remove_subscriber_lem s x p =
      (count-erase x s p.subscriber, count-erase x s p.wait_header_subscriber, refl)
