-- ===== src/Streams.antt =====
-- `LocalStreamCenter` (src/local_stream_center.h, src/local_stream_center.cpp): which publisher has
-- which stream of which application. A `MediaPublisher*` is any `P`; a NULL that a lookup returns is
-- none.
pub mod Keep
pub mod Register
pub mod Unregister
pub mod Directory
mod Tests
use tms.Prelude.{ℕ, Option, none, some, Bool, true, false, List, [], ◌∷◌, if◌then◌else◌, ◌||◌}
use tms.StdMap.{StdMap, empty, entry, find, insert, assign, erase, is_empty}

-- `app_stream_publisher_`
abbrev pub Center {ℓ} : Type ℓ → Type ℓ
Center P = StdMap (StdMap P)

-- `empty()` of a string.
abbrev pub no_text : List ℕ → Bool
no_text [] = true
no_text (x ∷ s) = false

module _ {ℓ} {P : Type ℓ} where
  -- `app_stream_publisher_[app]`, which makes an empty map where there is none.
  unfoldable pub slot : List ℕ → Center P → StdMap P × Center P
  slot app c = elim (find app c) [ none ↦ (empty, insert app empty c) | some m ↦ (m, c) ]

  -- `RegisterStream` with the map of the application at hand.
  unfoldable pub register_in : List ℕ → List ℕ → P → StdMap P × Center P → Bool × Center P
  register_in app stream publisher (m, c) = elim (find stream m) [
    | none ↦ (true, assign app (insert stream publisher m) c)
    | some _ ↦ (false, c)
  ]

  unfoldable pub register_stream : List ℕ → List ℕ → P → Center P → Bool × Center P
  unfolding register_in slot
  register_stream app stream publisher c =
      if no_text app || no_text stream
      then (false, c)
      else register_in app stream publisher (slot app c)

  -- `erase` of a stream, and of the application where that was its last.
  unfoldable pub drop_stream : List ℕ → List ℕ → StdMap P → Center P → Center P
  drop_stream app stream m c =
      let m' = erase stream m in if is_empty m' then erase app c else assign app m' c

  unfoldable pub unregister_stream : List ℕ → List ℕ → Center P → Bool × Center P
  unfolding drop_stream
  unregister_stream app stream c = elim (find app c) [
    | none ↦ (false, c)
    | some m ↦ elim (find stream m) [
      | none ↦ (false, c)
      | some _ ↦ (true, drop_stream app stream m c)
    ]
  ]

  -- `GetMediaPublisherByAppStream`.
  unfoldable pub get_media_publisher : List ℕ → List ℕ → Center P → Option P
  get_media_publisher app stream c = elim (find app c) [ none ↦ none | some m ↦ find stream m ]

  -- `IsAppStreamExist`.
  unfoldable pub is_app_stream_exist : List ℕ → List ℕ → Center P → Bool
  is_app_stream_exist app stream c = elim (find app c) [
    | none ↦ false
    | some m ↦ elim (find stream m) [ none ↦ false | some _ ↦ true ]
  ]

  -- `_DebugGetRandomMediaPublisher`: the first stream of the first application.
  unfoldable pub debug_get_random : Center P → Option (List ℕ × List ℕ × P)
  debug_get_random empty = none
  debug_get_random (entry app empty c) = none
  debug_get_random (entry app (entry stream publisher m) c) = some (app, stream, publisher)
