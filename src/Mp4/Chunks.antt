-- ===== src/Mp4/Chunks.antt =====
-- Where the samples of src/mp4_muxer.cpp are in the media data: what a player finds by the offsets and
-- the counts of the chunks.
pub mod Group
pub mod Step
pub mod Keep
pub mod Find
use tms.Prelude.{
  ℕ, zero, suc, ◌+◌, ◌-◌, ◌*◌, ◌%◌, ◌^◌, ◌≤◌, ◌<◌, Bool, true, false, List, [], ◌∷◌, ◌++◌, ◌≡◌,
  refl, sym, ap, ap₂, ◌∙◌, arith, length, take, drop, if◌then◌else◌, append_assoc, append-nil,
}
use tms.Prelude.{
  length-append, take_le-append, drop_le-append, take_all, drop_all, take-length_append,
  drop-length_append, length-drop,
}
use mathlib.Core.Path.{subst}
use tms.MediaMuxer.{PayloadType, audio, video, unknown, Payload, raw_data, raw_len}
use tms.Mp4.{Mp4Muxer, Chunk, is_kind}

-- The bytes of a sample in the media data.
unfoldable pub sample_bytes : PayloadType → Payload → List ℕ
unfolding is_kind raw_data raw_len
sample_bytes kind p = if is_kind kind video then p.all_data else take (raw_len p) (raw_data p)

abbrev pub bytes_of : PayloadType → List Payload → List (List ℕ)
bytes_of kind [] = []
bytes_of kind (p ∷ ps) = sample_bytes kind p ∷ bytes_of kind ps

abbrev pub joined : List (List ℕ) → List ℕ
joined [] = []
joined (x ∷ xs) = x ++ joined xs

-- Each chunk has an offset, at which stand the next samples, as many as it counts; and none are left.
abbrev pub Filled : List ℕ → List Chunk → List (List ℕ) → List ℕ → Type 0
Filled [] [] samples mdat = samples ≡ []
Filled [] (c ∷ cs) samples mdat = ⊥
Filled (o ∷ os) [] samples mdat = ⊥
Filled (o ∷ os) (c ∷ cs) samples mdat =
    (o + c.size ≤ length mdat)
    × (c.count ≤ length samples)
    × (take c.size (drop o mdat) ≡ joined (take c.count samples))
    × Filled os cs (drop c.count samples) mdat

take-drop-append :
    (n o : ℕ) (xs ys : List ℕ) → o + n ≤ length xs → take n (drop o (xs ++ ys)) ≡ take n (drop o xs)
take-drop-append n o xs ys h =
    ap (take n) (drop_le-append o xs ys (omega arith))
    ∙ take_le-append n (drop o xs) ys (omega (arith, length-drop o xs))

-- More data behind change nothing.
pub Filled-append :
    (os : List ℕ) (cs : List Chunk) (samples : List (List ℕ)) (mdat more : List ℕ)
    → Filled os cs samples mdat
    → Filled os cs samples (mdat ++ more)
Filled-append [] [] samples mdat more h = h
Filled-append [] (c ∷ cs) samples mdat more h = h
Filled-append (o ∷ os) [] samples mdat more h = h
Filled-append (o ∷ os) (c ∷ cs) samples mdat more (fits, enough, here, rest) = (
  omega (arith, length-append mdat more),
  enough,
  take-drop-append c.size o mdat more fits ∙ here,
  Filled-append os cs (drop c.count samples) mdat more rest,
)

-- A chunk behind the others.
pub Filled-snoc :
    (os : List ℕ) (cs : List Chunk) (samples new : List (List ℕ)) (mdat : List ℕ) (o : ℕ)
    (c : Chunk)
    → Filled os cs samples mdat
    → o + c.size ≤ length mdat
    → c.count ≡ length new
    → take c.size (drop o mdat) ≡ joined new
    → Filled (os ++ (o ∷ [])) (cs ++ (c ∷ [])) (samples ++ new) mdat
Filled-snoc [] [] samples new mdat o c h fits count here =
    let e : samples ++ new ≡ new = ap (λ xs. xs ++ new) h in
    (
      fits,
      omega (arith, ap length e),
      here ∙ ap joined (sym (ap (take c.count) e ∙ take_all c.count new (omega arith))),
      ap (drop c.count) e ∙ drop_all c.count new (omega arith),
    )
Filled-snoc [] (d ∷ cs) samples new mdat o c h fits count here = absurd h
Filled-snoc (p ∷ os) [] samples new mdat o c h fits count here = absurd h
Filled-snoc (p ∷ os) (d ∷ cs) samples new mdat o c (fits', enough, there, rest) fits count here = (
  fits',
  omega (arith, length-append samples new),
  there ∙ ap joined (sym (take_le-append d.count samples new enough)),
  subst (λ l. Filled (os ++ (o ∷ [])) (cs ++ (c ∷ [])) l mdat)
      (sym (drop_le-append d.count samples new enough))
      (Filled-snoc os cs (drop d.count samples) new mdat o c rest fits count here),
)

pub joined-append : (xs ys : List (List ℕ)) → joined (xs ++ ys) ≡ joined xs ++ joined ys
joined-append [] ys = refl
joined-append (x ∷ xs) ys =
    ap (λ l. x ++ l) (joined-append xs ys) ∙ sym (append_assoc x (joined xs) (joined ys))

pub bytes_of-append :
    (kind : PayloadType) (ps qs : List Payload)
    → bytes_of kind (ps ++ qs) ≡ bytes_of kind ps ++ bytes_of kind qs
bytes_of-append kind [] qs = refl
bytes_of-append kind (p ∷ ps) qs = ap (λ l. sample_bytes kind p ∷ l) (bytes_of-append kind ps qs)
