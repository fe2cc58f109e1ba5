-- ===== src/MediaMuxer/Headers.antt =====
-- `OnVideoHeader` and `OnAudioHeader` of src/media_muxer.cpp, with the publisher
-- (src/media_publisher.h) whose subscribers wait for the headers.
pub mod Units
pub mod Waiting
use Prim.Native.Nat.{bit_or}
use tms.Prelude.{
  ℕ, zero, suc, ◌+◌, ◌-◌, ◌*◌, ◌/◌, ◌%◌, ◌^◌, Bool, true, false, ◌&&◌, ◌||◌, not, Option, none,
  some, List, [], ◌∷◌, ◌++◌, ◌==◌, ltb, if◌then◌else◌, length, set, get_or,
}
use tms.Any.{same}
use tms.BitBuffer.{BitBuffer, get_bits, get_bytes, get_string, of_bytes}
use tms.Nals.{Span, has_start_code, nal_spans, unit}
use tms.Publisher.{
  Publisher, Call, add_subscriber, remove_subscriber, get_and_clear_wait_header_subscriber, no_text,
}
use tms.MediaMuxer.{MediaMuxer, Payload}
use tms.MediaMuxer.Intake.{get_fast_out}

-- A publisher with its muxer.
pub record Live : Type 0 where
  pub subscriber : List ℕ
  pub wait_header_subscriber : List ℕ
  pub media_muxer : MediaMuxer

-- What the publisher's own functions see of it.
unfoldable pub as_publisher : Live → Publisher Payload
as_publisher l = record {
  subscriber = l.subscriber;
  wait_header_subscriber = l.wait_header_subscriber;
  muxer = record {
    metadata = l.media_muxer.metadata;
    audio_header = l.media_muxer.audio_header;
    video_header = l.media_muxer.video_header;
    fast_out = get_fast_out l.media_muxer;
  };
}

-- The sets of subscribers after a call of the publisher.
unfoldable pub with_sets : Live → Publisher Payload → Live
with_sets l p = record l {
  subscriber = p.subscriber;
  wait_header_subscriber = p.wait_header_subscriber;
}

-- The calls made to a subscriber.
abbrev pub Calls : Type 0
Calls = List (ℕ × List (Call Payload))

-- The loop that adds the subscribers of a set, with the calls it makes to each.
unfoldable pub add_all : List ℕ → Publisher Payload → Calls × Publisher Payload
unfolding add_subscriber
add_all [] p = ([], p)
add_all (s ∷ waiting) p =
    let (added, calls, p') = add_subscriber s p in
    let (rest, end) = add_all waiting p' in ((s, calls) ∷ rest, end)

-- Subscribers that wait for the headers are added again.
unfoldable pub promote : Live → Calls × Live
unfolding add_all get_and_clear_wait_header_subscriber with_sets as_publisher
promote l =
    let (waiting, p) = get_and_clear_wait_header_subscriber (as_publisher l) in
    let (calls, end) = add_all waiting p in (calls, with_sets l end)

-- `GetBits` into an unsigned char that is 0 before.
unfoldable pub read_bits : ℕ → BitBuffer → ℕ × BitBuffer
unfolding get_bits
read_bits n b = elim (get_bits 8 n b) [ none ↦ (0, b) | some (v, b') ↦ (v, b') ]

-- The loop over parameter sets: `n` are left, and the string is the last that could be read.
unfoldable pub parameter_sets : ℕ → List ℕ → BitBuffer → List ℕ × BitBuffer
unfolding get_bytes get_string
parameter_sets zero last b = (last, b)
parameter_sets (suc n) last b =
    let (ok, len, b') = get_bytes 16 2 b in
    elim (get_string len b') [
      | none ↦ parameter_sets n last b'
      | some (s, b'') ↦ parameter_sets n s b''
    ]

-- An AVC decoder configuration.
unfoldable pub read_avc : List ℕ → MediaMuxer → MediaMuxer
unfolding get_bytes read_bits parameter_sets of_bytes
read_avc header m =
    let (ok1, version, b1) = get_bytes 8 1 (of_bytes header) in
    let (ok2, profile, b2) = get_bytes 8 1 b1 in
    let (ok3, compatibility, b3) = get_bytes 8 1 b2 in
    let (ok4, level, b4) = get_bytes 8 1 b3 in
    let (reserved6, b5) = read_bits 6 b4 in
    let (length_size_minus_one, b6) = read_bits 2 b5 in
    let (reserved3, b7) = read_bits 3 b6 in
    let (sps_num, b8) = read_bits 5 b7 in
    let (sps, b9) = parameter_sets sps_num m.sps b8 in
    let (ok5, pps_num, b10) = get_bytes 8 1 b9 in
    let (pps, b11) = parameter_sets pps_num m.pps b10 in record m { sps = sps; pps = pps }

-- `assign` from a pointer and a length, which throws where the length is negative.
unfoldable pub assign : List ℕ → Span → Option (List ℕ)
unfolding unit
assign header (nal, end) = if ltb end nal then none else some (unit header (nal, end))

-- Two units behind start codes are the two parameter sets. `none` is an exception.
unfoldable pub take_units : List ℕ → List Span → MediaMuxer → Option MediaMuxer
unfolding assign
take_units header (s ∷ p ∷ []) m = elim (assign header s) [
  | none ↦ none
  | some sps ↦ elim (assign header p) [
    | none ↦ none
    | some pps ↦ some (record m { sps = sps; pps = pps })
  ]
]
take_units header [] m = some m
take_units header (s ∷ []) m = some m
take_units header (s ∷ p ∷ q ∷ r) m = some m

unfoldable pub read_video_header : List ℕ → MediaMuxer → Option MediaMuxer
unfolding take_units nal_spans read_avc has_start_code
read_video_header header m =
    if has_start_code header
    then take_units header (nal_spans header) m
    else some (read_avc header m)

-- Whether a header that arrives is the second of the two.
unfoldable pub pending_arrive : List ℕ → List ℕ → List ℕ → Bool
pending_arrive old new other = no_text old && (not (no_text new) && not (no_text other))

unfoldable pub set_video_header : List ℕ → Live → Live
set_video_header header l = record l {
  media_muxer = record l.media_muxer { video_header = header };
}

-- What follows once a header is stored: where both are there now, those that wait are added.
unfoldable pub arrive : Bool → Live → Calls × Live
unfolding promote
arrive true l = promote l
arrive false l = ([], l)

unfoldable pub with_units : List ℕ → Calls × Live → Option (Calls × Live)
unfolding read_video_header
with_units header (calls, l) = elim (read_video_header header l.media_muxer) [
  | none ↦ none
  | some m ↦ some (calls, record l { media_muxer = m })
]

-- `OnVideoHeader`.
unfoldable pub on_video_header : List ℕ → Live → Option (Calls × Live)
unfolding same pending_arrive set_video_header arrive with_units
on_video_header header l =
    if same l.media_muxer.video_header header
    then some ([], l)
    else with_units header (
        arrive (pending_arrive l.media_muxer.video_header header l.media_muxer.audio_header)
          (set_video_header header l))

-- The ADTS header, but for the length of a frame. The audio header's first two bytes are the type of
-- the audio object, the sampling frequency and the channels; a byte that is not there is 0.
unfoldable pub read_audio_header : List ℕ → List ℕ → List ℕ
read_audio_header header adts =
    let b0 = get_or header 0 0 in
    let b1 = get_or header 1 0 in
    let audio_object_type = b0 / 8 % 32 in
    let sampling_frequency_index = b0 % 8 * 2 + b1 / 128 % 2 in
    let channel_config = b1 / 8 % 16 in
    let h1 = set (set adts 0 0xff) 1 0xf1 in
    let h2 = set h1 2 (
      bit_or
        (bit_or ((audio_object_type + 255) % 256 * 64 % 256)
          (sampling_frequency_index % 16 * 4 % 256))
        (channel_config / 4 % 2)) in
    let h3 = set h2 3 (channel_config % 4 * 64) in
    set (set h3 5 (bit_or (get_or h3 5 0) 0x1f)) 6 0xfc

unfoldable pub set_audio_header : List ℕ → Live → Live
set_audio_header header l = record l {
  media_muxer = record l.media_muxer { audio_header = header };
}

unfoldable pub with_adts : List ℕ → Calls × Live → Calls × Live
unfolding read_audio_header
with_adts header (calls, l) = (
  calls,
  record l {
    media_muxer = record l.media_muxer {
      adts_header = read_audio_header header l.media_muxer.adts_header;
    };
  },
)

-- `OnAudioHeader`.
unfoldable pub on_audio_header : List ℕ → Live → Calls × Live
unfolding same pending_arrive set_audio_header arrive with_adts
on_audio_header header l =
    if same l.media_muxer.audio_header header
    then ([], l)
    else with_adts header (
        arrive (pending_arrive l.media_muxer.audio_header header l.media_muxer.video_header)
          (set_audio_header header l))

-- `AddSubscriber` and `RemoveSubscriber` of the publisher.
unfoldable pub subscribe : ℕ → Live → List (Call Payload) × Live
unfolding add_subscriber as_publisher with_sets
subscribe s l = let (added, calls, p) = add_subscriber s (as_publisher l) in (calls, with_sets l p)

unfoldable pub unsubscribe : ℕ → Live → Live
unfolding remove_subscriber as_publisher with_sets
unsubscribe s l = with_sets l (remove_subscriber s (as_publisher l))
