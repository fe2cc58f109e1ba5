-- ===== src/MediaMuxer/Packet/Size.antt =====
-- The sizes of what `PacketTs` of src/media_muxer.cpp writes.
use tms.Prelude.{
  ℕ, zero, suc, ◌+◌, ◌*◌, ◌≤◌, Bool, true, false, ◌&&◌, ◌||◌, some, [], ◌==◌, if◌then◌else◌, ◌≡◌,
  refl, arith,
}
use tms.BitStream.{BitStream, write_all, new_stream, size_in_bytes, of_size}
use tms.BitStream.Size.{cost_all, cost_all-append, write_all-Moved, new_stream-IsWhole}
use tms.MediaMuxer.Packet.{
  Layout, layout, stuffing, adaptation, time_stamp, pes_header, headers, expected_size,
}

cost_all-stuffing : (n : ℕ) → cost_all (stuffing n) ≡ n * 8
unfolding cost_all stuffing
cost_all-stuffing zero = refl
cost_all-stuffing (suc n) = omega (arith, cost_all-stuffing n)

cost_all-time_stamp : (t : ℕ) → cost_all (time_stamp t) ≡ 40
unfolding cost_all time_stamp
cost_all-time_stamp t = refl

abbrev field_size : Bool → ℕ → ℕ
field_size video n = (if video then 8 else 2) + n

cost_all-adaptation :
    (video start : Bool) (n dts : ℕ)
    → cost_all (adaptation video start n dts) ≡ (field_size (video && start) n) * 8
unfolding cost_all adaptation
cost_all-adaptation true true n dts = omega (arith, cost_all-stuffing n)
cost_all-adaptation true false n dts = omega (arith, cost_all-stuffing n)
cost_all-adaptation false start n dts = omega (arith, cost_all-stuffing n)

abbrev pes_size : Bool → ℕ
pes_size video = if video then 25 else 14

cost_all-pes_header :
    (video : Bool) (raw_len pts dts : ℕ)
    → cost_all (pes_header video raw_len pts dts) ≡ pes_size video * 8
unfolding cost_all pes_header time_stamp
cost_all-pes_header true raw_len pts dts = refl
cost_all-pes_header false raw_len pts dts = refl

abbrev has_field : Layout → Bool
has_field l = l.adaptation_field_control == 2 || l.adaptation_field_control == 3

abbrev headers_size : Bool → Bool → Layout → ℕ
headers_size video start l =
    4
    + (if has_field l then field_size (video && start) l.adaption_stuffing_bytes else 0)
    + (if start then pes_size video else 0)

cost_all-headers :
    (video start : Bool) (l : Layout) (pid counter raw_len pts dts : ℕ)
    → cost_all (headers video start l pid counter raw_len pts dts) ≡ headers_size video start l * 8
unfolding cost_all headers
cost_all-headers video start l pid counter raw_len pts dts = ground (
  arith,
  cost_all-append (if has_field l then adaptation video start l.adaption_stuffing_bytes dts else [])
      (if start then pes_header video raw_len pts dts else []),
  cost_all-adaptation video start l.adaption_stuffing_bytes dts,
  cost_all-pes_header video raw_len pts dts,
)

layout-headers_size :
    (video : Bool) (raw_len i : ℕ)
    → headers_size video (i == 0) (layout video raw_len i)
      ≡ expected_size video (i == 0) (layout video raw_len i)
unfolding layout expected_size
layout-headers_size true raw_len i = ground arith
layout-headers_size false raw_len i = ground arith

stuffing_le :
    (video : Bool) (raw_len i : ℕ) → (layout video raw_len i).adaption_stuffing_bytes ≤ 188
unfolding layout
stuffing_le video raw_len i = ground arith

headers_size-le :
    (video : Bool) (raw_len i : ℕ) → headers_size video (i == 0) (layout video raw_len i) ≤ 300
headers_size-le video raw_len i = ground (arith, stuffing_le video raw_len i)

-- Of every frame and at every offset the headers of a packet are written, and their size is the one
-- that the loop has computed: `assert(header_size == ts_bs.SizeInBytes())` holds.
pub headers_lem :
    (video : Bool) (raw_len i pid counter pts dts : ℕ)
    → (s : BitStream) × (write_all
          (headers video (i == 0) (layout video raw_len i) pid counter raw_len pts dts)
          new_stream
        ≡ some s)
      × (expected_size video (i == 0) (layout video raw_len i) ≡ size_in_bytes s)
unfolding size_in_bytes new_stream of_size
headers_lem video raw_len i pid counter pts dts =
    let l = layout video raw_len i in
    let size = cost_all-headers video (i == 0) l pid counter raw_len pts dts in
    let (s, e, m) =
      write_all-Moved (headers video (i == 0) l pid counter raw_len pts dts) new_stream
        new_stream-IsWhole (omega (arith, size, headers_size-le video raw_len i)) in
    (s, e, omega (arith, size, layout-headers_size video raw_len i))
