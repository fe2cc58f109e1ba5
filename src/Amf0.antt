-- ===== src/Amf0.antt =====
-- `Amf0` (src/amf_0.h, src/amf_0.cpp): AMF 0 values read from a `BitBuffer` and written to an
-- `IoBuffer`.
pub mod Encode
pub mod Decode
pub mod Wire
pub mod Emit
pub mod RoundTrip
pub mod Fuel
pub mod Array
pub mod Lost
pub mod Message
pub mod Masked
mod Tests
use tms.Prelude.{ℕ}

-- `kNumber` to `kObjectEnd` of `Amf0Marker`. A marker is read from one byte, so the tests against
-- `kUnknown`, which is -1, never hold, and are left out.
abbrev pub number_marker : ℕ
number_marker = 0

abbrev pub boolean_marker : ℕ
boolean_marker = 1

abbrev pub string_marker : ℕ
string_marker = 2

abbrev pub object_marker : ℕ
object_marker = 3

abbrev pub null_marker : ℕ
null_marker = 5

abbrev pub ecma_array_marker : ℕ
ecma_array_marker = 8

abbrev pub object_end_marker : ℕ
object_end_marker = 9
