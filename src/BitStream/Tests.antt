-- ===== src/BitStream/Tests.antt =====
-- Runs of src/bit_stream.h, and the theorem on its fields at three of them.
use tms.Prelude.{ℕ, ◌≡◌, refl, List, [], ◌∷◌, some, none, Option}
use tms.BitStream.{
  BitStream, Write, write_all, of_size, written, bits, bytes, replace_bytes, modify_bytes,
}

-- A TS packet's sync byte, four flags, a 13-bit pid and the rest of the header, then two bytes.
abbrev ts_header : List Write
ts_header =
    bits 8 0x47
    ∷ bits 1 0
    ∷ bits 1 1
    ∷ bits 1 0
    ∷ bits 13 0x100
    ∷ bits 2 0
    ∷ bits 2 1
    ∷ bits 4 11
    ∷ bytes 2 0x7530
    ∷ []

abbrev bytes_of : Option BitStream → List ℕ
bytes_of none = []
bytes_of (some s) = written s

ts_header_bytes :
    bytes_of (write_all ts_header (of_size 8)) ≡ 0x47 ∷ 0x41 ∷ 0 ∷ 0x1B ∷ 0x75 ∷ 0x30 ∷ []
unfolding write_all of_size written
ts_header_bytes = refl

patched : Option BitStream → Option BitStream
patched none = none
patched (some s) = replace_bytes 0 2 0x1234 s

patched_bytes :
    bytes_of (patched (write_all (bytes 2 0xFFFF ∷ bits 8 7 ∷ []) (of_size 8)))
    ≡ 0x12 ∷ 0x34 ∷ 7 ∷ []
unfolding patched write_all of_size written replace_bytes
patched_bytes = refl

-- `ModifyBytes` refuses the byte at the cursor.
modify_at_cursor : modify_bytes 0 1 5 (of_size 8) ≡ none
unfolding modify_bytes of_size
modify_at_cursor = refl

too_many_bits : write_all (bits 9 1 ∷ []) (of_size 1) ≡ none
unfolding write_all of_size
too_many_bits = refl
