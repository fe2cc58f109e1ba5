-- ===== src/BitBuffer/Tests.antt =====
-- `BitBuffer` on examples.
use tms.Prelude.{
  ℕ, ◌+◌, ◌*◌, ◌^◌, ◌%◌, ◌/◌, ◌-◌, be, none, some, List, [], ◌∷◌, ◌≡◌, arith, leb, if◌then◌else◌,
}
use tms.BitBuffer.{BitBuffer, get_bits, get_bytes, get_string, skip_bits, skip_bytes}
use tms.BitBuffer.Bounds.{IsValid, after, operations-IsValid}
use tms.BitBuffer.Number.{get_bits_lem}

-- The first bytes of a PES header.
abbrev bytes : List ℕ
bytes = 0 ∷ 1 ∷ 224 ∷ 133 ∷ []

abbrev three_in : BitBuffer
three_in = record { bytes = bytes; bit_len = 32; cur_pos = 17 }

three_in-IsValid : IsValid three_in
three_in-IsValid = omega arith

get_bits_lem_example : get_bits 16 15 three_in ≡ (
    if leb (17 + 15) (4 * 8)
    then some (
      be bytes / 2 ^ (4 * 8 - (17 + 15)) % 2 ^ 15 % 2 ^ 16,
      record three_in { cur_pos = 17 + 15 },
    )
    else none)
get_bits_lem_example =
    get_bits_lem 16 15 three_in three_in-IsValid
      (omega arith, (omega arith, (omega arith, (omega arith, tt))))

operations-IsValid_example :
    IsValid (after three_in (get_bits 32 20 three_in))
    × IsValid (get_bytes 32 20 three_in).2
    × IsValid (after three_in (get_string 20 three_in))
    × IsValid (skip_bits 20 three_in)
    × IsValid (skip_bytes 20 three_in)
operations-IsValid_example = operations-IsValid 32 20 three_in three_in-IsValid
