-- ===== src/TsReader/Hang.antt =====
-- The loop over a program's descriptors in `ParsePMT` of src/ts_reader.cpp, at the end of the packet.
use tms.Prelude.{
  ℕ, zero, suc, ◌+◌, ◌-◌, ◌%◌, ◌^◌, ◌<◌, some, ◌==◌, if◌then◌else◌, ◌≡◌, refl, ap, ◌∙◌, arith,
}
use tms.BitBuffer.{BitBuffer, get_bits, more_than_bits, bits_left, bytes_left}
use tms.TsReader.{
  TsReader, get, parse_descriptor, descriptors, Parsed, parsed, out_of_fuel, pmt_head, parse_pmt,
}

-- A byte can not be read any more.
get-exhausted : (b : BitBuffer) → bits_left b < 8 → get 8 8 b ≡ (0, b)
unfolding get get_bits more_than_bits bits_left
get-exhausted b h = ground arith

parse_descriptor-exhausted : (b : BitBuffer) → bits_left b < 8 → parse_descriptor b ≡ some b
unfolding parse_descriptor bits_left
parse_descriptor-exhausted b h = rw (get-exhausted b h) (rw (get-exhausted b h) (ground arith))

not_empty : (n : ℕ) (x y : Parsed BitBuffer) → 0 < n → (if n == 0 then x else y) ≡ y
not_empty zero x y h = absurd (omega arith)
not_empty (suc n) x y h = ground arith

descriptors-step :
    (fuel length : ℕ) (b : BitBuffer)
    → bits_left b < 8
    → 0 < length
    → length < 2 ^ 16
    → descriptors (suc fuel) length b ≡ descriptors fuel length b
unfolding descriptors
descriptors-step fuel length b h pos small =
    let e : (length + 2 ^ 16 - (bytes_left b - bytes_left b)) % 2 ^ 16 ≡ length = omega arith in
    rw (parse_descriptor-exhausted b h, descriptors)
      (not_empty length (parsed b)
          (descriptors fuel ((length + 2 ^ 16 - (bytes_left b - bytes_left b)) % 2 ^ 16) b) pos
        ∙ ap (λ k. descriptors fuel k b) e)

-- With less than a byte left to read, a descriptor is read as empty and takes nothing from the length:
-- the loop goes round for ever.
descriptors-exhausted :
    (fuel length : ℕ) (b : BitBuffer)
    → bits_left b < 8
    → 0 < length
    → length < 2 ^ 16
    → descriptors fuel length b ≡ out_of_fuel
descriptors-exhausted zero length b h pos small = unfold descriptors in refl
descriptors-exhausted (suc fuel) length b h pos small =
    descriptors-step fuel length b h pos small ∙ descriptors-exhausted fuel length b h pos small

-- `ParsePMT` does not return where the table says that its program has descriptors but less than a
-- byte is left behind that length, whatever the number of rounds.
pub parse_pmt-hangs :
    (fuel : ℕ) (b : BitBuffer) (r : TsReader)
    → bits_left (pmt_head b).2 < 8
    → 0 < (pmt_head b).1
    → (pmt_head b).1 < 2 ^ 16
    → parse_pmt fuel b r ≡ out_of_fuel
unfolding parse_pmt
parse_pmt-hangs fuel b r h pos small =
    rw (descriptors-exhausted fuel (pmt_head b).1 (pmt_head b).2 h pos small, parse_pmt) refl
