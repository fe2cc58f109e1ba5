-- ===== src/Nals.antt =====
-- The loop that cuts a byte stream at its start codes into NAL units, which stands in
-- `MediaMuxer::OnVideoHeader` (src/media_muxer.cpp) and in `TsReader::OnH264Video`
-- (src/ts_reader.cpp). A pointer into the stream is an offset.
pub mod Annexb
mod Tests
use tms.Prelude.{
  ℕ, ◌+◌, ◌-◌, Bool, true, false, ◌&&◌, Option, none, some, List, [], ◌∷◌, ◌==◌, if◌then◌else◌,
  take, drop, length,
}

-- A unit from its first byte to the end, as the source's pair of a pointer and a length. The length
-- is negative, in the source, where the end is before the first byte.
abbrev pub Span : Type 0
Span = ℕ × ℕ

unfoldable pub is_start : ℕ → ℕ → ℕ → Bool
is_start a b c = a == 0 && (b == 0 && c == 1)

-- `if (nal != NULL) nals.push_back(...)` at a start code at `i`, before the units that follow. The
-- byte in front of the code counts as its first.
unfoldable pub close : Option ℕ → ℕ → List Span → List Span
close none i spans = spans
close (some nal) i spans = (nal, i - 1) ∷ spans

-- After the loop the last unit reaches to the end.
unfoldable pub close_last : Option ℕ → ℕ → List Span
close_last none len = []
close_last (some nal) len = (nal, len) ∷ []

-- The loop, at offset `i`, with the bytes from there on. It goes on while more than three are left.
unfoldable pub scan : ℕ → Option ℕ → List ℕ → List Span
unfolding is_start close close_last
scan i nal [] = close_last nal i
scan i nal (a ∷ []) = close_last nal (i + 1)
scan i nal (a ∷ b ∷ []) = close_last nal (i + 2)
scan i nal (a ∷ b ∷ c ∷ []) = close_last nal (i + 3)
scan i nal (a ∷ b ∷ c ∷ d ∷ p) =
    let next = scan (i + 1) nal (b ∷ c ∷ d ∷ p) in
    let after_code = close nal i (scan (i + 3) (some (i + 3)) (d ∷ p)) in
    if is_start a b c then after_code else next

-- The test in front of the loop. Bytes past the end, which the source reads where it has fewer than
-- four, count as no start code.
unfoldable pub has_start_code : List ℕ → Bool
has_start_code [] = false
has_start_code (a ∷ []) = false
has_start_code (a ∷ b ∷ []) = false
has_start_code (a ∷ b ∷ c ∷ []) = false
has_start_code (a ∷ b ∷ c ∷ d ∷ p) = a == 0 && (b == 0 && (c == 0 && d == 1))

unfoldable pub nal_spans : List ℕ → List Span
unfolding scan
nal_spans p = scan 0 none p

-- The bytes of a unit.
unfoldable pub unit : List ℕ → Span → List ℕ
unit p (nal, end) = take (end - nal) (drop nal p)
