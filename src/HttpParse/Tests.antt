-- ===== src/HttpParse/Tests.antt =====
-- Request heads, on examples.
use tms.Prelude.{ℕ, Option, none, some, List, [], ◌∷◌, ◌++◌, ◌≡◌, refl, arith, All, if◌then◌else◌}
use tms.Any.{same}
use tms.HttpParse.{
  HttpParse, new_parse, Outcome, no_enough_data, success, decode, get_header_key_value, has_get,
  is_flv_request,
}
use tms.HttpParse.Pieces.{and_then, decode-append}
use tms.HttpParse.Header.{IsKeyChar, IsValueChar, IsAtLine, header_line, decode-header_line}

-- `GET /l/a.flv` and more
abbrev request : List ℕ → List ℕ
request more = 71 ∷ 69 ∷ 84 ∷ 32 ∷ 47 ∷ 108 ∷ 47 ∷ 97 ∷ 46 ∷ 102 ∷ 108 ∷ 118 ∷ more

-- ` H`, its line end, and an empty line
abbrev end_of_head : List ℕ
end_of_head = 32 ∷ 72 ∷ 13 ∷ 10 ∷ 13 ∷ 10 ∷ []

abbrev head : List ℕ
head = request end_of_head

-- The same with `?k=v`.
abbrev head_args : List ℕ
head_args = request (63 ∷ 107 ∷ 61 ∷ 118 ∷ end_of_head)

abbrev request_of : Outcome → Option (List ℕ × List ℕ)
request_of (success h rest) = is_flv_request h
request_of _ = none

stream_asked : request_of (decode 0 new_parse head) ≡ some (108 ∷ [], 97 ∷ [])
unfolding decode is_flv_request
stream_asked = refl

-- With arguments the last part of the path, and with it the stream, is lost.
no_stream_asked : request_of (decode 0 new_parse head_args) ≡ none
unfolding decode is_flv_request
no_stream_asked = refl

decode-append_example :
    decode 0 new_parse (head ++ (7 ∷ [])) ≡ and_then (decode 0 new_parse head) (7 ∷ [])
decode-append_example = decode-append 0 new_parse head (7 ∷ [])

key_A : All IsKeyChar (65 ∷ [])
key_A = ((((λ e. omega arith), (λ e. omega arith), (λ e. omega arith)), (λ e. omega arith)), tt)

value_b : All IsValueChar (98 ∷ 32 ∷ [])
value_b = (
  ((λ e. omega arith), (λ e. omega arith), (λ e. omega arith)),
  (((λ e. omega arith), (λ e. omega arith), (λ e. omega arith)), tt),
)

new_parse-IsAtLine : IsAtLine 0 new_parse
new_parse-IsAtLine = record {
  no_key = refl;
  no_value = refl;
  in_key = refl;
  line_before = omega arith;
}

decode-header_line_example :
    (h' : HttpParse) × (m : ℕ) × (decode 0 new_parse (header_line (65 ∷ []) (98 ∷ 32 ∷ []))
      ≡ no_enough_data h' m)
    × ((j : List ℕ)
        → get_header_key_value j h'
          ≡ (if same (65 ∷ []) j then some (98 ∷ 32 ∷ []) else get_header_key_value j new_parse))
    × IsAtLine m h'
unfolding has_get
decode-header_line_example =
    decode-header_line 0 new_parse (65 ∷ []) (98 ∷ 32 ∷ []) key_A value_b refl new_parse-IsAtLine
