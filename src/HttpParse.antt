-- ===== src/HttpParse.antt =====
-- `HttpParse` (src/http_parse.h, src/http_parse.cpp): the head of an HTTP request, read as it
-- arrives. The `IoBuffer` enters as the queue of its unread bytes. A position is kept as one more
-- than the source's, whose first value is -1, and is no `int` but a number without bound.
pub mod Pieces
pub mod Header
mod Tests
use tms.Prelude.{
  ℕ, zero, suc, ◌+◌, Option, none, some, Bool, true, false, not, List, [], ◌∷◌, ◌++◌, ◌==◌, ◌&&◌,
  ◌||◌, if◌then◌else◌, length,
}
use tms.Any.{same}
use tms.StdMap.{StdMap, empty, find, assign}

-- The members without `next_pos_`, the position where the next call goes on.
pub record HttpParse : Type 0 where
  pub header_kv : StdMap (List ℕ)
  pub args : StdMap (List ℕ)
  pub r_pos : ℕ
  pub n_pos : ℕ
  pub m_pos : ℕ
  pub key_value : Bool
  pub key : List ℕ
  pub value : List ℕ
  pub file_name : List ℕ
  pub file_type : List ℕ
  pub path : List (List ℕ)

abbrev pub new_parse : HttpParse
new_parse = record {
  header_kv = empty;
  args = empty;
  r_pos = 0;
  n_pos = 0;
  m_pos = 0;
  key_value = false;
  key = [];
  value = [];
  file_name = [];
  file_type = [];
  path = [];
}

-- `Util::SepStr` with one character as separator, which no part contains: empty parts are kept.
unfoldable pub sep_str : ℕ → List ℕ → List ℕ → List (List ℕ)
sep_str sep part [] = part ∷ []
sep_str sep part (c ∷ cs) =
    if c == sep then part ∷ sep_str sep [] cs else sep_str sep (part ++ (c ∷ [])) cs

-- GET at the front, and anywhere: `find("GET") != npos`.
unfoldable pub starts_with_get : List ℕ → Bool
starts_with_get (a ∷ b ∷ c ∷ cs) = (a == 71) && ((b == 69) && (c == 84))
starts_with_get _ = false

unfoldable pub has_get : List ℕ → Bool
unfolding starts_with_get
has_get [] = false
has_get (c ∷ cs) = starts_with_get (c ∷ cs) || has_get cs

-- GET, Get and get.
unfoldable pub is_get : List ℕ → Bool
unfolding same
is_get s =
    same s (71 ∷ 69 ∷ 84 ∷ []) || (same s (71 ∷ 101 ∷ 116 ∷ []) || same s (103 ∷ 101 ∷ 116 ∷ []))

-- The locals of the loop over the target of a request, and the members that it changes. The state
-- is 0 in the path, 1 in the name and 2 in the value of an argument.
pub record Target : Type 0 where
  pub parts : List (List ℕ)
  pub arguments : StdMap (List ℕ)
  pub tmp_path : List ℕ
  pub tmp_key : List ℕ
  pub tmp_value : List ℕ
  pub state : ℕ

unfoldable pub target_char : Bool → ℕ → Target → Target
unfolding assign
target_char first ch t =
    if ch == 47
    then (if first then t else record t { parts = t.parts ++ (t.tmp_path ∷ []); tmp_path = [] })
    else if ch == 63
    then (if t.state == 0 then record t { state = 1 } else t)
    else if ch == 38
    then record t {
      arguments = assign t.tmp_key t.tmp_value t.arguments;
      tmp_key = [];
      tmp_value = [];
      state = 1;
    }
    else if ch == 61
    then (if t.state == 1
        then record t { state = 2 }
        else if t.state == 2
        then record t { tmp_value = t.tmp_value ++ (ch ∷ []) }
        else t)
    else if t.state == 0
    then record t { tmp_path = t.tmp_path ++ (ch ∷ []) }
    else if t.state == 1
    then record t { tmp_key = t.tmp_key ++ (ch ∷ []) }
    else record t { tmp_value = t.tmp_value ++ (ch ∷ []) }

unfoldable pub target_chars : Bool → List ℕ → Target → Target
unfolding target_char
target_chars first [] t = t
target_chars first (ch ∷ chs) t = target_chars false chs (target_char first ch t)

abbrev pub no_text : List ℕ → Bool
no_text [] = true
no_text (c ∷ cs) = false

-- What is left at the end of the target: a last part, or a last argument.
unfoldable pub target_end : Target → Target
unfolding assign
target_end t =
    if t.state == 0
    then (if no_text t.tmp_path then t else record t { parts = t.parts ++ (t.tmp_path ∷ []) })
    else record t { arguments = assign t.tmp_key t.tmp_value t.arguments }

-- A name up to its first dot, and what is behind it.
unfoldable pub split_dot : List ℕ → List ℕ × Option (List ℕ)
split_dot [] = ([], none)
split_dot (c ∷ cs) =
    if c == 46 then ([], some cs) else (let (name, rest) = split_dot cs in (c ∷ name, rest))

abbrev pub last_part : List ℕ → List (List ℕ) → List ℕ
last_part d [] = d
last_part d (p ∷ ps) = last_part p ps

unfoldable pub set_file : HttpParse → HttpParse
unfolding split_dot
set_file h = elim h.path [
  | [] ↦ h
  | p ∷ ps ↦
      let (name, rest) = split_dot (last_part p ps) in
      elim rest [
        | none ↦ record h { file_name = name }
        | some file_type ↦ record h { file_name = name; file_type = file_type }
      ]
]

unfoldable pub set_target : List ℕ → HttpParse → HttpParse
unfolding target_chars target_end set_file
set_target target h =
    let t = target_end (
      target_chars true target (record {
        parts = h.path;
        arguments = h.args;
        tmp_path = [];
        tmp_key = [];
        tmp_value = [];
        state = 0;
      })) in
    set_file (record h { path = t.parts; args = t.arguments })

-- The request line in `key_`: kError is none.
unfoldable pub request_line : List (List ℕ) → HttpParse → Option HttpParse
unfolding is_get set_target
request_line (method ∷ target ∷ _) h = if is_get method then some (set_target target h) else none
request_line _ h = some h

-- A line at its end.
unfoldable pub end_line : HttpParse → Option HttpParse
unfolding has_get sep_str request_line assign
end_line h =
    if has_get h.key
    then request_line (sep_str 32 [] h.key) h
    else some (record h { header_kv = assign h.key h.value h.header_kv })

-- After a byte the loop goes on, is done with the head, or returns kError.
pub data Step : Type 0 where
  next : HttpParse → Step
  finished : HttpParse → Step
  failed : HttpParse → Step

-- A line feed at `n`, right behind a carriage return and right behind a line or not.
unfoldable pub line_feed : ℕ → HttpParse → Step
unfolding end_line
line_feed n h =
    if n == h.r_pos
    then (if n == h.n_pos + 1
        then finished h
        else elim (end_line (record h { key_value = false })) [
          | none ↦ failed (record h { key_value = false })
          | some h' ↦ next (record h' { key = []; value = []; n_pos = n + 1 })
        ])
    else next (record h { n_pos = n + 1 })

abbrev pub add_char : ℕ → HttpParse → HttpParse
add_char c h =
    if h.key_value
    then record h { value = h.value ++ (c ∷ []) }
    else record h { key = h.key ++ (c ∷ []) }

unfoldable pub step : ℕ → ℕ → HttpParse → Step
unfolding line_feed
step n c h =
    if c == 13
    then next (record h { r_pos = n + 1 })
    else if c == 10
    then line_feed n h
    else if c == 58
    then next (record h {
      m_pos = n + 1;
      value = if h.key_value then h.value ++ (c ∷ []) else h.value;
      key_value = true;
    })
    else if c == 32
    then (if h.m_pos == n then next h else next (add_char c h))
    else next (add_char c h)

-- kSuccess with what is unread behind the head, kError, or kNoEnoughData with all read. The last one
-- sets `next_pos_`, the others leave it.
pub data Outcome : Type 0 where
  success : HttpParse → List ℕ → Outcome
  error : HttpParse → Outcome
  no_enough_data : HttpParse → ℕ → Outcome

-- The loop of `Decode` from position `n`.
unfoldable pub feed : ℕ → HttpParse → List ℕ → Outcome
unfolding step
feed n h [] = no_enough_data h n
feed n h (c ∷ cs) = elim (step n c h) [
  | next h' ↦ feed (n + 1) h' cs
  | finished h' ↦ success h' cs
  | failed h' ↦ error h'
]

-- `Decode` with `next_pos_` beside the other members.
unfoldable pub decode : ℕ → HttpParse → List ℕ → Outcome
unfolding feed
decode next_pos h bytes = feed next_pos h bytes

-- `GetHeaderKeyValue`.
unfoldable pub get_header_key_value : List ℕ → HttpParse → Option (List ℕ)
unfolding find
get_header_key_value k h = find k h.header_kv

-- `IsFlvRequest` and `IsHlsRequest`: the application and the stream that are asked for.
unfoldable pub is_request : List ℕ → HttpParse → Option (List ℕ × List ℕ)
unfolding same
is_request file_type h = elim h.path [
  | [] ↦ none
  | app ∷ ps ↦
      if same h.file_type file_type && (length ps == 1) then some (app, h.file_name) else none
]

unfoldable pub is_flv_request : HttpParse → Option (List ℕ × List ℕ)
unfolding is_request
is_flv_request h = is_request (102 ∷ 108 ∷ 118 ∷ []) h

unfoldable pub is_hls_request : HttpParse → Option (List ℕ × List ℕ)
unfolding is_request
is_hls_request h = is_request (104 ∷ 108 ∷ 115 ∷ []) h
