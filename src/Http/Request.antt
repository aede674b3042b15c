-- ===== src/Http/Request.antt =====
-- Http.h and Http.cpp: CHttpRequest.
pub mod Cases
pub mod Consumed
pub mod Lines
pub mod Parts
pub mod RoundTrip
use mathlib.Core.Option
use byron0416_mp.Error.{ErrorCode, e_ok, e_continue, e_badrequest, e_entitytoolarge}
use byron0416_mp.Prelude.OrderedMap.{find, insert}
use byron0416_mp.Prelude.{
  ℕ, zero, suc, ◌+◌, Bool, true, false, List, [], ◌∷◌, ◌++◌, Option, none, some, length, ltb,
  if◌then◌else◌, take, drop, add64, sub64,
}
use byron0416_mp.Text.{
  Text, text, crlf, text_eq, text_key, find_text, find_text_from, rfind_byte, before_pos,
  behind_pos, lines_of, c_prefix,
}

pub record Request : Type 0 where
  pub request : Text
  pub method : Text
  pub full_url : Text
  pub url : Text
  pub param_string : Text
  pub file : Text
  pub suffix : Text
  pub params : List (Text × Text)
  pub fields : List (Text × Text)

-- Initialize.
abbrev pub empty_request : Request
empty_request = record {
  request = [];
  method = [];
  full_url = [];
  url = [];
  param_string = [];
  file = [];
  suffix = [];
  params = [];
  fields = [];
}

-- One round of the loop of ParseParam over tmp, which goes on with again.
unfoldable pub param_round :
    (Text → List (Text × Text) → Option (Bool × List (Text × Text)))
    → Text
    → List (Text × Text)
    → Option (Bool × List (Text × Text))
param_round again tmp m = elim (find_text (text "=") tmp) [
  | none ↦ some (false, m)
  | some pos ↦
      let name = take pos tmp in
      let value = drop (pos + 1) tmp in
      let amp = find_text (text "&") value in
      let m' = insert name (before_pos amp value) m in
      elim amp [ none ↦ some (true, m') | some i ↦ again (drop (i + 1) value) m' ]
]

-- The loop; each round takes one unit of fuel, and none means that it ran out. The first component
-- is what the function returns.
unfoldable pub param_loop : ℕ → Text → List (Text × Text) → Option (Bool × List (Text × Text))
param_loop zero tmp m = none
param_loop (suc fuel) [] m = some (true, m)
param_loop (suc fuel) (c ∷ cs) m = param_round (param_loop fuel) (c ∷ cs) m

-- Each round but the last takes at least one byte off tmp, so that this fuel is enough.
unfoldable pub parse_param : Text → List (Text × Text) → Bool × List (Text × Text)
parse_param params m = elim (param_loop (suc (length params)) params m) [
  | none ↦ (false, m)
  | some r ↦ r
]

-- The part of the URL behind the host.
unfoldable pub file_of : Text → Text
file_of url = elim (find_text (text "://") url) [
  | none ↦ url
  | some pos ↦ behind_pos (find_text_from (text "/") (pos + 3) url) url
]

-- The last two parts of ParseUrl.
unfoldable pub finish_url : Request → Request
finish_url r = record r { file = file_of r.url; suffix = behind_pos (rfind_byte b'.' r.url) r.url }

unfoldable pub parse_query : Request → ℕ → ErrorCode × Request
parse_query r i =
    let query = drop (i + 1) r.full_url in
    let parsed = parse_param query r.params in
    let r' : Request = record r {
      url = take i r.full_url;
      param_string = query;
      params = parsed.1;
    } in
    if parsed.0 then (e_ok, finish_url r') else (e_badrequest, r')

-- ParseUrl, once the method and the full URL are cut out.
unfoldable pub take_url : Request → Text → Text → ErrorCode × Request
take_url r method full =
    let r' : Request = record r { method = method; full_url = full } in
    elim (find_text (text "?") full) [
      | some i ↦ parse_query r' i
      | none ↦ (e_ok, finish_url (record r' { url = full }))
    ]

unfoldable pub parse_url : Request → Text → ErrorCode × Request
parse_url r line =
    let rest = behind_pos (find_text (text " ") line) line in
    take_url r (before_pos (find_text (text " ") line) line)
      (before_pos (find_text (text " ") rest) rest)

-- ParseField; none is its result false.
unfoldable pub parse_field : Request → Text → Option Request
parse_field r field = elim (find_text (text ": ") field) [
  | none ↦ none
  | some pos ↦ some (record r { fields = insert (take pos field) (drop (pos + 2) field) r.fields })
]

-- The loop over the lines behind the first. A line of 1024 bytes or more ends the loop.
unfoldable pub field_lines : Request → List Text → ErrorCode × Request
field_lines r [] = (e_ok, r)
field_lines r (l ∷ ls) =
    let rest = λ (q : Request). field_lines q ls in
    if ltb 1023 (length l)
    then (e_ok, r)
    else if text_eq l (13 ∷ [])
    then (e_ok, r)
    else elim (parse_field r (before_pos (find_text (13 ∷ []) l) l)) [
      | none ↦ (e_badrequest, r)
      | some q ↦ rest q
    ]

-- Whether ParseUrl succeeded decides about the lines behind.
unfoldable pub after_url : ErrorCode × Request → List Text → ErrorCode × Request
after_url (e_ok, r) ls = field_lines r ls
after_url (e, r) ls = (e, r)

-- The loop over the lines, with step 1.
unfoldable pub request_lines : Request → List Text → ErrorCode × Request
request_lines r [] = (e_ok, r)
request_lines r (l ∷ ls) =
    if ltb 1023 (length l)
    then (e_ok, r)
    else if text_eq l (13 ∷ [])
    then (e_ok, r)
    else after_url (parse_url r (before_pos (find_text (13 ∷ []) l) l)) ls

-- What Parse leaves: its code, the length that it hands back, and the object.
pub record Parsed : Type 0 where
  pub code : ErrorCode
  pub len : ℕ
  pub request : Request

-- Parse, where whole is m_Request with the new bytes appended.
unfoldable pub parse_whole : Request → Text → ℕ → Parsed
parse_whole r whole len =
    let r' : Request = record r { request = whole } in
    if ltb 2048 (length whole)
    then record { code = e_entitytoolarge; len = len; request = r' }
    else elim (find_text (crlf ++ crlf) whole) [
      | none ↦ record { code = e_continue; len = len; request = r' }
      | some pos ↦
          let (code, q) = request_lines r' (lines_of whole) in
          record { code = code; len = sub64 (pos + 4) (length r.request); request = q }
    ]

-- Parse; buf is a C string in what was received.
unfoldable pub parse : Request → Text → ℕ → Parsed
parse r buf len = parse_whole r (r.request ++ c_prefix buf) len

unfoldable pub get_mime : Request → Text
get_mime r =
    if text_eq r.suffix (text "m3u")
    then text "audio/mpegurl"
    else if text_eq r.suffix (text "ts")
    then text "video/mpeg"
    else text "application/octet-stream"

-- GetParam and GetField: the result, and the value, which is empty when there is none.
abbrev pub value_or_empty : Option Text → Bool × Text
value_or_empty none = (false, [])
value_or_empty (some v) = (true, v)

unfoldable pub get_param : Request → Text → Bool × Text
get_param r name = value_or_empty (find name r.params)

unfoldable pub get_field : Request → Text → Bool × Text
get_field r name = value_or_empty (find name r.fields)
