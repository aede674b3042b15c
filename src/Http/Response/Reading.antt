-- ===== src/Http/Response/Reading.antt =====
-- CHttpResponse::Response: the header as a client reads it, line by line.
use mathlib.Core.List.{append_assoc}
use byron0416_mp.Error.{
  ErrorCode, e_continue, e_ok, e_badrequest, e_forbidden, e_notfound, e_methodnotallowed,
  e_entitytoolarge, e_unsupportedtransport, e_error,
}
use byron0416_mp.Http.Request.Lines.{IsLineByte, lines_of-line, before-cr}
use byron0416_mp.Http.Response.{Response, code_text, reason, field_text, respond}
use byron0416_mp.Prelude.{
  ℕ, ◌≡◌, ◌≢◌, refl, ap, ◌∙◌, false, List, [], ◌∷◌, ◌++◌, Option, none, some, arith, length, All,
  All-append, take, drop, take-append, drop-append, if◌then◌else◌,
}
use byron0416_mp.Text.{Text, text, crlf, text_eq, find_text, starts_with, before_pos, lines_of}

-- A line without the carriage return at its end.
abbrev pub chomp : Text → Text
chomp l = before_pos (find_text (13 ∷ []) l) l

-- A name and a value that a colon and a space part.
abbrev pub split_at : Option ℕ → Text → Option (Text × Text)
split_at none l = none
split_at (some i) l = some (take i l, drop 2 (drop i l))

unfoldable pub read_field : Text → Option (Text × Text)
read_field l = split_at (find_text (text ": ") l) l

-- The fields up to the empty line.
unfoldable pub read_fields : List Text → Option (List (Text × Text))
read_fields [] = none
read_fields (l ∷ ls) =
    let rest = read_fields ls in
    if text_eq l (13 ∷ []) then some [] else elim (read_field (chomp l)) [
      | none ↦ none
      | some f ↦ elim rest [ none ↦ none | some fs ↦ some (f ∷ fs) ]
    ]

-- The line of the status, and the fields.
unfoldable pub read_response : List Text → Option (Text × List (Text × Text))
read_response [] = none
read_response (l ∷ ls) = elim (read_fields ls) [ none ↦ none | some fs ↦ some (chomp l, fs) ]

-- What may stand in a field: no end of a line, and no colon in the name.
abbrev pub IsField : Text × Text → Type 0
IsField (name, value) = All IsLineByte name × All (λ c. c ≢ b':') name × All IsLineByte value

find_text-colon :
    (name rest : Text)
    → All (λ c. c ≢ b':') name
    → find_text (text ": ") (name ++ (text ": " ++ rest)) ≡ some (length name)
unfolding find_text starts_with
find_text-colon [] rest h = refl
find_text-colon (c ∷ cs) rest h = ground (arith, h.0, find_text-colon cs rest h.1)

read_field-line :
    (name value : Text)
    → All (λ c. c ≢ b':') name
    → read_field (name ++ (text ": " ++ value)) ≡ some (name, value)
unfolding read_field
read_field-line name value h =
    let l = name ++ (text ": " ++ value) in
    let behind = text ": " ++ value in
    ap (λ o. split_at o l) (find_text-colon name value h)
    ∙ ap (λ t. some (t, drop 2 (drop (length name) l))) (take-append name behind)
    ∙ ap (λ t. some (name, drop 2 t)) (drop-append name behind)

line-ne_cr :
    (name value : Text)
    → All IsLineByte name
    → text_eq ((name ++ (text ": " ++ value)) ++ 13 ∷ []) (13 ∷ []) ≡ false
unfolding text_eq
line-ne_cr [] value h = refl
line-ne_cr (c ∷ cs) value h = ground (arith, h.0)

field-IsLine : (f : Text × Text) → IsField f → All IsLineByte (f.0 ++ (text ": " ++ f.1))
field-IsLine (name, value) h =
    All-append IsLineByte name (text ": " ++ value) h.0
      (All-append IsLineByte (text ": ") value (omega arith) h.2)

ends_with :
    (name value more : Text)
    → (name ++ (text ": " ++ (value ++ (crlf ++ more)))) ++ crlf
      ≡ (name ++ (text ": " ++ value)) ++ (crlf ++ (more ++ crlf))
ends_with name value more = simp append_assoc

read_fields-field_text :
    (fs : List (Text × Text))
    → All IsField fs
    → read_fields (lines_of (field_text fs ++ crlf)) ≡ some fs
unfolding read_fields field_text lines_of text_eq
read_fields-field_text [] h = refl
read_fields-field_text ((name, value) ∷ fs) h =
    let l = name ++ (text ": " ++ value) in
    let ends : field_text ((name, value) ∷ fs) ++ crlf ≡ l ++ (crlf ++ (field_text fs ++ crlf)) =
      ends_with name value (field_text fs) in
    let is = field-IsLine (name, value) h.0 in
    ap (λ t. read_fields (lines_of t)) ends
    ∙ ap read_fields (lines_of-line l (field_text fs ++ crlf) is)
    ∙ rw (line-ne_cr name value h.0.0, read_fields)
        (rw
          (
            ap read_field (before-cr l is) ∙ read_field-line name value h.0.1,
            read_fields-field_text fs h.1,
          )
          refl)

code_text-IsLine : (code : ErrorCode) → All IsLineByte (code_text code)
code_text-IsLine e_continue = omega arith
code_text-IsLine e_ok = omega arith
code_text-IsLine e_badrequest = omega arith
code_text-IsLine e_forbidden = omega arith
code_text-IsLine e_notfound = omega arith
code_text-IsLine e_methodnotallowed = omega arith
code_text-IsLine e_entitytoolarge = omega arith
code_text-IsLine e_unsupportedtransport = omega arith
code_text-IsLine e_error = omega arith

reason-IsLine : (code : ErrorCode) → All IsLineByte (reason code)
reason-IsLine e_continue = omega arith
reason-IsLine e_ok = omega arith
reason-IsLine e_badrequest = omega arith
reason-IsLine e_forbidden = omega arith
reason-IsLine e_notfound = omega arith
reason-IsLine e_methodnotallowed = omega arith
reason-IsLine e_entitytoolarge = omega arith
reason-IsLine e_unsupportedtransport = omega arith
reason-IsLine e_error = omega arith

-- The line of the status.
abbrev pub status_line : Text → ErrorCode → Text
status_line version code = version ++ (text " " ++ (code_text code ++ (text " " ++ reason code)))

status_line-IsLine :
    (version : Text) (code : ErrorCode)
    → All IsLineByte version
    → All IsLineByte (status_line version code)
status_line-IsLine version code h = All-append IsLineByte version _ h (
    All-append IsLineByte (text " ") _ (omega arith) (
      All-append IsLineByte (code_text code) _ (code_text-IsLine code)
        (All-append IsLineByte (text " ") _ (omega arith) (reason-IsLine code))))

status_ends :
    (version code why more : Text)
    → version ++ (text " " ++ (code ++ (text " " ++ (why ++ (crlf ++ more)))))
      ≡ (version ++ (text " " ++ (code ++ (text " " ++ why)))) ++ (crlf ++ more)
status_ends version code why more = simp append_assoc

-- A client that reads the header line by line, up to the empty line, gets back the status and every
-- field of the response, in order, whatever the code; the fields' names hold no colon, and no text in
-- the header holds the end of a line or a zero byte.
pub read_response-respond :
    (r : Response) (version : Text) (code : ErrorCode)
    → All IsLineByte version
    → All IsField r.fields
    → read_response (lines_of (respond r version code).header)
      ≡ some (status_line version code, r.fields)
unfolding read_response respond
read_response-respond r version code plain fields =
    let l = status_line version code in
    let is = status_line-IsLine version code plain in
    let more = field_text r.fields ++ crlf in
    ap (λ t. read_response (lines_of t)) (status_ends version (code_text code) (reason code) more)
    ∙ ap read_response (lines_of-line l more is)
    ∙ rw (read_fields-field_text r.fields fields, read_response)
        (ap (λ t. some (t, r.fields)) (before-cr l is))
