-- ===== src/Http/Request/RoundTrip.antt =====
-- CHttpRequest::Parse on requests that are written out.
use byron0416_mp.Http.Request.{Request}
use byron0416_mp.Http.Request.Lines.{IsLine, lines_text}
use byron0416_mp.Prelude.{◌≢◌, List, [], ◌∷◌, ◌++◌, All}
use byron0416_mp.Text.{Text, text, text_key}

-- A header field, and the line that it is written on.
abbrev pub field_text : Text × Text → Text
field_text (name, value) = name ++ (text ": " ++ value)

abbrev pub IsField : Text × Text → Type 0
IsField f = All (λ b. b ≢ b':') f.0 × IsLine (field_text f)

abbrev pub field_lines_text : List (Text × Text) → List Text
field_lines_text [] = []
field_lines_text (f ∷ fs) = field_text f ∷ field_lines_text fs

abbrev pub request_line : Text → Text → Text
request_line method url = method ++ b' ' ∷ (url ++ b' ' ∷ text "RTSP/1.0")

-- A request as a client writes it.
abbrev pub request_text : Text → Text → List (Text × Text) → Text
request_text method url fs = request_line method url ++ lines_text (field_lines_text fs)
