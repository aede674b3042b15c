-- ===== src/Http/Tests.antt =====
-- Requests in full.
use byron0416_mp.Error.{e_notfound}
use byron0416_mp.Prelude.{◌≡◌, refl, true, [], ◌∷◌, ◌++◌, List, arith}
use byron0416_mp.Text.{Text, text, crlf, find_text, starts_with}
use byron0416_mp.Http.Request.{parse_param}
use byron0416_mp.Prelude.{some}
use byron0416_mp.Text.{text_key, lines_of}
use byron0416_mp.Http.Response.{Response, empty_response, respond}
use byron0416_mp.Http.Response.Reading.{read_response, status_line, read_response-respond}
use byron0416_mp.Http.Request.Parts.{insert_all, parse_param-query_text}

-- The start of a request, and a request with what comes behind it.
abbrev front : Text
front = text "PLAY /a" ++ crlf

abbrev whole : Text
whole = front ++ (crlf ++ text "$")

abbrev headers : List (Text × Text)
headers = (text "CSeq", text "2") ∷ (text "Range", text "npt=0-") ∷ []

abbrev pairs : List (Text × Text)
pairs = (text "start", text "10") ∷ (text "end", text "20=") ∷ []

parse_param-query_text_example :
    parse_param (text "start=10&end=20=") [] ≡ (true, insert_all pairs [])
unfolding find_text starts_with
parse_param-query_text_example = parse_param-query_text pairs [] ((refl, refl), ((refl, refl), tt))

abbrev answered : Response
answered = record empty_response { fields = (text "CSeq", text "1") ∷ [] }

abbrev answer : Response
answer = record { header = []; fields = (text "CSeq", text "7") ∷ (text "Session", text "11") ∷ [] }

read_response-respond_example :
    read_response (lines_of (respond answer (text "RTSP/1.0") e_notfound).header)
    ≡ some (status_line (text "RTSP/1.0") e_notfound, answer.fields)
read_response-respond_example =
    read_response-respond answer (text "RTSP/1.0") e_notfound (omega arith) (omega arith)
