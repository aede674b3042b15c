-- ===== src/Http/Response.antt =====
-- Http.h and Http.cpp: CHttpResponse.
pub mod Fields
pub mod Reading
use byron0416_mp.Error.{
  ErrorCode, e_continue, e_ok, e_badrequest, e_forbidden, e_notfound, e_methodnotallowed,
  e_entitytoolarge, e_unsupportedtransport, e_error,
}
use byron0416_mp.Prelude.OrderedMap.{find, insert, assign}
use byron0416_mp.Prelude.{List, [], ◌∷◌, ◌++◌, none, some}
use byron0416_mp.Text.{Text, text, crlf, text_key}

pub record Response : Type 0 where
  pub header : Text
  pub fields : List (Text × Text)

-- Initialize.
abbrev pub empty_response : Response
empty_response = record { header = []; fields = [] }

-- insert, and where the name is there, assignment through the iterator that insert returned.
unfoldable pub add_field : Response → Text → Text → Response
add_field r name value = elim (find name r.fields) [
  | none ↦ record r { fields = insert name value r.fields }
  | some _ ↦ record r { fields = assign name value r.fields }
]

-- An ErrorCode as the stream prints it.
abbrev pub code_text : ErrorCode → Text
code_text e_continue = text "100"
code_text e_ok = text "200"
code_text e_badrequest = text "400"
code_text e_forbidden = text "403"
code_text e_notfound = text "404"
code_text e_methodnotallowed = text "405"
code_text e_entitytoolarge = text "413"
code_text e_unsupportedtransport = text "461"
code_text e_error = text "500"

-- The switch in Response.
abbrev pub reason : ErrorCode → Text
reason e_ok = text "OK"
reason e_badrequest = text "Bad Request"
reason e_forbidden = text "Forbidden"
reason e_notfound = text "Not Found"
reason e_methodnotallowed = text "Method Not Allowed"
reason e_entitytoolarge = text "Request Entity Too Large"
reason e_unsupportedtransport = text "Unsupported Transport"
reason _ = text "Internal Server Error"

unfoldable pub field_text : List (Text × Text) → Text
field_text [] = []
field_text ((name, value) ∷ fs) = name ++ (text ": " ++ (value ++ (crlf ++ field_text fs)))

-- CHttpResponse::Response.
unfoldable pub respond : Response → Text → ErrorCode → Response
respond r version err = record r {
  header =
      version
      ++ (text " "
          ++ (code_text err
              ++ (text " " ++ (reason err ++ (crlf ++ (field_text r.fields ++ crlf))))));
}
