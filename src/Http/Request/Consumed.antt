-- ===== src/Http/Request/Consumed.antt =====
-- CHttpRequest::Parse: how much of its input it consumes, and input that comes in pieces.
use byron0416_mp.Error.{e_continue}
use byron0416_mp.Prelude.{
  ℕ, ◌+◌, ◌-◌, ◌≤◌, ◌<◌, ◌≡◌, refl, [], ◌∷◌, ◌++◌, none, some, arith, length, length-append, sub64,
  le→ltb-false, All,
}
use byron0416_mp.Text.{Text, crlf, find_text, c_prefix}
use byron0416_mp.Text.Find.{find_text-le, find_text-append_beyond}
use byron0416_mp.Http.Request.{Request, parse, parse_whole}

-- Bytes with no terminator among them.
abbrev pub IsCString : Text → Type 0
IsCString s = All (λ c. 0 < c) s

pub c_prefix_id : (s : Text) → IsCString s → c_prefix s ≡ s
unfolding c_prefix
c_prefix_id [] h = refl
c_prefix_id (c ∷ cs) h = ground (arith, c_prefix_id cs h.1, h.0)

-- The first piece of a request.
pub parse_first :
    (r : Request) (buf : Text) (len : ℕ)
    → IsCString buf
    → length (r.request ++ buf) ≤ 2048
    → find_text (crlf ++ crlf) (r.request ++ buf) ≡ none
    → parse r buf len
      ≡ record { code = e_continue; len = len; request = record r { request = r.request ++ buf } }
unfolding parse
parse_first r buf len h small absent =
    rw (c_prefix_id buf h)
      (unfold parse_whole in rw (le→ltb-false 2048 (length (r.request ++ buf)) small, absent) refl)

pub parse_used :
    (r : Request) (buf : Text) (len pos : ℕ)
    → IsCString buf
    → length (r.request ++ buf) ≤ 2048
    → find_text (crlf ++ crlf) r.request ≡ none
    → find_text (crlf ++ crlf) (r.request ++ buf) ≡ some pos
    → (0 < (parse r buf len).len)
      × ((parse r buf len).len ≤ length buf)
      × (length r.request + (parse r buf len).len ≡ pos + 4)
unfolding parse
parse_used r buf len pos h small before now =
    let reach = find_text-append_beyond (crlf ++ crlf) r.request buf pos before now in
    let within = find_text-le (crlf ++ crlf) (r.request ++ buf) pos now in
    let total = length-append r.request buf in
    let exact : sub64 (pos + 4) (length r.request) ≡ pos + 4 - length r.request =
      omega (arith, reach, within, small) in
    rw (c_prefix_id buf h) (
      unfold parse_whole in
      rw (le→ltb-false 2048 (length (r.request ++ buf)) small, now, exact)
        (omega (arith, reach, within, total)))
