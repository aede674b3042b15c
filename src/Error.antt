-- ===== src/Error.antt =====
-- core/Error.h.
use byron0416_mp.Prelude.{ℕ}

pub data ErrorCode : Type 0 where
  e_continue e_ok e_badrequest e_forbidden e_notfound : ErrorCode
  e_methodnotallowed e_entitytoolarge e_unsupportedtransport e_error : ErrorCode

abbrev pub number : ErrorCode → ℕ
number e_continue = 100
number e_ok = 200
number e_badrequest = 400
number e_forbidden = 403
number e_notfound = 404
number e_methodnotallowed = 405
number e_entitytoolarge = 413
number e_unsupportedtransport = 461
number e_error = 500
