-- ===== src/Protocol/Response.antt =====
-- src/protocol/response.h: `Response`.
use kvmemo.Base.{Str, Bool, true, false}

pub data ResponseStatus : Type 0 where
  ok_status error_status : ResponseStatus

pub record Response : Type 0 where
  pub status : ResponseStatus
  pub message : Str

abbrev pub ok : Str → Response
ok message = record { status = ok_status; message = message }

abbrev pub error : Str → Response
error message = record { status = error_status; message = message }

unfoldable pub is_ok : Response → Bool
is_ok r = elim r.status [ ok_status ↦ true | error_status ↦ false ]

unfoldable pub is_error : Response → Bool
is_error r = elim r.status [ ok_status ↦ false | error_status ↦ true ]
