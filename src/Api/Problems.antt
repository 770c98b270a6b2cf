-- ===== src/Api/Problems.antt =====
-- apps/api/src/errors.ts: the problems that a caller is told. Their details are left out.
use api_proxy.Base.{ℕ, Text, codes, ◌++◌, decimal}
use api_proxy.Contracts.Errors.{ErrorCode}

pub record HttpProblem : Type 0 where
  pub status : ℕ
  pub code : ErrorCode
  pub message : Text

abbrev pub unauthenticated : HttpProblem
unauthenticated = record {
  status = 401;
  code = ErrorCode.unauthenticated;
  message = codes "missing or invalid credentials";
}

abbrev pub validation : Text → HttpProblem
validation message = record { status = 400; code = ErrorCode.validation_failed; message = message }

abbrev pub payload_too_large : ℕ → HttpProblem
payload_too_large limit_bytes = record {
  status = 413;
  code = ErrorCode.payload_too_large;
  message = codes "request payload exceeds " ++ (decimal limit_bytes ++ codes " bytes");
}

abbrev pub idempotency_conflict : HttpProblem
idempotency_conflict = record {
  status = 409;
  code = ErrorCode.idempotency_key_conflict;
  message =
      codes
        "this idempotency key was already used with a different payload; use a new key or resend the original payload";
}

abbrev pub not_found : HttpProblem
not_found = record {
  status = 404;
  code = ErrorCode.not_found;
  message = codes "workflow not found";
}

abbrev pub draining : HttpProblem
draining = record {
  status = 503;
  code = ErrorCode.service_draining;
  message = codes "service is draining; retry against another task";
}

abbrev pub budget_exhausted : HttpProblem
budget_exhausted = record {
  status = 503;
  code = ErrorCode.request_budget_exceeded;
  message = codes "request exceeded its server-side budget; retry with the same idempotency key";
}

abbrev pub internal : HttpProblem
internal = record {
  status = 500;
  code = ErrorCode.internal_error;
  message = codes "internal error";
}
