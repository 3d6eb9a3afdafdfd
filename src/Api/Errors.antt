-- ===== src/Api/Errors.antt =====
-- Replies to errors: apps/api/src/api/errors/ and the error handler of
-- apps/api/src/api/server.ts. A thrown value is a RateLimitExceededError or any other value, of
-- which only the properties are read (an error's inherited ones too).
pub mod Replies
mod Tests
use lux_ledger_demo.Common.{
  ℕ, Bool, true, false, not, ◌&&◌, ◌||◌, Option, none, some, List, [], ◌∷◌, Text, length, every,
  leb, ◌==◌, codes, if◌then◌else◌,
}
use lux_ledger_demo.Common.Int.{ℤ, pos}
use lux_ledger_demo.Common.Json.{Json, str, num, property}
use lux_ledger_demo.Common.Decimal.{is_digit, value}

pub data Thrown : Type 0 where
  rate_limit_exceeded : ℕ → Thrown
  other : Json → Thrown

-- The status, the body and the header `retry-after` of an error's reply.
pub record Reply : Type 0 where
  pub status : ℤ
  pub error : Text
  pub message : Text
  pub details : Option Json
  pub retry_after_seconds : Option ℕ

-- `typeof` the property is a string, or a number.
unfoldable pub text_of : Option Json → Option Text
text_of (some (str s)) = some s
text_of _ = none

unfoldable pub number_of : Option Json → Option ℤ
number_of (some (num n)) = some n
number_of _ = none

-- /^\d{3}$/, and the range from 400 to 599
unfoldable pub parse_http_status_from_code : Text → Option ℕ
parse_http_status_from_code code =
    if not (length code == 3 && every is_digit code)
    then none
    else if leb 400 (value code) && leb (value code) 599
    then some (value code)
    else none

abbrev status_or_500 : Option ℕ → ℤ
status_or_500 none = pos 500
status_or_500 (some status) = pos status

abbrev pub internal_error : Reply
internal_error = record {
  status = pos 500;
  error = codes "INTERNAL_ERROR";
  message = codes "Internal server error";
  details = none;
  retry_after_seconds = none;
}

-- `sendDomainError` from the three properties that it tests, and `details`.
unfoldable pub reply_with : Option Text → Option ℤ → Option Text → Option Json → Reply
reply_with (some code) (some http_status) (some message) details = record {
  status = http_status;
  error = code;
  message = message;
  details = details;
  retry_after_seconds = none;
}
reply_with (some code) none (some message) details = record {
  status = status_or_500 (parse_http_status_from_code code);
  error = code;
  message = message;
  details = none;
  retry_after_seconds = none;
}
reply_with _ _ _ details = internal_error

unfoldable pub send_domain_error : Json → Reply
send_domain_error error =
    reply_with (text_of (property (codes "code") error))
      (number_of (property (codes "httpStatus") error)) (text_of (property (codes "message") error))
      (property (codes "details") error)

-- The message of a validation error; `none` if it is none.
unfoldable pub validation_message : Json → Option Text
validation_message error = elim (property (codes "validation") error) [
  | none ↦ none
  | some _ ↦ text_of (property (codes "message") error)
]

-- The handler given to `setErrorHandler`.
unfoldable pub error_handler : Thrown → Reply
error_handler (rate_limit_exceeded seconds) = record {
  status = pos 429;
  error = codes "RATE_LIMIT_EXCEEDED";
  message = codes "Rate limit exceeded";
  details = none;
  retry_after_seconds = some seconds;
}
error_handler (other error) = elim (validation_message error) [
  | some message ↦ record {
    status = pos 400;
    error = codes "INVALID_INPUT";
    message = message;
    details = none;
    retry_after_seconds = none;
  }
  | none ↦ send_domain_error error
]

-- Whether the handler logs the error: it has no code.
unfoldable pub is_logged : Thrown → Bool
is_logged (rate_limit_exceeded seconds) = false
is_logged (other error) = elim (validation_message error) [
  | some message ↦ false
  | none ↦ elim (text_of (property (codes "code") error)) [ none ↦ true | some _ ↦ false ]
]
