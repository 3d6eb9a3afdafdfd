-- ===== src/Api/Errors/Replies.antt =====
-- What every reply to an error has in common, and what it never gives away.
use lux_ledger_demo.Common.{
  ◌≡◌, refl, ◌⊎◌, true, Option, none, some, arith, Text, codes, inl, inr, Option-cases,
}
use lux_ledger_demo.Common.Int.{ℤ, pos, ◌≤ℤ◌}
use lux_ledger_demo.Common.Json.{Json, property}
use lux_ledger_demo.Api.Errors.{
  Thrown, rate_limit_exceeded, other, text_of, number_of, parse_http_status_from_code,
  internal_error, reply_with, send_domain_error, validation_message, error_handler, is_logged,
}

-- The value has no string `code`.
abbrev pub HasNoCode : Json → Type 0
HasNoCode v = text_of (property (codes "code") v) ≡ none

abbrev pub IsInRange : ℤ → Type 0
IsInRange status = (pos 400 ≤ℤ status) × (status ≤ℤ pos 599)

reply_with-range :
    (code : Option Text) (http_status : Option ℤ) (message : Option Text) (details : Option Json)
    → (http_status ≡ some (reply_with code http_status message details).status)
      ⊎ IsInRange (reply_with code http_status message details).status
unfolding reply_with parse_http_status_from_code
reply_with-range none h m d = inr (omega arith)
reply_with-range (some c) none none d = inr (omega arith)
reply_with-range (some c) (some s) none d = inr (omega arith)
reply_with-range (some c) (some s) (some m) d = inl refl
reply_with-range (some c) none (some m) d = inr (ground arith)

-- The status of a reply is the thrown value's own `httpStatus`, or it is from 400 to 599.
pub status-IsInRange :
    (e : Thrown)
    → ((v : Json) × (e ≡ other v)
        × (number_of (property (codes "httpStatus") v) ≡ some (error_handler e).status))
      ⊎ IsInRange (error_handler e).status
unfolding error_handler send_domain_error
status-IsInRange (rate_limit_exceeded s) = inr (omega arith)
status-IsInRange (other v) = elim (Option-cases (validation_message v)) [
  | inr (m, valid) ↦ inr (rw (valid, error_handler) (omega arith))
  | inl invalid ↦
      elim (reply_with-range (text_of (property (codes "code") v))
        (number_of (property (codes "httpStatus") v)) (text_of (property (codes "message") v))
        (property (codes "details") v)) [
          | inl own ↦ inl (v, refl, rw (invalid, error_handler) own)
          | inr range ↦ inr (rw (invalid, error_handler) range)
        ]
]

-- A value with no string code that is no validation error is logged, and its reply is the fixed
-- internal error: nothing of its message or its other properties is sent.
pub internal_error_hides :
    (v : Json)
    → HasNoCode v
    → validation_message v ≡ none
    → (error_handler (other v) ≡ internal_error) × (is_logged (other v) ≡ true)
unfolding error_handler is_logged reply_with send_domain_error
internal_error_hides v no_code valid = ground arith
