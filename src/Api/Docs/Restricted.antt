-- ===== src/Api/Docs/Restricted.antt =====
-- What the documentation's page does with the credentials of the demo.
use lux_ledger_demo.Common.{
  ℕ, ◌≡◌, refl, ◌∙◌, ◌⊎◌, inl, inr, Bool, true, false, Option, none, some, ◌++◌, Text, text_eq,
  codes, text_eq_iff, text_eq_refl, Bool-cases, Option-cases,
}
use lux_ledger_demo.Common.Json.{
  Json, null, bool, num, str, arr, obj, Fields, end, field, get_field, set_field,
}
use lux_ledger_demo.Api.Server.{bearer_prefix}
use lux_ledger_demo.Api.Docs.{
  PageRequest, Remembered, SessionAnswer, session, not_ok, Intercepted, sent, refused,
  session_expired, other_origin, hide, hide_both, hide_secrets, index_fields, intercept_request,
  intercept_response, Posted, redacted, needs_token,
}

-- Either no token goes with the request, or the page was opened for the demo, the request goes to
-- the page's own origin, below /v1/ but not to the token endpoint, and the token is the session's.
abbrev pub IsRestricted : Bool → Text → SessionAnswer → PageRequest → Intercepted → Type 0
IsRestricted is_demo origin answer request r =
    ((token : Text) × (r ≡ sent (some (bearer_prefix ++ token)))
      × (answer ≡ session token)
      × (is_demo ≡ true)
      × (text_eq request.origin origin ≡ true)
      × (needs_token request.pathname ≡ true))
    ⊎ (r ≡ sent none)
    ⊎ ((is_demo ≡ true) × (e : _) × (r ≡ refused e))

protected-IsRestricted :
    (origin : Text) (answer : SessionAnswer) (request : PageRequest) (old : Option Remembered)
    → text_eq request.origin origin ≡ true
    → needs_token request.pathname ≡ true
    → IsRestricted true origin answer request (intercept_request true origin answer request old).0
unfolding intercept_request
protected-IsRestricted origin (session token) request old own protected =
    inl (token, rw (own, protected) refl, refl, refl, own, protected)
protected-IsRestricted origin not_ok request old own protected =
    inr (inr (refl, session_expired, rw (own, protected) refl))

restricted :
    (is_demo : Bool) (origin : Text) (answer : SessionAnswer) (request : PageRequest)
    (old : Option Remembered)
    → IsRestricted is_demo origin answer request
        (intercept_request is_demo origin answer request old).0
unfolding intercept_request
restricted false origin answer request old = inr (inl refl)
restricted true origin answer request old = elim (Bool-cases (text_eq request.origin origin)) [
  | inr other ↦ inr (inr (refl, other_origin, rw other refl))
  | inl own ↦ elim (Bool-cases (needs_token request.pathname)) [
    | inr plain ↦ inr (inl (rw (own, plain) refl))
    | inl protected ↦ protected-IsRestricted origin answer request old own protected
  ]
]

-- A property that is there tells only that it was removed.
abbrev pub IsHidden : Text → Fields → Type 0
IsHidden key body = (get_field key body ≡ none) ⊎ (get_field key body ≡ some redacted)

get_field-set_field_self :
    (key : Text) (v : Json) (body : Fields) → get_field key (set_field key v body) ≡ some v
unfolding set_field get_field
get_field-set_field_self key v end = rw (text_eq_refl key) refl
get_field-set_field_self key v (field k w fs) = elim (Bool-cases (text_eq k key)) [
  | inl same ↦ rw (same, same) refl
  | inr other ↦ rw (other, other) (get_field-set_field_self key v fs)
]

get_field-set_field_ne :
    (key other : Text) (v : Json) (body : Fields)
    → text_eq other key ≡ false
    → get_field key (set_field other v body) ≡ get_field key body
unfolding set_field get_field
get_field-set_field_ne key other v end h = rw h refl
get_field-set_field_ne key other v (field k w fs) h = elim (Bool-cases (text_eq k other)) [
  | inl same ↦
      (let ne : text_eq k key ≡ false = rw ((text_eq_iff k other).0 same) h in rw (same, ne) refl)
  | inr different ↦ elim (Bool-cases (text_eq k key)) [
    | inl found ↦ rw (different, found) refl
    | inr later ↦ rw (different, later) (get_field-set_field_ne key other v fs h)
  ]
]

hide-IsHidden : (key : Text) (body : Fields) → IsHidden key (hide key body)
hide-IsHidden key body = elim (Option-cases (get_field key body)) [
  | inl absent ↦ inl (rw (absent, hide) absent)
  | inr (v, there) ↦ inr (rw (there, hide) (get_field-set_field_self key redacted body))
]

hide-keeps :
    (key other : Text) (body : Fields)
    → text_eq other key ≡ false
    → IsHidden key body
    → IsHidden key (hide other body)
hide-keeps key other body h hidden = elim (Option-cases (get_field other body)) [
  | inl absent ↦ rw (absent, hide) hidden
  | inr (v, there) ↦ rw (there, hide, get_field-set_field_ne key other redacted body h) hidden
]

-- What is told of a body that has properties: no token, no key, and all else as it is.
abbrev pub Tells : Fields → Fields → Type 0
Tells body told =
    IsHidden (codes "access_token") told
    × IsHidden (codes "api_key") told
    × ((key : Text)
        → text_eq (codes "access_token") key ≡ false
        → text_eq (codes "api_key") key ≡ false
        → get_field key told ≡ get_field key body)

-- What is told of any body: an array becomes the object of its items, and a body with no
-- properties is told as it is.
abbrev pub TellsOf : Json → Json → Type 0
TellsOf (obj body) (obj told) = Tells body told
TellsOf (obj body) _ = ⊥
TellsOf (arr vs) (obj told) = Tells (index_fields 0 vs) told
TellsOf (arr vs) _ = ⊥
TellsOf null told = told ≡ null
TellsOf (bool b) told = told ≡ bool b
TellsOf (num n) told = told ≡ num n
TellsOf (str t) told = told ≡ str t

hide-other :
    (key other : Text) (body : Fields)
    → text_eq other key ≡ false
    → get_field key (hide other body) ≡ get_field key body
hide-other key other body h = elim (Option-cases (get_field other body)) [
  | inl absent ↦ rw (absent, hide) refl
  | inr (v, there) ↦ rw (there, hide, get_field-set_field_ne key other redacted body h) refl
]

hide_both-Tells : (body : Fields) → Tells body (hide_both body)
unfolding text_eq
hide_both-Tells body = (
  hide-keeps (codes "access_token") (codes "api_key") (hide (codes "access_token") body) refl
      (hide-IsHidden (codes "access_token") body),
  hide-IsHidden (codes "api_key") (hide (codes "access_token") body),
  λ key no_token no_key.
      hide-other key (codes "api_key") (hide (codes "access_token") body) no_key
      ∙ hide-other key (codes "access_token") body no_token,
)

hide_secrets-TellsOf : (body : Json) → TellsOf body (hide_secrets body)
unfolding hide_secrets
hide_secrets-TellsOf null = refl
hide_secrets-TellsOf (bool b) = refl
hide_secrets-TellsOf (num n) = refl
hide_secrets-TellsOf (str t) = refl
hide_secrets-TellsOf (arr vs) = hide_both-Tells (index_fields 0 vs)
hide_secrets-TellsOf (obj body) = hide_both-Tells body

-- What is posted, if anything: only by a framed page that was opened for the demo and has sent a
-- request, to its own origin, with this request as it is, the status, and what is told of the body.
abbrev pub IsDiscreet : Bool → Bool → Text → Option Remembered → ℕ → Json → Option Posted → Type 0
IsDiscreet is_demo is_framed origin remembered status body none =
    (is_demo ≡ false) ⊎ (is_framed ≡ false) ⊎ (remembered ≡ none)
IsDiscreet is_demo is_framed origin remembered status body (some posted) =
    (is_demo ≡ true)
    × (is_framed ≡ true)
    × (remembered ≡ some posted.request)
    × (posted.target_origin ≡ origin)
    × (posted.status ≡ status)
    × TellsOf body posted.response

intercept_response-IsDiscreet :
    (is_demo is_framed : Bool) (origin : Text) (remembered : Option Remembered) (status : ℕ)
    (body : Json)
    → IsDiscreet is_demo is_framed origin remembered status body
        (intercept_response is_demo is_framed origin remembered status body)
unfolding intercept_response
intercept_response-IsDiscreet is_demo is_framed origin none status body = inr (inr refl)
intercept_response-IsDiscreet false is_framed origin (some r) status body = inl refl
intercept_response-IsDiscreet true false origin (some r) status body = inr (inl refl)
intercept_response-IsDiscreet true true origin (some r) status body =
    (refl, refl, refl, refl, refl, hide_secrets-TellsOf body)

-- The documentation's page sends a token only if it was opened for the demo, and then the
-- session's own, to its own origin and below /v1/, but not to the token endpoint. To its parent it
-- posts only if it was opened for the demo, is framed and has sent a request, and only to its own
-- origin: of the body of the response, the properties access_token and api_key (not those of
-- values inside it) are replaced by the mark that they were removed, and all other properties are
-- as they were. The request is posted as it was remembered, with nothing removed.
pub docs-IsRestricted :
    (is_demo is_framed : Bool) (origin : Text) (answer : SessionAnswer) (request : PageRequest)
    (old remembered : Option Remembered) (status : ℕ) (body : Json)
    → IsRestricted is_demo origin answer request
        (intercept_request is_demo origin answer request old).0
      × IsDiscreet is_demo is_framed origin remembered status body
          (intercept_response is_demo is_framed origin remembered status body)
docs-IsRestricted is_demo is_framed origin answer request old remembered status body = (
  restricted is_demo origin answer request old,
  intercept_response-IsDiscreet is_demo is_framed origin remembered status body,
)
