-- ===== src/Auth/Jwt.antt =====
-- Access tokens, apps/api/src/api/auth/jwt.ts. What the file takes from Node and from the core
-- package is the record `Platform`: HMAC-SHA256, base64url over JSON text, and the names of the
-- two roles. Clock values are in milliseconds since 1970.
pub mod Keys
mod Outside
pub mod Issued
pub mod Accepted
pub mod Laws
pub mod Sample
mod Tests
pub use Outside.*
use lux_ledger_demo.Common.{
  ℕ, ◌+◌, ◌-◌, ◌/◌, ltb, Bool, true, false, not, ◌&&◌, ◌||◌, Option, none, some, List, [], ◌∷◌,
  ◌++◌, Text, text_eq, codes, split_on, if◌then◌else◌,
}
use lux_ledger_demo.Common.Int.{ℤ, pos, ◌+ℤ◌, ◌-ℤ◌, leb_ℤ, ltb_ℤ}
use lux_ledger_demo.Common.Json.{Json, num, str, obj, arr, end, field, property}

pub record JwtPayload : Type 0 where
  pub iss : Text
  pub sub : Text
  pub tenant_id : Text
  pub role : ApiKeyRole
  pub iat : ℤ
  pub exp : ℤ

pub record JwtAuthConfig : Type 0 where
  pub signing_key : Text
  pub previous_signing_keys : List Text
  pub issuer : Text
  pub access_token_ttl_seconds : ℕ
  pub clock_skew_seconds : ℕ

-- The two messages of the UnauthorizedError that the file throws.
pub data TokenError : Type 0 where
  invalid_access_token access_token_expired : TokenError

pub data Verified : Type 0 where
  ok : AuthContext → Verified
  err : TokenError → Verified

-- What a call of `verifyAccessToken` does: its result, and the call of
-- `onPreviousSigningKeyUsed`, which comes before the clock is looked at.
pub record Verification : Type 0 where
  pub result : Verified
  pub previous_signing_key_index : Option ℕ

abbrev pub jwt_header : Json
jwt_header =
    obj (field (codes "alg") (str (codes "HS256")) (field (codes "typ") (str (codes "JWT")) end))

-- A value is the text `t`, by `===`.
abbrev is_text : Text → Option Json → Bool
is_text t none = false
is_text t (some (str s)) = text_eq s t
is_text t (some _) = false

-- findIndex
unfoldable pub find_index : (Text → Bool) → List Text → Option ℕ
find_index p [] = none
find_index p (k ∷ ks) =
    if p k then some 0 else elim (find_index p ks) [ none ↦ none | some i ↦ some (i + 1) ]

-- The value, if `typeof` calls it a string, or a number.
unfoldable pub as_text : Option Json → Option Text
as_text (some (str s)) = some s
as_text _ = none

unfoldable pub as_number : Option Json → Option ℤ
as_number (some (num n)) = some n
as_number _ = none

infixl 5 ◌>>=◌
abbrev pub ◌>>=◌ {ℓ κ} : {A : Type ℓ} {B : Type κ} → Option A → (A → Option B) → Option B
none >>= k = none
some a >>= k = k a

module _ (platform : Platform) where
  open platform use {encode, decode, sign, role_name}

  -- The property `role` of a payload, as a role.
  unfoldable pub read_role : Text → Option ApiKeyRole
  read_role t =
      if text_eq t (role_name admin)
      then some admin
      else if text_eq t (role_name service)
      then some service
      else none

  pub has_valid_signature : Text → Text → Text → Bool
  has_valid_signature encoded_signature signing_input verification_key =
      text_eq encoded_signature (sign signing_input verification_key)

  abbrev pub payload_json : JwtPayload → Json
  payload_json p = obj (
      field (codes "iss") (str p.iss) (
        field (codes "sub") (str p.sub) (
          field (codes "tenant_id") (str p.tenant_id) (
            field (codes "role") (str (role_name p.role))
              (field (codes "iat") (num p.iat) (field (codes "exp") (num p.exp) end))))))

  -- `none` is the thrown UnauthorizedError. A value that is no object has no properties.
  unfoldable pub assert_payload : Json → Text → Option JwtPayload
  assert_payload value expected_issuer = do
    iss ← as_text (property (codes "iss") value)
    sub ← as_text (property (codes "sub") value)
    tenant_id ← as_text (property (codes "tenant_id") value)
    role_text ← as_text (property (codes "role") value)
    role ← read_role role_text
    iat ← as_number (property (codes "iat") value)
    exp ← as_number (property (codes "exp") value)
    if not (text_eq iss expected_issuer) || leb_ℤ exp iat
        then none
        else some (record {
          iss = iss;
          sub = sub;
          tenant_id = tenant_id;
          role = role;
          iat = iat;
          exp = exp;
        })

  unfoldable pub issue_access_token : AuthContext → JwtAuthConfig → ℕ → Text
  issue_access_token context config now =
      let iat = now / 1000 in
      let exp = iat + config.access_token_ttl_seconds in
      let payload : JwtPayload = record {
        iss = config.issuer;
        sub = context.api_key_id;
        tenant_id = context.tenant_id;
        role = context.role;
        iat = pos iat;
        exp = pos exp;
      } in
      let signing_input = encode jwt_header ++ b'.' ∷ encode (payload_json payload) in
      signing_input ++ b'.' ∷ sign signing_input config.signing_key

  abbrev refused : Verification
  refused = record { result = err invalid_access_token; previous_signing_key_index = none }

  -- The checks of the clock, the last ones.
  unfoldable pub check_times : JwtPayload → JwtAuthConfig → ℕ → Verified
  check_times payload config now =
      let now_unix = pos (now / 1000) in
      let skew = pos config.clock_skew_seconds in
      if ltb_ℤ (now_unix +ℤ skew) payload.iat
      then err invalid_access_token
      else if leb_ℤ payload.exp (now_unix -ℤ skew)
      then err access_token_expired
      else ok
          (record { api_key_id = payload.sub; tenant_id = payload.tenant_id; role = payload.role })

  -- The signature check and what follows it.
  unfoldable pub check_signature : Text → Text → JwtPayload → JwtAuthConfig → ℕ → Verification
  check_signature signature signing_input payload config now =
      elim (find_index (has_valid_signature signature signing_input)
        (config.signing_key ∷ config.previous_signing_keys)) [
          | none ↦ refused
          | some index ↦ record {
            result = check_times payload config now;
            previous_signing_key_index = if ltb 0 index then some (index - 1) else none;
          }
        ]

  -- The algorithm and the type that a header must name.
  abbrev check_header : Json → Bool
  check_header header =
      is_text (codes "HS256") (property (codes "alg") header)
      && is_text (codes "JWT") (property (codes "typ") header)

  -- From the decoded header and payload on.
  unfoldable pub verify_decoded :
      Option Json → Option Json → Text → Text → JwtAuthConfig → ℕ → Verification
  unfolding property
  verify_decoded (some header) (some value) signature signing_input config now =
      if check_header header
      then elim (assert_payload value config.issuer) [
        | none ↦ refused
        | some payload ↦ check_signature signature signing_input payload config now
      ]
      else refused
  verify_decoded _ _ signature signing_input config now = refused

  -- From the three parts of a token on; an empty part is refused.
  unfoldable pub verify_parts : Text → Text → Text → JwtAuthConfig → ℕ → Verification
  unfolding verify_decoded
  verify_parts (a ∷ header) (b ∷ payload) (c ∷ signature) config now =
      verify_decoded (decode (a ∷ header)) (decode (b ∷ payload)) (c ∷ signature)
        ((a ∷ header) ++ b'.' ∷ b ∷ payload) config now
  verify_parts _ _ _ config now = refused

  verify_split : List Text → JwtAuthConfig → ℕ → Verification
  verify_split (header ∷ payload ∷ signature ∷ []) config now =
      verify_parts header payload signature config now
  verify_split _ config now = refused

  unfoldable pub verify_access_token : Text → JwtAuthConfig → ℕ → Verification
  unfolding verify_split verify_parts
  verify_access_token token config now = verify_split (split_on b'.' token) config now
