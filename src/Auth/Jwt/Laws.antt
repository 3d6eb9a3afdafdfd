-- ===== src/Auth/Jwt/Laws.antt =====
-- The documented behaviour of the platform that tokens rely on.
use lux_ledger_demo.Common.{◌<◌, ◌≡◌, ◌≢◌, some, [], Text, Lacks, HasNoSpace}
use lux_ledger_demo.Common.Int.{ℤ, pos_part, neg_part}
use lux_ledger_demo.Common.Json.{Json}
use lux_ledger_demo.Auth.Jwt.{Platform, admin, service, JwtPayload, jwt_header, payload_json}

-- An integer that a JavaScript number holds exactly.
abbrev pub IsSafeInteger : ℤ → Type 0
IsSafeInteger n = (pos_part n < 9007199254740992) × (neg_part n < 9007199254740992)

pub record IsPlatform (platform : Platform) : Type 0 where
  -- JSON text read back, at the two shapes of value that a token holds
  pub decode-encode_header : platform.decode (platform.encode jwt_header) ≡ some jwt_header
  pub decode-encode_payload :
      (p : JwtPayload)
      → IsSafeInteger p.iat
      → IsSafeInteger p.exp
      → platform.decode (platform.encode (payload_json platform p)) ≡ some (payload_json platform p)
  -- base64url has no dot and no white space, and nothing here has an empty encoding
  pub encode-Lacks : (v : Json) → Lacks b'.' (platform.encode v)
  pub encode-ne-nil : (v : Json) → platform.encode v ≢ []
  pub encode-HasNoSpace : (v : Json) → HasNoSpace (platform.encode v)
  pub sign-HasNoSpace : (input key : Text) → HasNoSpace (platform.sign input key)
  pub sign-Lacks : (input key : Text) → Lacks b'.' (platform.sign input key)
  pub sign-ne-nil : (input key : Text) → platform.sign input key ≢ []
  pub role_name-ne : platform.role_name admin ≢ platform.role_name service
