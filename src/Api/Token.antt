-- ===== src/Api/Token.antt =====
-- The token endpoint of apps/api/src/api/server.ts.
pub mod Opens
use lux_ledger_demo.Common.{ℕ, Text, codes}
use lux_ledger_demo.Auth.Jwt.{Platform, AuthContext, JwtAuthConfig, issue_access_token}

-- `AuthTokenResponse` of the contracts package.
pub record AuthTokenResponse : Type 0 where
  pub access_token : Text
  pub token_type : Text
  pub expires_in : ℕ

-- The handler of the endpoint, with the credentials that the hooks put in the request.
unfoldable pub token_handler : Platform → JwtAuthConfig → AuthContext → ℕ → AuthTokenResponse
token_handler platform jwt_auth auth now = record {
  access_token = issue_access_token platform auth jwt_auth now;
  token_type = codes "Bearer";
  expires_in = jwt_auth.access_token_ttl_seconds;
}
