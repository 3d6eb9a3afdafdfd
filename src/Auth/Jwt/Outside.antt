-- ===== src/Auth/Jwt/Outside.antt =====
-- What access tokens take from outside the repository.
use lux_ledger_demo.Common.{Option, Text}
use lux_ledger_demo.Common.Json.{Json}

-- `ApiKeyRole` of the core package; the program names these two.
pub data ApiKeyRole : Type 0 where
  admin service : ApiKeyRole

-- `AuthContext` of the core package.
pub record AuthContext : Type 0 where
  pub api_key_id : Text
  pub tenant_id : Text
  pub role : ApiKeyRole

pub record Platform : Type 0 where
  -- Buffer.from(JSON.stringify(v), 'utf8').toString('base64url')
  pub encode : Json → Text
  -- JSON.parse(Buffer.from(t, 'base64url').toString('utf8')), `none` where it throws
  pub decode : Text → Option Json
  -- createHmac('sha256', key).update(input, 'utf8').digest('base64url')
  pub sign : Text → Text → Text
  -- the strings that stand for the roles
  pub role_name : ApiKeyRole → Text
