-- ===== src/Auth/Policy.antt =====
-- The settings of access tokens, apps/api/src/api/auth/policy.ts.
pub mod Sound
mod Tests
use lux_ledger_demo.Common.{
  is_empty, ℕ, ltb, Bool, true, false, not, ◌||◌, Option, none, some, List, [], ◌∷◌, map, length,
  Text, text_eq, codes, trim, split_on, every, any, if◌then◌else◌,
}
use lux_ledger_demo.Common.Int.{ℤ, pos, pos_part}
use lux_ledger_demo.Config.{
  ConfigError, missing, weak_key, out_of_range, empty_entries, includes_signing_key, duplicate_keys,
  Read, read, failed, ◌>>=◌, ProcessEnv, parse_integer_within_range,
}
use lux_ledger_demo.Auth.Base64url.{is_base64url, encode_bytes, decode_bytes}
use lux_ledger_demo.Auth.Jwt.{JwtAuthConfig}

abbrev pub min_jwt_signing_key_bytes : ℕ
min_jwt_signing_key_bytes = 32

abbrev pub default_jwt_issuer : Text
default_jwt_issuer = codes "luxledger-api"

unfoldable pub require_non_empty_env : Option Text → Text → Read Text
require_non_empty_env none name = failed (missing name)
require_non_empty_env (some value) name = elim (trim value) [
  | [] ↦ failed (missing name)
  | c ∷ t ↦ read (c ∷ t)
]

-- JWT_SIGNING_KEY_PATTERN
abbrev pub matches_key_pattern : Text → Bool
matches_key_pattern [] = false
matches_key_pattern (c ∷ t) = every is_base64url (c ∷ t)

unfoldable pub parse_jwt_signing_key : Text → Text → Read Text
parse_jwt_signing_key value name =
    let decoded_value = decode_bytes value in
    if not (matches_key_pattern value)
    then failed (weak_key name)
    else if not (text_eq (encode_bytes decoded_value) value)
        || ltb (length decoded_value) min_jwt_signing_key_bytes
    then failed (weak_key name)
    else read value

-- The loop over the entries, with the keys found so far, the latest first.
unfoldable pub collect_keys : List Text → Text → List Text → Read (List Text)
collect_keys [] signing_key unique_keys = read []
collect_keys (key ∷ keys) signing_key unique_keys =
    let rest = collect_keys keys signing_key (key ∷ unique_keys) in
    elim (parse_jwt_signing_key key (codes "JWT_PREVIOUS_SIGNING_KEYS")) [
      | failed e ↦ failed e
      | read parsed_key ↦
          if text_eq parsed_key signing_key
          then failed includes_signing_key
          else if any (text_eq parsed_key) unique_keys
          then failed duplicate_keys
          else elim rest [ read found ↦ read (parsed_key ∷ found) | failed e ↦ failed e ]
    ]

unfoldable pub parse_jwt_previous_signing_keys : Option Text → Text → Read (List Text)
parse_jwt_previous_signing_keys none signing_key = read []
parse_jwt_previous_signing_keys (some value) signing_key =
    let keys = map trim (split_on b',' value) in
    if is_empty (trim value)
    then read []
    else if any is_empty keys
    then failed empty_entries
    else collect_keys keys signing_key []

-- env.JWT_ISSUER?.trim() || DEFAULT_JWT_ISSUER
unfoldable pub read_issuer : Option Text → Text
read_issuer none = default_jwt_issuer
read_issuer (some value) = elim (trim value) [ [] ↦ default_jwt_issuer | c ∷ t ↦ c ∷ t ]

module _ (to_integer : Text → Option ℤ) where
  abbrev pub parse_jwt_access_ttl_seconds : Option Text → Read ℤ
  parse_jwt_access_ttl_seconds value = parse_integer_within_range to_integer value (record {
    default_value = pos 900;
    min_value = some (pos 300);
    max_value = some (pos 900);
    error = out_of_range (codes "JWT_ACCESS_TTL_SECONDS");
  })

  abbrev pub parse_jwt_clock_skew_seconds : Option Text → Read ℤ
  parse_jwt_clock_skew_seconds value = parse_integer_within_range to_integer value (record {
    default_value = pos 5;
    min_value = some (pos 0);
    max_value = some (pos 60);
    error = out_of_range (codes "JWT_CLOCK_SKEW_SECONDS");
  })

  -- Both numbers are at least 0, so that `pos_part` keeps them.
  unfoldable pub parse_jwt_auth_config : ProcessEnv → Read JwtAuthConfig
  parse_jwt_auth_config env = do
    given ← require_non_empty_env (env (codes "JWT_SIGNING_KEY")) (codes "JWT_SIGNING_KEY")
    signing_key ← parse_jwt_signing_key given (codes "JWT_SIGNING_KEY")
    previous_signing_keys ←
        parse_jwt_previous_signing_keys (env (codes "JWT_PREVIOUS_SIGNING_KEYS")) signing_key
    ttl ← parse_jwt_access_ttl_seconds (env (codes "JWT_ACCESS_TTL_SECONDS"))
    skew ← parse_jwt_clock_skew_seconds (env (codes "JWT_CLOCK_SKEW_SECONDS"))
    read (record {
      signing_key = signing_key;
      previous_signing_keys = previous_signing_keys;
      issuer = read_issuer (env (codes "JWT_ISSUER"));
      access_token_ttl_seconds = pos_part ttl;
      clock_skew_seconds = pos_part skew;
    })
