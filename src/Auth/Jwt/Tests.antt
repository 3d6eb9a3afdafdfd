-- ===== src/Auth/Jwt/Tests.antt =====
-- Tokens of the sample platform.
use lux_ledger_demo.Common.{◌≡◌, refl, [], ◌∷◌, arith, Text, codes, inl, inr}
use lux_ledger_demo.Auth.Jwt.{
  admin, AuthContext, JwtAuthConfig, ok, err, access_token_expired, issue_access_token,
  verify_access_token,
}
use lux_ledger_demo.Auth.Jwt.Sample.{sample, sample-IsPlatform}
use lux_ledger_demo.Auth.Jwt.Issued.{issue-verify}
use lux_ledger_demo.Auth.Jwt.Accepted.{IsAccepted, verify-IsAccepted}

abbrev key_holder : AuthContext
key_holder = record { api_key_id = codes "k1"; tenant_id = codes "t1"; role = admin }

abbrev before_rotation : JwtAuthConfig
before_rotation = record {
  signing_key = codes "a";
  previous_signing_keys = [];
  issuer = codes "lux";
  access_token_ttl_seconds = 900;
  clock_skew_seconds = 5;
}

abbrev after_rotation : JwtAuthConfig
after_rotation = record before_rotation {
  signing_key = codes "b";
  previous_signing_keys = codes "c" ∷ codes "a" ∷ [];
}

abbrev token : Text
token = issue_access_token sample key_holder before_rotation 1000000

issue-verify_example :
    (verify_access_token sample token after_rotation 1500000).result ≡ ok key_holder
issue-verify_example =
    issue-verify sample sample-IsPlatform key_holder before_rotation after_rotation 1000000 1500000
      refl (inr (inr (inl refl))) (omega arith) (omega arith)

issue-verify_expired :
    (verify_access_token sample token after_rotation 1905000).result ≡ err access_token_expired
issue-verify_expired =
    issue-verify sample sample-IsPlatform key_holder before_rotation after_rotation 1000000 1905000
      refl (inr (inr (inl refl))) (omega arith) (omega arith)

verify-IsAccepted_example : IsAccepted sample token after_rotation 1500000 key_holder
verify-IsAccepted_example = verify-IsAccepted sample after_rotation 1500000 key_holder token (
    issue-verify sample sample-IsPlatform key_holder before_rotation after_rotation 1000000 1500000
      refl (inr (inr (inl refl))) (omega arith) (omega arith))
