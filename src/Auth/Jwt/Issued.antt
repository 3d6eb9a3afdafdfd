-- ===== src/Auth/Jwt/Issued.antt =====
-- What verification makes of a token that `issueAccessToken` wrote.
use lux_ledger_demo.Common.{
  ℕ, ◌+◌, ◌-◌, ◌/◌, ◌<◌, ltb, leb, leb-false, ◌≡◌, refl, ◌≢◌, false, none, some, [], ◌∷◌, ◌++◌,
  append_assoc, arith, Text, text_eq, text_eq_refl, text_eq_iff, split_on, split_on-append,
  split_on_of_Lacks, if◌then◌else◌, get_elem?, sym,
}
use lux_ledger_demo.Common.Int.{pos, ◌+ℤ◌, ◌-ℤ◌}
use lux_ledger_demo.Common.Json.{property}
use lux_ledger_demo.Auth.Jwt.{
  Platform, ApiKeyRole, admin, service, AuthContext, JwtPayload, JwtAuthConfig, Verified, ok, err,
  invalid_access_token, access_token_expired, jwt_header, payload_json, find_index, read_role,
  as_text, as_number, has_valid_signature, assert_payload, issue_access_token, check_times,
  check_signature, verify_decoded, verify_parts, verify_split, verify_access_token,
}
use lux_ledger_demo.Auth.Jwt.Laws.{IsPlatform}
use lux_ledger_demo.Auth.Jwt.Keys.{IsListed, find_index_of_IsListed, find_index_sound}

miss_current : (s t : Text) → s ≢ t → text_eq s t ≡ false
miss_current s t h = ground (arith, text_eq_iff s t)

ttl_above :
    (t : ℕ) (config : JwtAuthConfig)
    → 0 < config.access_token_ttl_seconds
    → t / 1000 + 0 < t / 1000 + config.access_token_ttl_seconds + 0
ttl_above t config h = omega arith

module _ (platform : Platform) (laws : IsPlatform platform) where
  open platform use {encode, decode, sign, role_name}

  read_role-role_name : (r : ApiKeyRole) → read_role platform (role_name r) ≡ some r
  unfolding read_role
  read_role-role_name admin = rw (text_eq_refl (role_name admin))
  read_role-role_name service = ground (
    arith,
    laws.role_name-ne,
    text_eq_iff (role_name service) (role_name admin),
    text_eq_refl (role_name service),
  )

  -- The payload of an issued token.
  abbrev pub issued_payload : AuthContext → JwtAuthConfig → ℕ → JwtPayload
  issued_payload context config now = record {
    iss = config.issuer;
    sub = context.api_key_id;
    tenant_id = context.tenant_id;
    role = context.role;
    iat = pos (now / 1000);
    exp = pos (now / 1000 + config.access_token_ttl_seconds);
  }

  abbrev pub signing_input : AuthContext → JwtAuthConfig → ℕ → Text
  signing_input context config now =
      encode jwt_header ++ b'.' ∷ encode (payload_json platform (issued_payload context config now))

  split_issued :
      (context : AuthContext) (config : JwtAuthConfig) (now : ℕ)
      → split_on b'.' (issue_access_token platform context config now)
        ≡ encode jwt_header
          ∷ encode (payload_json platform (issued_payload context config now))
          ∷ sign (signing_input context config now) config.signing_key
          ∷ []
  unfolding issue_access_token
  split_issued context config now =
      let p = payload_json platform (issued_payload context config now) in
      let s = sign (signing_input context config now) config.signing_key in
      rw (
        append_assoc (encode jwt_header) (b'.' ∷ encode p) (b'.' ∷ s),
        split_on-append b'.' (encode jwt_header) (encode p ++ b'.' ∷ s) (laws.encode-Lacks _),
        split_on-append b'.' (encode p) s (laws.encode-Lacks p),
        split_on_of_Lacks b'.' s (laws.sign-Lacks _ _),
      )

  verify_parts_of_ne_nil :
      (header payload signature : Text) (config : JwtAuthConfig) (now : ℕ)
      → header ≢ []
      → payload ≢ []
      → signature ≢ []
      → verify_parts platform header payload signature config now
        ≡ verify_decoded platform
            (decode header)
            (decode payload)
            signature
            (header ++ b'.' ∷ payload)
            config
            now
  unfolding verify_parts
  verify_parts_of_ne_nil [] p s config now h k l = absurd (h refl)
  verify_parts_of_ne_nil (a ∷ h') [] s config now h k l = absurd (k refl)
  verify_parts_of_ne_nil (a ∷ h') (b ∷ p) [] config now h k l = absurd (l refl)
  verify_parts_of_ne_nil (a ∷ h') (b ∷ p) (c ∷ s) config now h k l = refl

  assert_payload_issued :
      (context : AuthContext) (config : JwtAuthConfig) (t : ℕ) (issuer : Text)
      → issuer ≡ config.issuer
      → 0 < config.access_token_ttl_seconds
      → assert_payload platform (payload_json platform (issued_payload context config t)) issuer
        ≡ some (issued_payload context config t)
  unfolding assert_payload as_text as_number property text_eq
  assert_payload_issued context config t issuer same h =
      rw (read_role-role_name context.role, assert_payload)
        (rw (same, text_eq_refl config.issuer) (rw (leb-false _ _ (ttl_above t config h))))

  verify_decoded_issued :
      (context : AuthContext) (config later : JwtAuthConfig) (t now : ℕ)
      → later.issuer ≡ config.issuer
      → 0 < config.access_token_ttl_seconds
      → verify_decoded platform
          (some jwt_header)
          (some (payload_json platform (issued_payload context config t)))
          (sign (signing_input context config t) config.signing_key)
          (signing_input context config t)
          later
          now
        ≡ check_signature platform
            (sign (signing_input context config t) config.signing_key)
            (signing_input context config t)
            (issued_payload context config t)
            later
            now
  unfolding verify_decoded text_eq
  verify_decoded_issued context config later t now same pos_ttl =
      rw (assert_payload_issued context config t later.issuer same pos_ttl)

  verify_issued :
      (context : AuthContext) (config later : JwtAuthConfig) (t now : ℕ)
      → later.issuer ≡ config.issuer
      → 0 < config.access_token_ttl_seconds
      → t / 1000 + config.access_token_ttl_seconds < 9007199254740992
      → verify_access_token platform (issue_access_token platform context config t) later now
        ≡ check_signature platform
            (sign (signing_input context config t) config.signing_key)
            (signing_input context config t)
            (issued_payload context config t)
            later
            now
  unfolding verify_access_token verify_split
  verify_issued context config later t now same pos_ttl small =
      let p = payload_json platform (issued_payload context config t) in
      let s = sign (signing_input context config t) config.signing_key in
      rw
        (
          split_issued context config t,
          verify_parts_of_ne_nil (encode jwt_header) (encode p) s later now
              (laws.encode-ne-nil jwt_header) (laws.encode-ne-nil p) (laws.sign-ne-nil _ _),
          laws.decode-encode_header,
          laws.decode-encode_payload (issued_payload context config t) (omega arith) (omega arith),
        )
        (verify_decoded_issued context config later t now same pos_ttl)

  check_signature_at :
      (signature input : Text) (payload : JwtPayload) (config : JwtAuthConfig) (now i : ℕ)
      → find_index
          (has_valid_signature platform signature input)
          (config.signing_key ∷ config.previous_signing_keys)
        ≡ some i
      → check_signature platform signature input payload config now ≡ record {
        result = check_times platform payload config now;
        previous_signing_key_index = if ltb 0 i then some (i - 1) else none;
      }
  unfolding check_signature
  check_signature_at signature input payload config now i e = rw (e, check_signature)

  -- What the clock decides about an issued token.
  abbrev pub times_outcome : AuthContext → JwtAuthConfig → JwtAuthConfig → ℕ → ℕ → Verified
  times_outcome context config later t now =
      if ltb (now / 1000 + later.clock_skew_seconds) (t / 1000)
      then err invalid_access_token
      else if leb (t / 1000 + config.access_token_ttl_seconds + later.clock_skew_seconds)
          (now / 1000)
      then err access_token_expired
      else ok context

  check_times_issued :
      (context : AuthContext) (config later : JwtAuthConfig) (t now : ℕ)
      → check_times platform (issued_payload context config t) later now
        ≡ times_outcome context config later t now
  unfolding check_times ◌+ℤ◌ ◌-ℤ◌
  check_times_issued context config later t now = ground arith

  -- Let a token be issued at the time `t` under one configuration and checked at the time `now`
  -- under another one with the same issuer, among whose current and previous keys the issuing key
  -- is. With a lifetime above zero that stays in the exact numbers, the check gives back exactly
  -- the context of the token, unless the token is from more than the clock skew in the future
  -- (invalid) or ended at least the clock skew ago (expired).
  pub issue-verify :
      (context : AuthContext) (config later : JwtAuthConfig) (t now : ℕ)
      → later.issuer ≡ config.issuer
      → IsListed config.signing_key (later.signing_key ∷ later.previous_signing_keys)
      → 0 < config.access_token_ttl_seconds
      → t / 1000 + config.access_token_ttl_seconds < 9007199254740992
      → (verify_access_token platform
          (issue_access_token platform context config t)
          later
          now).result
        ≡ times_outcome context config later t now
  unfolding has_valid_signature
  issue-verify context config later t now same listed ttl small =
      let input = signing_input context config t in
      let signature = sign input config.signing_key in
      let (i, found) =
        find_index_of_IsListed (has_valid_signature platform signature input) config.signing_key
          (later.signing_key ∷ later.previous_signing_keys) (text_eq_refl signature) listed in
      rw
        (
          verify_issued context config later t now same ttl small,
          check_signature_at signature input (issued_payload context config t) later now i found,
        )
        (check_times_issued context config later t now)

  -- Let an issued token be checked under a configuration whose current key signs it otherwise,
  -- and let the issuing key be among the previous keys. Then the call back names the index of a
  -- previous key that signs the token as the issuing key does, whatever the clock says.
  pub rotation_reported :
      (context : AuthContext) (config later : JwtAuthConfig) (t now : ℕ)
      → later.issuer ≡ config.issuer
      → IsListed config.signing_key later.previous_signing_keys
      → sign (signing_input context config t) config.signing_key
        ≢ sign (signing_input context config t) later.signing_key
      → 0 < config.access_token_ttl_seconds
      → t / 1000 + config.access_token_ttl_seconds < 9007199254740992
      → (i : ℕ) × (key : Text) × ((verify_access_token platform
            (issue_access_token platform context config t)
            later
            now).previous_signing_key_index
          ≡ some i)
        × (get_elem? later.previous_signing_keys i ≡ some key)
        × (sign (signing_input context config t) key
            ≡ sign (signing_input context config t) config.signing_key)
  unfolding has_valid_signature find_index
  rotation_reported context config later t now same listed ne ttl small =
      let input = signing_input context config t in
      let signature = sign input config.signing_key in
      let (i, found) =
        find_index_of_IsListed (has_valid_signature platform signature input) config.signing_key
          later.previous_signing_keys (text_eq_refl signature) listed in
      let (key, at_i, hit) =
        find_index_sound (has_valid_signature platform signature input) later.previous_signing_keys
          i found in
      (
        i,
        key,
        rw
            (
              verify_issued context config later t now same ttl small,
              check_signature_at signature input (issued_payload context config t) later now (i + 1)
                  (rw (miss_current signature (sign input later.signing_key) ne, found)),
            )
            (ground arith),
        at_i,
        sym ((text_eq_iff _ _).0 hit),
      )
