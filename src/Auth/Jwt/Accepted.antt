-- ===== src/Auth/Jwt/Accepted.antt =====
-- What verification has established about a token that it accepts.
use lux_ledger_demo.Common.{
  ℕ, ◌+◌, ◌/◌, ◌≡◌, refl, ap, ◌∙◌, true, Option, none, some, List, [], ◌∷◌, ◌++◌, append_assoc,
  arith, Text, text_eq_iff, split_on, join_with, sym, join_with-split_on, inl, inr, Option-cases,
  codes,
}
use lux_ledger_demo.Common.Int.{ℤ, pos, ◌+ℤ◌, ◌-ℤ◌, ◌≤ℤ◌}
use lux_ledger_demo.Common.Json.{Json, str, num, obj, arr, null, bool, property}
use lux_ledger_demo.Auth.Jwt.{
  Platform, ApiKeyRole, admin, service, AuthContext, JwtPayload, JwtAuthConfig, ok, is_text,
  find_index, read_role, has_valid_signature, as_text, as_number, assert_payload, check_times,
  check_signature, verify_decoded, verify_parts, verify_split, verify_access_token,
}
use lux_ledger_demo.Auth.Jwt.Keys.{IsListed, find_index_sound, IsListed-of_get_elem?}

module _ (platform : Platform) where
  open platform use {decode, sign, role_name}

  -- The payload's properties are those of the accepted context, and the clock allows it.
  pub record IsCurrent (value : Json) (config : JwtAuthConfig) (now : ℕ) (context : AuthContext)
      : Type 0 where
    pub iat : ℤ
    pub exp : ℤ
    pub iss_is : property (codes "iss") value ≡ some (str config.issuer)
    pub sub_is : property (codes "sub") value ≡ some (str context.api_key_id)
    pub tenant_is : property (codes "tenant_id") value ≡ some (str context.tenant_id)
    pub role_is : property (codes "role") value ≡ some (str (role_name context.role))
    pub iat_is : property (codes "iat") value ≡ some (num iat)
    pub exp_is : property (codes "exp") value ≡ some (num exp)
    pub iat_before_exp : ¬ (exp ≤ℤ iat)
    pub begun : iat ≤ℤ pos (now / 1000 + config.clock_skew_seconds)
    pub unexpired : ¬ (exp +ℤ pos config.clock_skew_seconds ≤ℤ pos (now / 1000))

  pub record IsAccepted (token : Text) (config : JwtAuthConfig) (now : ℕ) (context : AuthContext)
      : Type 0 where
    pub header : Text
    pub payload : Text
    pub key : Text
    pub header_value : Json
    pub value : Json
    -- the header, the payload and the signature, joined by dots
    pub shape : token ≡ header ++ b'.' ∷ payload ++ b'.' ∷ sign (header ++ b'.' ∷ payload) key
    pub key_listed : IsListed key (config.signing_key ∷ config.previous_signing_keys)
    pub header_decoded : decode header ≡ some header_value
    pub payload_decoded : decode payload ≡ some value
    pub alg_is : property (codes "alg") header_value ≡ some (str (codes "HS256"))
    pub typ_is : property (codes "typ") header_value ≡ some (str (codes "JWT"))
    pub current : IsCurrent value config now context

  is_text_sound : (t : Text) (v : Option Json) → is_text t v ≡ true → v ≡ some (str t)
  is_text_sound t none h = cc
  is_text_sound t (some (str s)) h = ground (arith, text_eq_iff s t)
  is_text_sound t (some null) h = cc
  is_text_sound t (some (bool b)) h = cc
  is_text_sound t (some (num n)) h = cc
  is_text_sound t (some (arr xs)) h = cc
  is_text_sound t (some (obj fs)) h = cc

  read_role_sound : (t : Text) (r : ApiKeyRole) → read_role platform t ≡ some r → t ≡ role_name r
  unfolding read_role
  read_role_sound t r h =
      ground (arith, text_eq_iff t (role_name admin), text_eq_iff t (role_name service))

  as_text_sound : (v : Option Json) (t : Text) → as_text v ≡ some t → v ≡ some (str t)
  unfolding as_text
  as_text_sound none t h = cc
  as_text_sound (some (str s)) t h = ground arith
  as_text_sound (some null) t h = cc
  as_text_sound (some (bool b)) t h = cc
  as_text_sound (some (num n)) t h = cc
  as_text_sound (some (arr xs)) t h = cc
  as_text_sound (some (obj fs)) t h = cc

  as_number_sound : (v : Option Json) (n : ℤ) → as_number v ≡ some n → v ≡ some (num n)
  unfolding as_number
  as_number_sound none t h = cc
  as_number_sound (some (num m)) n h = ground arith
  as_number_sound (some null) t h = cc
  as_number_sound (some (bool b)) t h = cc
  as_number_sound (some (str s)) t h = cc
  as_number_sound (some (arr xs)) t h = cc
  as_number_sound (some (obj fs)) t h = cc

  -- What `assertPayload` has read.
  assert_payload_sound :
      (value : Json) (issuer : Text) (p : JwtPayload)
      → assert_payload platform value issuer ≡ some p
      → (property (codes "iss") value ≡ some (str issuer))
        × (property (codes "sub") value ≡ some (str p.sub))
        × (property (codes "tenant_id") value ≡ some (str p.tenant_id))
        × (property (codes "role") value ≡ some (str (role_name p.role)))
        × (property (codes "iat") value ≡ some (num p.iat))
        × (property (codes "exp") value ≡ some (num p.exp))
        × ¬ (p.exp ≤ℤ p.iat)
  unfolding assert_payload
  assert_payload_sound value issuer p h =
      elim (Option-cases (as_text (property (codes "role") value))) [
        | inl missing ↦ ground arith
        | inr (role_text, found) ↦ ground (
          arith,
          as_text_sound (property (codes "iss") value) issuer,
          as_text_sound (property (codes "sub") value) p.sub,
          as_text_sound (property (codes "tenant_id") value) p.tenant_id,
          as_text_sound (property (codes "role") value) role_text found,
          as_number_sound (property (codes "iat") value) p.iat,
          as_number_sound (property (codes "exp") value) p.exp,
          read_role_sound role_text p.role,
          text_eq_iff p.iss issuer,
        )
      ]

  module _ (config : JwtAuthConfig) (now : ℕ) (context : AuthContext) where
    check_times_sound :
        (p : JwtPayload)
        → check_times platform p config now ≡ ok context
        → (p.iat ≤ℤ pos (now / 1000 + config.clock_skew_seconds))
          × ¬ (p.exp +ℤ pos config.clock_skew_seconds ≤ℤ pos (now / 1000))
          × (p.sub ≡ context.api_key_id)
          × (p.tenant_id ≡ context.tenant_id)
          × (p.role ≡ context.role)
    unfolding check_times ◌+ℤ◌ ◌-ℤ◌
    check_times_sound p h = ground arith

    IsCurrent-of_payload :
        (value : Json) (p : JwtPayload)
        → assert_payload platform value config.issuer ≡ some p
        → check_times platform p config now ≡ ok context
        → IsCurrent value config now context
    IsCurrent-of_payload value p read timely =
        let (iss, sub, tenant, role, iat, exp, before) =
          assert_payload_sound value config.issuer p read in
        let (begun, unexpired, same_sub, same_tenant, same_role) = check_times_sound p timely in
        record {
          iat = p.iat;
          exp = p.exp;
          iss_is = iss;
          sub_is = rw same_sub at sub;
          tenant_is = rw same_tenant at tenant;
          role_is = rw same_role at role;
          iat_is = iat;
          exp_is = exp;
          iat_before_exp = before;
          begun = begun;
          unexpired = unexpired;
        }

    check_signature_sound :
        (signature input : Text) (p : JwtPayload)
        → (check_signature platform signature input p config now).result ≡ ok context
        → (key : Text) × IsListed key (config.signing_key ∷ config.previous_signing_keys)
          × (signature ≡ sign input key)
          × (check_times platform p config now ≡ ok context)
    unfolding check_signature has_valid_signature
    check_signature_sound signature input p h =
        let keys = config.signing_key ∷ config.previous_signing_keys in
        elim (Option-cases (find_index (has_valid_signature platform signature input) keys)) [
          | inl missing ↦ ground arith
          | inr (i, found) ↦
              let (key, at_i, hit) =
                find_index_sound (has_valid_signature platform signature input) keys i found in
              (key, IsListed-of_get_elem? keys i key at_i, (text_eq_iff _ _).0 hit, ground arith)
        ]

    verify_decoded_sound :
        (hv vv : Option Json) (signature input : Text)
        → (verify_decoded platform hv vv signature input config now).result ≡ ok context
        → (header value : Json) × (p : JwtPayload) × (hv ≡ some header)
          × (vv ≡ some value)
          × (property (codes "alg") header ≡ some (str (codes "HS256")))
          × (property (codes "typ") header ≡ some (str (codes "JWT")))
          × (assert_payload platform value config.issuer ≡ some p)
          × ((check_signature platform signature input p config now).result ≡ ok context)
    unfolding verify_decoded
    verify_decoded_sound none vv signature input h = cc
    verify_decoded_sound (some header) none signature input h = cc
    verify_decoded_sound (some header) (some value) signature input h =
        elim (Option-cases (assert_payload platform value config.issuer)) [
          | inl missing ↦ ground arith
          | inr (p, read) ↦ (
            header,
            value,
            p,
            refl,
            refl,
            ground (arith, is_text_sound (codes "HS256") (property (codes "alg") header)),
            ground (arith, is_text_sound (codes "JWT") (property (codes "typ") header)),
            read,
            ground arith,
          )
        ]

    verify_parts_sound :
        (h p s : Text)
        → (verify_parts platform h p s config now).result ≡ ok context
        → (verify_decoded platform (decode h) (decode p) s (h ++ b'.' ∷ p) config now).result
          ≡ ok context
    unfolding verify_parts
    verify_parts_sound [] p s e = cc
    verify_parts_sound (a ∷ h) [] s e = cc
    verify_parts_sound (a ∷ h) (b ∷ p) [] e = cc
    verify_parts_sound (a ∷ h) (b ∷ p) (c ∷ s) e = e

    verify_split_sound :
        (ws : List Text)
        → (verify_split platform ws config now).result ≡ ok context
        → (h p s : Text) × (ws ≡ h ∷ p ∷ s ∷ [])
          × ((verify_parts platform h p s config now).result ≡ ok context)
    unfolding verify_split
    verify_split_sound [] e = cc
    verify_split_sound (h ∷ []) e = cc
    verify_split_sound (h ∷ p ∷ []) e = cc
    verify_split_sound (h ∷ p ∷ s ∷ []) e = (h, p, s, refl, e)
    verify_split_sound (h ∷ p ∷ s ∷ t ∷ ws) e = cc

    -- A token that verification accepts is a header and a payload with a signature, over just
    -- these two, by the current or a previous key; the header names HS256 and JWT, the payload
    -- has the configured issuer and the context's key, tenant and role, a time of issue before
    -- its time of expiry, and the clock, with the skew, lies between the two.
    pub verify-IsAccepted :
        (token : Text)
        → (verify_access_token platform token config now).result ≡ ok context
        → IsAccepted token config now context
    unfolding verify_access_token
    verify-IsAccepted token e =
        let (h, p, s, parts, e1) = verify_split_sound (split_on b'.' token) e in
        let (header, value, payload, hd, pd, alg, typ, read, e2) =
          verify_decoded_sound (decode h) (decode p) s (h ++ b'.' ∷ p)
            (verify_parts_sound h p s e1) in
        let (key, listed, signed, timely) = check_signature_sound s (h ++ b'.' ∷ p) payload e2 in
        record {
          header = h;
          payload = p;
          key = key;
          header_value = header;
          value = value;
          shape =
              rw (← signed, append_assoc h (b'.' ∷ p) (b'.' ∷ s))
                (sym (join_with-split_on b'.' token) ∙ ap (join_with b'.') parts);
          key_listed = listed;
          header_decoded = hd;
          payload_decoded = pd;
          alg_is = alg;
          typ_is = typ;
          current = IsCurrent-of_payload value payload read timely;
        }
