-- ===== src/Auth/Policy/Sound.antt =====
-- What the settings that are accepted hold.
use lux_ledger_demo.Common.{
  is_empty, ℕ, ◌≤◌, ◌<◌, ◌≡◌, refl, sym, ◌∙◌, ◌≢◌, ◌↔◌, true, false, Option, none, some, List, [],
  ◌∷◌, map, length, Text, text_eq, text_eq_iff, text_eq_refl, codes, trim, split_on, every, any,
  All, arith, inl, inr, Bool-cases,
}
use lux_ledger_demo.Common.Int.{ℤ, pos, negsuc, pos_part, ◌≤ℤ◌}
use lux_ledger_demo.Config.{read, Read-cases, out_of_range, ProcessEnv, parse_integer-between}
use lux_ledger_demo.Auth.Base64url.{
  is_base64url, encode_bytes, decode_bytes, AreBytes, decode-encode_bytes, decode_bytes-AreBytes,
  encode_bytes-is_base64url,
}
use lux_ledger_demo.Auth.Jwt.{JwtAuthConfig}
use lux_ledger_demo.Auth.Policy.{
  matches_key_pattern, require_non_empty_env, parse_jwt_signing_key, collect_keys,
  parse_jwt_previous_signing_keys, read_issuer, default_jwt_issuer, parse_jwt_access_ttl_seconds,
  parse_jwt_clock_skew_seconds, parse_jwt_auth_config,
}

-- The key is the base64url text of at least 32 bytes.
abbrev pub IsStrong : Text → Type 0
IsStrong key = (bs : List ℕ) × AreBytes bs × (32 ≤ length bs) × (encode_bytes bs ≡ key)

digits_of_pattern : (t : Text) → matches_key_pattern t ≡ true → every is_base64url t ≡ true
digits_of_pattern [] h = refl
digits_of_pattern (c ∷ t) h = h

key-IsStrong :
    (value name key : Text)
    → parse_jwt_signing_key value name ≡ read key
    → (key ≡ value) × IsStrong key
unfolding parse_jwt_signing_key
key-IsStrong value name key e =
    let bs = decode_bytes value in
    let same : key ≡ value = ground arith in
    let canonical : text_eq (encode_bytes bs) value ≡ true = ground arith in
    let long : 32 ≤ length bs = ground arith in
    let digits = digits_of_pattern value (ground arith) in
    (
      same,
      (
        bs,
        decode_bytes-AreBytes value digits,
        long,
        (text_eq_iff (encode_bytes bs) value).0 canonical ∙ sym same,
      ),
    )

pattern_of_digits : (t : Text) → t ≢ [] → every is_base64url t ≡ true → matches_key_pattern t ≡ true
pattern_of_digits [] n h = absurd (n refl)
pattern_of_digits (c ∷ t) n h = h

encode_bytes-ne-nil : (bs : List ℕ) → 0 < length bs → encode_bytes bs ≢ []
unfolding encode_bytes
encode_bytes-ne-nil [] h e = elim h [ ]
encode_bytes-ne-nil (a ∷ []) h e = cc
encode_bytes-ne-nil (a ∷ b ∷ []) h e = cc
encode_bytes-ne-nil (a ∷ b ∷ c ∷ bs) h e = cc

-- A text is taken as a signing key, and then as it stands, exactly if it is the unpadded
-- base64url text of at least 32 bytes.
pub parse_jwt_signing_key_iff :
    (value name : Text) → (parse_jwt_signing_key value name ≡ read value) ↔ IsStrong value
unfolding parse_jwt_signing_key
parse_jwt_signing_key_iff value name = (forth, back)
  where
    forth : parse_jwt_signing_key value name ≡ read value → IsStrong value
    forth e = (key-IsStrong value name value e).1

    back : IsStrong value → parse_jwt_signing_key value name ≡ read value
    back (bs, h, long, e) =
        let decoded : decode_bytes value ≡ bs = rw (← e) (decode-encode_bytes bs h) in
        let pattern_ : matches_key_pattern value ≡ true = rw (← e) (
          pattern_of_digits (encode_bytes bs) (encode_bytes-ne-nil bs (omega (arith, long)))
            (encode_bytes-is_base64url bs)) in
        let canonical : text_eq (encode_bytes bs) value ≡ true = rw e (text_eq_refl value) in
        ground arith

-- No text stands twice in the list.
abbrev pub AreDistinct : List Text → Type 0
AreDistinct [] = Unit {0}
AreDistinct (k ∷ ks) = All (λ j. j ≢ k) ks × AreDistinct ks

-- A previous key: strong, not the current one, and none of those before it.
abbrev pub IsFresh : Text → List Text → Text → Type 0
IsFresh signing_key before k = IsStrong k × (k ≢ signing_key) × (any (text_eq k) before ≡ false)

text_eq-ne : (s t : Text) → text_eq s t ≡ false → s ≢ t
text_eq-ne s t h e = ground (arith, text_eq_iff s t)

All-IsFresh_tail :
    (signing_key k : Text) (before ks : List Text)
    → All (IsFresh signing_key (k ∷ before)) ks
    → All (IsFresh signing_key before) ks × All (λ j. j ≢ k) ks
All-IsFresh_tail sk k before [] h = (tt, tt)
All-IsFresh_tail sk k before (j ∷ ks) ((strong, other, new), h) =
    let (a, b) = All-IsFresh_tail sk k before ks h in
    (((strong, other, ground arith), a), (text_eq-ne j k (ground arith), b))

collect_keys_sound :
    (keys : List Text) (signing_key : Text) (before found : List Text)
    → collect_keys keys signing_key before ≡ read found
    → (found ≡ keys) × All (IsFresh signing_key before) keys × AreDistinct keys
unfolding collect_keys
collect_keys_sound [] sk before found e = (ground arith, tt, tt)
collect_keys_sound (key ∷ keys) sk before found e =
    elim (Read-cases (parse_jwt_signing_key key (codes "JWT_PREVIOUS_SIGNING_KEYS"))) [
      | inr (err_, failed_) ↦ ground arith
      | inl (parsed, e1) ↦ elim (Read-cases (collect_keys keys sk (key ∷ before))) [
        | inr (err_, failed_) ↦ ground arith
        | inl (rest, e2) ↦
            let (same, strong) = key-IsStrong key (codes "JWT_PREVIOUS_SIGNING_KEYS") parsed e1 in
            let (rest_is, fresh, distinct) = collect_keys_sound keys sk (key ∷ before) rest e2 in
            let (fresh_tail, new) = All-IsFresh_tail sk key before keys fresh in
            let other : text_eq key sk ≡ false = ground arith in
            let unseen : any (text_eq key) before ≡ false = ground arith in
            let found_is : found ≡ key ∷ keys = ground arith in
            (
              found_is,
              (((rw same at strong), text_eq-ne key sk other, unseen), fresh_tail),
              (new, distinct),
            )
      ]
    ]

previous_keys_sound :
    (value : Option Text) (signing_key : Text) (found : List Text)
    → parse_jwt_previous_signing_keys value signing_key ≡ read found
    → All (IsFresh signing_key []) found × AreDistinct found
unfolding parse_jwt_previous_signing_keys
previous_keys_sound none sk found e = let z : found ≡ [] = ground arith in rw z (tt, tt)
previous_keys_sound (some value) sk found e =
    let keys = map trim (split_on b',' value) in
    elim (Bool-cases (is_empty (trim value))) [
      | inl blank ↦ let z : found ≡ [] = ground arith in rw z (tt, tt)
      | inr given ↦ elim (Bool-cases (any is_empty keys)) [
        | inl bad ↦ ground arith
        | inr fine ↦
            let (same, fresh, distinct) = collect_keys_sound keys sk [] found (ground arith) in
            rw same (fresh, distinct)
      ]
    ]

issuer_of_trimmed : (t : Text) → (elim t [ [] ↦ default_jwt_issuer | c ∷ s ↦ c ∷ s ]) ≢ []
issuer_of_trimmed [] e = cc
issuer_of_trimmed (c ∷ t) e = cc

read_issuer-ne-nil : (value : Option Text) → read_issuer value ≢ []
unfolding read_issuer
read_issuer-ne-nil none e = cc
read_issuer-ne-nil (some value) e = issuer_of_trimmed (trim value) e

-- Settings of tokens as they are meant: a strong key, previous keys that are strong and differ
-- from it and from each other, an issuer, a lifetime of 300 to 900 seconds and a clock skew of at
-- most 60.
pub record AreSafe (config : JwtAuthConfig) : Type 0 where
  pub key_strong : IsStrong config.signing_key
  pub previous_fresh : All (IsFresh config.signing_key []) config.previous_signing_keys
  pub previous_distinct : AreDistinct config.previous_signing_keys
  pub issuer_given : config.issuer ≢ []
  pub ttl_from : 300 ≤ config.access_token_ttl_seconds
  pub ttl_to : config.access_token_ttl_seconds ≤ 900
  pub skew_to : config.clock_skew_seconds ≤ 60

pos_part-le : (n : ℤ) (high : ℕ) → n ≤ℤ pos high → pos_part n ≤ high
pos_part-le (pos n) high h = omega (arith, h)
pos_part-le (negsuc n) high h = omega arith

settings-AreSafe :
    (to_integer : Text → Option ℤ) (env : ProcessEnv) (given key : Text) (previous : List Text)
    (ttl skew : ℤ)
    → parse_jwt_signing_key given (codes "JWT_SIGNING_KEY") ≡ read key
    → parse_jwt_previous_signing_keys (env (codes "JWT_PREVIOUS_SIGNING_KEYS")) key ≡ read previous
    → parse_jwt_access_ttl_seconds to_integer (env (codes "JWT_ACCESS_TTL_SECONDS")) ≡ read ttl
    → parse_jwt_clock_skew_seconds to_integer (env (codes "JWT_CLOCK_SKEW_SECONDS")) ≡ read skew
    → AreSafe (record {
      signing_key = key;
      previous_signing_keys = previous;
      issuer = read_issuer (env (codes "JWT_ISSUER"));
      access_token_ttl_seconds = pos_part ttl;
      clock_skew_seconds = pos_part skew;
    })
settings-AreSafe to_integer env given key previous ttl skew e2 e3 e4 e5 =
    let (fresh, distinct) =
      previous_keys_sound (env (codes "JWT_PREVIOUS_SIGNING_KEYS")) key previous e3 in
    let (ttl_from, ttl_to) =
      parse_integer-between to_integer (env (codes "JWT_ACCESS_TTL_SECONDS")) (pos 300) (pos 900)
        (pos 900) (out_of_range (codes "JWT_ACCESS_TTL_SECONDS")) ttl (omega arith) (omega arith)
        e4 in
    let (skew_from, skew_to) =
      parse_integer-between to_integer (env (codes "JWT_CLOCK_SKEW_SECONDS")) (pos 0) (pos 5)
        (pos 60) (out_of_range (codes "JWT_CLOCK_SKEW_SECONDS")) skew (omega arith) (omega arith)
        e5 in
    record {
      key_strong = (key-IsStrong given (codes "JWT_SIGNING_KEY") key e2).1;
      previous_fresh = fresh;
      previous_distinct = distinct;
      issuer_given = read_issuer-ne-nil (env (codes "JWT_ISSUER"));
      ttl_from = omega (arith, ttl_from);
      ttl_to = pos_part-le ttl 900 ttl_to;
      skew_to = pos_part-le skew 60 skew_to;
    }

-- Whatever the environment holds: if the settings of tokens are read from it, they are safe.
pub parse_jwt_auth_config-AreSafe :
    (to_integer : Text → Option ℤ) (env : ProcessEnv) (config : JwtAuthConfig)
    → parse_jwt_auth_config to_integer env ≡ read config
    → AreSafe config
unfolding parse_jwt_auth_config
parse_jwt_auth_config-AreSafe to_integer env config e =
    let name = codes "JWT_SIGNING_KEY" in
    let listed = env (codes "JWT_PREVIOUS_SIGNING_KEYS") in
    let ttl_given = env (codes "JWT_ACCESS_TTL_SECONDS") in
    let skew_given = env (codes "JWT_CLOCK_SKEW_SECONDS") in
    elim (Read-cases (require_non_empty_env (env name) name)) [
      | inr (_, e1) ↦ ground arith
      | inl (given, e1) ↦ elim (Read-cases (parse_jwt_signing_key given name)) [
        | inr (_, e2) ↦ ground arith
        | inl (key, e2) ↦ elim (Read-cases (parse_jwt_previous_signing_keys listed key)) [
          | inr (_, e3) ↦ ground arith
          | inl (previous, e3) ↦
              elim (Read-cases (parse_jwt_access_ttl_seconds to_integer ttl_given)) [
                | inr (_, e4) ↦ ground arith
                | inl (ttl, e4) ↦
                    elim (Read-cases (parse_jwt_clock_skew_seconds to_integer skew_given)) [
                      | inr (_, e5) ↦ ground arith
                      | inl (skew, e5) ↦
                          let made : config ≡ record {
                            signing_key = key;
                            previous_signing_keys = previous;
                            issuer = read_issuer (env (codes "JWT_ISSUER"));
                            access_token_ttl_seconds = pos_part ttl;
                            clock_skew_seconds = pos_part skew;
                          } =
                            ground arith in
                          rw made (
                            settings-AreSafe to_integer env given key previous ttl skew e2 e3 e4 e5)
                    ]
              ]
        ]
      ]
    ]
