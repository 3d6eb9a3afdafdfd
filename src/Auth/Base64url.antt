-- ===== src/Auth/Base64url.antt =====
-- Unpadded base64url, as Node's Buffer reads and writes it; what is read is in its alphabet.
use lux_ledger_demo.Common.{
  ℕ, ◌+◌, ◌-◌, ◌*◌, ◌/◌, ◌%◌, ◌<◌, ◌≡◌, refl, Bool, true, ◌&&◌, ◌||◌, List, [], ◌∷◌, arith, Text,
  ltb, leb, ◌==◌, All, every, if◌then◌else◌,
}

-- [A-Za-z0-9_-]
abbrev pub is_base64url : ℕ → Bool
is_base64url c =
    (leb b'A' c && leb c b'Z')
    || (leb b'a' c && leb c b'z')
    || (leb b'0' c && leb c b'9')
    || c == b'_'
    || c == b'-'

unfoldable pub digit : ℕ → ℕ
digit n =
    if ltb n 26
    then b'A' + n
    else if ltb n 52
    then b'a' + (n - 26)
    else if ltb n 62
    then b'0' + (n - 52)
    else if n == 62
    then b'-'
    else b'_'

unfoldable pub sextet : ℕ → ℕ
sextet c =
    if leb b'a' c
    then c - b'a' + 26
    else if c == b'_'
    then 63
    else if leb b'A' c
    then c - b'A'
    else if leb b'0' c
    then c - b'0' + 52
    else 62

-- Three bytes are four digits; one or two bytes at the end are two or three.
unfoldable pub encode_bytes : List ℕ → Text
encode_bytes [] = []
encode_bytes (a ∷ []) = digit (a / 4) ∷ digit (a % 4 * 16) ∷ []
encode_bytes (a ∷ b ∷ []) = digit (a / 4) ∷ digit (a % 4 * 16 + b / 16) ∷ digit (b % 16 * 4) ∷ []
encode_bytes (a ∷ b ∷ c ∷ bs) =
    digit (a / 4)
    ∷ digit (a % 4 * 16 + b / 16)
    ∷ digit (b % 16 * 4 + c / 64)
    ∷ digit (c % 64)
    ∷ encode_bytes bs

-- A single digit at the end gives no byte.
unfoldable pub decode_bytes : Text → List ℕ
decode_bytes [] = []
decode_bytes (p ∷ []) = []
decode_bytes (p ∷ q ∷ []) = (sextet p * 4 + sextet q / 16) ∷ []
decode_bytes (p ∷ q ∷ r ∷ []) =
    (sextet p * 4 + sextet q / 16) ∷ (sextet q % 16 * 16 + sextet r / 4) ∷ []
decode_bytes (p ∷ q ∷ r ∷ s ∷ t) =
    (sextet p * 4 + sextet q / 16)
    ∷ (sextet q % 16 * 16 + sextet r / 4)
    ∷ (sextet r % 4 * 64 + sextet s)
    ∷ decode_bytes t

abbrev pub AreBytes : List ℕ → Type 0
AreBytes = All (λ b. b < 256)

sextet-digit : (n : ℕ) → n < 64 → sextet (digit n) ≡ n
unfolding sextet digit
sextet-digit n h = ground arith

digit-is_base64url : (n : ℕ) → is_base64url (digit n) ≡ true
unfolding digit
digit-is_base64url n = ground arith

sextet-lt : (c : ℕ) → is_base64url c ≡ true → sextet c < 64
unfolding sextet
sextet-lt c h = ground arith

pub decode-encode_bytes : (bs : List ℕ) → AreBytes bs → decode_bytes (encode_bytes bs) ≡ bs
unfolding decode_bytes encode_bytes
decode-encode_bytes [] h = refl
decode-encode_bytes (a ∷ []) (ha, h) =
    rw (sextet-digit (a / 4) (omega arith), sextet-digit (a % 4 * 16) (omega arith)) (ground arith)
decode-encode_bytes (a ∷ b ∷ []) (ha, (hb, h)) =
    rw
      (
        sextet-digit (a / 4) (omega arith),
        sextet-digit (a % 4 * 16 + b / 16) (omega arith),
        sextet-digit (b % 16 * 4) (omega arith),
      )
      (ground arith)
decode-encode_bytes (a ∷ b ∷ c ∷ bs) (ha, (hb, (hc, h))) =
    rw
      (
        sextet-digit (a / 4) (omega arith),
        sextet-digit (a % 4 * 16 + b / 16) (omega arith),
        sextet-digit (b % 16 * 4 + c / 64) (omega arith),
        sextet-digit (c % 64) (omega arith),
        decode-encode_bytes bs h,
      )
      (ground arith)

pub decode_bytes-AreBytes : (t : Text) → every is_base64url t ≡ true → AreBytes (decode_bytes t)
unfolding decode_bytes
decode_bytes-AreBytes [] h = tt
decode_bytes-AreBytes (p ∷ []) h = tt
decode_bytes-AreBytes (p ∷ q ∷ []) h =
    let hp = sextet-lt p (ground arith) in
    let hq = sextet-lt q (ground arith) in (omega (arith, hp, hq), tt)
decode_bytes-AreBytes (p ∷ q ∷ r ∷ []) h =
    let hp = sextet-lt p (ground arith) in
    let hq = sextet-lt q (ground arith) in
    let hr = sextet-lt r (ground arith) in (omega (arith, hp, hq), (omega (arith, hq, hr), tt))
decode_bytes-AreBytes (p ∷ q ∷ r ∷ s ∷ t) h =
    let hp = sextet-lt p (ground arith) in
    let hq = sextet-lt q (ground arith) in
    let hr = sextet-lt r (ground arith) in
    let hs = sextet-lt s (ground arith) in
    let ht : every is_base64url t ≡ true = ground arith in
    (
      omega (arith, hp, hq),
      (omega (arith, hq, hr), (omega (arith, hr, hs), decode_bytes-AreBytes t ht)),
    )

pub encode_bytes-is_base64url : (bs : List ℕ) → every is_base64url (encode_bytes bs) ≡ true
unfolding encode_bytes
encode_bytes-is_base64url [] = refl
encode_bytes-is_base64url (a ∷ []) =
    rw (digit-is_base64url (a / 4), digit-is_base64url (a % 4 * 16)) refl
encode_bytes-is_base64url (a ∷ b ∷ []) =
    rw
      (
        digit-is_base64url (a / 4),
        digit-is_base64url (a % 4 * 16 + b / 16),
        digit-is_base64url (b % 16 * 4),
      )
      refl
encode_bytes-is_base64url (a ∷ b ∷ c ∷ bs) =
    rw
      (
        digit-is_base64url (a / 4),
        digit-is_base64url (a % 4 * 16 + b / 16),
        digit-is_base64url (b % 16 * 4 + c / 64),
        digit-is_base64url (c % 64),
      )
      (encode_bytes-is_base64url bs)
