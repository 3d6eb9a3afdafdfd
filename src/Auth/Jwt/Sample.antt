-- ===== src/Auth/Jwt/Sample.antt =====
-- A platform for the tests: every unit of a text is moved up by 100000 and a 1 ends the text, which
-- leaves out the dot and white space and is read back at once.
use lux_ledger_demo.Common.{
  HasNoSpace, is_space, false, ℕ, ◌+◌, ◌-◌, ltb, ◌≡◌, refl, ap, ◌≢◌, Option, none, some, [], ◌∷◌,
  ◌++◌, map, arith, Text, Lacks, All-append, codes, if◌then◌else◌,
}
use lux_ledger_demo.Common.Int.{ℤ, pos, negsuc}
use lux_ledger_demo.Common.Json.{Json, num, str, obj, end, field}
use lux_ledger_demo.Auth.Jwt.{Platform, ApiKeyRole, admin, service, jwt_header}
use lux_ledger_demo.Auth.Jwt.Laws.{IsPlatform}

abbrev pub up : Text → Text
up t = map (λ c. c + 100000) t

abbrev close : Text → Text
close t = up t ++ 1 ∷ []

unfoldable pub cut : Text → Text × Text
cut [] = ([], [])
cut (c ∷ t) =
    let (head, rest) = cut t in if ltb c 100000 then ([], t) else ((c - 100000) ∷ head, rest)

cut-close : (t rest : Text) → cut (up t ++ 1 ∷ rest) ≡ (t, rest)
unfolding cut
cut-close [] rest = refl
cut-close (c ∷ t) rest = rw (cut-close t rest) (ground arith)

abbrev pub tag : ℤ → ℕ
tag (pos n) = 2
tag (negsuc n) = 3

abbrev pub size : ℤ → ℕ
size (pos n) = n + 100000
size (negsuc n) = n + 100000

unfoldable pub read_int : ℕ → ℕ → ℤ
read_int t n = if ltb t 3 then pos (n - 100000) else negsuc (n - 100000)

read_int-tag : (n : ℤ) → read_int (tag n) (size n) ≡ n
unfolding read_int
read_int-tag (pos n) = ap pos (omega arith)
read_int-tag (negsuc n) = ap negsuc (omega arith)

-- The six values of a payload.
pub record Shape : Type 0 where
  pub iat : ℤ
  pub exp : ℤ
  pub iss : Text
  pub sub : Text
  pub tenant_id : Text
  pub role : Text

unfoldable pub shape : Json → Option Shape
shape
      (obj (
        field k1 (str a) (
          field k2
            (str b)
            (field k3 (str c) (field k4 (str d) (field k5 (num i) (field k6 (num j) end))))))) =
    some (record { iat = i; exp = j; iss = a; sub = b; tenant_id = c; role = d })
shape _ = none

abbrev pub shape_json : Shape → Json
shape_json s = obj (
    field (codes "iss") (str s.iss) (
      field (codes "sub") (str s.sub) (
        field (codes "tenant_id") (str s.tenant_id) (
          field (codes "role") (str s.role)
            (field (codes "iat") (num s.iat) (field (codes "exp") (num s.exp) end))))))

unfoldable pub write_shape : Option Shape → Text
write_shape none = 5 ∷ []
write_shape (some s) =
    tag s.iat
    ∷ size s.iat
    ∷ tag s.exp
    ∷ size s.exp
    ∷ (up s.iss ++ 1 ∷ (up s.sub ++ 1 ∷ (up s.tenant_id ++ 1 ∷ (up s.role ++ 1 ∷ []))))

unfoldable pub read_shape : Text → Option Json
read_shape (ti ∷ ni ∷ tj ∷ nj ∷ t) =
    let (a, t1) = cut t in
    let (b, t2) = cut t1 in
    let (c, t3) = cut t2 in
    let (d, _) = cut t3 in
    some (
      shape_json (record {
        iat = read_int ti ni;
        exp = read_int tj nj;
        iss = a;
        sub = b;
        tenant_id = c;
        role = d;
      }))
read_shape _ = some jwt_header

up-Lacks : (t : Text) → Lacks b'.' (up t)
up-Lacks [] = tt
up-Lacks (c ∷ t) = (omega arith, up-Lacks t)

read-write : (s : Shape) → read_shape (write_shape (some s)) ≡ some (shape_json s)
unfolding read_shape write_shape
read-write s =
    rw
      (
        read_int-tag s.iat,
        read_int-tag s.exp,
        cut-close s.iss _,
        cut-close s.sub _,
        cut-close s.tenant_id _,
        cut-close s.role [],
      )
      refl

abbrev sample_role : ApiKeyRole → Text
sample_role admin = codes "ADMIN"
sample_role service = codes "SERVICE"

abbrev pub sample : Platform
sample = record {
  encode = λ v. write_shape (shape v);
  decode = read_shape;
  sign = λ input key. 7 ∷ up key ++ up input;
  role_name = sample_role;
}

size-Lacks : (n : ℤ) → (tag n ≢ b'.') × (size n ≢ b'.')
size-Lacks (pos n) = (omega arith, omega arith)
size-Lacks (negsuc n) = (omega arith, omega arith)

ended-Lacks : (t rest : Text) → Lacks b'.' rest → Lacks b'.' (up t ++ 1 ∷ rest)
ended-Lacks t rest h = All-append (λ c. c ≢ b'.') (up t) (1 ∷ rest) (up-Lacks t) (omega arith, h)

write_shape-ne-nil : (s : Option Shape) → write_shape s ≢ []
unfolding write_shape
write_shape-ne-nil none e = cc
write_shape-ne-nil (some s) e = cc

write_shape-Lacks : (s : Option Shape) → Lacks b'.' (write_shape s)
unfolding write_shape
write_shape-Lacks none = (omega arith, tt)
write_shape-Lacks (some s) =
    let (a, b) = size-Lacks s.iat in
    let (c, d) = size-Lacks s.exp in
    let texts =
      ended-Lacks s.iss _
        (ended-Lacks s.sub _ (ended-Lacks s.tenant_id _ (ended-Lacks s.role [] tt))) in
    (a, (b, (c, (d, texts))))

is_space-large : (n : ℕ) → is_space (n + 100000) ≡ false
unfolding is_space
is_space-large n = ground arith

up-HasNoSpace : (t : Text) → HasNoSpace (up t)
up-HasNoSpace [] = tt
up-HasNoSpace (c ∷ t) = (is_space-large c, up-HasNoSpace t)

size-HasNoSpace : (n : ℤ) → (is_space (tag n) ≡ false) × (is_space (size n) ≡ false)
unfolding is_space
size-HasNoSpace (pos n) = (refl, is_space-large n)
size-HasNoSpace (negsuc n) = (refl, is_space-large n)

ended-HasNoSpace : (t rest : Text) → HasNoSpace rest → HasNoSpace (up t ++ 1 ∷ rest)
unfolding is_space
ended-HasNoSpace t rest h =
    All-append (λ c. is_space c ≡ false) (up t) (1 ∷ rest) (up-HasNoSpace t) (refl, h)

write_shape-HasNoSpace : (s : Option Shape) → HasNoSpace (write_shape s)
unfolding write_shape is_space
write_shape-HasNoSpace none = (refl, tt)
write_shape-HasNoSpace (some s) =
    let (a, b) = size-HasNoSpace s.iat in
    let (c, d) = size-HasNoSpace s.exp in
    let texts =
      ended-HasNoSpace s.iss _ (
        ended-HasNoSpace s.sub _
          (ended-HasNoSpace s.tenant_id _ (ended-HasNoSpace s.role [] tt))) in
    (a, (b, (c, (d, texts))))

pub sample-IsPlatform : IsPlatform sample
unfolding shape read_shape write_shape is_space
sample-IsPlatform = record {
  decode-encode_header = refl;
  decode-encode_payload = λ p _ _. read-write (record {
    iat = p.iat;
    exp = p.exp;
    iss = p.iss;
    sub = p.sub;
    tenant_id = p.tenant_id;
    role = sample_role p.role;
  });
  encode-Lacks = λ v. write_shape-Lacks (shape v);
  encode-ne-nil = λ v. write_shape-ne-nil (shape v);
  encode-HasNoSpace = λ v. write_shape-HasNoSpace (shape v);
  sign-HasNoSpace = λ input key. (
    refl,
    All-append (λ c. is_space c ≡ false) (up key) (up input) (up-HasNoSpace key)
        (up-HasNoSpace input),
  );
  sign-Lacks = λ input key.
      (omega arith, All-append (λ c. c ≢ b'.') (up key) (up input) (up-Lacks key) (up-Lacks input));
  sign-ne-nil = λ input key. λ e. cc;
  role_name-ne = λ e. ground arith;
}
