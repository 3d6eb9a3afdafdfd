-- ===== src/Demo/Sandbox/Cookie.antt =====
-- The header set-cookie of apps/api/src/demo/sandbox.ts, and the query of its page of holds.
use lux_ledger_demo.Common.{
  ℕ, leb, Bool, false, ◌&&◌, ◌||◌, Option, none, some, ◌++◌, [], Text, text_eq, codes,
  if◌then◌else◌,
}
use lux_ledger_demo.Common.Decimal.{print}
use lux_ledger_demo.Demo.Sandbox.Model.{cookie_name, session_seconds}

abbrev is_https : Text → Option Text → Bool
is_https protocol forwarded =
    text_eq protocol (codes "https")
    || elim forwarded [ none ↦ false | some proto ↦ text_eq proto (codes "https") ]

-- By the protocol of the request, and its header x-forwarded-proto.
unfoldable pub set_cookie : Text → Text → Option Text → Text
set_cookie secret protocol forwarded =
    cookie_name
    ++ codes "="
    ++ secret
    ++ codes "; HttpOnly; SameSite=Strict; Path=/; Max-Age="
    ++ print session_seconds
    ++ (if is_https protocol forwarded then codes "; Secure" else [])

-- The query's limit: 25 where it is absent; none, where the schema refuses it.
unfoldable pub holds_limit : Option ℕ → Option ℕ
holds_limit none = some 25
holds_limit (some limit) = if leb 1 limit && leb limit 200 then some limit else none
