-- ===== src/Web/Tests.antt =====
-- The theorems about the console at concrete inputs.
use lux_ledger_demo.Common.{
  ℕ, ◌≡◌, refl, ◌≢◌, ◌↔◌, ◌+◌, inr, true, false, Option, none, some, Text, List, [], ◌∷◌, ◌++◌, map,
  All, codes, text_eq, split_on, arith,
}
use lux_ledger_demo.Common.Int.{ℤ, pos, negsuc}
use lux_ledger_demo.Common.Decimal.{print, print_ℤ, value_from}
use lux_ledger_demo.Common.Json.{Json, str, num, obj, field, end}
use lux_ledger_demo.Web.Display.{entries_are_balanced}
use lux_ledger_demo.Web.Display.Balanced.{total, entries_are_balanced_iff}
use lux_ledger_demo.Web.Requests.{is_secret, DemoRequest, http_get}
use lux_ledger_demo.Web.Requests.Sending.{Sent, Fetched, response, Url, Console}
use lux_ledger_demo.Web.Requests.Redacted.{IsRedacted}
use lux_ledger_demo.Web.Amounts.{amount_text, money, to_minor}
use lux_ledger_demo.Web.Amounts.RoundTrip.{money-to_minor}

abbrev payment : List ℤ
payment = pos 5 ∷ negsuc 4 ∷ []

entries_are_balanced_iff_example :
    (entries_are_balanced (map print_ℤ payment) ≡ some true)
    ↔ (payment ≢ []) × All (λ z. z ≢ pos 0) payment × (total payment ≡ pos 0)
entries_are_balanced_iff_example = entries_are_balanced_iff payment

abbrev session : Json
session = obj (field (codes "Access_Token") (str (codes "t")) (field (codes "n") (num (pos 1)) end))

abbrev plain : Json
plain = obj (field (codes "n") (num (pos 1)) end)

not_secret : is_secret (codes "n") ≡ false
unfolding is_secret text_eq
not_secret = refl

plain-IsRedacted : IsRedacted plain
unfolding IsRedacted
plain-IsRedacted = (inr (not_secret, tt), tt)

money-to_minor_example :
    (money (print 1205) (codes "USD") 2 ≡ some (amount_text 1205 2 ++ b' ' ∷ codes "USD"))
    × (to_minor (amount_text 1205 2) 2 ≡ some (print 1205))
money-to_minor_example = money-to_minor 1205 2 (codes "USD") (omega arith)

read_minor : to_minor (codes "12.05") 2 ≡ some (codes "1205")
unfolding to_minor split_on value_from print
read_minor = refl

shown_in_units : amount_text 1205 2 ≡ codes "12.05"
unfolding amount_text print
shown_in_units = refl

abbrev site_url : Text → Option Url
site_url path = some (record { origin = codes "https://demo"; pathname = path; search = [] })

abbrev no_json : Text → Option Json
no_json _ = none

abbrev answers : Sent → ℕ → Fetched × ℕ
answers sent n = (response (record { status = 200; request_id = none }) (codes "ok"), n + 1)

abbrev console : Console ℕ
console = record {
  token = codes "t";
  last_record_id = 7;
  records = [];
  record_id = none;
  world = 0;
}

abbrev list_ledgers : DemoRequest
list_ledgers = record { method = http_get; path = codes "/v1/ledgers"; body = none }
