-- ===== src/Demo/Tests.antt =====
-- The theorems about the demo at a small ledger: its state is the list of writes, the last one
-- first, and it has two accounts, on two pages.
use lux_ledger_demo.Common.{
  ◌<◌, ◌≡◌, refl, ◌↔◌, ◌⊎◌, inr, Bool, true, false, Option, none, some, List, [], ◌∷◌, ◌++◌, length,
  Text, text_eq, codes, trim, split_on, ltb, arith, if◌then◌else◌,
}
use lux_ledger_demo.Common.Int.{pos}
use lux_ledger_demo.Common.Decimal.{is_positive_decimal}
use lux_ledger_demo.Common.Outcome.{Outcome, done, raised, ◌>>=◌}
use lux_ledger_demo.Common.Paging.{Page, IsPaged, collect}
use lux_ledger_demo.Api.Errors.{Reply}
use lux_ledger_demo.Demo.Backend.{credit, Account, Hold, Scope, Write, Backend}
use lux_ledger_demo.Demo.Input.{
  Failure, Locale, matches_address, input, not_ready, normalize_address, parse_amount,
}
use lux_ledger_demo.Demo.Input.Spelling.{IsSpelled, normalize_address-IsSpelled}
use lux_ledger_demo.Demo.Contract.{IsSeeding, Via}
use lux_ledger_demo.Demo.Service.{
  Config, accounts, transfer, get_state, context, authenticated, account_by_address, writes,
}
use lux_ledger_demo.Demo.Service.View.{DemoState, view}
use lux_ledger_demo.Demo.Service.Pages.{accounts_all}
use lux_ledger_demo.Demo.Service.Postings.{HasTransferred, transfer-done}
use lux_ledger_demo.Demo.Service.Seed.{seed}
use lux_ledger_demo.Demo.Service.Seed.Writes.{seed-Via}
use lux_ledger_demo.Config.{ProcessEnv}
use lux_ledger_demo.Start.Scripts.{Script, not_created, run_reset}
use lux_ledger_demo.Start.Scripts.Guarded.{IsGuarded, run_reset-IsGuarded}
use lux_ledger_demo.Demo.Service.Reset
use lux_ledger_demo.Demo.Service.Reset.{Gate, idle, call, settle, return_owner}
use lux_ledger_demo.Demo.Service.Reset.Exclusive.{calls}
use lux_ledger_demo.Demo.Routes.{
  Call, calls, handle_route, Schema, make_transfer, serve, handle, refused,
}
use lux_ledger_demo.Demo.Routes.Writes.{Leaves, handle_route-Leaves}
use lux_ledger_demo.Demo.Routes.Refusals.{serve-refused}
use lux_ledger_demo.Demo.Sandbox.Holds.{holds_page}
use lux_ledger_demo.Demo.Sandbox.Paged.{IsStrict, all_pages-holds_page}
use lux_ledger_demo.Web.Requests.{all_pages}

abbrev alice : Account
alice = record {
  id = codes "a1";
  name = codes "wallet:alice";
  side = credit;
  balance_minor = pos 0;
  currency = codes "USD";
}

abbrev bob : Account
bob = record {
  id = codes "b2";
  name = codes "wallet:bob";
  side = credit;
  balance_minor = pos 0;
  currency = codes "USD";
}

abbrev first_page : Page Account
first_page = record { items = alice ∷ []; next_cursor = some (codes "next") }

abbrev second_page : Page Account
second_page = record { items = bob ∷ []; next_cursor = none }

abbrev page_at : Option Text → Page Account
page_at none = first_page
page_at (some cursor) = second_page

abbrev left_at : Option Text → List Account
left_at none = alice ∷ bob ∷ []
left_at (some cursor) = bob ∷ []

abbrev log : Backend (List Write)
log = record {
  authenticate = λ key s. done (codes "tenant");
  find_asset = λ tenant code s. done none;
  find_ledger = λ tenant name s. done (some (codes "ledger"));
  find_account = λ scope name s. done (
      if text_eq name (codes "wallet:alice")
      then some alice
      else if text_eq name (codes "wallet:bob")
      then some bob
      else none);
  find_rule = λ tenant name s. done none;
  list_accounts = λ scope cursor s. done (page_at cursor);
  list_transactions = λ scope s. done (record { items = []; next_cursor = none });
  select_holds = λ scope s. done [];
  has_hold = λ scope hold s. done false;
  trial_balance = λ scope s. done (pos 0, pos 0);
  balance_at = λ tenant account at s. done (pos 0);
  list_history = λ tenant account at s. done (record { items = []; next_cursor = none });
  write = λ w s. (done (codes "id"), w ∷ s);
  bootstrap = λ tenant name key s. (
    done (record {
      created = true;
      tenant_id = some (codes "tenant");
      api_key_id = some (codes "key");
    }),
    s,
  );
}

abbrev config : Config
config = record {
  admin_api_key = codes "key";
  admin_key_name = codes "admin";
  tenant_name = codes "demo";
  reset_enabled = true;
}

-- Texts of lower case, in an order that has all equal.
abbrev locale : Locale
locale = record { to_lower = λ t. t; precedes = λ s t. true }

normalize_address-IsSpelled_example :
    (normalize_address locale (codes " wallet:alice ") ≡ done (codes "wallet:alice"))
    ↔ (codes "wallet:alice" ≡ trim (codes " wallet:alice ")) × IsSpelled (codes "wallet:alice")
normalize_address-IsSpelled_example =
    normalize_address-IsSpelled locale (codes " wallet:alice ") (codes "wallet:alice")

abbrev schema : Schema
schema = record {
  characters = λ t. length t;
  is_uuid = λ t. true;
  message = λ call. codes "body must match the schema";
}

abbrev pay_bob : Call
pay_bob = make_transfer (codes "u") (codes "wallet:alice") (codes "wallet:bob") (codes "25")

handle_route-Leaves_example :
    Leaves log config locale 3
      (calls pay_bob)
      []
      (handle_route log config locale 3 schema (calls pay_bob) []).1
handle_route-Leaves_example = handle_route-Leaves log config locale 3 schema (calls pay_bob) []

-- The address is not well formed, which the validation does not see.
abbrev pay_nobody : Call
pay_nobody = make_transfer (codes "u") (codes "Alice") (codes "wallet:bob") (codes "25")

nobody_refused :
    (serve log config locale 3 pay_nobody []).0
    ≡ raised (input (codes "Address must look like wallet:alice"))
unfolding serve transfer normalize_address matches_address trim split_on ◌>>=◌
nobody_refused = refl

serve-refused_example :
    (reply : Reply) × (handle log config locale 3 schema pay_nobody [] ≡ (refused reply, []))
    × (reply.status ≡ pos 400)
serve-refused_example =
    serve-refused log config locale 3 schema pay_nobody []
      (inr (codes "Address must look like wallet:alice", nobody_refused))

seed-Via_example :
    Via log IsSeeding [] (seed log config locale 3 []).1
    × (((get_state log config locale 3 []).0 ≡ raised not_ready)
        ⊎ (seed log config locale 3 [] ≡ get_state log config locale 3 [])
          × ((seed log config locale 3 []).1 ≡ []))
seed-Via_example = seed-Via log config locale 3 []

abbrev scope : Scope
scope = record { tenant_id = codes "tenant"; ledger_id = codes "ledger" }

paged_last :
    (cursor : Option Text) (page : Page Account)
    → page_at cursor ≡ page
    → page.next_cursor ≡ none
    → page.items ≡ left_at cursor
paged_last none page e h = cc
paged_last (some cursor) page e h = rw (← e) refl

paged_more :
    (cursor : Option Text) (page : Page Account) (next : Text)
    → page_at cursor ≡ page
    → page.next_cursor ≡ some next
    → (page.items ++ left_at (some next) ≡ left_at cursor)
      × (length (left_at (some next)) < length (left_at cursor))
paged_more none page next e h = (rw (← e) refl, omega arith)
paged_more (some cursor) page next e h = cc

accounts-IsPaged : IsPaged (λ cursor. log.list_accounts scope cursor []) left_at
accounts-IsPaged = record {
  last = λ cursor page e. paged_last cursor page (cc);
  more = λ cursor page next e. paged_more cursor page next (cc);
}

accounts_all_example : accounts log config locale 3 scope [] ≡ (done (alice ∷ bob ∷ []), [])
accounts_all_example =
    accounts_all log config locale 3 scope [] left_at accounts-IsPaged
      (λ cursor. (page_at cursor, refl)) (omega arith)

abbrev after_transfer : Outcome Failure DemoState × List Write
after_transfer =
    transfer log config locale 3 (codes "u") (codes "wallet:alice") (codes "wallet:bob")
      (codes "25") []

abbrev shown : DemoState
shown =
    view locale.precedes (codes "ledger") true (alice ∷ bob ∷ [])
      (record { items = []; next_cursor = none }) [] (pos 0, pos 0)

transfer_run : after_transfer ≡ (done shown, after_transfer.1)
unfolding transfer ◌>>=◌ normalize_address matches_address split_on trim text_eq parse_amount
    is_positive_decimal context authenticated account_by_address writes get_state accounts collect
transfer_run = refl

transfer-done_example :
    HasTransferred log config locale 3
      (codes "u")
      (codes "wallet:alice")
      (codes "wallet:bob")
      (codes "25")
      []
      after_transfer.1
transfer-done_example =
    transfer-done log config locale 3 (codes "u") (codes "wallet:alice") (codes "wallet:bob")
      (codes "25") [] transfer_run

abbrev hold_of : Text → Hold
hold_of id = record {
  id = id;
  reference = codes "r";
  description = none;
  state = codes "ACTIVE";
  original_amount_minor = codes "5";
  remaining_amount_minor = codes "5";
}

-- Shorter identifiers first.
abbrev shorter : Text → Text → Bool
shorter a b = ltb (length a) (length b)

shorter-IsStrict : IsStrict shorter
shorter-IsStrict = record {
  asym = λ a b h. ground arith;
  irreflexive = λ a. ground arith;
  transitive = λ a b c h k. ground arith;
}

abbrev holds : List Hold
holds = hold_of (codes "1") ∷ hold_of (codes "12") ∷ hold_of (codes "123") ∷ []

all_pages-holds_page_example :
    all_pages {E = Text} (λ cursor. done (holds_page shorter holds 2 cursor)) 4 none [] ≡ done holds
all_pages-holds_page_example =
    all_pages-holds_page shorter shorter-IsStrict holds 1 4
      (((refl, (refl, tt)), ((refl, tt), (tt, tt)))) ((refl, (refl, (refl, tt)))) (omega arith)

abbrev hosted_env : ProcessEnv
hosted_env name =
    if text_eq name (codes "DEMO_ALLOW_RESET")
    then some (codes "true")
    else if text_eq name (codes "DATABASE_URL")
    then some (codes "postgres://db/luxledger_demo_hosted")
    else some (codes "key")

abbrev hosted_path : Text → Option Text
hosted_path url = some (codes "/luxledger_demo_hosted")

abbrev script : Script (List Write)
script = record { client = not_created; exit_code = 0; logged = []; world = [] }

run_reset-IsGuarded_example :
    IsGuarded log locale 3 hosted_env hosted_path true script
      (run_reset log locale 3 hosted_env hosted_path true script)
run_reset-IsGuarded_example = run_reset-IsGuarded log locale 3 hosted_env hosted_path true script

-- Two calls, of which the second finds the run of the first; the run ends and the first returns.
abbrev two_calls : Gate
two_calls = call 2 (call 1 idle)

abbrev first_call : Reset.Call
first_call = record { caller = 1; run = 0 }

abbrev one_returned : Gate
one_returned = return_owner 0 first_call (settle two_calls)
