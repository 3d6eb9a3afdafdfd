-- ===== src/Demo/Service/Postings.antt =====
-- The postings of transfers and holds that succeed.
use lux_ledger_demo.Common.{
  ℕ, ◌<◌, ◌≡◌, refl, sym, ap, ◌∙◌, ◌≢◌, Bool, true, false, some, Text, text_eq, text_eq_iff, codes,
  ◌++◌, if◌then◌else◌, arith,
}
use lux_ledger_demo.Common.Int.{pos}
use lux_ledger_demo.Common.Decimal.{print}
use lux_ledger_demo.Common.Outcome.{Outcome, done, raised, ◌>>=◌}
use lux_ledger_demo.Common.Outcome.Rules.{pair_eq, >>=-done, reads->>=-done}
use lux_ledger_demo.Api.Errors.{Thrown}
use lux_ledger_demo.Demo.Backend.{Backend, Write, Scope, Account, create_transaction}
use lux_ledger_demo.Demo.Input.{Failure, Locale, normalize_address}
use lux_ledger_demo.Demo.Input.Laws.{parse_amount_iff}
use lux_ledger_demo.Demo.Contract.{Via-nothing}
use lux_ledger_demo.Demo.Service.{
  Config, writes, context, account_by_address, get_state, transfer, from_service, usd, move,
}
use lux_ledger_demo.Demo.Service.Writes.{Moves-context, Moves-account_by_address, get_state-same}
use lux_ledger_demo.Demo.Service.View.{DemoState}

-- A guard that let its caller go on.
passed : (b : Bool) (e : Failure) → (if b then raised e else done tt) ≡ done tt → b ≡ false
passed true e h = cc
passed false e h = refl

ne_of_text_eq : (s t : Text) → text_eq s t ≡ false → s ≢ t
ne_of_text_eq s t h e = ground (arith, text_eq_iff s t)

wrote_done : {r : Outcome Thrown Text} {id : Text} → from_service r ≡ done id → r ≡ done id
wrote_done h = ground arith

module _ {S : Type 0} (backend : Backend S) (config : Config) (locale : Locale) (fuel : ℕ) where
  found_account :
      (scope : Scope) (name : Text) (s : S) {a : Account}
      → (account_by_address backend config locale fuel scope name s).0 ≡ done a
      → backend.find_account scope name s ≡ done (some a)
  unfolding account_by_address ◌>>=◌
  found_account scope name s h = ground arith

  context-same : (s : S) → (context backend config locale fuel s).1 ≡ s
  context-same s = Via-nothing backend ((Moves-context backend config locale fuel (λ _. ⊥)).at s)

  account-same :
      (scope : Scope) (name : Text) (s : S)
      → (account_by_address backend config locale fuel scope name s).1 ≡ s
  account-same scope name s =
      Via-nothing backend
        ((Moves-account_by_address backend config locale fuel (λ _. ⊥) scope name).at s)

  -- The last part of each operation: a write, and the state that is then read.
  written :
      (w : Write) (s : S) {found : DemoState} {u : S}
      → (writes backend config locale fuel w >>= λ _. get_state backend config locale fuel) s
        ≡ (done found, u)
      → (id : Text) × ((backend.write w s).0 ≡ done id) × (u ≡ (backend.write w s).1)
  unfolding writes
  written w s {found} {u} h =
      let (id, wrote, state_read) = >>=-done _ _ s h in
      (
        id,
        wrote_done wrote,
        sym (ap (λ (r : Outcome Failure DemoState × S). r.1) state_read)
            ∙ get_state-same backend config locale fuel (backend.write w s).1,
      )

  -- A write between the accounts of two addresses.
  between :
      (scope : Scope) (from to : Text) (w : Account → Account → Write) (s : S) {found : DemoState}
      {u : S}
      → (account_by_address backend config locale fuel scope from >>= λ source.
            account_by_address backend config locale fuel scope to >>= λ destination.
            writes backend config locale fuel (w source destination) >>= λ _.
            get_state backend config locale fuel)
          s
        ≡ (done found, u)
      → (source destination : Account) × (id : Text) × (backend.find_account scope from s
          ≡ done (some source))
        × (backend.find_account scope to s ≡ done (some destination))
        × (backend.write (w source destination) s ≡ (done id, u))
  between scope from to w s h =
      let (source, source_read, h1) = >>=-done _ _ s h in
      let (destination, destination_read, h2) =
        >>=-done _ _ s (rw (account-same scope from s) at h1) in
      let (id, accepted, after) = written _ s (rw (account-same scope to s) at h2) in
      (
        source,
        destination,
        id,
        found_account scope from s source_read,
        found_account scope to s destination_read,
        pair_eq accepted (sym after),
      )

  -- What a transfer has done that is answered: both addresses are well formed and different,
  -- their accounts were found, the amount is the decimal text of a positive number, and the ledger
  -- accepted one transaction that moves the amount from the one account to the other.
  pub record HasTransferred (uuid from to amount_minor : Text) (s u : S) : Type 0 where
    pub scope : Scope
    pub source_address : Text
    pub destination_address : Text
    pub source : Account
    pub destination : Account
    pub amount : ℕ
    pub transaction_id : Text
    pub from_is : normalize_address locale from ≡ done source_address
    pub to_is : normalize_address locale to ≡ done destination_address
    pub differ : source_address ≢ destination_address
    pub source_found : backend.find_account scope source_address s ≡ done (some source)
    pub destination_found :
        backend.find_account scope destination_address s ≡ done (some destination)
    pub amount_is : (0 < amount) × (amount_minor ≡ print amount)
    pub posted :
        backend.write
          (create_transaction (record {
            scope = scope;
            reference = codes "demo-transfer-" ++ uuid;
            currency = usd;
            description = source.name ++ (codes " to " ++ destination.name);
            entries = move source destination (pos amount);
          }))
          s
        ≡ (done transaction_id, u)

  -- A transfer that is answered has posted exactly one transaction, as it was asked for, and
  -- done nothing else.
  pub transfer-done :
      (uuid from to amount_minor : Text) (s : S) {found : DemoState} {u : S}
      → transfer backend config locale fuel uuid from to amount_minor s ≡ (done found, u)
      → HasTransferred uuid from to amount_minor s u
  unfolding transfer
  transfer-done uuid from to amount_minor s h =
      let (source_address, from_is, h1) = reads->>=-done _ _ s h in
      let (destination_address, to_is, h2) = reads->>=-done _ _ s h1 in
      let (_, different, h3) = reads->>=-done _ _ s h2 in
      let (a, amount_read, h4) = reads->>=-done _ _ s h3 in
      let (scope, in_scope, h5) = >>=-done _ _ s h4 in
      let (source, destination, id, source_found, destination_found, posted) =
        between scope source_address destination_address _ s (rw (context-same s) at h5) in
      let (n, positive, same, text) = (parse_amount_iff amount_minor a).0 amount_read in
      record {
        scope = scope;
        source_address = source_address;
        destination_address = destination_address;
        source = source;
        destination = destination;
        amount = n;
        transaction_id = id;
        from_is = from_is;
        to_is = to_is;
        differ = ne_of_text_eq _ _ (passed _ _ different);
        source_found = source_found;
        destination_found = destination_found;
        amount_is = (positive, text);
        posted = rw (← same) posted;
      }
