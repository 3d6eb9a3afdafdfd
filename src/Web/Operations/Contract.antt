-- ===== src/Web/Operations/Contract.antt =====
-- The types of the requests in apps/web/src/generated-contract.ts, as values: which JSON a type
-- lets through. An object has no property but those of its type.
use lux_ledger_demo.Common.{
  Bool, true, false, ◌&&◌, ◌||◌, none, some, List, [], ◌∷◌, any, Text, text_eq, codes,
}
use lux_ledger_demo.Common.Json.{
  Json, null, bool, num, str, arr, obj, Items, nil, cons, Fields, end, field, get_field,
}

mutual
  pub data Shape : Type 0 where
    string number boolean json_object : Shape
    one_of : List Text → Shape
    array_of : Shape → Shape
    nullable : Shape → Shape
    object_of : Members → Shape

  pub data Members : Type 0 where
    no_more : Members
    required : Text → Shape → Members → Members
    optional : Text → Shape → Members → Members

unfoldable pub is_member : Text → Members → Bool
is_member key no_more = false
is_member key (required name s ms) = text_eq key name || is_member key ms
is_member key (optional name s ms) = text_eq key name || is_member key ms

unfoldable pub only_members : Members → Fields → Bool
only_members ms end = true
only_members ms (field key v fs) = is_member key ms && only_members ms fs

abbrev pub every_item : (Json → Bool) → Items → Bool
every_item p nil = true
every_item p (cons v vs) = p v && every_item p vs

unfoldable mutual
  pub conforms : Shape → Json → Bool
  conforms string (str t) = true
  conforms number (num n) = true
  conforms boolean (bool b) = true
  conforms json_object (obj fs) = true
  conforms (one_of ts) (str t) = any (text_eq t) ts
  conforms (array_of s) (arr vs) = every_item (conforms s) vs
  conforms (nullable s) null = true
  conforms (nullable s) (bool b) = conforms s (bool b)
  conforms (nullable s) (num n) = conforms s (num n)
  conforms (nullable s) (str t) = conforms s (str t)
  conforms (nullable s) (arr vs) = conforms s (arr vs)
  conforms (nullable s) (obj fs) = conforms s (obj fs)
  conforms (object_of ms) (obj fs) = has_members ms fs && only_members ms fs
  conforms _ _ = false

  pub has_members : Members → Fields → Bool
  has_members no_more fs = true
  has_members (required name s ms) fs =
      elim (get_field name fs) [ none ↦ false | some v ↦ conforms s v ] && has_members ms fs
  has_members (optional name s ms) fs =
      elim (get_field name fs) [ none ↦ true | some v ↦ conforms s v ] && has_members ms fs

abbrev two_members : Text → Text → Members → Members
two_members a b ms = required a string (required b string ms)

abbrev pub create_ledger_request : Shape
create_ledger_request = object_of (required (codes "name") string no_more)

abbrev pub transaction_entry_request : Shape
transaction_entry_request = object_of (
    two_members (codes "account_id") (codes "signed_amount_minor")
      (required (codes "currency") string no_more))

abbrev pub entry_list : Members → Members
entry_list ms = required (codes "entries") (array_of transaction_entry_request) ms

abbrev pub create_transaction_request : Shape
create_transaction_request = object_of (
    two_members (codes "ledger_id") (codes "reference") (
      required (codes "currency") string (
        optional (codes "description") string (
          optional (codes "metadata") json_object
            (optional (codes "effective_at") string (entry_list no_more))))))

abbrev pub bulk_create_transaction_request : Shape
bulk_create_transaction_request =
    object_of (required (codes "transactions") (array_of create_transaction_request) no_more)

abbrev pub reverse_transaction_request : Shape
reverse_transaction_request =
    object_of (required (codes "reference") string (optional (codes "description") string no_more))

abbrev pub correct_transaction_request : Shape
correct_transaction_request = object_of (
    two_members (codes "reversal_reference") (codes "corrected_reference")
      (optional (codes "description") string (entry_list no_more)))

abbrev pub create_account_request : Shape
create_account_request = object_of (
    required (codes "ledger_id") string (
      optional (codes "code") string (
        required (codes "name") string (
          required (codes "side") (one_of (codes "DEBIT" ∷ codes "CREDIT" ∷ [])) (
            optional (codes "overdraft_policy") (one_of (codes "ALLOW" ∷ codes "DISALLOW" ∷ [])) (
              optional (codes "grant_enabled") boolean
                (required (codes "currency") string no_more)))))))

abbrev pub create_hold_request : Shape
create_hold_request = object_of (
    two_members (codes "ledger_id") (codes "reference") (
      required (codes "currency") string
        (optional (codes "description") string (entry_list no_more))))

abbrev pub commit_hold_request : Shape
commit_hold_request =
    object_of (required (codes "reference") string (optional (codes "amount_minor") string no_more))

abbrev pub create_credit_grant_request : Shape
create_credit_grant_request = object_of (
    two_members (codes "ledger_id") (codes "account_id") (
      two_members (codes "funding_account_id") (codes "reference") (
        optional (codes "external_reference") string
          (required (codes "amount_minor") string (optional (codes "expires_at") string no_more)))))

abbrev pub reverse_credit_grant_request : Shape
reverse_credit_grant_request = object_of (required (codes "reference") string no_more)

abbrev pub refund_credit_grant_request : Shape
refund_credit_grant_request =
    object_of (two_members (codes "reference") (codes "amount_minor") no_more)

abbrev pub process_credit_grant_expirations_request : Shape
process_credit_grant_expirations_request =
    object_of (required (codes "as_of") string (required (codes "limit") number no_more))

abbrev pub create_adjustment_request : Shape
create_adjustment_request = object_of (
    two_members (codes "ledger_id") (codes "account_id") (
      two_members (codes "offset_account_id") (codes "reference") (
        two_members (codes "amount_minor") (codes "description") (
          two_members (codes "reason_code") (codes "actor_id")
            (optional (codes "attributes") json_object no_more)))))

abbrev pub reconciliation_criterion : Shape
reconciliation_criterion = object_of (
    required (codes "field")
      (one_of (
        codes "amount"
        ∷ codes "currency"
        ∷ codes "date"
        ∷ codes "reference"
        ∷ codes "description"
        ∷ []))
      (required (codes "operator") (one_of (codes "equals" ∷ codes "contains" ∷ [])) (
        optional (codes "amount_tolerance_minor") string
          (optional (codes "date_tolerance_seconds") number no_more))))

abbrev pub create_reconciliation_matching_rule_request : Shape
create_reconciliation_matching_rule_request = object_of (
    required (codes "name") string (
      optional (codes "description") string
        (required (codes "criteria") (array_of reconciliation_criterion) no_more)))

-- An element of IngestExternalRecordsRequest["records"].
abbrev pub external_record_request : Shape
external_record_request = object_of (
    two_members (codes "id") (codes "amount_minor") (
      two_members (codes "currency") (codes "reference") (
        optional (codes "description") (nullable string) (
          required (codes "date") string (optional (codes "raw") (nullable json_object) no_more)))))

abbrev pub ingest_external_records_request : Shape
ingest_external_records_request = object_of (
    required (codes "source") string
      (required (codes "records") (array_of external_record_request) no_more))

abbrev pub run_reconciliation_request : Shape
run_reconciliation_request = object_of (
    two_members (codes "ledger_id") (codes "upload_id") (
      required (codes "strategy") (one_of (codes "one_to_one" ∷ [])) (
        required (codes "matching_rule_ids") (array_of string)
          (optional (codes "dry_run") boolean no_more))))
