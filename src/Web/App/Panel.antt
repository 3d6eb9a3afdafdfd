-- ===== src/Web/App/Panel.antt =====
-- `ReadPanel` of apps/web/src/App.tsx: a table that is read page by page.
pub mod Paged
use lux_ledger_demo.Common.{
  ℕ, Bool, true, false, not, ◌&&◌, Option, none, some, List, [], ◌∷◌, Text, text_eq, Dict, insert,
  codes, is_empty, filter, if◌then◌else◌,
}
use lux_ledger_demo.Common.Json.{
  Json, null, bool, num, str, arr, obj, Items, nil, cons, Fields, end, field, fields,
}
use lux_ledger_demo.Web.App.Execute.{as_object, text_at}

-- A URL of the console's own origin: its path and its parameters.
pub record Target : Type 0 where
  pub pathname : Text
  pub params : Dict Text

pub record Panel : Type 0 where
  pub url : Target
  pub result : Json
  pub where_ : Text
  pub continuation : Option Target

-- What the effect on [path] makes of the panel.
unfoldable pub opened : Target → Panel
opened path = record { url = path; result = null; where_ = codes "{}"; continuation = none }

-- A change of the URL or of the filter ends the pages.
unfoldable pub set_url : Target → Panel → Panel
set_url url p = record p { url = url; continuation = none }

unfoldable pub set_where : Text → Panel → Panel
set_where filter p = record p { where_ = filter; continuation = none }

unfoldable pub delete : Text → Dict Text → Dict Text
delete key [] = []
delete key ((k, v) ∷ params) =
    let rest = delete key params in if text_eq k key then rest else (k, v) ∷ rest

-- Object.keys(filter).length, whether it is not 0; none, where it throws.
abbrev pub has_keys : Json → Option Bool
has_keys null = none
has_keys (bool b) = some false
has_keys (num n) = some false
has_keys (str t) = some (not (is_empty t))
has_keys (arr nil) = some false
has_keys (arr (cons _ _)) = some true
has_keys (obj end) = some false
has_keys (obj (field _ _ _)) = some true

abbrev pub error_result : Json
error_result = obj (fields ((codes "error", str (codes "Invalid filter")) ∷ []))

-- `parse` is JSON.parse, `stringify` is JSON.stringify.
module _ (parse : Text → Option Json) (stringify : Json → Text) where
  abbrev pub filtered : Target → Json → Bool → Target
  filtered url filter given = record url {
    params = delete (codes "cursor") (
        if given
        then insert (codes "where") (stringify filter) url.params
        else delete (codes "where") url.params);
  }

  -- The request of a first page: the filter of the panel, and no cursor.
  unfoldable pub first_target : Panel → Option Target
  first_target p = elim (parse p.where_) [
    | none ↦ none
    | some filter ↦ elim (has_keys filter) [
      | none ↦ none
      | some given ↦ some (filtered p.url filter given)
    ]
  ]

  -- The request of `load`; none, where an error is shown instead.
  unfoldable pub target : Bool → Panel → Option Target
  target next p =
      if next then elim p.continuation [ some t ↦ some t | none ↦ some p.url ] else first_target p

-- The rest of `load`; `value` is none where `execute` gave nothing.
unfoldable pub loaded : Target → Option Json → Panel → Panel
loaded t none p = p
loaded t (some value) p = record p {
  result = value;
  continuation = elim (text_at (codes "next_cursor") (as_object value)) [
    | none ↦ none
    | some cursor ↦ some (record t { params = insert (codes "cursor") cursor t.params })
  ];
}

unfoldable pub not_loaded : Panel → Panel
not_loaded p = record p { result = error_result }
