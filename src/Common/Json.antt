-- ===== src/Common/Json.antt =====
-- The values that JSON.parse returns, and the reading of a property. Numbers are whole: the
-- program's own payloads hold no fractions.
use mathlib.Core.Option.{Option, none, some}
use mathlib.Core.Bool.{Bool}
use mathlib.Core.List.{List, [], ◌∷◌}
use lux_ledger_demo.Common.Tests.{if◌then◌else◌}
use lux_ledger_demo.Common.Texts.{Text, text_eq}
use lux_ledger_demo.Common.Int.{ℤ}

mutual
  pub data Json : Type 0 where
    null : Json
    bool : Bool → Json
    num : ℤ → Json
    str : Text → Json
    arr : Items → Json
    obj : Fields → Json

  pub data Items : Type 0 where
    nil : Items
    cons : Json → Items → Items

  pub data Fields : Type 0 where
    end : Fields
    field : Text → Json → Fields → Fields

unfoldable pub get_field : Text → Fields → Option Json
get_field key end = none
get_field key (field k v fs) = if text_eq k key then some v else get_field key fs

-- v[key] for an object; an array has none of the properties that the program reads.
unfoldable pub property : Text → Json → Option Json
unfolding get_field
property key (obj fs) = get_field key fs
property key _ = none

-- An object literal, and an array literal.
abbrev pub fields : List (Text × Json) → Fields
fields [] = end
fields ((key, v) ∷ rest) = field key v (fields rest)

abbrev pub items : List Json → Items
items [] = nil
items (v ∷ rest) = cons v (items rest)

-- { ...fs, [key]: v }: a key that is there keeps its place.
unfoldable pub set_field : Text → Json → Fields → Fields
set_field key v end = field key v end
set_field key v (field k w fs) =
    let rest = set_field key v fs in if text_eq k key then field k v fs else field k w rest
