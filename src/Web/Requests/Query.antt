-- ===== src/Web/Requests/Query.antt =====
-- `query` of apps/web/src/api.ts: a path with parameters.
use lux_ledger_demo.Common.{
  Bool, false, not, Option, none, some, List, [], ◌∷◌, ◌++◌, Text, is_empty, if◌then◌else◌,
}

-- value !== undefined && value !== ''
abbrev pub is_given : Option Text → Bool
is_given none = false
is_given (some value) = not (is_empty value)

abbrev text_of : Option Text → Text
text_of none = []
text_of (some value) = value

-- `encode` writes a name or a value as URLSearchParams does; the names of one call differ.
module _ (encode : Text → Text) where
  unfoldable pub pairs : List (Text × Option Text) → List Text
  pairs [] = []
  pairs ((key, value) ∷ values) =
      let rest = pairs values in
      if is_given value then (encode key ++ b'=' ∷ encode (text_of value)) ∷ rest else rest

  unfoldable pub joined : List Text → Text
  joined [] = []
  joined (p ∷ []) = p
  joined (p ∷ q ∷ ps) = p ++ b'&' ∷ joined (q ∷ ps)

  unfoldable pub query : Text → List (Text × Option Text) → Text
  query path values = elim (pairs values) [ [] ↦ path | p ∷ ps ↦ path ++ b'?' ∷ joined (p ∷ ps) ]
