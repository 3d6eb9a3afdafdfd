-- ===== src/Demo/Input.antt =====
-- What the demo's input must look like: `normalizeAddress` and `parseAmount` of
-- apps/api/src/demo/demo-service.ts.
pub mod Laws
pub mod Spelling
use lux_ledger_demo.Common.{
  ℕ, ltb, ◌==◌, Bool, true, false, not, ◌&&◌, ◌||◌, List, [], ◌∷◌, Text, text_eq, codes, trim,
  split_on, length, every, leb, if◌then◌else◌,
}
use lux_ledger_demo.Common.Int.{ℤ, pos}
use lux_ledger_demo.Common.Decimal.{is_digit, is_positive_decimal, value}
use lux_ledger_demo.Common.Outcome.{Outcome, done, raised}
use lux_ledger_demo.Api.Errors.{Thrown}

-- What the demo throws: a DemoInputError, a DemoNotReadyError, an Error, or what the ledger package
-- threw.
pub data Failure : Type 0 where
  input : Text → Failure
  not_ready : Failure
  error : Text → Failure
  service : Thrown → Failure

abbrev pub funding_address : Text
funding_address = codes "system:funding"

abbrev is_lower : ℕ → Bool
is_lower c = leb b'a' c && leb c b'z'

-- [a-z][a-z0-9]* and [a-z][a-z0-9-]*
abbrev is_head_word : Text → Bool
is_head_word [] = false
is_head_word (c ∷ t) = is_lower c && every (λ d. is_lower d || is_digit d) t

abbrev is_tail_word : Text → Bool
is_tail_word [] = false
is_tail_word (c ∷ t) = is_lower c && every (λ d. is_lower d || is_digit d || d == b'-') t

abbrev are_words : List Text → Bool
are_words (head ∷ word ∷ words) = is_head_word head && every is_tail_word (word ∷ words)
are_words _ = false

-- ADDRESS_PATTERN.test; no class of the pattern has the colon, so that the colons cut the text.
unfoldable pub matches_address : Text → Bool
matches_address t = are_words (split_on b':' t)

-- What goes by the tables of Unicode and of languages: toLowerCase, and whether a.localeCompare(b)
-- is at most 0.
pub record Locale : Type 0 where
  pub to_lower : Text → Text
  pub precedes : Text → Text → Bool

module _ (locale : Locale) where
  unfoldable pub normalize_address : Text → Outcome Failure Text
  normalize_address value =
      let address = locale.to_lower (trim value) in
      if not (matches_address address) || ltb 80 (length address)
      then raised (input (codes "Address must look like wallet:alice"))
      else if text_eq address funding_address
      then raised (input (codes "The system funding account is reserved"))
      else done address

unfoldable pub parse_amount : Text → Outcome Failure ℤ
parse_amount t =
    if not (is_positive_decimal t)
    then raised (input (codes "amount_minor must be a positive base-10 integer string"))
    else done (pos (value t))
