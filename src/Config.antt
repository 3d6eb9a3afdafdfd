-- ===== src/Config.antt =====
-- The reading of settings from the environment: apps/api/src/utils/parse-integer-with-range.ts and
-- what the readers of settings share.
use lux_ledger_demo.Common.{
  ◌≡◌, refl, ◌⊎◌, Bool, false, Option, none, some, arith, Text, if◌then◌else◌, inl, inr,
}
use lux_ledger_demo.Common.Int.{ℤ, ltb_ℤ, ◌≤ℤ◌}

-- What a reader of settings throws; `Text` is the name of the setting.
pub data ConfigError : Type 0 where
  missing weak_key out_of_range : Text → ConfigError
  empty_entries includes_signing_key duplicate_keys : ConfigError

pub data Read {ℓ} (A : Type ℓ) : Type ℓ where
  read : A → Read A
  failed : ConfigError → Read A

pub Read-cases {ℓ} :
    {A : Type ℓ} (r : Read A) → ((a : A) × (r ≡ read a)) ⊎ ((e : ConfigError) × (r ≡ failed e))
Read-cases (read a) = inl (a, refl)
Read-cases (failed e) = inr (e, refl)

infixl 5 ◌>>=◌
abbrev pub ◌>>=◌ {ℓ κ} : {A : Type ℓ} {B : Type κ} → Read A → (A → Read B) → Read B
read a >>= k = k a
failed e >>= k = failed e

-- process.env
abbrev pub ProcessEnv : Type 0
ProcessEnv = Text → Option Text

pub record ParseIntegerWithinRangeOptions : Type 0 where
  pub default_value : ℤ
  pub min_value : Option ℤ
  pub max_value : Option ℤ
  pub error : ConfigError

abbrev is_below : ℤ → Option ℤ → Bool
is_below n none = false
is_below n (some bound) = ltb_ℤ n bound

abbrev is_above : ℤ → Option ℤ → Bool
is_above n none = false
is_above n (some bound) = ltb_ℤ bound n

-- The double Number(text), where Number.isInteger holds of it.
module _ (to_integer : Text → Option ℤ) where
  unfoldable pub parse_integer_within_range : Option Text → ParseIntegerWithinRangeOptions → Read ℤ
  parse_integer_within_range none options = read options.default_value
  parse_integer_within_range (some value) options = elim (to_integer value) [
    | none ↦ failed options.error
    | some parsed ↦
        if is_below parsed options.min_value
        then failed options.error
        else if is_above parsed options.max_value
        then failed options.error
        else read parsed
  ]

  -- Between bounds that hold the default, what is read is between the bounds.
  pub parse_integer-between :
      (value : Option Text) (low default_value high : ℤ) (error : ConfigError) (n : ℤ)
      → (low ≤ℤ default_value)
      → (default_value ≤ℤ high)
      → parse_integer_within_range value (record {
        default_value = default_value;
        min_value = some low;
        max_value = some high;
        error = error;
      })
        ≡ read n
      → (low ≤ℤ n) × (n ≤ℤ high)
  unfolding parse_integer_within_range
  parse_integer-between none low d high error n h k e = ground arith
  parse_integer-between (some v) low d high error n h k e = ground arith

  -- Above a bound that the default is above, so is what is read.
  pub parse_integer-from :
      (value : Option Text) (low default_value : ℤ) (error : ConfigError) (n : ℤ)
      → (low ≤ℤ default_value)
      → parse_integer_within_range value (record {
        default_value = default_value;
        min_value = some low;
        max_value = none;
        error = error;
      })
        ≡ read n
      → low ≤ℤ n
  unfolding parse_integer_within_range
  parse_integer-from none low d error n h e = ground arith
  parse_integer-from (some v) low d error n h e = ground arith
