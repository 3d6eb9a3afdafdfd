-- ===== src/Start.antt =====
-- The settings of the process itself, apps/api/src/index.ts.
pub mod Shutdown
pub mod Scripts
pub mod Run
pub mod Migrations
mod Tests
use lux_ledger_demo.Common.{
  ℕ, ◌≡◌, refl, ◌↔◌, ◌⊎◌, inl, inr, Bool, Option, none, some, arith, Text, codes, if◌then◌else◌,
  Option-cases,
}
use lux_ledger_demo.Common.Int.{ℤ, pos, leb_ℤ, ◌≤ℤ◌}
use lux_ledger_demo.Config.{ConfigError, out_of_range, Read, read, failed}

-- The double Number(text), where Number.isInteger holds of it.
module _ (to_integer : Text → Option ℤ) where
  unfoldable pub parse_port : Option Text → Read ℤ
  parse_port none = read (pos 3000)
  parse_port (some value) = elim (to_integer value) [
    | none ↦ failed (out_of_range (codes "PORT"))
    | some port ↦ if leb_ℤ port (pos 0) then failed (out_of_range (codes "PORT")) else read port
  ]

  unfoldable pub parse_shutdown_timeout : Option Text → Read ℤ
  parse_shutdown_timeout none = read (pos 10_000)
  parse_shutdown_timeout (some value) = elim (to_integer value) [
    | none ↦ failed (out_of_range (codes "SHUTDOWN_TIMEOUT_MS"))
    | some timeout ↦
        if leb_ℤ timeout (pos 0)
        then failed (out_of_range (codes "SHUTDOWN_TIMEOUT_MS"))
        else read timeout
  ]

  -- What a setting gives: its default if it is absent, else its text's positive integer.
  abbrev pub IsSetting : ℕ → Option Text → ℤ → Type 0
  IsSetting default_value value n =
      ((value ≡ none) × (n ≡ pos default_value))
      ⊎ ((t : Text) × (value ≡ some t) × (to_integer t ≡ some n) × (pos 1 ≤ℤ n))

  parse_port_given :
      (value : Option Text) (n : ℤ) → parse_port value ≡ read n → IsSetting 3000 value n
  unfolding parse_port
  parse_port_given none n e = inl (refl, ground arith)
  parse_port_given (some t) n e = elim (Option-cases (to_integer t)) [
    | inl missing_ ↦ ground arith
    | inr (m, found) ↦ inr (t, refl, ground arith, ground arith)
  ]

  parse_port_taken :
      (value : Option Text) (n : ℤ) → IsSetting 3000 value n → parse_port value ≡ read n
  unfolding parse_port
  parse_port_taken value n (inl (absent, same)) = rw (absent, same) refl
  parse_port_taken value n (inr (t, given, found, positive)) = rw given (ground arith)

  parse_shutdown_timeout_given :
      (value : Option Text) (n : ℤ)
      → parse_shutdown_timeout value ≡ read n
      → IsSetting 10_000 value n
  unfolding parse_shutdown_timeout
  parse_shutdown_timeout_given none n e = inl (refl, ground arith)
  parse_shutdown_timeout_given (some t) n e = elim (Option-cases (to_integer t)) [
    | inl missing_ ↦ ground arith
    | inr (m, found) ↦ inr (t, refl, ground arith, ground arith)
  ]

  parse_shutdown_timeout_taken :
      (value : Option Text) (n : ℤ)
      → IsSetting 10_000 value n
      → parse_shutdown_timeout value ≡ read n
  unfolding parse_shutdown_timeout
  parse_shutdown_timeout_taken value n (inl (absent, same)) = rw (absent, same) refl
  parse_shutdown_timeout_taken value n (inr (t, given, found, positive)) = rw given (ground arith)

  -- The port and the time for shutdown are read exactly if the setting is absent, and then are
  -- 3000 and 10000, or its text is that of a positive integer, and then are this integer.
  pub settings_iff :
      (value : Option Text) (n : ℤ)
      → ((parse_port value ≡ read n) ↔ IsSetting 3000 value n)
        × ((parse_shutdown_timeout value ≡ read n) ↔ IsSetting 10_000 value n)
  settings_iff value n = (
    (parse_port_given value n, parse_port_taken value n),
    (parse_shutdown_timeout_given value n, parse_shutdown_timeout_taken value n),
  )
