-- ===== src/Web/Requests/Redacted.antt =====
-- What is left of a response in the journal of requests.
use lux_ledger_demo.Common.{◌≡◌, refl, ap, ◌⊎◌, inl, inr, false, Bool-cases}
use lux_ledger_demo.Common.Json.{
  Json, null, bool, num, str, arr, obj, Items, nil, cons, Fields, end, field,
}
use lux_ledger_demo.Web.Requests.{is_secret, redacted, redact, redact_items, redact_fields}

-- At every depth, the value at a secret's name says only that it was removed.
unfoldable mutual
  pub IsRedacted : Json → Type 0
  IsRedacted null = Unit
  IsRedacted (bool b) = Unit
  IsRedacted (num n) = Unit
  IsRedacted (str t) = Unit
  IsRedacted (arr xs) = AreRedacted xs
  IsRedacted (obj fs) = HasRedacted fs

  pub AreRedacted : Items → Type 0
  AreRedacted nil = Unit
  AreRedacted (cons x xs) = IsRedacted x × AreRedacted xs

  pub HasRedacted : Fields → Type 0
  HasRedacted end = Unit
  HasRedacted (field key child fs) =
      ((child ≡ redacted) ⊎ (is_secret key ≡ false) × IsRedacted child) × HasRedacted fs

mutual
  unfolding redact IsRedacted

  cleaned : (j : Json) → IsRedacted (redact j)
  cleaned null = tt
  cleaned (bool b) = tt
  cleaned (num n) = tt
  cleaned (str t) = tt
  cleaned (arr xs) = cleaned_items xs
  cleaned (obj fs) = cleaned_fields fs

  cleaned_items : (xs : Items) → AreRedacted (redact_items xs)
  cleaned_items nil = tt
  cleaned_items (cons x xs) = (cleaned x, cleaned_items xs)

  cleaned_fields : (fs : Fields) → HasRedacted (redact_fields fs)
  cleaned_fields end = tt
  cleaned_fields (field key child fs) = elim (Bool-cases (is_secret key)) [
    | inl secret ↦ (rw secret (inl refl), cleaned_fields fs)
    | inr plain ↦ (rw plain (inr (refl, cleaned child)), cleaned_fields fs)
  ]

mutual
  unfolding redact IsRedacted

  kept : (j : Json) → IsRedacted j → redact j ≡ j
  kept null h = refl
  kept (bool b) h = refl
  kept (num n) h = refl
  kept (str t) h = refl
  kept (arr xs) h = ap arr (kept_items xs h)
  kept (obj fs) h = ap obj (kept_fields fs h)

  kept_items : (xs : Items) → AreRedacted xs → redact_items xs ≡ xs
  kept_items nil h = refl
  kept_items (cons x xs) h = rw (kept x h.0, kept_items xs h.1)

  kept_fields : (fs : Fields) → HasRedacted fs → redact_fields fs ≡ fs
  kept_fields end h = refl
  kept_fields (field key child fs) (inl e, h) = elim (Bool-cases (is_secret key)) [
    | inl secret ↦ rw (secret, kept_fields fs h, e)
    | inr plain ↦ rw (plain, kept_fields fs h, e)
  ]
  kept_fields (field key child fs) (inr (plain, c), h) = rw (plain, kept child c, kept_fields fs h)

-- What is recorded of a response holds nothing at a secret's name, at any depth, but the mark; a
-- response that holds no such secret is recorded as it is, and so is one that was redacted.
pub redact-IsRedacted :
    (j k : Json)
    → IsRedacted k
    → IsRedacted (redact j) × (redact k ≡ k) × (redact (redact j) ≡ redact j)
redact-IsRedacted j k h = (cleaned j, kept k h, kept (redact j) (cleaned j))
