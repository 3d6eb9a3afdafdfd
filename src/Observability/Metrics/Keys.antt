-- ===== src/Observability/Metrics/Keys.antt =====
-- The keys of the stores tell the series apart.
use lux_ledger_demo.Common.{
  ℕ, ◌≡◌, refl, sym, ap, ◌∙◌, ◌≢◌, Bool, true, [], ◌∷◌, ◌++◌, arith, Text, codes, Lacks, All-append,
  every,
}
use lux_ledger_demo.Common.Decimal.{is_digit, print, value, print-IsPrint}
use lux_ledger_demo.Observability.Metrics.Store.{sort, insert_sorted, request_labels, canonical_key}

cons_tail : {c d : ℕ} {s t : Text} → ◌≡◌ {A = Text} (c ∷ s) (d ∷ t) → s ≡ t
cons_tail e = ground arith

Lacks-cut : (r s : Text) → ¬ (Lacks 0 (r ++ 0 ∷ s))
Lacks-cut [] s (n, h) = n refl
Lacks-cut (c ∷ r) s (n, h) = Lacks-cut r s h

-- A text is cut in one way at its last zero unit.
cut-injective :
    (r r' s s' : Text) → Lacks 0 s → Lacks 0 s' → r ++ 0 ∷ s ≡ r' ++ 0 ∷ s' → (r ≡ r') × (s ≡ s')
cut-injective [] [] s s' h h' e = ground arith
cut-injective [] (c ∷ r') s s' h h' e = absurd (Lacks-cut r' s' (rw (cons_tail e) at h))
cut-injective (c ∷ r) [] s s' h h' e = absurd (Lacks-cut r s (rw (cons_tail (sym e)) at h'))
cut-injective (c ∷ r) (d ∷ r') s s' h h' e =
    let (same, rest) = cut-injective r r' s s' h h' (cons_tail e) in (ground arith, rest)

digits-Lacks : (t : Text) → every is_digit t ≡ true → Lacks 0 t
digits-Lacks [] h = tt
digits-Lacks (c ∷ t) h = (ground arith, digits-Lacks t (ground arith))

print-injective : (m n : ℕ) → print m ≡ print n → m ≡ n
print-injective m n e = sym (print-IsPrint m).value_is ∙ ap value e ∙ (print-IsPrint n).value_is

abbrev status_part : ℕ → Text
status_part status = codes "status=" ++ print status

status_part-Lacks : (status : ℕ) → Lacks 0 (status_part status)
status_part-Lacks status =
    All-append (λ c. c ≢ 0) (codes "status=") (print status) (omega arith)
      (digits-Lacks (print status) (print-IsPrint status).digits)

append-injective : (p s t : Text) → p ++ s ≡ p ++ t → s ≡ t
append-injective [] s t e = e
append-injective (c ∷ p) s t e = append-injective p s t (cons_tail e)

module _ (precedes : Text → Text → Bool)
    (in_order : precedes (codes "route") (codes "status") ≡ true) where
  request_key :
      (route : Text) (status : ℕ)
      → canonical_key precedes (request_labels route status)
        ≡ codes "route=" ++ (route ++ 0 ∷ status_part status)
  unfolding canonical_key sort insert_sorted
  request_key route status = rw (in_order)

  -- Where 'route' sorts before 'status', two requests have one key only if they have the same
  -- route and the same status, whatever characters the routes hold.
  pub request_key-injective :
      (route route' : Text) (status status' : ℕ)
      → canonical_key precedes (request_labels route status)
        ≡ canonical_key precedes (request_labels route' status')
      → (route ≡ route') × (status ≡ status')
  request_key-injective route route' status status' e =
      let e' = sym (request_key route status) ∙ e ∙ request_key route' status' in
      let (same_route, same_status) =
        cut-injective route route' (status_part status) (status_part status')
          (status_part-Lacks status) (status_part-Lacks status')
          (append-injective (codes "route=") _ _ e') in
      (
        same_route,
        print-injective status status' (append-injective (codes "status=") _ _ same_status),
      )
