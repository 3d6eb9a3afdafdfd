-- ===== src/Web/Display/Balanced.antt =====
-- What the display of an entry tells, and when entries count as balanced.
use lux_ledger_demo.Common.{
  ℕ, zero, suc, ◌≡◌, refl, ap, ◌∙◌, ◌≢◌, ◌↔◌, ◌⊎◌, true, not, inl, inr, Option, none, some, List,
  [], ◌∷◌, map, every, All, arith,
}
use lux_ledger_demo.Common.Int.{ℤ, pos, negsuc, eqb_ℤ, ◌+ℤ◌, negate, eq_of_parts, int_laws}
use lux_ledger_demo.Common.Decimal.{print, print_ℤ}
use lux_ledger_demo.Common.BigInt.{big_int, big_int-print, big_int-print_ℤ}
use lux_ledger_demo.Web.Display.{
  Direction, debit, credit, EntryDisplay, display, to_entry_display, amounts_of, total_from,
  balanced, entries_are_balanced,
}

-- The amount that a display stands for.
abbrev pub signed : EntryDisplay → Option ℤ
signed d = elim (big_int d.magnitude_minor) [
  | none ↦ none
  | some a ↦ some (elim d.direction [ debit ↦ a | credit ↦ negate a ])
]

shown_as : Direction → ℕ → EntryDisplay
shown_as direction n = record { direction = direction; magnitude_minor = print n }

display-debit : (n : ℕ) → display (pos (suc n)) ≡ some (shown_as debit (suc n))
unfolding shown_as
display-debit n = ground arith

negate-negsuc : (n : ℕ) → negate (negsuc n) ≡ pos (suc n)
unfolding negate
negate-negsuc n = ground arith

negate-suc : (n : ℕ) → negate (pos (suc n)) ≡ negsuc n
unfolding negate
negate-suc n = ground arith

display-credit : (n : ℕ) → display (negsuc n) ≡ some (shown_as credit (suc n))
unfolding shown_as
display-credit n = rw negate-negsuc (ground arith)

signed-debit : (n : ℕ) → signed (shown_as debit n) ≡ some (pos n)
unfolding shown_as
signed-debit n = rw (big_int-print n, signed)

signed-credit : (n : ℕ) → signed (shown_as credit n) ≡ some (negate (pos n))
unfolding shown_as
signed-credit n = rw (big_int-print n, signed)

display-shown :
    (z : ℤ)
    → (z ≡ pos 0) × (display z ≡ none)
      ⊎ (d : EntryDisplay) × (display z ≡ some d) × (signed d ≡ some z)
display-shown (pos zero) = inl (refl, refl)
display-shown (pos (suc n)) = inr (shown_as debit (suc n), display-debit n, signed-debit (suc n))
display-shown (negsuc n) =
    inr (shown_as credit (suc n), display-credit n, signed-credit (suc n) ∙ ap some (negate-suc n))

-- An entry of zero has no display; any other has one, from which its amount is read back.
pub to_entry_display-print_ℤ :
    (z : ℤ)
    → (z ≡ pos 0) × (to_entry_display (print_ℤ z) ≡ some none)
      ⊎ (d : EntryDisplay) × (to_entry_display (print_ℤ z) ≡ some (some d)) × (signed d ≡ some z)
unfolding to_entry_display
to_entry_display-print_ℤ z =
    rw (big_int-print_ℤ z, to_entry_display)
      (elim (display-shown z) [
        | inl (e, shown) ↦ inl (e, ap some shown)
        | inr (d, shown, back) ↦ inr (d, ap some shown, back)
      ])

amounts_of-print_ℤ : (zs : List ℤ) → amounts_of (map print_ℤ zs) ≡ some zs
unfolding amounts_of
amounts_of-print_ℤ [] = refl
amounts_of-print_ℤ (z ∷ zs) = ground (arith, big_int-print_ℤ z, amounts_of-print_ℤ zs)

abbrev pub total : List ℤ → ℤ
total [] = pos 0
total (z ∷ zs) = z +ℤ total zs

total_from-eq-total : (z : ℤ) (zs : List ℤ) → total_from z zs ≡ z +ℤ total zs
unfolding total_from
total_from-eq-total z [] = eq_of_parts _ _ (omega int_laws)
total_from-eq-total z (a ∷ zs) = total_from-eq-total (z +ℤ a) zs ∙ eq_of_parts _ _ (omega int_laws)

eqb_ℤ_iff : (a b : ℤ) → (eqb_ℤ a b ≡ true) ↔ (a ≡ b)
eqb_ℤ_iff a b = (λ h. eq_of_parts a b (ground arith), λ e. ground arith)

every_nonzero :
    (zs : List ℤ) → (every (λ a. not (eqb_ℤ a (pos 0))) zs ≡ true) ↔ All (λ z. z ≢ pos 0) zs
every_nonzero [] = (λ _. tt, λ _. refl)
every_nonzero (z ∷ zs) = (
  λ h. (λ e. ground (arith, eqb_ℤ_iff z (pos 0)), (every_nonzero zs).0 (ground arith)),
  λ (nonzero, rest). ground (arith, eqb_ℤ_iff z (pos 0), (every_nonzero zs).1 rest),
)

zero-+ℤ : (z : ℤ) → pos 0 +ℤ z ≡ z
zero-+ℤ z = eq_of_parts _ _ (omega int_laws)

balanced_iff :
    (zs : List ℤ) → (balanced zs ≡ true) ↔ (zs ≢ []) × All (λ z. z ≢ pos 0) zs × (total zs ≡ pos 0)
balanced_iff [] = (λ h. cc, λ (h, _, _). absurd (h refl))
balanced_iff (z ∷ zs) =
    let sum : total_from (pos 0) (z ∷ zs) ≡ total (z ∷ zs) =
      total_from-eq-total (pos 0) (z ∷ zs) ∙ zero-+ℤ (total (z ∷ zs)) in
    rw sum (
      λ h. (
        λ e. cc,
        (every_nonzero (z ∷ zs)).0 (ground arith),
        (eqb_ℤ_iff (total (z ∷ zs)) (pos 0)).0 (ground arith),
      ),
      λ (_, nonzero, zero_sum). ground (
        arith,
        (every_nonzero (z ∷ zs)).1 nonzero,
        (eqb_ℤ_iff (total (z ∷ zs)) (pos 0)).1 zero_sum,
      ),
    )

-- Entries count as balanced exactly when there are some, none is zero, and they sum to zero.
pub entries_are_balanced_iff :
    (zs : List ℤ)
    → (entries_are_balanced (map print_ℤ zs) ≡ some true)
      ↔ (zs ≢ []) × All (λ z. z ≢ pos 0) zs × (total zs ≡ pos 0)
unfolding entries_are_balanced
entries_are_balanced_iff zs =
    rw (amounts_of-print_ℤ zs, entries_are_balanced)
      ((λ h. (balanced_iff zs).0 (ground arith)), (λ h. ap some ((balanced_iff zs).1 h)))
