-- ===== src/Web/Requests/Quoted.antt =====
-- What a shell makes of the command that the console shows.
use lux_ledger_demo.Common.{
  ℕ, ◌≡◌, refl, false, Bool-cases, ◌==◌, ==_iff, inl, inr, [], ◌∷◌, ◌++◌, append_assoc, All-append,
  Lacks, Text, arith,
}
use lux_ledger_demo.Web.Requests.{quote, replace_quotes, shell_single_quote}

-- The quoting of the POSIX shell: within single quotes all stands for itself; within double quotes
-- what is none of the dollar, the backquote, the backslash and the double quote does; and
-- quoted parts that touch make one word.
pub data Reads : Text → Text → Type 0 where
  nothing : Reads [] []
  single :
      {t word : Text} (part : Text)
      → Lacks quote part
      → Reads t word
      → Reads (quote ∷ (part ++ quote ∷ t)) (part ++ word)
  double :
      {t word : Text} (c : ℕ)
      → Lacks b'$' (c ∷ []) × Lacks 96 (c ∷ []) × Lacks 92 (c ∷ []) × Lacks 34 (c ∷ [])
      → Reads t word
      → Reads (34 ∷ c ∷ 34 ∷ t) (c ∷ word)

abbrev closed : Text → Text
closed t = replace_quotes t ++ quote ∷ []

quote-safe :
    Lacks b'$' (quote ∷ []) × Lacks 96 (quote ∷ []) × Lacks 92 (quote ∷ []) × Lacks 34 (quote ∷ [])
quote-safe = ((omega arith, tt), (omega arith, tt), (omega arith, tt), (omega arith, tt))

replace_quotes-quote : (t : Text) → closed (quote ∷ t) ≡ quote ∷ 34 ∷ quote ∷ 34 ∷ quote ∷ closed t
unfolding replace_quotes
replace_quotes-quote t = refl

replace_quotes-plain : (c : ℕ) (t : Text) → (c == quote) ≡ false → closed (c ∷ t) ≡ c ∷ closed t
unfolding replace_quotes
replace_quotes-plain c t h = rw h

quoted : (part t : Text) → Lacks quote part → Reads (quote ∷ (part ++ closed t)) (part ++ t)
unfolding replace_quotes
quoted part [] h = single part h nothing
quoted part (c ∷ t) h = elim (Bool-cases (c == quote)) [
  | inl same ↦
      rw ((==_iff c quote).0 same)
        (rw (replace_quotes-quote t) (single part h (double quote quote-safe (quoted [] t tt))))
  | inr other ↦ rw (replace_quotes-plain c t other) (
      rw (← append_assoc part (c ∷ []) (closed t)) (
        rw (← append_assoc part (c ∷ []) t) (
          quoted (part ++ c ∷ []) t
            (All-append _ part (c ∷ []) h ((λ e. ground (arith, ==_iff c quote)), tt)))))
]

-- A shell reads the quoted text as one word, which is the text, whatever characters it has.
pub shell_single_quote-Reads : (t : Text) → Reads (shell_single_quote t) t
unfolding shell_single_quote
shell_single_quote-Reads t = quoted [] t tt
