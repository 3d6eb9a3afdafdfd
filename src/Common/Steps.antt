-- ===== src/Common/Steps.antt =====
-- Systems given by a relation of single steps.
-- What is reached by any number of steps.
pub data Star {S : Type 0} (R : S → S → Type 0) : S → S → Type 0 where
  stay : (s : S) → Star R s s
  then_step : (s t u : S) → Star R s t → R t u → Star R s u

-- What each step keeps, a run keeps.
pub Star-keeps :
    {S : Type 0} {R : S → S → Type 0} (P : S → Type 0)
    → ((s t : S) → R s t → P s → P t)
    → (s t : S) → Star R s t
    → P s
    → P t
Star-keeps P keep _ _ (stay s) h = h
Star-keeps P keep _ _ (then_step s t u run r) h = keep t u r (Star-keeps P keep s t run h)
