-- ===== src/Common/Outcome.antt =====
-- What an asynchronous function does: it resolves, it rejects, or, for a loop that is cut off
-- here, it has used up its fuel.
pub mod Rules
use mathlib.Core.Path.{◌≡◌, refl}
use mathlib.Core.Logic.{◌⊎◌, inl, inr}

pub data Outcome (E A : Type 0) : Type 0 where
  done : A → Outcome E A
  raised : E → Outcome E A
  out_of_fuel : Outcome E A

pub Outcome-cases :
    {E A : Type 0} (o : Outcome E A)
    → ((a : A) × (o ≡ done a)) ⊎ ((e : E) × (o ≡ raised e)) ⊎ (o ≡ out_of_fuel)
Outcome-cases (done a) = inl (a, refl)
Outcome-cases (raised e) = inr (inl (e, refl))
Outcome-cases out_of_fuel = inr (inr refl)

-- A function that reads and writes a state; what is written stays written after a rejection.
abbrev pub Action : Type 0 → Type 0 → Type 0 → Type 0
Action S E A = S → Outcome E A × S

module _ {S E : Type 0} where
  unfoldable pub pure : {A : Type 0} → A → Action S E A
  pure a s = (done a, s)

  unfoldable pub raise : {A : Type 0} → E → Action S E A
  raise e s = (raised e, s)

  -- What only reads the state.
  unfoldable pub reads : {A : Type 0} → (S → Outcome E A) → Action S E A
  reads f s = (f s, s)

  infixl 5 ◌>>=◌
  -- Opening this opens `pure`, `raise` and `reads` too.
  unfoldable pub ◌>>=◌ : {A B : Type 0} → Action S E A → (A → Action S E B) → Action S E B
  unfolding pure raise reads
  ◌>>=◌ m k s =
      let (r, s') = m s in
      elim r [ done a ↦ k a s' | raised e ↦ (raised e, s') | out_of_fuel ↦ (out_of_fuel, s') ]
