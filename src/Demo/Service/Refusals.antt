-- ===== src/Demo/Service/Refusals.antt =====
-- Actions that reject their input, one rule for each way to build an action.
use lux_ledger_demo.Common.{◌≡◌, refl, ◌∙◌, ◌≢◌, Text}
use lux_ledger_demo.Common.Outcome.{Outcome, done, raised, out_of_fuel, Action, pure, reads, ◌>>=◌}
use lux_ledger_demo.Demo.Input.{Failure, input}

module _ {S : Type 0} where
  pub record IsStill {A : Type 0} (m : Action S Failure A) : Type 0 where
    pub at : (s : S) → (m s).1 ≡ s

  -- `m` never blames its input.
  pub record NeverInput {A : Type 0} (m : Action S Failure A) : Type 0 where
    pub at : (s : S) (e : Text) → (m s).0 ≢ raised (input e)

  -- Where `m` blames its input, the state is as it was.
  pub record Refuses {A : Type 0} (m : Action S Failure A) : Type 0 where
    pub at : (s : S) (e : Text) → (m s).0 ≡ raised (input e) → (m s).1 ≡ s

  module _ {A : Type 0} where
    pub NeverInput-pure : (a : A) → NeverInput (pure a)
    unfolding pure
    NeverInput-pure a = record { at = λ s e h. cc }

    pub NeverInput-reads :
        (f : S → Outcome Failure A)
        → ((s : S) (e : Text) → f s ≢ raised (input e))
        → NeverInput (reads f)
    unfolding reads
    NeverInput-reads f never = record { at = never }

    pub Refuses-reads : (f : S → Outcome Failure A) → Refuses (reads f)
    unfolding reads
    Refuses-reads f = record { at = λ s e h. refl }

    pub Refuses-never : (m : Action S Failure A) → NeverInput m → Refuses m
    Refuses-never m never = record { at = λ s e h. absurd (never.at s e h) }

  module _ {A B : Type 0} where
    never_rest :
        (r : Outcome Failure A) (s : S) (e : Text) (k : A → Action S Failure B)
        → r ≢ raised (input e)
        → ((a : A) → NeverInput (k a))
        → (((λ (_ : S). (r, s)) >>= k) s).0 ≢ raised (input e)
    unfolding ◌>>=◌
    never_rest (done a) s e k first rest = (rest a).at s e
    never_rest (raised x) s e k first rest = λ h. first (cc)
    never_rest out_of_fuel s e k first rest = λ h. cc

    pub NeverInput-bind :
        (m : Action S Failure A) (k : A → Action S Failure B)
        → NeverInput m
        → ((a : A) → NeverInput (k a))
        → NeverInput (m >>= k)
    unfolding ◌>>=◌
    NeverInput-bind m k first rest = record {
      at = λ s e. never_rest (m s).0 (m s).1 e k (first.at s e) rest;
    }

    refuses_rest :
        (r : Outcome Failure A) (s s' : S) (e : Text) (k : A → Action S Failure B)
        → (r ≡ raised (input e) → s' ≡ s)
        → ((a : A) → (k a s').0 ≡ raised (input e) → (k a s').1 ≡ s)
        → (((λ (_ : S). (r, s')) >>= k) s).0 ≡ raised (input e)
        → (((λ (_ : S). (r, s')) >>= k) s).1 ≡ s
    unfolding ◌>>=◌
    refuses_rest (done a) s s' e k first rest h = rest a h
    refuses_rest (raised x) s s' e k first rest h = first (cc)
    refuses_rest out_of_fuel s s' e k first rest h = cc

    -- What follows a write must not blame the input.
    pub Refuses-bind :
        (m : Action S Failure A) (k : A → Action S Failure B)
        → Refuses m
        → ((a : A) → NeverInput (k a))
        → Refuses (m >>= k)
    unfolding ◌>>=◌
    Refuses-bind m k first rest = record {
      at = λ s e.
          refuses_rest (m s).0 s (m s).1 e k (first.at s e)
            (λ a h. absurd ((rest a).at (m s).1 e h));
    }

    pub Refuses-bind_still :
        (m : Action S Failure A) (k : A → Action S Failure B)
        → IsStill m
        → ((a : A) → Refuses (k a))
        → Refuses (m >>= k)
    unfolding ◌>>=◌
    Refuses-bind_still m k still rest = record {
      at = λ s e.
          refuses_rest (m s).0 s (m s).1 e k (λ _. still.at s)
            (λ a h. (rest a).at (m s).1 e h ∙ still.at s);
    }

    pub Refuses-bind_reads :
        (f : S → Outcome Failure A) (k : A → Action S Failure B)
        → ((a : A) → Refuses (k a))
        → Refuses (reads f >>= k)
    unfolding reads
    Refuses-bind_reads f k rest = Refuses-bind_still (reads f) k (record { at = λ s. refl }) rest

pub ruleset refusal_rules = (
  NeverInput-pure, NeverInput-reads, NeverInput-bind, Refuses-reads, Refuses-never, Refuses-bind,
  Refuses-bind_still, Refuses-bind_reads,
)
