-- ===== src/Common/Outcome/Rules.antt =====
-- What an action does to the state, one rule for each way to build an action.
use mathlib.Core.Path.{◌≡◌, refl, ap}
use mathlib.Core.Logic.{◌≢◌}
use mathlib.Core.Bool.{Bool, true, false}
use lux_ledger_demo.Common.Tests.{if◌then◌else◌}
use lux_ledger_demo.Common.Outcome.{
  Outcome, done, raised, out_of_fuel, Action, pure, raise, reads, ◌>>=◌,
}

pub pair_eq : {A B : Type 0} {p : A × B} {a : A} {b : B} → p.0 ≡ a → p.1 ≡ b → p ≡ (a, b)
pair_eq e f = λ i. (e i, f i)

pub record IsPreorder {S : Type 0} (R : S → S → Type 0) : Type 0 where
  pub stay : (s : S) → R s s
  pub go_on : (s t u : S) → R s t → R t u → R s u

-- `m` takes each state to one that `R` relates to it, also where it rejects.
pub record Moves {S E A : Type 0} (R : S → S → Type 0) (m : Action S E A) : Type 0 where
  pub at : (s : S) → R s (m s).1

module _ {S E : Type 0} {R : S → S → Type 0} (order : IsPreorder R) where
  pub Moves-pure : {A : Type 0} (a : A) → Moves R (pure {E = E} a)
  unfolding pure
  Moves-pure a = record { at = λ s. order.stay s }

  pub Moves-raise : {A : Type 0} (e : E) → Moves R (raise {A = A} e)
  unfolding raise
  Moves-raise e = record { at = λ s. order.stay s }

  pub Moves-reads : {A : Type 0} (f : S → Outcome E A) → Moves R (reads f)
  unfolding reads
  Moves-reads f = record { at = λ s. order.stay s }

  module _ {A B : Type 0} where
    Moves-rest :
        (r : Outcome E A) (s s' : S) (k : A → Action S E B)
        → R s s'
        → ((a : A) → r ≡ done a → Moves R (k a))
        → R s (((λ (_ : S). (r, s')) >>= k) s).1
    unfolding ◌>>=◌
    Moves-rest (done a) s s' k h rest = order.go_on s s' _ h ((rest a refl).at s')
    Moves-rest (raised e) s s' k h rest = h
    Moves-rest out_of_fuel s s' k h rest = h

    -- What follows may use that the first action gave its argument.
    pub Moves-bind :
        (m : Action S E A) (k : A → Action S E B)
        → Moves R m
        → ((a : A) (s : S) → (m s).0 ≡ done a → Moves R (k a))
        → Moves R (m >>= k)
    unfolding ◌>>=◌
    Moves-bind m k first rest = record {
      at = λ s. Moves-rest (m s).0 s (m s).1 k (first.at s) (λ a e. rest a s e);
    }

    -- What follows a read may use what was read.
    pub Moves-bind_reads :
        (f : S → Outcome E A) (k : A → Action S E B)
        → ((a : A) (s : S) → f s ≡ done a → Moves R (k a))
        → Moves R (reads f >>= k)
    unfolding ◌>>=◌
    Moves-bind_reads f k rest = record {
      at = λ s. Moves-rest (f s) s s k (order.stay s) (λ a e. rest a s e);
    }

  pub Moves-if :
      {A : Type 0} (b : Bool) (m n : Action S E A)
      → Moves R m
      → Moves R n
      → Moves R (if b then m else n)
  Moves-if true m n hm hn = hm
  Moves-if false m n hm hn = hn

module _ {S E A B : Type 0} where
  done_rest :
      (r : Outcome E A) (s s' : S) (k : A → Action S E B) {b : B} {u : S}
      → ((λ (_ : S). (r, s')) >>= k) s ≡ (done b, u)
      → (a : A) × (r ≡ done a) × (k a s' ≡ (done b, u))
  unfolding ◌>>=◌
  done_rest (done a) s s' k h = (a, refl, h)
  done_rest (raised e) s s' k h = cc
  done_rest out_of_fuel s s' k h = cc

  -- What a chain that gave a result went through.
  pub >>=-done :
      (m : Action S E A) (k : A → Action S E B) (s : S) {b : B} {u : S}
      → (m >>= k) s ≡ (done b, u)
      → (a : A) × ((m s).0 ≡ done a) × (k a (m s).1 ≡ (done b, u))
  unfolding ◌>>=◌
  >>=-done m k s h = done_rest (m s).0 s (m s).1 k h

  -- The same with the state between.
  pub done-split :
      (m : Action S E A) (k : A → Action S E B) (s : S) {b : B} {u : S}
      → (m >>= k) s ≡ (done b, u)
      → (a : A) × (t : S) × (m s ≡ (done a, t)) × (k a t ≡ (done b, u))
  done-split m k s h = let (a, e, rest) = >>=-done m k s h in (a, (m s).1, pair_eq e refl, rest)

  pub reads->>=-done :
      (f : S → Outcome E A) (k : A → Action S E B) (s : S) {b : B} {u : S}
      → (reads f >>= k) s ≡ (done b, u)
      → (a : A) × (f s ≡ done a) × (k a s ≡ (done b, u))
  unfolding ◌>>=◌
  reads->>=-done f k s h = done_rest (f s) s s k h

  -- What gave a result is gone on from.
  pub done-bind :
      (m : Action S E A) (k : A → Action S E B) (s : S) {a : A} {s' : S}
      → m s ≡ (done a, s')
      → (m >>= k) s ≡ k a s'
  unfolding ◌>>=◌
  done-bind m k s h = ap (λ (p : Outcome E A × S). ((λ (_ : S). p) >>= k) s) h

  stopped_rest :
      (r : Outcome E A) (s s' : S) (k : A → Action S E B)
      → ((a : A) → r ≢ done a)
      → ((((λ (_ : S). (r, s')) >>= k) s).1 ≡ s')
        × ((b : B) → (((λ (_ : S). (r, s')) >>= k) s).0 ≢ done b)
  unfolding ◌>>=◌
  stopped_rest (done a) s s' k h = absurd (h a refl)
  stopped_rest (raised e) s s' k h = (refl, λ b e. cc)
  stopped_rest out_of_fuel s s' k h = (refl, λ b e. cc)

  -- Nothing follows an action that gave no result.
  pub stopped-bind :
      (m : Action S E A) (k : A → Action S E B) (s : S)
      → ((a : A) → (m s).0 ≢ done a)
      → (((m >>= k) s).1 ≡ (m s).1) × ((b : B) → ((m >>= k) s).0 ≢ done b)
  unfolding ◌>>=◌
  stopped-bind m k s h = stopped_rest (m s).0 s (m s).1 k h

  thrown_rest :
      (r : Outcome E A) (s s' : S) (e : E)
      → ((((λ (_ : S). (r, s')) >>= λ _. raise {A = B} e) s).1 ≡ s')
        × ((b : B) → (((λ (_ : S). (r, s')) >>= λ _. raise e) s).0 ≢ done b)
  unfolding ◌>>=◌
  thrown_rest (done a) s s' e = (refl, λ b e. cc)
  thrown_rest (raised x) s s' e = (refl, λ b e. cc)
  thrown_rest out_of_fuel s s' e = (refl, λ b e. cc)

  -- An action that is followed by a throw is the last to write, and there is no result.
  pub bind-raise :
      (m : Action S E A) (e : E) (s : S)
      → (((m >>= λ _. raise {A = B} e) s).1 ≡ (m s).1)
        × ((b : B) → ((m >>= λ _. raise e) s).0 ≢ done b)
  unfolding ◌>>=◌
  bind-raise m e s = thrown_rest (m s).0 s (m s).1 e
