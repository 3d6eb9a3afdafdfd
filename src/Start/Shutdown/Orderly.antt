-- ===== src/Start/Shutdown/Orderly.antt =====
-- The order of a shutdown and its end.
use lux_ledger_demo.Common.{◌≡◌, refl, ◌⊎◌, inl, inr, Bool, true, false, List, [], ◌∷◌, arith}
use mathlib.Core.Path.{subst}
use lux_ledger_demo.Start.Shutdown.{
  Phase, serving, closing, ending, exited_0, exited_1, killed, Process, Event, sigint, sigterm,
  closed, close_failed, ended, end_failed, timed_out, shutdown, is_running, handle, step, run,
}

-- Some event of the history passes the test, and what came before it meets `before`.
abbrev pub Came : (Event → Bool) → (List Event → Type 0) → List Event → Type 0
Came p before [] = ⊥
Came p before (e ∷ es) = ((p e ≡ true) × before es) ⊎ Came p before es

abbrev pub is_signal : Event → Bool
is_signal sigint = true
is_signal sigterm = true
is_signal _ = false

abbrev pub is_closed : Event → Bool
is_closed closed = true
is_closed _ = false

abbrev pub is_ended : Event → Bool
is_ended ended = true
is_ended _ = false

abbrev pub Signalled : List Event → Type 0
Signalled = Came is_signal (λ _. Unit {0})

abbrev pub Drained : List Event → Type 0
Drained = Came is_closed Signalled

abbrev pub Finished : List Event → Type 0
Finished = Came is_ended Drained

-- What has happened when the process is in a phase.
abbrev Story : Phase → List Event → Type 0
Story serving es = Unit {0}
Story closing es = Signalled es
Story ending es = Drained es
Story exited_0 es = Finished es
Story exited_1 es = Unit {0}
Story killed es = Unit {0}

-- The flags agree with the phase.
abbrev AreFlags : Process → Type 0
AreFlags p = elim p.phase as (λ _. Type 0) [
  | serving ↦ (p.is_shutting_down ≡ false)
  | closing ↦ (p.is_shutting_down ≡ true) × (p.hard_stop_timer ≡ true)
  | ending ↦ (p.is_shutting_down ≡ true) × (p.hard_stop_timer ≡ true)
  | _ ↦ Unit {0}
]

abbrev process : Bool → Bool → Bool → Bool → Phase → Process
process down timer int term phase = record {
  is_shutting_down = down;
  hard_stop_timer = timer;
  on_sigint = int;
  on_sigterm = term;
  phase = phase;
}

abbrev IsNext : Process → List Event → Type 0
IsNext p es = AreFlags p × Story p.phase es

step-serving :
    (e : Event) (timer int term : Bool) (es : List Event)
    → IsNext (step (process false timer int term serving) e) (e ∷ es)
unfolding step handle shutdown
step-serving sigint timer true term es = ((refl, refl), inl (refl, tt))
step-serving sigint timer false term es = (tt, tt)
step-serving sigterm timer int true es = ((refl, refl), inl (refl, tt))
step-serving sigterm timer int false es = (tt, tt)
step-serving closed timer int term es = (refl, tt)
step-serving close_failed timer int term es = (refl, tt)
step-serving ended timer int term es = (refl, tt)
step-serving end_failed timer int term es = (refl, tt)
step-serving timed_out true int term es = (tt, tt)
step-serving timed_out false int term es = (refl, tt)

step-closing :
    (e : Event) (int term : Bool) (es : List Event)
    → Signalled es
    → IsNext (step (process true true int term closing) e) (e ∷ es)
unfolding step handle shutdown
step-closing sigint true term es h = ((refl, refl), inr h)
step-closing sigint false term es h = (tt, tt)
step-closing sigterm int true es h = ((refl, refl), inr h)
step-closing sigterm int false es h = (tt, tt)
step-closing closed int term es h = ((refl, refl), inl (refl, h))
step-closing close_failed int term es h = (tt, tt)
step-closing ended int term es h = ((refl, refl), inr h)
step-closing end_failed int term es h = ((refl, refl), inr h)
step-closing timed_out int term es h = (tt, tt)

step-ending :
    (e : Event) (int term : Bool) (es : List Event)
    → Drained es
    → IsNext (step (process true true int term ending) e) (e ∷ es)
unfolding step handle shutdown
step-ending sigint true term es h = ((refl, refl), inr h)
step-ending sigint false term es h = (tt, tt)
step-ending sigterm int true es h = ((refl, refl), inr h)
step-ending sigterm int false es h = (tt, tt)
step-ending closed int term es h = ((refl, refl), inr h)
step-ending close_failed int term es h = ((refl, refl), inr h)
step-ending ended int term es h = (tt, inl (refl, h))
step-ending end_failed int term es h = (tt, tt)
step-ending timed_out int term es h = (tt, tt)

step-IsNext :
    (down timer int term : Bool) (phase : Phase) (e : Event) (es : List Event)
    → IsNext (process down timer int term phase) es
    → IsNext (step (process down timer int term phase) e) (e ∷ es)
unfolding step
step-IsNext false timer int term serving e es h = step-serving e timer int term es
step-IsNext true timer int term serving e es (f, h) = absurd (ground arith)
step-IsNext true true int term closing e es (f, h) = step-closing e int term es h
step-IsNext false timer int term closing e es ((d, t), h) = absurd (ground arith)
step-IsNext true false int term closing e es ((d, t), h) = absurd (ground arith)
step-IsNext true true int term ending e es (f, h) = step-ending e int term es h
step-IsNext false timer int term ending e es ((d, t), h) = absurd (ground arith)
step-IsNext true false int term ending e es ((d, t), h) = absurd (ground arith)
step-IsNext down timer int term exited_0 e es (f, h) = (tt, inr h)
step-IsNext down timer int term exited_1 e es h = (tt, tt)
step-IsNext down timer int term killed e es h = (tt, tt)

run-IsNext : (es : List Event) → IsNext (run es) es
unfolding run
run-IsNext [] = (refl, tt)
run-IsNext (e ∷ es) =
    let p = run es in
    step-IsNext p.is_shutting_down p.hard_stop_timer p.on_sigint p.on_sigterm p.phase e es
      (run-IsNext es)

-- Where a shutdown goes on, the timer ends it.
ends_by_timer :
    (down timer int term : Bool) (phase : Phase)
    → AreFlags (process down timer int term phase)
    → down ≡ true
    → is_running (step (process down timer int term phase) timed_out).phase ≡ false
unfolding step handle
ends_by_timer down timer int term serving f d = absurd (ground arith)
ends_by_timer down true int term closing f d = refl
ends_by_timer down false int term closing (f, t) d = absurd (ground arith)
ends_by_timer down true int term ending f d = refl
ends_by_timer down false int term ending (f, t) d = absurd (ground arith)
ends_by_timer down timer int term exited_0 f d = refl
ends_by_timer down timer int term exited_1 f d = refl
ends_by_timer down timer int term killed f d = refl

-- After any history of events: if the process has ended with the code 0, then a signal came, then
-- the server was drained, and then the database client ended, in this order.
pub exited_0-Finished : (es : List Event) → (run es).phase ≡ exited_0 → Finished es
exited_0-Finished es at =
    let (flags, story) = run-IsNext es in subst (λ phase. Story phase es) at story

-- After any history of events: once a shutdown has begun, the process does not run any more when
-- the timer has fired.
pub timed_out-run :
    (es : List Event)
    → (run es).is_shutting_down ≡ true
    → is_running (run (timed_out ∷ es)).phase ≡ false
unfolding run
timed_out-run es begun =
    let p = run es in
    let (flags, story) = run-IsNext es in
    ends_by_timer p.is_shutting_down p.hard_stop_timer p.on_sigint p.on_sigterm p.phase flags begun
