-- ===== src/Exercise/Semaphore/Demo.antt =====
-- The task `demo` of exercise-xenomai/semaphore.c, which nothing starts. A step is the read of the
-- argument, a call of the scheduler, or a print; the name that it prints is left out.
use edfomai.Base.{ℕ, zero, suc, ◌≡◌, refl, ap, ◌∙◌, List, [], ◌∷◌, ◌++◌, replicate}
use edfomai.Exercise.Multitask.{period_of}

-- The argument is the local variable `retval`.
pub data DemoPc : Type 0 where
  demo_started : DemoPc
  demo_read demo_top demo_waiting : ℕ → DemoPc

pub data Event : Type 0 where
  set_periodic says : ℕ → Event

-- The newest event comes first.
pub record Demo : Type 0 where
  pub pc : DemoPc
  pub out : List Event

abbrev pub demo : ℕ → DemoPc → List Event → Demo
demo arg demo_started out = record { pc = demo_read arg; out = out }
demo arg (demo_read v) out = record { pc = demo_top v; out = set_periodic (period_of v) ∷ out }
demo arg (demo_top v) out = record { pc = demo_waiting v; out = says v ∷ out }
demo arg (demo_waiting v) out = record { pc = demo_top v; out = out }

unfoldable pub demo_steps : ℕ → ℕ → Demo → Demo
demo_steps arg zero d = d
demo_steps arg (suc n) d = demo_steps arg n (demo arg d.pc d.out)

-- Two steps for each round.
abbrev pub twice : ℕ → ℕ
twice zero = 0
twice (suc n) = suc (suc (twice n))

replicate_last :
    (e : Event) (n : ℕ) (rest : List Event)
    → replicate n e ++ (e ∷ rest) ≡ e ∷ (replicate n e ++ rest)
replicate_last e zero rest = refl
replicate_last e (suc n) rest = ap (◌∷◌ e) (replicate_last e n rest)

rounds :
    (arg v n : ℕ) (out : List Event)
    → demo_steps arg (twice n) (record { pc = demo_top v; out = out })
      ≡ record { pc = demo_top v; out = replicate n (says v) ++ out }
unfolding demo_steps
rounds arg v zero out = refl
rounds arg v (suc n) out =
    rounds arg v n (says v ∷ out)
    ∙ ap (λ l. record { pc = demo_top v; out = l }) (replicate_last (says v) n out)

-- Once the task has read its number it makes itself periodic, once, and prints that number in every round.
demo_rounds :
    (arg n : ℕ)
    → demo_steps arg (suc (suc (twice n))) (record { pc = demo_started; out = [] }) ≡ record {
      pc = demo_top arg;
      out = replicate n (says arg) ++ set_periodic (period_of arg) ∷ [];
    }
unfolding demo_steps
demo_rounds arg n = rounds arg arg n (set_periodic (period_of arg) ∷ [])
