-- ===== src/Exercise/Periods.antt =====
-- exercise-xenomai/multitask.c.d.c: the three tasks of multitask.c before they had a semaphore. A step
-- of the model is an assignment, a call of the scheduler, or a print; sleeping takes any number of steps
-- of the others. The task's name and the texts about it are left out.
pub mod Refines
use edfomai.Base.{
  ℕ, suc, Option, none, some, List, [], ◌∷◌, if◌then◌else◌, ltb, get_elem?, get_or, set,
}
use edfomai.Exercise.Multitask.{Event, set_periodic, says, period_of, Actor, spawns, demos}

-- The argument is the local variable `retval`.
pub data DemoPc : Type 0 where
  demo_off demo_started : DemoPc
  demo_read demo_top demo_waiting : ℕ → DemoPc

-- The argument is the local variable `i`.
pub data MainPc : Type 0 where
  main_top main_assigned : ℕ → MainPc
  main_paused : MainPc

pub record Periods : Type 0 where
  pub periods : List ℕ
  pub tasks : List DemoPc
  pub main_pc : MainPc
  pub out : List Event

-- What main() has before its loop; the three cells of `periods` have no value yet.
abbrev pub begun : ℕ → ℕ → ℕ → Periods
begun a b c = record {
  periods = a ∷ b ∷ c ∷ [];
  tasks = demo_off ∷ demo_off ∷ demo_off ∷ [];
  main_pc = main_top 0;
  out = [];
}

abbrev pub goto : ℕ → DemoPc → Periods → Periods
goto k pc s = record s { tasks = set s.tasks k pc }

unfoldable pub demo : ℕ → DemoPc → Periods → Option Periods
demo k demo_off s = none
demo k demo_started s = some (goto k (demo_read (get_or s.periods k 0)) s)
demo k (demo_read v) s =
    some (goto k (demo_top v) (record s { out = set_periodic k (period_of v) ∷ s.out }))
demo k (demo_top v) s = some (goto k (demo_waiting v) (record s { out = says k v ∷ s.out }))
demo k (demo_waiting v) s = some (goto k (demo_top v) s)

unfoldable pub main : MainPc → Periods → Option Periods
main (main_top i) s =
    if ltb i 3
    then some (record s { periods = set s.periods i (suc i); main_pc = main_assigned i })
    else some (record s { main_pc = main_paused })
main (main_assigned i) s = some (goto i demo_started (record s { main_pc = main_top (suc i) }))
main main_paused s = none

unfoldable pub periods_step : Actor → Periods → Option Periods
periods_step spawns s = main s.main_pc s
periods_step (demos k) s = elim (get_elem? s.tasks k) [ none ↦ none | some pc ↦ demo k pc s ]
