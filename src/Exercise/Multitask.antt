-- ===== src/Exercise/Multitask.antt =====
-- exercise-xenomai/multitask.c: three tasks that print in turn under a semaphore, each with its own
-- period, which main() gives it by the address of a cell of `periods`. A step of the model is an
-- assignment, a call of a semaphore or of the scheduler, or a print; sleeping takes any number of steps
-- of the others. The task's name and the texts about it are left out.
pub mod Cells
pub mod Own
use edfomai.Base.{
  ℕ, zero, suc, ◌+◌, ◌-◌, ◌*◌, ◌%◌, ◌^◌, Option, none, some, List, [], ◌∷◌, if◌then◌else◌, ltb,
  get_elem?, get_or, set,
}
use edfomai.Tasks.{sem_p}

-- The argument is the local variable `retval`.
pub data DemoPc : Type 0 where
  demo_off demo_started : DemoPc
  demo_read demo_top demo_locked demo_printed demo_waiting : ℕ → DemoPc

-- The argument is the local variable `i`.
pub data MainPc : Type 0 where
  main_top main_assigned : ℕ → MainPc
  main_paused : MainPc

-- Task k made itself periodic, or printed its number.
pub data Event : Type 0 where
  set_periodic says : ℕ → ℕ → Event

-- An int is its 32-bit pattern. The newest event comes first.
pub record Multitask : Type 0 where
  pub sem : ℕ
  pub periods : List ℕ
  pub tasks : List DemoPc
  pub main_pc : MainPc
  pub out : List Event

-- What main() has before its loop; the three cells of `periods` have no value yet.
abbrev pub begun : ℕ → ℕ → ℕ → Multitask
begun a b c = record {
  sem = 1;
  periods = a ∷ b ∷ c ∷ [];
  tasks = demo_off ∷ demo_off ∷ demo_off ∷ [];
  main_pc = main_top 0;
  out = [];
}

abbrev pub goto : ℕ → DemoPc → Multitask → Multitask
goto k pc s = record s { tasks = set s.tasks k pc }

-- An int as an RTIME of 64 bits.
abbrev pub to_rtime : ℕ → ℕ
to_rtime v = if ltb v (2 ^ 31) then v else v + 2 ^ 64 - 2 ^ 32

abbrev pub period_of : ℕ → ℕ
period_of v = (1000000000 * to_rtime v) % 2 ^ 64

unfoldable pub demo : ℕ → DemoPc → Multitask → Option Multitask
demo k demo_off s = none
demo k demo_started s = some (goto k (demo_read (get_or s.periods k 0)) s)
demo k (demo_read v) s =
    some (goto k (demo_top v) (record s { out = set_periodic k (period_of v) ∷ s.out }))
demo k (demo_top v) s = sem_p s.sem λ n. goto k (demo_locked v) (record s { sem = n })
demo k (demo_locked v) s = some (goto k (demo_printed v) (record s { out = says k v ∷ s.out }))
demo k (demo_printed v) s = some (goto k (demo_waiting v) (record s { sem = suc s.sem }))
demo k (demo_waiting v) s = some (goto k (demo_top v) s)

unfoldable pub main : MainPc → Multitask → Option Multitask
main (main_top i) s =
    if ltb i 3
    then some (record s { periods = set s.periods i (suc i); main_pc = main_assigned i })
    else some (record s { main_pc = main_paused })
main (main_assigned i) s = some (goto i demo_started (record s { main_pc = main_top (suc i) }))
main main_paused s = none

pub data Actor : Type 0 where
  spawns : Actor
  demos : ℕ → Actor

unfoldable pub multitask_step : Actor → Multitask → Option Multitask
multitask_step spawns s = main s.main_pc s
multitask_step (demos k) s = elim (get_elem? s.tasks k) [ none ↦ none | some pc ↦ demo k pc s ]
