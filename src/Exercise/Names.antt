-- ===== src/Exercise/Names.antt =====
-- exercise-xenomai/multitask.c.a.c: five tasks that print their names, in any interleaving; the return of
-- main() ends the process. Task k is the one that round k creates; `refuses k` is what its inquiry about
-- itself fails with, if it does, and a name Task-k is k.
pub mod Own
use edfomai.Base.{
  ℕ, zero, suc, ◌<◌, ◌≡◌, refl, ◌∙◌, Option, none, some, List, [], ◌∷◌, if◌then◌else◌, inl, inr,
  arith, ltb, length, get_elem?, get_or, set, replicate, Bool-cases, Option-cases, length-set,
}
use edfomai.Tasks.{moved, Reached, Reached_ind}
use edfomai.Exercise.Multitask.Cells.{get_elem?-set, get_or-set, get_or-set_other}
use edfomai.Exercise.Prompt.{
  MainPc, main_top, main_named, main_created, main_started, main_returned, returned, Actor, spawns,
  demos,
}

-- `demo_inquired` has the name in `curtaskinfo`.
pub data DemoPc : Type 0 where
  demo_off demo_started : DemoPc
  demo_inquired : ℕ → DemoPc
  demo_ended : DemoPc

-- What a task prints: the number of its error, or the name that it has found.
pub data Text : Type 0 where
  inquiring_error task_name : ℕ → Text

pub record Line : Type 0 where
  pub task : ℕ
  pub text : Text

-- `str` is the buffer of main(), `names` what rt_task_create copied from it, and `demo_task` the task
-- that the descriptor stands for; the newest line comes first.
pub record Names : Type 0 where
  pub i : ℕ
  pub str : ℕ
  pub demo_task : ℕ
  pub names : List ℕ
  pub tasks : List DemoPc
  pub main_pc : MainPc
  pub out : List Line

abbrev pub begun : ℕ → Names
begun str = record {
  i = 0;
  str = str;
  demo_task = 0;
  names = replicate 5 0;
  tasks = replicate 5 demo_off;
  main_pc = main_top;
  out = [];
}

abbrev pub goto : ℕ → DemoPc → Names → Names
goto k pc s = record s { tasks = set s.tasks k pc }

abbrev pub prints : ℕ → Text → Names → Names
prints k text s = goto k demo_ended (record s { out = record { task = k; text = text } ∷ s.out })

unfoldable pub main : MainPc → Names → Option Names
main main_top s =
    if ltb s.i 5
    then some (record s { str = s.i; main_pc = main_named })
    else some (record s { main_pc = main_returned })
main main_named s =
    some (record s { names = set s.names s.i s.str; demo_task = s.i; main_pc = main_created })
main main_created s = some (goto s.demo_task demo_started (record s { main_pc = main_started }))
main main_started s = some (record s { i = suc s.i; main_pc = main_top })
main main_returned s = none

module _ (refuses : ℕ → Option ℕ) where
  unfoldable pub demo : ℕ → DemoPc → Names → Option Names
  demo k demo_off s = none
  demo k demo_started s = elim (refuses k) [
    | none ↦ some (goto k (demo_inquired (get_or s.names k 0)) s)
    | some n ↦ some (prints k (inquiring_error n) s)
  ]
  demo k (demo_inquired name) s = some (prints k (task_name name) s)
  demo k demo_ended s = none

  unfoldable pub running : Actor → Names → Option Names
  running spawns s = main s.main_pc s
  running (demos k) s = elim (get_elem? s.tasks k) [ none ↦ none | some pc ↦ demo k pc s ]

  unfoldable pub names_step : Actor → Names → Option Names
  names_step a s = if returned s.main_pc then none else running a s
