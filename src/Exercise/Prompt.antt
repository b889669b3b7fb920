-- ===== src/Exercise/Prompt.antt =====
-- exercise-xenomai/multitask.c.b.c: five tasks that get the address of the loop variable of main() and
-- read it without sleeping, on one processor: a started task has priority 50 and runs before main(),
-- which has none, goes on. The return of main() ends the process. Task k is the one that round k
-- creates; `refuses k` is what its inquiry about itself fails with, if it does, and a name Task-k is k.
pub mod Order
pub mod Ends
use edfomai.Base.{
  ℕ, suc, Bool, true, false, not, ◌&&◌, Option, none, some, List, [], ◌∷◌, if◌then◌else◌, ltb,
  get_elem?, get_or, set, replicate,
}

-- `demo_inquired` has the name in `curtaskinfo`, `demo_read` also the argument in `retval`.
pub data DemoPc : Type 0 where
  demo_off demo_started : DemoPc
  demo_inquired : ℕ → DemoPc
  demo_read : ℕ → ℕ → DemoPc
  demo_ended : DemoPc

pub data MainPc : Type 0 where
  main_top main_named main_created main_started main_returned : MainPc

-- "inquiring error", or the name and the number of a task.
pub data Line : Type 0 where
  failed : ℕ → Line
  says : ℕ → ℕ → Line

-- `str` is the buffer of main(), `names` what rt_task_create copied from it, and `demo_task` the task
-- that the descriptor stands for; the newest line comes first.
pub record Prompt : Type 0 where
  pub i : ℕ
  pub str : ℕ
  pub demo_task : ℕ
  pub names : List ℕ
  pub tasks : List DemoPc
  pub main_pc : MainPc
  pub out : List Line

-- What main() has before its loop; `str` has no value yet.
abbrev pub begun : ℕ → Prompt
begun str = record {
  i = 0;
  str = str;
  demo_task = 0;
  names = replicate 5 0;
  tasks = replicate 5 demo_off;
  main_pc = main_top;
  out = [];
}

abbrev pub goto : ℕ → DemoPc → Prompt → Prompt
goto k pc s = record s { tasks = set s.tasks k pc }

-- A task that is started and has not ended keeps main() from running.
abbrev pub live : DemoPc → Bool
live demo_off = false
live demo_ended = false
live _ = true

abbrev pub quiet : List DemoPc → Bool
quiet [] = true
quiet (pc ∷ rest) = not (live pc) && quiet rest

unfoldable pub main : MainPc → Prompt → Option Prompt
main main_top s =
    if ltb s.i 5
    then some (record s { str = s.i; main_pc = main_named })
    else some (record s { main_pc = main_returned })
main main_named s =
    some (record s { names = set s.names s.i s.str; demo_task = s.i; main_pc = main_created })
main main_created s = some (goto s.demo_task demo_started (record s { main_pc = main_started }))
main main_started s = some (record s { i = suc s.i; main_pc = main_top })
main main_returned s = none

abbrev pub returned : MainPc → Bool
returned main_returned = true
returned _ = false

pub data Actor : Type 0 where
  spawns : Actor
  demos : ℕ → Actor

module _ (refuses : ℕ → Option ℕ) where
  unfoldable pub demo : ℕ → DemoPc → Prompt → Option Prompt
  demo k demo_off s = none
  demo k demo_started s = elim (refuses k) [
    | none ↦ some (goto k (demo_inquired (get_or s.names k 0)) s)
    | some n ↦ some (goto k demo_ended (record s { out = failed n ∷ s.out }))
  ]
  demo k (demo_inquired name) s = some (goto k (demo_read name s.i) s)
  demo k (demo_read name v) s = some (goto k demo_ended (record s { out = says name v ∷ s.out }))
  demo k demo_ended s = none

  unfoldable pub running : Actor → Prompt → Option Prompt
  running spawns s = if quiet s.tasks then main s.main_pc s else none
  running (demos k) s = elim (get_elem? s.tasks k) [ none ↦ none | some pc ↦ demo k pc s ]

  unfoldable pub prompt_step : Actor → Prompt → Option Prompt
  prompt_step a s = if returned s.main_pc then none else running a s
