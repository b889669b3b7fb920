-- ===== src/Tests/OfExercise.antt =====
-- Runs of the programs of exercise-xenomai.
use edfomai.Exercise.Bottler
use edfomai.Exercise.Multitask
use edfomai.Exercise.Periods
use edfomai.Exercise.Periods.{periods_step}
use edfomai.Exercise.Periods.Refines.{forget, Reached-forget}
use edfomai.Base.{ℕ, zero, suc, ◌+◌, ◌%◌, ◌≤◌, ◌≡◌, ◌⊎◌, refl, false, some, List, [], ◌∷◌, length}
use edfomai.Tasks.{run, Reached, at_start, run-Reached}
use edfomai.Exercise.Semaphore.{
  Task, task1, task2, Pair, main_pair, finished, task_one, task_two, pair_step,
}
use edfomai.Exercise.Semaphore.Rounds.{turns}
use edfomai.Exercise.Bottler.Balance.{sensings, executings, actings, has_switched}
use edfomai.Exercise.Bottler.Counts.{Reached-counts}
use edfomai.Exercise.Multitask.Own.{held, OwnEvents, Reached-own}
use edfomai.Exercise.Multitask.Cells.{sum_of}
use edfomai.Exercise.Semaphore.Ends.{BothEnded}
use edfomai.Exercise.Semaphore.Main as SemMain

-- One round of both tasks, n times, and then the two tests that end the loops.
abbrev schedule : ℕ → List Task
schedule zero = task1 ∷ task2 ∷ []
schedule (suc n) =
    task1 ∷ task1 ∷ task1 ∷ task1 ∷ task1 ∷ task2 ∷ task2 ∷ task2 ∷ task2 ∷ task2 ∷ schedule n

abbrev pair_end : Pair
pair_end = record {
  sem_global1 = 1;
  sem_global2 = 0;
  global = 0;
  one = finished;
  two = finished;
  out = turns 10;
}

pair_run : run pair_step (schedule 10) main_pair ≡ some pair_end
unfolding run pair_step task_one task_two
pair_run = refl

-- main() starts both tasks, and returns when both have ended.
abbrev wrapped : List Task → List SemMain.Actor
wrapped [] = SemMain.mains ∷ []
wrapped (t ∷ ts) = SemMain.tasks t ∷ wrapped ts

-- The first task runs its first round before main() starts the second one.
abbrev first_schedule : List SemMain.Actor
first_schedule =
    SemMain.mains
    ∷ SemMain.tasks task1
    ∷ SemMain.tasks task1
    ∷ SemMain.tasks task1
    ∷ SemMain.tasks task1
    ∷ SemMain.tasks task1
    ∷ SemMain.mains
    ∷ wrapped (task2 ∷ task2 ∷ task2 ∷ task2 ∷ task2 ∷ schedule 9)

abbrev process_end : SemMain.Process
process_end = record { pair = pair_end; main_pc = SemMain.main_returned }

process_run : run SemMain.process_step first_schedule SemMain.begun ≡ some process_end
unfolding run SemMain.process_step SemMain.main pair_step task_one task_two
process_run = refl

run-Returned_example :
    (length first_schedule ≤ 105)
    × (((length first_schedule ≡ 105)
          × (process_end.main_pc ≡ SemMain.main_returned)
          × BothEnded process_end.pair)
        ⊎ SemMain.Goes process_end)
run-Returned_example = SemMain.run-Returned first_schedule process_end process_run

-- main() starts the tasks, and each does one part of the cycle.
abbrev plc_schedule : List Bottler.Actor
plc_schedule =
    Bottler.controls ∷ Bottler.controls ∷ Bottler.controls ∷ Bottler.controls ∷ Bottler.controls
    ∷ Bottler.reads ∷ Bottler.reads ∷ Bottler.reads ∷ Bottler.executes ∷ Bottler.executes
    ∷ Bottler.executes ∷ Bottler.executes ∷ Bottler.executes ∷ Bottler.writes ∷ Bottler.writes
    ∷ Bottler.writes ∷ []

abbrev plc_end : Bottler.Plc
plc_end = record {
  read_done = 0;
  execution_done = 0;
  stopped = false;
  step = 1;
  reader_pc = Bottler.reader_signalled;
  executor_pc = Bottler.executor_signalled;
  writer_pc = Bottler.writer_sleeping;
  main_pc = Bottler.main_started;
  out =
      Bottler.acting ∷ Bottler.executing ∷ Bottler.sensing ∷ Bottler.starting_up
      ∷ Bottler.initialized ∷ [];
}

plc_end-Reached : Reached Bottler.plc_step Bottler.loaded plc_end
unfolding run Bottler.plc_step Bottler.running Bottler.main Bottler.startup Bottler.reader
    Bottler.executor Bottler.writer Bottler.do_step Bottler.step0 Bottler.print Bottler.init_xenomai
plc_end-Reached = run-Reached Bottler.plc_step plc_schedule at_start refl

Reached-counts_example :
    (actings plc_end.out ≤ executings plc_end.out)
    × (executings plc_end.out ≤ sensings plc_end.out)
    × (plc_end.step ≡ (executings plc_end.out + has_switched plc_end.executor_pc) % 6)
Reached-counts_example = Reached-counts plc_end plc_end-Reached

abbrev demo_schedule : List Multitask.Actor
demo_schedule =
    Multitask.spawns
    ∷ Multitask.spawns
    ∷ Multitask.demos 0
    ∷ Multitask.spawns
    ∷ Multitask.demos 0
    ∷ Multitask.demos 0
    ∷ Multitask.demos 0
    ∷ []

abbrev demo_end : Multitask.Multitask
demo_end = record {
  sem = 0;
  periods = 1 ∷ 2 ∷ 9 ∷ [];
  tasks = Multitask.demo_printed 1 ∷ Multitask.demo_off ∷ Multitask.demo_off ∷ [];
  main_pc = Multitask.main_assigned 1;
  out = Multitask.says 0 1 ∷ Multitask.set_periodic 0 1000000000 ∷ [];
}

demo_end-Reached : Reached Multitask.multitask_step (Multitask.begun 9 9 9) demo_end
unfolding run Multitask.multitask_step Multitask.main Multitask.demo
demo_end-Reached = run-Reached Multitask.multitask_step demo_schedule at_start refl

Reached-own_example : (demo_end.sem + sum_of held demo_end.tasks ≡ 1) × OwnEvents demo_end.out
Reached-own_example = Reached-own 9 9 9 demo_end demo_end-Reached

Reached-forget_example : Reached periods_step (Periods.begun 9 9 9) (forget demo_end)
Reached-forget_example = Reached-forget 9 9 9 demo_end demo_end-Reached
