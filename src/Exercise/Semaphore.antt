-- ===== src/Exercise/Semaphore.antt =====
-- exercise-xenomai/semaphore.c: two tasks that take turns through two semaphores. A step is one call of
-- a semaphore with the test of the loop before it, a read or a write of `global`, or a print. The task
-- `demo` of that file, in Demo, is started by nothing. main() is in
-- Main; what is here is of the tasks alone.
pub mod Rounds
pub mod First
pub mod Second
pub mod Turns
pub mod Ends
pub mod Main
pub mod Demo
use edfomai.Base.{ℕ, suc, ◌+◌, ◌-◌, ◌%◌, ◌^◌, Option, none, some, List, [], ◌∷◌, if◌then◌else◌, ltb}
use edfomai.Tasks.{sem_p}

abbrev pub iter : ℕ
iter = 10

-- Where a task stands: before the test of round i, after rt_sem_p, after the read of `global`, after
-- the write, after the print, or at its end. The second argument is the value read, then written.
pub data TaskPc : Type 0 where
  before taken : ℕ → TaskPc
  loaded changed : ℕ → ℕ → TaskPc
  printed : ℕ → TaskPc
  finished : TaskPc

-- A line on the console, with the value of `global`.
pub data Line : Type 0 where
  one_says two_says : ℕ → Line

-- `global` is an int, as its 32-bit pattern; the newest line comes first.
pub record Pair : Type 0 where
  pub sem_global1 : ℕ
  pub sem_global2 : ℕ
  pub global : ℕ
  pub one : TaskPc
  pub two : TaskPc
  pub out : List Line

-- What main() creates for its tasks, which stand before their loops.
abbrev pub main_pair : Pair
main_pair = record {
  sem_global1 = 1;
  sem_global2 = 0;
  global = 0;
  one = before 0;
  two = before 0;
  out = [];
}

unfoldable pub task_one : TaskPc → Pair → Option Pair
task_one (before i) s =
    if ltb i iter
    then sem_p s.sem_global1 (λ n. record s { sem_global1 = n; one = taken i })
    else some (record s { one = finished })
task_one (taken i) s = some (record s { one = loaded i s.global })
task_one (loaded i g) s =
    let g' = (g + 1) % 2 ^ 32 in some (record s { global = g'; one = changed i g' })
task_one (changed i g) s = some (record s { one = printed i; out = one_says g ∷ s.out })
task_one (printed i) s = some (record s { sem_global2 = suc s.sem_global2; one = before (suc i) })
task_one finished s = none

unfoldable pub task_two : TaskPc → Pair → Option Pair
task_two (before i) s =
    if ltb i iter
    then sem_p s.sem_global2 (λ n. record s { sem_global2 = n; two = taken i })
    else some (record s { two = finished })
task_two (taken i) s = some (record s { two = loaded i s.global })
task_two (loaded i g) s =
    let g' = (g + 2 ^ 32 - 1) % 2 ^ 32 in some (record s { global = g'; two = changed i g' })
task_two (changed i g) s = some (record s { two = printed i; out = two_says g ∷ s.out })
task_two (printed i) s = some (record s { sem_global1 = suc s.sem_global1; two = before (suc i) })
task_two finished s = none

pub data Task : Type 0 where
  task1 task2 : Task

unfoldable pub pair_step : Task → Pair → Option Pair
pair_step task1 s = task_one s.one s
pair_step task2 s = task_two s.two s
