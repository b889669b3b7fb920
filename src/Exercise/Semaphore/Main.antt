-- ===== src/Exercise/Semaphore/Main.antt =====
-- main() of exercise-xenomai/semaphore.c around its two tasks, on one processor: the started tasks have
-- priority 10 and run before main(), which has none, goes on. The return of main() ends the process.
use edfomai.Base.{
  ℕ, ◌+◌, ◌≤◌, ◌≡◌, refl, subst, Bool, true, false, ◌&&◌, Option, none, some, List, if◌then◌else◌,
  ◌⊎◌, inl, inr, arith, length, Bool-cases, Option-cases,
}
use edfomai.Tasks.{moved, run, run_measure}
use edfomai.Exercise.Semaphore.{Pair, main_pair, Task, task1, task2, pair_step}
use edfomai.Exercise.Semaphore.Rounds.{Inv}
use edfomai.Exercise.Semaphore.Turns.{step-Inv, main_pair-Inv}
use edfomai.Exercise.Semaphore.Ends.{BothEnded, total_left, step-total, Inv-Moves}

-- Before the first and the second rt_task_start, before the end of main(), and after it.
pub data MainPc : Type 0 where
  main_first main_second main_last main_returned : MainPc

pub record Process : Type 0 where
  pub pair : Pair
  pub main_pc : MainPc

abbrev pub begun : Process
begun = record { pair = main_pair; main_pc = main_first }

pub data Actor : Type 0 where
  mains : Actor
  tasks : Task → Actor

-- The tasks that main() has started and that the process still has.
abbrev pub started : MainPc → Task → Bool
started main_first t = false
started main_second task1 = true
started main_second task2 = false
started main_last t = true
started main_returned t = false

abbrev pub is_none : Option Pair → Bool
is_none none = true
is_none (some s) = false

-- A started task that can run keeps main() from running.
abbrev pub rests : Process → Task → Bool
rests s t = if started s.main_pc t then is_none (pair_step t s.pair) else true

abbrev pub next : MainPc → Option MainPc
next main_first = some main_second
next main_second = some main_last
next main_last = some main_returned
next main_returned = none

unfoldable pub main : Process → Option Process
main s = elim (next s.main_pc) [ none ↦ none | some pc ↦ some (record s { main_pc = pc }) ]

unfoldable pub process_step : Actor → Process → Option Process
process_step mains s = if rests s task1 && rests s task2 then main s else none
process_step (tasks t) s =
    if started s.main_pc t
    then elim (pair_step t s.pair) [ none ↦ none | some pair ↦ some (record s { pair = pair }) ]
    else none

-- The steps of main() to come, with those of the tasks.
abbrev calls_left : MainPc → ℕ
calls_left main_first = 3
calls_left main_second = 2
calls_left main_last = 1
calls_left main_returned = 0

abbrev left : Process → ℕ
left s = calls_left s.main_pc + total_left s.pair

abbrev Ended : MainPc → Pair → Type 0
Ended main_returned s = BothEnded s
Ended _ s = Unit

abbrev Kept : Process → Type 0
Kept s = Inv s.pair × Ended s.main_pc s.pair

-- When main() stands at its end and no task can run, both have ended.
rested :
    (s : Pair)
    → Inv s
    → is_none (pair_step task1 s) ≡ true
    → is_none (pair_step task2 s) ≡ true
    → BothEnded s
rested s v one two = elim (Inv-Moves s v) [
  | inl ended ↦ ended
  | inr (task1, t, m) ↦ absurd (let k = rw m at one in cc)
  | inr (task2, t, m) ↦ absurd (let k = rw m at two in cc)
]

main-Kept :
    (pc : MainPc) (s t : Process)
    → s.main_pc ≡ pc
    → (rests s task1 && rests s task2) ≡ true
    → main s ≡ some t
    → Inv s.pair
    → Kept t × (left t + 1 ≡ left s)
unfolding main
main-Kept main_first s t at still e v =
    moved (λ t. Kept t × (left t + 1 ≡ left s)) (rw (main, at) at e) ((v, tt), rw at (omega arith))
main-Kept main_second s t at still e v =
    moved (λ t. Kept t × (left t + 1 ≡ left s)) (rw (main, at) at e) ((v, tt), rw at (omega arith))
main-Kept main_last s t at still e v =
    let quiet = rw at at still in
    moved (λ t. Kept t × (left t + 1 ≡ left s)) (rw (main, at) at e)
      ((v, rested s.pair v (ground arith) (ground arith)), rw at (omega arith))
main-Kept main_returned s t at still e v = let e' = rw (main, at) at e in cc

task-Kept :
    (pc : MainPc) (a : Task) (s t : Process)
    → s.main_pc ≡ pc
    → started pc a ≡ true
    → (p : Pair) → pair_step a s.pair ≡ some p
    → some (record s { pair = p }) ≡ some t
    → Inv s.pair
    → Kept t × (left t + 1 ≡ left s)
task-Kept pc a s t at on p m e v =
    moved (λ t. Kept t × (left t + 1 ≡ left s)) e
      ((step-Inv a s.pair p m v, open_at pc at on), omega (arith, step-total a s.pair p m v))
  where
    open_at : (pc : MainPc) → s.main_pc ≡ pc → started pc a ≡ true → Ended s.main_pc p
    open_at main_first at on = rw at tt
    open_at main_second at on = rw at tt
    open_at main_last at on = rw at tt
    open_at main_returned at on = cc

step-Kept :
    (a : Actor) (s t : Process)
    → process_step a s ≡ some t
    → Kept s
    → Kept t × (left t + 1 ≡ left s)
unfolding process_step
step-Kept mains s t e (v, k) = elim (Bool-cases (rests s task1 && rests s task2)) [
  | inl still ↦ main-Kept s.main_pc s t refl still (rw still at e) v
  | inr busy ↦ absurd (let e' = rw busy at e in cc)
]
step-Kept (tasks a) s t e (v, k) = elim (Bool-cases (started s.main_pc a)) [
  | inl on ↦ elim (Option-cases (pair_step a s.pair)) [
    | inl stuck ↦ absurd (let e' = rw (on, stuck) at e in cc)
    | inr (p, m) ↦ task-Kept s.main_pc a s t refl on p m (rw (on, m) at e) v
  ]
  | inr off ↦ absurd (let e' = rw off at e in cc)
]

-- Some step is possible.
abbrev pub Goes : Process → Type 0
Goes s = (a : Actor) × (t : Process) × (process_step a s ≡ some t)

busy-Goes : (a : Task) (s : Process) → rests s a ≡ false → Goes s
unfolding process_step
busy-Goes a s busy = elim (Bool-cases (started s.main_pc a)) [
  | inl on ↦ elim (Option-cases (pair_step a s.pair)) [
    | inl stuck ↦ absurd (let k = rw (on, stuck) at busy in cc)
    | inr (p, m) ↦ (tasks a, record s { pair = p }, rw (on, m))
  ]
  | inr off ↦ absurd (let k = rw off at busy in cc)
]

Goes-unless : (s : Process) → (s.main_pc ≡ main_returned) ⊎ Goes s
unfolding process_step main
Goes-unless s = elim (Bool-cases (rests s task1)) [
  | inr busy ↦ inr (busy-Goes task1 s busy)
  | inl rest1 ↦ elim (Bool-cases (rests s task2)) [
    | inr busy ↦ inr (busy-Goes task2 s busy)
    | inl rest2 ↦ go s.main_pc refl rest1 rest2
  ]
]
  where
    go :
        (pc : MainPc)
        → s.main_pc ≡ pc
        → rests s task1 ≡ true
        → rests s task2 ≡ true
        → (s.main_pc ≡ main_returned) ⊎ Goes s
    go main_first at r1 r2 = inr (mains, record s { main_pc = main_second }, rw (r1, r2, at))
    go main_second at r1 r2 = inr (mains, record s { main_pc = main_last }, rw (r1, r2, at))
    go main_last at r1 r2 = inr (mains, record s { main_pc = main_returned }, rw (r1, r2, at))
    go main_returned at r1 r2 = inl at

-- Every run of the program on one processor, whose tasks run in any order whenever they can and before
-- main() goes on, has at most 105 steps; and when it stops, because nothing can step, it has exactly 105,
-- main() has returned, both tasks had ended before that, `global` is 0 again, and the console has ten
-- lines of each in turn.
pub run-Returned :
    (actors : List Actor) (s : Process)
    → run process_step actors begun ≡ some s
    → (length actors ≤ 105)
      × (((length actors ≡ 105) × (s.main_pc ≡ main_returned) × BothEnded s.pair) ⊎ Goes s)
run-Returned actors s e =
    let ((v, ended), count) =
      run_measure process_step Kept left step-Kept actors begun s (main_pair-Inv, tt) e in
    (
      omega arith,
      elim (Goes-unless s) [
        | inl over ↦
            let (e1, e2, g, o) = subst (λ pc. Ended pc s.pair) over ended in
            inl (let c = rw (over, e1, e2) at count in omega arith, over, (e1, e2, g, o))
        | inr goes ↦ inr goes
      ],
    )
