-- ===== src/Exercise/Semaphore/Turns.antt =====
-- The two tasks of exercise-xenomai/semaphore.c alternate.
use edfomai.Base.{◌-◌, ◌<◌, ◌≡◌, refl, some, arith}
use edfomai.Tasks.{Reached, Reached_ind}
use edfomai.Exercise.Semaphore.{Pair, main_pair, Task, task1, task2, pair_step}
use edfomai.Exercise.Semaphore.Rounds.{said, console, bumped-said, Inv}
use edfomai.Exercise.Semaphore.First.{one-Inv}
use edfomai.Exercise.Semaphore.Second.{two-Inv}

pub step-Inv : (a : Task) (s t : Pair) → pair_step a s ≡ some t → Inv s → Inv t
unfolding pair_step
step-Inv task1 s t e v = one-Inv s.one s t refl e v
step-Inv task2 s t e v = two-Inv s.two s t refl e v

pub main_pair-Inv : Inv main_pair
main_pair-Inv = record {
  first = refl;
  second = refl;
  counted = refl;
  lines = refl;
  one_within = ground arith;
  two_within = ground arith;
  one_local = tt;
  two_local = tt;
}

-- In every reached state, `global` is 0 or 1 and the console alternates: 1 from the first task and
-- then 0 from the second.
Reached-console :
    (s : Pair)
    → Reached pair_step main_pair s
    → (s.global < 2) × (s.out ≡ console (said s.two) (said s.one - said s.two))
Reached-console s r =
    let v = Reached_ind pair_step Inv step-Inv main_pair-Inv r in
    let (low1, mid1, high1) = bumped-said s.one in
    let (low2, mid2, high2) = bumped-said s.two in
    (omega (arith, v.first, v.second, v.counted), v.lines)
