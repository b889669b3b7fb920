-- ===== src/Trial/Periodic.antt =====
-- periodic_test.c: three tasks that work in ten periods each. Every task initialises the library and
-- disposes it, as main() does, in the one process that they share.
use edfomai.Base.{ℕ, zero, suc, ◌/◌, M, pure, ◌>>=◌, ◌>>◌, ℤ, Ptr}
use edfomai.App.{Skin, App, edf_init, edf_dispose, edf_task_wait_period}
use edfomai.Launch.{Native, call}
use edfomai.Trial.{Spawning, Image, Plan, work_from, main_with}

abbrev pub nperiods : ℕ
nperiods = 10

abbrev pub nwait_session : ℕ
nwait_session = 5

abbrev pub waste_time : ℕ
waste_time = 300000

abbrev pub wait_session : ℕ
wait_session = waste_time / nwait_session

-- Nanoseconds. The argument of a task is its deadline again, which is its period.
abbrev pub plan : Plan
plan = record {
  deadline1 = 2000000;
  deadline2 = 3500000;
  deadline3 = 2500000;
  arg1 = 2000000;
  arg2 = 3500000;
  arg3 = 2500000;
}

module _ {S : Skin} (N : Native S) where
  unfoldable pub work : M (App S) (Unit {0})
  work = work_from N waste_time wait_session (suc nwait_session) 0

  -- The periods that are left; `overruns` is the address of the task's variable.
  unfoldable pub periods : Ptr → ℕ → M (App S) (Unit {0})
  periods overruns zero = pure tt
  periods overruns (suc left) = do work; _ ← edf_task_wait_period overruns; periods overruns left

  -- The results of edf_init and of edf_dispose are not looked at.
  unfoldable pub demo : Ptr → ℕ → M (App S) (Unit {0})
  demo overruns deadline = do
    call (N.rt_task_set_periodic deadline)
    _ ← edf_init
    periods overruns nperiods
    _ ← edf_dispose
    pure tt

  unfoldable pub main : Spawning S → Image → M (App S) (Unit {0}) → M (App S) ℤ
  main X I meanwhile = main_with N X I plan meanwhile
