-- ===== src/Trial/Sporadic.antt =====
-- sporadic_test.c: three tasks that work once and end.
use edfomai.Base.{ℕ, ◌/◌, suc, M, ℤ, null}
use edfomai.App.{Skin, App}
use edfomai.Launch.{Native}
use edfomai.Trial.{Spawning, Image, Plan, work_from, main_with}

abbrev pub nwait_session : ℕ
nwait_session = 5

abbrev pub waste_time : ℕ
waste_time = 360000

abbrev pub wait_session : ℕ
wait_session = waste_time / nwait_session

-- Nanoseconds.
abbrev pub plan : Plan
plan = record {
  deadline1 = 200000;
  deadline2 = 350000;
  deadline3 = 250000;
  arg1 = null;
  arg2 = null;
  arg3 = null;
}

module _ {S : Skin} (N : Native S) where
  unfoldable pub demo : M (App S) (Unit {0})
  demo = work_from N waste_time wait_session (suc nwait_session) 0

  unfoldable pub main : Spawning S → Image → M (App S) (Unit {0}) → M (App S) ℤ
  main X I meanwhile = main_with N X I plan meanwhile
