-- ===== src/Trial.antt =====
-- What sporadic_test.c and periodic_test.c have in common: a main program that starts three tasks on
-- edfomai-app.c and waits for them, and tasks that spend their time in short stretches. The prints are
-- left out, and with them the names and the priorities that the tasks ask for.
pub mod Sporadic
pub mod Periodic
pub mod Work
pub mod Creations
pub mod Leaks
use edfomai.Base.{
  ℕ, zero, suc, ◌+◌, M, pure, fault, ◌>>=◌, ◌>>◌, [], ◌∷◌, ltb, if◌then◌else◌, ℤ, pos, negsuc, Name,
  Ptr,
}
use edfomai.Platform.{RtTask}
use edfomai.Driver.{failed}
use edfomai.App.{Skin, App, edf_init, edf_dispose, edf_task_start}
use edfomai.Launch.{Native, call}

-- The calls of these programs beside those of Native. What a task does while another one waits for its
-- end is an argument of main_with.
pub record Spawning (S : Skin) : Type 0 where
  pub rt_task_shadow : RtTask → Name → ℕ → S.State → S.State
  pub rt_task_join : RtTask → S.State → S.State

-- The addresses of the globals and of the tasks' function.
pub record Image : Type 0 where
  pub spawner : RtTask
  pub t1 : RtTask
  pub t2 : RtTask
  pub t3 : RtTask
  pub demo : Ptr

-- The deadline of each task, and its argument.
pub record Plan : Type 0 where
  pub deadline1 : ℕ
  pub deadline2 : ℕ
  pub deadline3 : ℕ
  pub arg1 : Ptr
  pub arg2 : Ptr
  pub arg3 : Ptr

abbrev pub spawner_name : Name
spawner_name = b'S' ∷ b'P' ∷ b'A' ∷ b'W' ∷ b'N' ∷ b'E' ∷ b'R' ∷ []

abbrev pub name1 : Name
name1 = b'T' ∷ b'1' ∷ []

abbrev pub name2 : Name
name2 = b'T' ∷ b'2' ∷ []

abbrev pub name3 : Name
name3 = b'T' ∷ b'3' ∷ []

module _ {S : Skin} (N : Native S) where
  -- `for (i = 0; i < WASTE_TIME; i += WAIT_SESSION)` from i on; out of fuel it is a fault.
  unfoldable pub work_from : ℕ → ℕ → ℕ → ℕ → M (App S) (Unit {0})
  work_from waste session zero i = fault
  work_from waste session (suc fuel) i =
      let rest = (do call (N.rt_timer_spin session); work_from waste session fuel (i + session)) in
      if ltb i waste then rest else pure tt

  module _ (X : Spawning S) (I : Image) (plan : Plan) where
    open N use {rt_print_auto_init, mlockall, rt_task_create}
    open X use {rt_task_shadow, rt_task_join}
    open I use {spawner, t1, t2, t3, demo}

    unfoldable pub start_tasks : M (App S) (Unit {0})
    start_tasks = do
      call (rt_task_create t1 name1 25)
      call (rt_task_create t2 name2 25)
      call (rt_task_create t3 name3 25)
      _ ← edf_task_start t1 plan.deadline1 demo plan.arg1
      _ ← edf_task_start t2 plan.deadline2 demo plan.arg2
      _ ← edf_task_start t3 plan.deadline3 demo plan.arg3
      pure tt

    -- `meanwhile` is what the three tasks do until they have ended.
    unfoldable pub main_with : M (App S) (Unit {0}) → M (App S) ℤ
    main_with meanwhile = do
      call rt_print_auto_init
      call mlockall
      call (rt_task_shadow spawner spawner_name 50)
      ret ← edf_init
      if failed ret then pure (negsuc 0) else do
        start_tasks
        meanwhile
        call (rt_task_join t2)
        call (rt_task_join t1)
        call (rt_task_join t3)
        _ ← edf_dispose
        pure (pos 0)
