-- ===== src/Trial/Leaks.antt =====
-- The descriptor that the main program of periodic_test.c opens, while its tasks use the library.
use edfomai.Base.{ℕ, ◌≡◌, ◌≢◌, true, some, List, ◌∷◌, for_each, ℤ, pos, Name, Ptr, null}
use edfomai.Platform.{RtTask}
use edfomai.App.{Skin, App, edf_init, mtx_create, edf_task_start}
use edfomai.App.Task.{task_start_lem, started}
use edfomai.App.Leak.{
  Descriptors, Use, initialises, use_library, started-open, init-Lost, uses-Lost, dispose-Lost,
}
use edfomai.Launch.{Native}
use edfomai.Trial.{Spawning, Image, Plan, spawner_name, name1, name2, name3, start_tasks, main_with}
use edfomai.Trial.Periodic
use edfomai.Trial.Creations.{opening}

-- Creating and joining a task leave the descriptors alone.
pub record LeavesOpen {S : Skin} (D : Descriptors S) (N : Native S) (X : Spawning S) : Type 0 where
  pub create_keeps :
      (d : ℕ) (t : RtTask) (name : Name) (prio : ℕ) (s : S.State)
      → D.is_open d s ≡ true
      → D.is_open d (N.rt_task_create t name prio s) ≡ true
  pub join_keeps :
      (d : ℕ) (t : RtTask) (s : S.State)
      → D.is_open d s ≡ true
      → D.is_open d (X.rt_task_join t s) ≡ true

module _ {S : Skin} {N : Native S} {X : Spawning S} (D : Descriptors S) (L : LeavesOpen D N X)
    (I : Image) (room : (live : List Ptr) (s : S.State) → S.malloc live s ≢ null)
    (in_task : (s : S.State) → S.rt_task_self s ≢ null) (d : ℕ) where
  open D use {is_open}
  open L use {create_keeps, join_keeps}
  open I use {t1, t2, t3, demo}

  init-opens :
      (a : App S) (s : S.State)
      → Skin.rt_dev_open S a.os ≡ (pos d, s)
      → edf_init a ≡ some (pos 0, record a { os = s; device = pos d })
  unfolding edf_init mtx_create
  init-opens a s opens = rw opens

  start-open :
      (t : RtTask) (deadline : ℕ) (arg : Ptr) (a : App S)
      → is_open d a.os ≡ true
      → (r : ℤ) × (b : App S) × (edf_task_start t deadline demo arg a ≡ some (r, b))
        × (is_open d b.os ≡ true)
  start-open t deadline arg a held =
      let q = S.rt_task_inquire t a.os in
      let (r, b) = started t deadline demo arg a q in
      (
        r,
        b,
        task_start_lem t deadline demo arg a (room a.live a.os),
        (started-open D d t deadline demo arg a held q).0,
      )

  start_tasks-open :
      (plan : Plan) (a : App S)
      → is_open d a.os ≡ true
      → (b : App S) × (start_tasks N X I plan a ≡ some (tt, b)) × (is_open d b.os ≡ true)
  unfolding start_tasks
  start_tasks-open plan a held =
      let s1 = N.rt_task_create t1 name1 25 a.os in
      let s2 = N.rt_task_create t2 name2 25 s1 in
      let s3 = N.rt_task_create t3 name3 25 s2 in
      let k1 = create_keeps d t1 name1 25 a.os held in
      let k2 = create_keeps d t2 name2 25 s1 k1 in
      let k3 = create_keeps d t3 name3 25 s2 k2 in
      let (r1, b1, e1, h1) = start-open t1 plan.deadline1 plan.arg1 (record a { os = s3 }) k3 in
      let (r2, b2, e2, h2) = start-open t2 plan.deadline2 plan.arg2 b1 h1 in
      let (r3, b3, e3, h3) = start-open t3 plan.deadline3 plan.arg3 b2 h2 in
      (b3, rw (e1, e2, e3), h3)

  -- Where memory is not exhausted and the callers are tasks: the main program of periodic_test.c, whose
  -- device opens with the descriptor d, returns 0 with d still open, whatever calls of the library
  -- its tasks make, in whatever order, of which the first is an edf_init, as it is in each of the
  -- tasks.
  pub main-leaks :
      (us : List Use) (a : App S) (s : S.State)
      → opening N X I a ≡ (pos d, s)
      → (b : App S) × (Periodic.main N X I (for_each (initialises ∷ us) use_library) a
          ≡ some (pos 0, b))
        × (is_open d b.os ≡ true)
  unfolding Periodic.main main_with for_each use_library
  main-leaks us a s opens =
      let spawner_os =
        X.rt_task_shadow I.spawner spawner_name 50 (N.mlockall (N.rt_print_auto_init a.os)) in
      let e0 = init-opens (record a { os = spawner_os }) s opens in
      let ready : App S = record a { os = s; device = pos d } in
      let held = (D.open_new d _ s opens).1 in
      let (b1, e1, h1) = start_tasks-open Periodic.plan ready held in
      let (r2, b2, e2, l2) = init-Lost D d b1 h1 in
      let (b3, e3, l3) = uses-Lost D d room in_task us b2 l2 in
      let j1 = X.rt_task_join t2 b3.os in
      let j2 = X.rt_task_join t1 j1 in
      let j3 = X.rt_task_join t3 j2 in
      let kept = join_keeps d t3 j2 (join_keeps d t1 j1 (join_keeps d t2 b3.os l3.0)) in
      let (r4, b4, e4, l4) = dispose-Lost D d (record b3 { os = j3 }) (kept, l3.1) in
      (b4, rw (e0, e1, e2, e3, e4), l4.0)
