-- ===== src/Trial/Creations.antt =====
-- What the main programs of sporadic_test.c and periodic_test.c send to the device.
use edfomai.Base.{
  ℕ, M, ◌≡◌, ◌≢◌, refl, ◌∙◌, ◌⊎◌, inl, inr, some, List, [], ◌∷◌, ◌++◌, ℤ, pos, negsuc, Name, Ptr,
  Bool-cases, true, false,
}
use edfomai.Message.{EdfMessage}
use edfomai.Platform.{RtTask, TaskInfo, filled}
use edfomai.Driver.{failed}
use edfomai.App.{
  Skin, App, is_negative, is_no_device, edf_init, edf_dispose, edf_task_start, mtx_create,
  mtx_delete, mtx_acquire,
}
use edfomai.App.Task.{task_start_lem}
use edfomai.Launch.{Native, Watch, creation}
use edfomai.Trial.Sporadic
use edfomai.Trial.Periodic
use edfomai.Trial.{Spawning, Image, Plan, spawner_name, name1, name2, name3, start_tasks, main_with}

-- The task is known by this name.
abbrev pub Knows : (S : Skin) → RtTask → Name → S.State → Type 0
Knows S t name s = (i : TaskInfo) × (S.rt_task_inquire t s ≡ filled i) × (i.name ≡ name)

-- A created task has its name, and keeps it while others are created and started.
pub record Tracking (S : Skin) (N : Native S) : Type 0 where
  pub created :
      (t : RtTask) (name : Name) (prio : ℕ) (s : S.State)
      → Knows S t name (N.rt_task_create t name prio s)
  pub create_keeps :
      (t u : RtTask) (name other : Name) (prio : ℕ) (s : S.State)
      → t ≢ u
      → Knows S t name s
      → Knows S t name (N.rt_task_create u other prio s)
  pub write_keeps :
      (t : RtTask) (name : Name) (fd : ℤ) (m : EdfMessage) (s : S.State)
      → Knows S t name s
      → Knows S t name (S.rt_dev_write fd m s).1
  pub start_keeps :
      (t u : RtTask) (name : Name) (f arg : Ptr) (s : S.State)
      → Knows S t name s
      → Knows S t name (S.rt_task_start u f arg s).1

-- The three globals are different.
pub record IsImage (I : Image) : Type 0 where
  pub apart12 : I.t1 ≢ I.t2
  pub apart13 : I.t1 ≢ I.t3
  pub apart23 : I.t2 ≢ I.t3

-- The log does not show these calls either.
pub record Unseen {S : Skin} {N : Native S} (W : Watch S N) (X : Spawning S) : Type 0 where
  pub sent_shadow :
      (t : RtTask) (name : Name) (prio : ℕ) (s : S.State)
      → W.sent (X.rt_task_shadow t name prio s) ≡ W.sent s
  pub sent_join : (t : RtTask) (s : S.State) → W.sent (X.rt_task_join t s) ≡ W.sent s

abbrev pub creations : Plan → List EdfMessage
creations p =
    creation name3 p.deadline3 ∷ creation name2 p.deadline2 ∷ creation name1 p.deadline1 ∷ []

-- What main() finds when it opens the device.
abbrev pub opening : {S : Skin} → Native S → Spawning S → Image → App S → ℤ × Skin.State S
opening {S} N X I a =
    Skin.rt_dev_open S
      (X.rt_task_shadow I.spawner spawner_name 50 (N.mlockall (N.rt_print_auto_init a.os)))

module _ {S : Skin} {N : Native S} (W : Watch S N) where
  open W use {sent}

  -- The system after a start.
  abbrev after_start : ℕ → Name → ℕ → RtTask → Ptr → Ptr → S.State → S.State
  after_start fd name deadline t f arg s =
      (Skin.rt_task_start S t f arg (Skin.rt_dev_write S (pos fd) (creation name deadline) s).1).1

  start-sent :
      (t : RtTask) (name : Name) (deadline : ℕ) (f arg : Ptr) (fd : ℕ) (x : App S)
      → x.device ≡ pos fd
      → Knows S t name x.os
      → (r : ℤ) × (edf_task_start t deadline f arg x
          ≡ some (r, record x { os = after_start fd name deadline t f arg x.os }))
        × (sent (after_start fd name deadline t f arg x.os) ≡ creation name deadline ∷ sent x.os)
  start-sent t name deadline f arg fd x open_at (i, known, named) =
      let s1 = (Skin.rt_dev_write S (pos fd) (creation name deadline) x.os).1 in
      (
        (Skin.rt_task_start S t f arg s1).0,
        task_start_lem t deadline f arg x (W.room x.live x.os) ∙ rw (known, open_at, named),
        W.sent_start t f arg s1 ∙ W.sent_write (pos fd) (creation name deadline) x.os,
      )

  module _ (T : Tracking S N) where
    open T use {created, create_keeps, write_keeps, start_keeps}

    after_start-keeps :
        (u : RtTask) (other : Name) (fd : ℕ) (name : Name) (deadline : ℕ) (t : RtTask) (f arg : Ptr)
        (s : S.State)
        → Knows S u other s
        → Knows S u other (after_start fd name deadline t f arg s)
    after_start-keeps u other fd name deadline t f arg s k =
        start_keeps u t other f arg _ (write_keeps u other (pos fd) _ s k)

    module _ (X : Spawning S) (U : Unseen W X) (I : Image) (apart : IsImage I) (plan : Plan) where
      open I use {t1, t2, t3, demo}

      -- With an open device, the three creations are sent, and the descriptor and the heap stay.
      start_tasks-sent :
          (fd : ℕ) (x : App S)
          → x.device ≡ pos fd
          → (s : S.State) × (start_tasks N X I plan x ≡ some (tt, record x { os = s }))
            × (sent s ≡ creations plan ++ sent x.os)
      unfolding start_tasks
      start_tasks-sent fd x open_at =
          let s1 = N.rt_task_create t1 name1 25 x.os in
          let s2 = N.rt_task_create t2 name2 25 s1 in
          let s3 = N.rt_task_create t3 name3 25 s2 in
          let k1 =
            create_keeps t1 t3 name1 name3 25 s2 apart.apart13
              (create_keeps t1 t2 name1 name2 25 s1 apart.apart12 (created t1 name1 25 x.os)) in
          let k2 = create_keeps t2 t3 name2 name3 25 s2 apart.apart23 (created t2 name2 25 s1) in
          let k3 = created t3 name3 25 s2 in
          let k2' = after_start-keeps t2 name2 fd name1 plan.deadline1 t1 demo plan.arg1 s3 k2 in
          let k3' = after_start-keeps t3 name3 fd name1 plan.deadline1 t1 demo plan.arg1 s3 k3 in
          let (r1, e1, l1) =
            start-sent t1 name1 plan.deadline1 demo plan.arg1 fd (record x { os = s3 }) open_at
              k1 in
          let s4 = after_start fd name1 plan.deadline1 t1 demo plan.arg1 s3 in
          let (r2, e2, l2) =
            start-sent t2 name2 plan.deadline2 demo plan.arg2 fd (record x { os = s4 }) open_at
              k2' in
          let s5 = after_start fd name2 plan.deadline2 t2 demo plan.arg2 s4 in
          let k3'' = after_start-keeps t3 name3 fd name2 plan.deadline2 t2 demo plan.arg2 s4 k3' in
          let (r3, e3, l3) =
            start-sent t3 name3 plan.deadline3 demo plan.arg3 fd (record x { os = s5 }) open_at
              k3'' in
          (
            after_start fd name3 plan.deadline3 t3 demo plan.arg3 s5,
            rw (e1, e2, e3),
            rw (
              l3,
              l2,
              l1,
              W.sent_create t3 name3 25 s2,
              W.sent_create t2 name2 25 s1,
              W.sent_create t1 name1 25 x.os,
            ),
          )

      -- Joins and the dispose send nothing, whatever the descriptor is by then.
      dispose-sent :
          (x : App S)
          → (r : ℤ) × (b : App S) × (edf_dispose x ≡ some (r, b)) × (sent b.os ≡ sent x.os)
      unfolding edf_dispose mtx_acquire mtx_delete
      dispose-sent x =
          let s = (Skin.rt_dev_close S x.device x.os).1 in
          let logged = W.sent_close x.device x.os in
          elim (Bool-cases (is_no_device x.device)) [
            | inl e ↦ (negsuc 0, x, rw e, refl)
            | inr e ↦ elim (Bool-cases (failed (Skin.rt_dev_close S x.device x.os).0)) [
              | inl k ↦ (negsuc 1, record x { os = s; device = negsuc 0 }, rw (e, k), logged)
              | inr k ↦ (pos 0, record x { os = s }, rw (e, k), logged)
            ]
          ]

      main_with-creations :
          (meanwhile : M (App S) (Unit {0}))
          → ((x : App S) → (y : App S) × (meanwhile x ≡ some (tt, y)) × (sent y.os ≡ sent x.os))
          → (a : App S)
          → (r : ℤ) × (b : App S) × (main_with N X I plan meanwhile a ≡ some (r, b))
            × (((is_negative (opening N X I a).0 ≡ true) × (r ≡ negsuc 0) × (sent b.os ≡ sent a.os))
                ⊎ ((is_negative (opening N X I a).0 ≡ false)
                    × (r ≡ pos 0)
                    × (sent b.os ≡ creations plan ++ sent a.os)))
      unfolding main_with edf_init mtx_create
      main_with-creations meanwhile quiet a = go (opening N X I a).0 (opening N X I a).1 refl (
          W.sent_open _
          ∙ U.sent_shadow I.spawner spawner_name 50 _
          ∙ W.sent_mlockall (N.rt_print_auto_init a.os)
          ∙ W.sent_print_init a.os)
        where
          go :
              (d : ℤ) (s : S.State)
              → opening N X I a ≡ (d, s)
              → sent s ≡ sent a.os
              → (r : ℤ) × (b : App S) × (main_with N X I plan meanwhile a ≡ some (r, b))
                × (((is_negative d ≡ true) × (r ≡ negsuc 0) × (sent b.os ≡ sent a.os))
                    ⊎ ((is_negative d ≡ false)
                        × (r ≡ pos 0)
                        × (sent b.os ≡ creations plan ++ sent a.os)))
          go (negsuc n) s e l =
              (negsuc 0, record a { os = s; device = negsuc 0 }, rw e, inl (refl, refl, l))
          go (pos fd) s e l =
              let ready : App S = record a { os = s; device = pos fd } in
              let (s1, e1, l1) = start_tasks-sent fd ready refl in
              let (y, e2, l2) = quiet (record ready { os = s1 }) in
              let j1 = X.rt_task_join t2 y.os in
              let j2 = X.rt_task_join t1 j1 in
              let j3 = X.rt_task_join t3 j2 in
              let (r, b, e3, l3) = dispose-sent (record y { os = j3 }) in
              let joined = U.sent_join t3 j2 ∙ U.sent_join t1 j1 ∙ U.sent_join t2 y.os in
              (pos 0, b, rw (e, e1, e2, e3), inr (refl, refl, l3 ∙ joined ∙ l2 ∙ rw l at l1))

-- main() returns -1 and has sent nothing if its device does not open, and else 0 and has sent exactly
-- these messages, the newest first.
abbrev pub Sends :
    {S : Skin} {N : Native S} → Watch S N → M (App S) ℤ → ℤ → List EdfMessage → App S → Type 0
Sends {S} W main opened messages a =
    (r : ℤ) × (b : App S) × (main a ≡ some (r, b))
    × (((is_negative opened ≡ true) × (r ≡ negsuc 0) × (W.sent b.os ≡ W.sent a.os))
        ⊎ ((is_negative opened ≡ false) × (r ≡ pos 0) × (W.sent b.os ≡ messages ++ W.sent a.os)))

module _ {S : Skin} {N : Native S} (W : Watch S N) (T : Tracking S N) (X : Spawning S)
    (U : Unseen W X) (I : Image) (apart : IsImage I) where
  -- Where memory is not exhausted, a task keeps the name that it was created with, and what the tasks
  -- do meanwhile returns and adds nothing to the log of main()'s messages: the main programs of
  -- both tests return, -1 with nothing sent if the device does not open, and else 0 with exactly the
  -- three creations sent, whose deadlines are 0.2, 0.35 and 0.25 milliseconds for sporadic_test.c and 2,
  -- 3.5 and 2.5 milliseconds for periodic_test.c.
  pub mains-creations :
      (meanwhile : M (App S) (Unit {0}))
      → ((x : App S) → (y : App S) × (meanwhile x ≡ some (tt, y)) × (W.sent y.os ≡ W.sent x.os))
      → (a : App S)
      → Sends W
          (Sporadic.main N X I meanwhile)
          (opening N X I a).0
          (creation name3 250000 ∷ creation name2 350000 ∷ creation name1 200000 ∷ [])
          a
        × Sends W
            (Periodic.main N X I meanwhile)
            (opening N X I a).0
            (creation name3 2500000 ∷ creation name2 3500000 ∷ creation name1 2000000 ∷ [])
            a
  unfolding Sporadic.main Periodic.main
  mains-creations meanwhile quiet a = (
    main_with-creations W T X U I apart Sporadic.plan meanwhile quiet a,
    main_with-creations W T X U I apart Periodic.plan meanwhile quiet a,
  )
