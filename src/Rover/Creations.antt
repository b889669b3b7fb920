-- ===== src/Rover/Creations.antt =====
-- What the main program of exercise-edfomai/mars_rover.c sends to the device.
use edfomai.Base.{
  ℕ, ◌*◌, ◌%◌, ◌^◌, ◌≡◌, refl, ◌∙◌, some, List, [], ◌∷◌, ◌++◌, ℤ, pos, negsuc, null, Bool-cases,
  true, false, inl, inr, ◌⊎◌,
}
use edfomai.Message.{EdfMessage}
use edfomai.Driver.{failed}
use edfomai.App.{Skin, App, edf_init, edf_dispose, mtx_create, mtx_delete, mtx_acquire, is_negative}
use edfomai.Launch.{Native, Watch, Naming, creation, spawn_lem}
use edfomai.Rover.Main.{
  Image, time_unit, scaled, sensor_name, processor_name, actuator_name, comunicator_name, SemNames,
  sigint, sigterm, startup, init_edfomai, wait_for_ctrl_c, cleanup, main,
}

-- What the four tasks are created with, the last one first: 3, 7, 10 and 65 seconds, in nanoseconds.
abbrev pub creations : List EdfMessage
creations =
    creation comunicator_name 65000000000
    ∷ creation actuator_name 10000000000
    ∷ creation processor_name 7000000000
    ∷ creation sensor_name 3000000000
    ∷ []

-- What main() finds when it opens the device.
abbrev pub opening : {S : Skin} → Native S → App S → ℤ × Skin.State S
opening {S} N a = Skin.rt_dev_open S (N.mlockall (N.rt_print_auto_init a.os))

module _ {S : Skin} {N : Native S} (W : Watch S N) (C : Naming S N) (I : Image)
    (names : SemNames) where
  open W use {sent}

  startup_lem :
      (fd : ℕ) (a : App S)
      → a.device ≡ pos fd
      → (b : App S) × (startup N I names a ≡ some (tt, b))
        × (b.device ≡ pos fd)
        × (sent b.os ≡ creations ++ sent a.os)
  unfolding startup
  startup_lem fd a open_at =
      let s1 = N.rt_sem_create I.sensing_done names.sensor_sem 0 a.os in
      let s2 = N.rt_sem_create I.processing_done names.processor_sem 0 s1 in
      let s3 = N.rt_sem_create I.ex_lock names.shared_resource 1 s2 in
      let a0 : App S = record a { os = s3 } in
      let (r1, a1, e1, d1, l1) =
        spawn_lem W C I.task sensor_name 90 (scaled 0 2) I.sense (I.row 0) fd a0 open_at in
      let (r2, a2, e2, d2, l2) =
        spawn_lem W C I.task processor_name 89 (scaled 1 2) I.process (I.row 1) fd a1 d1 in
      let (r3, a3, e3, d3, l3) =
        spawn_lem W C I.task actuator_name 88 (scaled 2 2) I.act (I.row 2) fd a2 d2 in
      let (r4, a4, e4, d4, l4) =
        spawn_lem W C I.task comunicator_name 87 ((65 * time_unit) % 2 ^ 64) I.comunicate null fd a3
          d3 in
      (
        a4,
        rw (e1, e2, e3, e4),
        d4,
        rw (
          l4,
          l3,
          l2,
          l1,
          W.sent_sem I.ex_lock names.shared_resource 1 s2,
          W.sent_sem I.processing_done names.processor_sem 0 s1,
          W.sent_sem I.sensing_done names.sensor_sem 0 a.os,
        ),
      )

  cleanup_lem :
      (fd : ℕ) (a : App S)
      → a.device ≡ pos fd
      → (b : App S) × (cleanup N I names a ≡ some (tt, b)) × (sent b.os ≡ sent a.os)
  unfolding cleanup edf_dispose mtx_acquire mtx_delete
  cleanup_lem fd a open_at =
      let s = (Skin.rt_dev_close S (pos fd) a.os).1 in
      let logged = W.sent_close (pos fd) a.os in
      elim (Bool-cases (failed (Skin.rt_dev_close S (pos fd) a.os).0)) [
        | inl k ↦ (record a { os = s; device = negsuc 0 }, rw (open_at, k), logged)
        | inr k ↦ (record a { os = s }, rw (open_at, k), logged)
      ]

  wait_lem :
      (a : App S)
      → (s : S.State) × (wait_for_ctrl_c N I names a ≡ some (tt, record a { os = s }))
        × (sent s ≡ sent a.os)
  unfolding wait_for_ctrl_c
  wait_lem a =
      let s1 = N.signal sigterm I.catch_signal a.os in
      let s2 = N.signal sigint I.catch_signal s1 in
      (
        N.pause s2,
        refl,
        W.sent_pause s2
            ∙ W.sent_signal sigint I.catch_signal s1
            ∙ W.sent_signal sigterm I.catch_signal a.os,
      )

  init_lem : (a : App S) → sent (opening N a).1 ≡ sent a.os
  init_lem a =
      W.sent_open (N.mlockall (N.rt_print_auto_init a.os))
      ∙ W.sent_mlockall (N.rt_print_auto_init a.os)
      ∙ W.sent_print_init a.os

  -- Where a created task has the name that it was given and memory is not exhausted, main() returns. If
  -- the device does not open, it returns -1 and has sent nothing; if it does, it returns 0 and has sent
  -- exactly the four creations, with their deadlines in nanoseconds.
  pub main-creations :
      (a : App S)
      → (r : ℤ) × (b : App S) × (main N I names a ≡ some (r, b))
        × (((is_negative (opening N a).0 ≡ true) × (r ≡ negsuc 0) × (sent b.os ≡ sent a.os))
            ⊎ ((is_negative (opening N a).0 ≡ false)
                × (r ≡ pos 0)
                × (sent b.os ≡ creations ++ sent a.os)))
  unfolding main init_edfomai edf_init mtx_create
  main-creations a = go (opening N a).0 (opening N a).1 refl (init_lem a)
    where
      go :
          (d : ℤ) (s : S.State)
          → opening N a ≡ (d, s)
          → sent s ≡ sent a.os
          → (r : ℤ) × (b : App S) × (main N I names a ≡ some (r, b))
            × (((is_negative d ≡ true) × (r ≡ negsuc 0) × (sent b.os ≡ sent a.os))
                ⊎ ((is_negative d ≡ false) × (r ≡ pos 0) × (sent b.os ≡ creations ++ sent a.os)))
      go (negsuc n) s e l =
          (negsuc 0, record a { os = s; device = negsuc 0 }, rw e, inl (refl, refl, l))
      go (pos fd) s e l =
          let ready : App S = record a { os = s; device = pos fd } in
          let (a1, e1, d1, l1) = startup_lem fd ready refl in
          let (s2, e2, l2) = wait_lem a1 in
          let (a3, e3, l3) = cleanup_lem fd (record a1 { os = s2 }) d1 in
          (pos 0, a3, rw (e, e1, e2, e3), inr (refl, refl, l3 ∙ l2 ∙ rw l at l1))
