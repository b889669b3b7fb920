-- ===== src/System/RoverStarted.antt =====
-- exercise-edfomai/mars_rover.c on the driver: what its main program leaves in the table of
-- edfomai-drv-data.c once it has opened the device and started its tasks.
use edfomai.Base.{
  ℕ, ◌≡◌, refl, arith, some, List, [], ◌∷◌, pure, ◌>>=◌, ◌>>◌, ◌*◌, ◌%◌, ◌^◌, pos, null, Name,
  name_eq,
}
use edfomai.Platform.{Platform}
use edfomai.Driver.{edf_rtdm_open_nrt}
use edfomai.Driver.Served.{Steady, kernel-IsValid}
use edfomai.Dtask.Valid.{IsValid}
use edfomai.App.{App, edf_init, mtx_create}
use edfomai.System.{Process, joined}
use edfomai.System.Enrolled.{Calls, joined_native, Launching, Holding, spawn-Holding}
use edfomai.Rover.Main.{
  Image, SemNames, time_unit, scaled, sensor_name, processor_name, actuator_name, comunicator_name,
  startup, init_edfomai,
}

-- The rover's tasks with their deadlines, in nanoseconds.
abbrev pub rover_tasks : List (Name × ℕ)
rover_tasks =
    (sensor_name, 3000000000)
    ∷ (processor_name, 7000000000)
    ∷ (actuator_name, 10000000000)
    ∷ (comunicator_name, 65000000000)
    ∷ []

module _ {P : Platform} (U : Process P) (K : Calls P) (L : Launching U K) (st : Steady P)
    (I : Image) (names : SemNames) where
  Holding-kernel :
      (a : App (joined P U)) (fd : ℕ) (ts : List (Name × ℕ)) (s : P.State)
      → Holding U a fd ts
      → Holding U (record a { os = record a.os { kernel = s } }) fd ts
  Holding-kernel a fd ts s h = record {
    items = h.items;
    entries = h.entries;
    valid = kernel-IsValid s h.valid;
    enrolled = h.enrolled;
    open_at = h.open_at;
  }

  startup-Holding :
      (a : App (joined P U)) (fd : ℕ)
      → Holding U a fd []
      → (b : App (joined P U)) × (startup (joined_native U K) I names a ≡ some (tt, b))
        × Holding U b fd rover_tasks
  unfolding startup name_eq
  startup-Holding a fd h =
      let s1 = K.rt_sem_create I.sensing_done names.sensor_sem 0 a.os.kernel in
      let s2 = K.rt_sem_create I.processing_done names.processor_sem 0 s1 in
      let s3 = K.rt_sem_create I.ex_lock names.shared_resource 1 s2 in
      let h0 = Holding-kernel a fd [] s3 h in
      let (r1, a1, e1, h1) =
        spawn-Holding U K L st I.task sensor_name 90 (scaled 0 2) I.sense (I.row 0) h0 (omega arith)
          tt in
      let (r2, a2, e2, h2) =
        spawn-Holding U K L st I.task processor_name 89 (scaled 1 2) I.process (I.row 1) h1
          (omega arith) (refl, tt) in
      let (r3, a3, e3, h3) =
        spawn-Holding U K L st I.task actuator_name 88 (scaled 2 2) I.act (I.row 2) h2 (omega arith)
          (refl, (refl, tt)) in
      let (r4, a4, e4, h4) =
        spawn-Holding U K L st I.task comunicator_name 87 ((65 * time_unit) % 2 ^ 64) I.comunicate
          null h3 (omega arith) (refl, (refl, (refl, tt))) in
      (a4, rw (e1, e2, e3, e4), h4)

  -- On a driver with a valid, empty table, with a kernel that has memory and knows its tasks, all with
  -- short names, where a created task is found by its name and the device opens: the initialisation
  -- and the start of the rover return, and then the table is valid and holds exactly the rover's
  -- four tasks, in the order of their starts, with deadlines of 3, 7, 10 and 65 seconds.
  pub rover-Holding :
      (a : App (joined P U)) (fd : ℕ) (s : P.State)
      → IsValid a.os [] []
      → U.rt_dev_open (K.mlockall (K.rt_print_auto_init a.os.kernel)) ≡ (pos fd, s)
      → (b : App (joined P U)) × ((init_edfomai (joined_native U K) I names >>= λ r.
              startup (joined_native U K) I names >> pure r)
            a
          ≡ some (pos 0, b))
        × Holding U b fd rover_tasks
  unfolding init_edfomai edf_init mtx_create edf_rtdm_open_nrt
  rover-Holding a fd s v opens =
      let ready : App (joined P U) = record a {
        os = record a.os { kernel = s };
        device = pos fd;
      } in
      let (b, e, h) = startup-Holding ready fd (record {
        items = [];
        entries = [];
        valid = kernel-IsValid s v;
        enrolled = tt;
        open_at = refl;
      }) in
      (b, rw (opens, e), h)
