-- ===== src/Tests/OfDriver.antt =====
-- The driver on the simulated platform: a request for task 1 of the table of two tasks, and a whole
-- life of the module.
use edfomai.Base.{
  ℕ, suc, ◌<◌, ◌≡◌, ◌≢◌, refl, some, none, List, [], ◌∷◌, arith, ◌==◌, if◌then◌else◌, pos, negsuc,
  Ptr, null, ◌>>=◌, length, for_each, lookup, name_eq, remove,
}
use edfomai.World.{World, RtDeadlineTask}
use edfomai.Dtask.{rt_dtask_create, rt_dtask_delete}
use edfomai.Driver.Undo.{create-delete}
use edfomai.Dtask.Valid.{IsValid}
use edfomai.Driver.{edf_rtdm_write_nrt}
use edfomai.Driver.Served.{Steady, Served}
use edfomai.Driver.Write.{request, task_named, write-Served}
use edfomai.Driver.Run.{Event, written, woken, switched, deleted, step, Sound, run-Sound}
use edfomai.Tests.Sim.{sim, sim_name, total, prio_in}
use edfomai.Tests.Worlds.{clock_at_100, two_items, two_entries, two_tasks, two-IsValid}
use edfomai.Recalc.{assign_step, no_bounds}
use edfomai.Driver.{edf_delete_hook}
use edfomai.Driver.Race.{pass, next_item}
use edfomai.Driver.Race.Passes.{hits, PassEnds, pass-PassEnds}

sim-short : (t : ℕ) → length (sim_name t) < 24
sim-short t = omega arith

sim-room : (live : List Ptr) → suc (total live) ≢ null
sim-room live e = omega arith

pub sim-Steady : Steady sim
sim-Steady = record {
  knows = λ t s. (record { name = sim_name t; cprio = prio_in s.prios t }, refl);
  room = λ live s. sim-room live;
  short = sim-short;
}

-- The module before it is loaded.
abbrev unloaded : World sim
unloaded = record { kernel = clock_at_100; dtask_map = []; dtasks = λ p. none; live = [] }

-- A request to create task 1, a wake of the service, a switch, a request that cannot be read, and
-- the end of task 1.
abbrev day : List Event
day = written 1 40 ∷ woken ∷ switched 1 ∷ written 9 40 ∷ deleted 1 ∷ []

write-Served_example :
    (s : Served (edf_rtdm_write_nrt 1 40) two_tasks two_items two_entries) × (s.result
      ≡ (if task_named (request two_tasks 1).task two_tasks == null then negsuc 0 else pos 40))
write-Served_example = write-Served two-IsValid sim-Steady 1 40

run-Sound_example : (w' : World sim) × (for_each day step two_tasks ≡ some (tt, w')) × Sound w'
run-Sound_example = run-Sound day two_tasks sim-Steady (two_items, two_entries, two-IsValid)

-- Task 2 is deleted before the body at the entry of task 1.
pass-PassEnds_example :
    PassEnds
      (hits 20 10 (some 20))
      (pass (edf_delete_hook 2) (assign_step no_bounds) 10 (some 20))
      (some 20)
      (remove 20 two_items)
      two_tasks
unfolding lookup name_eq next_item
pass-PassEnds_example =
    pass-PassEnds sim-Steady no_bounds 2 20 10 (some 20) two-IsValid refl refl refl

create-delete_example :
    (w' : World sim) × (es : List RtDeadlineTask) × ((rt_dtask_create 3 700 >>= λ _.
    rt_dtask_delete 3)
        two_tasks
      ≡ some (pos 0, w'))
    × IsValid w' two_items es
    × (w'.live ≡ two_tasks.live)
unfolding lookup name_eq
create-delete_example = create-delete two-IsValid sim-Steady 3 700 refl
