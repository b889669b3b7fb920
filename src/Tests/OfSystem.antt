-- ===== src/Tests/OfSystem.antt =====
-- A program that starts task 3 on the driver, whose table has the tasks 1 and 2.
use edfomai.Base.{
  negsuc, none, pure, ◌>>=◌, ◌>>◌, suc, ◌≡◌, ◌≢◌, refl, some, List, [], Items, pos, null, lookup,
  name_eq, arith,
}
use edfomai.Platform.{TaskInfo, filled}
use edfomai.World.{World, RtDeadlineTask}
use edfomai.Dtask.Valid.{IsValid}
use edfomai.Driver.Register.{Registered}
use edfomai.App.{App, edf_task_start, edf_task_wait_period}
use edfomai.App.Task.{heap_block}
use edfomai.System.{Process, joined, start-Registered}
use edfomai.Tests.Sim.{Sim, sim, sim_name, total, fresh-unused, prio_in}
use edfomai.Tests.Worlds.{clock_at_100, two_tasks, two_blocks, two_items, two_entries, two-IsValid}
use edfomai.Recalc.{remaining}
use edfomai.Driver.Schedule.Rounds.{Follows}
use edfomai.Driver.Schedule.Requests.{AllNear, entries_after}
use edfomai.System.Waited.{reset_message, resuming, wait-Follows}
use edfomai.Tests.OfSchedule.{sim-Obedient}
use edfomai.System.Enrolled.{joined_native, Holding}
use edfomai.System.RoverStarted.{rover_tasks, rover-Holding}
use edfomai.Rover.Main.{init_edfomai, startup}
use edfomai.Tests.OfDriver.{sim-Steady}
use edfomai.Tests.OfLaunch.{rover_image, no_names}
use edfomai.Tests.SimNamed.{named_sim, named_process, named_calls, named-Launching, named-Steady}

abbrev sim_process : Process sim
sim_process = record {
  buffer = λ m s. (1, record s { mailbox = m });
  message_size = 40;
  rt_dev_open = λ s. (pos 3, s);
  rt_dev_close = λ fd s. (pos 0, s);
  rt_task_self = λ s. 1;
  rt_task_inquire = λ t s. filled (record { name = sim_name t; cprio = prio_in s.prios t });
  rt_task_start = λ t f arg s. (pos 0, s);
  rt_task_wait_period = λ overruns s. (pos 0, s);
  malloc = λ live s. suc (total live);
  buffer_read = λ m s. refl;
  malloc_fresh = λ live s. fresh-unused live;
}

abbrev program : App (joined sim sim_process)
program = record { os = two_tasks; device = pos 3; live = [] }

program_room : heap_block program ≢ null
unfolding total
program_room e = omega arith

start-Registered_example :
    (b : App (joined sim sim_process)) × (s : Sim) × (ys : Items) × (es : List RtDeadlineTask)
    × (edf_task_start 3 700 70 80 program ≡ some (pos 0, b))
    × IsValid b.os ys es
    × Registered two_blocks b.os two_items ys 3 700
    × (b.device ≡ pos 3)
unfolding prio_in lookup name_eq
start-Registered_example =
    start-Registered sim_process program two-IsValid sim-Steady 3 3
      (record { name = sim_name 3; cprio = 20 }) 700 3 70 80 refl program_room refl refl
      (λ e. omega arith) refl

abbrev own_info : TaskInfo
own_info = record { name = sim_name 1; cprio = 20 }

-- Whatever the clock shows, the deadlines are near.
near_always :
    (w : World sim)
    → AllNear sim-Obedient sim-Steady
        (reset_message sim_process own_info)
        10
        w
        two_items
        two_entries
unfolding remaining
near_always w = (λ h. ground arith, (λ h. ground arith, tt))

-- Task 1 ends its period.
wait-Follows_example :
    (b : App (joined sim sim_process)) × (edf_task_wait_period 90 program ≡ some (negsuc 0, b))
    × Follows sim-Obedient
        (entries_after sim-Obedient sim-Steady
          (reset_message sim_process own_info)
          10
          (resuming sim_process 90 program own_info)
          two_items
          two_entries)
        b.os.kernel
unfolding prio_in lookup name_eq
wait-Follows_example =
    wait-Follows sim_process sim-Obedient sim-Steady program two-IsValid own_info 1 10 90 3 refl
      program_room (λ e. omega arith) refl (λ w. refl) (λ e. omega arith) refl
      (near_always (resuming sim_process 90 program own_info))

-- The driver as it is after its start, and the rover.
abbrev rover_program : App (joined named_sim named_process)
rover_program = record {
  os = record { kernel = clock_at_100; dtask_map = []; dtasks = λ p. none; live = [] };
  device = negsuc 0;
  live = [];
}

empty-IsValid : IsValid rover_program.os [] []
empty-IsValid = record {
  table = record { listed = refl; apart = tt; stored = tt };
  keys = tt;
  named = tt;
  single = tt;
  not_null = refl;
  in_use = λ p h. cc;
  clean = λ p h. refl;
  once = tt;
}

rover-Holding_example :
    (b : App (joined named_sim named_process)) × ((init_edfomai
            (joined_native named_process named_calls)
            rover_image
            no_names
          >>= λ r. startup (joined_native named_process named_calls) rover_image no_names >> pure r)
        rover_program
      ≡ some (pos 0, b))
    × Holding named_process b 3 rover_tasks
rover-Holding_example =
    rover-Holding named_process named_calls named-Launching named-Steady rover_image no_names
      rover_program 3 clock_at_100 empty-IsValid refl
