-- ===== src/Tests/OfSchedule.antt =====
-- A turn of the service, and a request, on the table of two tasks.
use edfomai.Base.{ℕ, ◌≡◌, ◌≢◌, refl, some, List, ◌∷◌, arith, pos, inl, inr, lookup, name_eq}
use edfomai.Platform.{TaskInfo, filled}
use edfomai.World.{World}
use edfomai.Message.{set_deadline}
use edfomai.Recalc.{remaining}
use edfomai.Driver.{edf_service_turn, edf_rtdm_write_nrt}
use edfomai.Driver.Served.{kernel-IsValid}
use edfomai.Driver.Write.{request}
use edfomai.Driver.Schedule.Requests.{AllNear, entries_after, write-Follows}
use edfomai.Driver.Schedule.{Obedient}
use edfomai.Driver.Schedule.Rounds.{Follows, turn-Follows}
use edfomai.Tests.Sim.{Sim, sim, sim_name, prio_in}
use edfomai.Tests.Worlds.{clock_at_100, two_tasks, two_items, two_entries, two-IsValid}
use edfomai.Tests.OfDriver.{sim-Steady}
use edfomai.Tests.OfRecalc.{two-Near}

inquired_prio :
    (t : ℕ) (s : Sim) (i : TaskInfo)
    → filled (record { name = sim_name t; cprio = prio_in s.prios t }) ≡ filled i
    → i.cprio ≡ prio_in s.prios t
inquired_prio t s i e = ground arith

set_prio_in : (t n : ℕ) (ps : List (ℕ × ℕ)) → prio_in ((t, n) ∷ ps) t ≡ n
unfolding prio_in
set_prio_in t n ps = ground arith

other_prio_in : (t u n : ℕ) (ps : List (ℕ × ℕ)) → u ≢ t → prio_in ((t, n) ∷ ps) u ≡ prio_in ps u
unfolding prio_in
other_prio_in t u n ps ne = ground arith

pub sim-Obedient : Obedient sim
sim-Obedient = record {
  cprio = λ t s. prio_in s.prios t;
  inquired = inquired_prio;
  set_same = λ t n s small. set_prio_in t n s.prios;
  set_other = λ t u n s ne. other_prio_in t u n s.prios ne;
  written = λ t m s. refl;
  unlocked = λ t s. refl;
  cleared = λ t s. refl;
}

turn-Follows_example :
    (w' : World sim) × (edf_service_turn two_tasks ≡ some (tt, w'))
    × Follows sim-Obedient two_entries w'.kernel
turn-Follows_example = turn-Follows sim-Obedient sim-Steady two-IsValid two-Near

-- The user asks for a deadline 100 ns away for task 2, which is earlier than that of task 1.
abbrev asking : World sim
asking = record two_tasks {
  kernel = record clock_at_100 {
    mailbox = record { command = set_deadline; task = sim_name 2; deadline = 100 };
  };
}

asking-Near : AllNear sim-Obedient sim-Steady (request asking 1) 20 asking two_items two_entries
unfolding remaining
asking-Near = (λ h. omega arith, (λ h. omega arith, tt))

write-Follows_example :
    (w' : World sim) × (edf_rtdm_write_nrt 1 40 asking ≡ some (pos 40, w'))
    × Follows sim-Obedient
        (entries_after sim-Obedient sim-Steady (request asking 1) 20 asking two_items two_entries)
        w'.kernel
unfolding lookup name_eq
write-Follows_example =
    write-Follows sim-Obedient sim-Steady (kernel-IsValid asking.kernel two-IsValid) 1 40 2 20
      (inr (inl refl)) refl (λ e. cc) refl asking-Near
