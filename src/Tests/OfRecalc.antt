-- ===== src/Tests/OfRecalc.antt =====
-- rt_dtask_recalculateprio of edfomai-drv-data.c on the table of two tasks.
use edfomai.Base.{
  ℕ, List, map, ◌≤◌, ◌≡◌, ◌↔◌, refl, true, inl, inr, some, [], ◌∷◌, arith, pos, pointers,
}
use edfomai.Prio.{calculate_prio, div64_64, max_prio}
use edfomai.Platform.{RtTask}
use edfomai.World.{World, RtDeadlineTask}
use edfomai.Recalc.{is_active, is_ready, remaining, no_bounds, rt_dtask_recalculateprio}
use edfomai.Recalc.Scan.{bounds_of}
use edfomai.Recalc.Assign.{Call, run_calls, report, give, all_calls, calls_of}
use edfomai.Recalc.Refine.{round, recalculateprio-round}
use edfomai.Recalc.Edf.{In, Near, round_prio, round_prio_edf, round_prio-earliest}
use edfomai.Recalc.Calls.{Calls, Given, Late, recalculateprio-calls}
use edfomai.Recalc.Scan.{refreshed}
use edfomai.Tests.Sim.{sim, digits, prio_in}
use edfomai.Tests.Worlds.{
  first, second, two_items, two_entries, two_tasks, clock_at_100, two-IsTable, two-ShortNames,
}

recalculateprio-round_example :
    rt_dtask_recalculateprio two_tasks
    ≡ some (pos 0, round two_tasks (pointers two_items) two_entries)
recalculateprio-round_example =
    recalculateprio-round two_tasks two_items two_entries two-IsTable two-ShortNames (λ e. cc)

pub two-Near : Near 100 two_entries
unfolding remaining
two-Near = (λ h. omega arith, (λ h. omega arith, tt))

two-active : (is_active first ≡ true) × (is_active second ≡ true)
unfolding is_active
two-active = (refl, refl)

round_prio_edf_example :
    round_prio sim 100 clock_at_100 two_entries second
    ≤ round_prio sim 100 clock_at_100 two_entries first
round_prio_edf_example =
    round_prio_edf sim 100 clock_at_100 two_entries two-Near first second (inl refl)
      (inr (inl refl)) two-active.0 two-active.1 (omega arith)

round_prio-earliest_example :
    (round_prio sim 100 clock_at_100 two_entries first ≤ max_prio)
    × (((e : RtDeadlineTask) → In e two_entries → is_active e ≡ true → 500 ≤ e.deadline)
        → round_prio sim 100 clock_at_100 two_entries first ≡ max_prio)
round_prio-earliest_example =
    round_prio-earliest sim 100 clock_at_100 two_entries two-Near first (inl refl) two-active.0

recalculateprio-calls_example :
    (L : List Call) × (w' : World sim) × (rt_dtask_recalculateprio two_tasks ≡ some (pos 0, w'))
    × (w'.kernel ≡ run_calls sim L clock_at_100)
    × ((t : RtTask) (n : ℕ)
        → (Calls (give t n) L ↔ (
            (d : RtDeadlineTask) × In d (map (refreshed sim 100 clock_at_100) two_entries)
            × Given sim (bounds_of 100 two_entries no_bounds) t n d))
          × (Calls (report t) L ↔ (
              (d : RtDeadlineTask) × In d (map (refreshed sim 100 clock_at_100) two_entries)
              × Late sim (bounds_of 100 two_entries no_bounds) t d)))
recalculateprio-calls_example =
    recalculateprio-calls two_tasks two_items two_entries two-IsTable two-ShortNames (λ e. cc)

-- The first task gets the highest priority, and the second the lowest.
round_runs :
    all_calls sim
      (bounds_of 100 two_entries no_bounds)
      (refreshed sim 100 clock_at_100 first ∷ refreshed sim 100 clock_at_100 second ∷ [])
    ≡ give 1 50 ∷ give 2 0 ∷ []
unfolding is_active is_ready remaining calculate_prio div64_64 digits prio_in
round_runs = refl

late-reports : Calls (report 1) (calls_of sim no_bounds first)
unfolding is_ready calculate_prio div64_64 digits
late-reports = inl refl
