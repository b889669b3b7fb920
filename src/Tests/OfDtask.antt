-- ===== src/Tests/OfDtask.antt =====
-- The operations of edfomai-drv-data.c on the table of two tasks.
use edfomai.Base.{
  ◌≡◌, refl, none, some, [], ◌∷◌, ◌++◌, pos, negsuc, lookup, name_eq, pointers, arith,
}
use edfomai.Recalc.Refine.{round}
use edfomai.Dtask.{
  rt_dtask_goingwaitp, rt_dtask_resetdeadline, rt_dtask_setdeadline, rt_dtask_delete,
  rt_dtask_dispose, rt_dtask_create,
}
use edfomai.Dtask.Valid.{IsValid}
use edfomai.Dtask.Entry.{with_block, block_of}
use edfomai.Dtask.Change.{change, outcome}
use edfomai.Dtask.Waiting.{waiting, goingwaitp_lem}
use edfomai.Dtask.Restart.{
  from_now, clock_of, clocked, round_after, resetdeadline_lem, setdeadline_lem,
}
use edfomai.Dtask.Delete.{dropped_at, delete_lem}
use edfomai.Dtask.Dispose.{Emptied, dispose_lem}
use edfomai.Dtask.Create.{created, created_entry, with_alarm_block, create-new, create-duplicate}
use edfomai.Tests.Sim.{sim_name}
use edfomai.Tests.Worlds.{
  two_items, two_entries, two_tasks, two-IsValid, two-ShortNames, sim-Answers, sim-Creatable,
}

goingwaitp_lem_example :
    rt_dtask_goingwaitp 1 two_tasks
    ≡ some (outcome two_tasks (lookup (sim_name 1) two_items) λ p. change waiting p two_tasks)
goingwaitp_lem_example = goingwaitp_lem two-IsValid (sim-Answers 1 two_tasks)

resetdeadline_lem_example :
    rt_dtask_resetdeadline 1 two_tasks
    ≡ some (
        outcome two_tasks (lookup (sim_name 1) two_items) (
          round_after
            (λ d. from_now (clock_of two_tasks) d.relative_deadline d)
            two_tasks
            two_items
            two_entries))
resetdeadline_lem_example = resetdeadline_lem two-IsValid (sim-Answers 1 two_tasks) two-ShortNames

setdeadline_lem_example :
    rt_dtask_setdeadline 2 700 two_tasks
    ≡ some (
        outcome (with_block two_tasks) (lookup (sim_name 2) two_items) λ p.
          record (round_after
            (from_now (clock_of two_tasks) 700)
            two_tasks
            two_items
            two_entries
            p) { live = block_of two_tasks ∷ two_tasks.live })
setdeadline_lem_example = setdeadline_lem two-IsValid (sim-Answers 2 two_tasks) two-ShortNames 700

delete_lem_example :
    rt_dtask_delete 1 two_tasks
    ≡ some (outcome two_tasks (lookup (sim_name 1) two_items) (dropped_at two_tasks))
delete_lem_example = delete_lem two-IsValid (sim-Answers 1 two_tasks)

dispose_lem_example :
    (e : Emptied two_tasks two_items two_entries) × (rt_dtask_dispose two_tasks
      ≡ some (pos 0, e.left))
dispose_lem_example = dispose_lem two_tasks two_items two_entries two-IsValid

three_missing : lookup (sim_name 3) two_items ≡ none
unfolding lookup name_eq
three_missing = refl

two_found : lookup (sim_name 2) two_items ≡ some 20
unfolding lookup name_eq
two_found = refl

create-new_example :
    IsValid
      (created two_tasks 3 400 (sim-Creatable 3 two_tasks).info)
      (two_items ++ (sim_name 3, block_of two_tasks) ∷ [])
      (two_entries ++ created_entry two_tasks 3 400 (sim-Creatable 3 two_tasks).info ∷ [])
    × (rt_dtask_create 3 400 two_tasks
        ≡ some (
          pos 0,
          round
              (created two_tasks 3 400 (sim-Creatable 3 two_tasks).info)
              (pointers (two_items ++ (sim_name 3, block_of two_tasks) ∷ []))
              (two_entries ++ created_entry two_tasks 3 400 (sim-Creatable 3 two_tasks).info ∷ []),
        ))
create-new_example =
    create-new 400 two-IsValid (sim-Creatable 3 two_tasks) three_missing two-ShortNames
      (omega arith)

create-duplicate_example :
    rt_dtask_create 2 400 two_tasks
    ≡ some (
      negsuc 0,
      round
          (record (clocked two_tasks) { live = with_alarm_block two_tasks two_tasks.live })
          (pointers two_items)
          two_entries,
    )
create-duplicate_example =
    create-duplicate 400 two-IsValid (sim-Creatable 2 two_tasks) 20 two_found two-ShortNames
