-- ===== src/Recalc.antt =====
-- rt_dtask_recalculateprio of edfomai-drv-data.c: one loop refreshes the remaining times, a second
-- one sets the priorities. The debug prints and the counters that only they read are left out, as is
-- the first of the two inquiries about a task, whose result is not read.
pub mod Holds
pub mod Scan
pub mod Assign
pub mod Refine
pub mod Edf
pub mod Calls
use edfomai.Base.{
  ℕ, ◌+◌, ◌-◌, ◌*◌, ◌%◌, ◌^◌, Bool, true, false, ◌&&◌, not, Option, none, some, List, M, pure,
  fault, ◌>>=◌, ◌>>◌, for_each, fold_each, ltb, ◌==◌, if◌then◌else◌, ℤ, pos, negsuc, Ptr, null,
  pointers,
}
use edfomai.Message.{deadline_not_set, going_waitp}
use edfomai.Platform.{Platform, TaskInfo, RtTask, refused, filled}
use edfomai.Prio.{calculate_prio}
use edfomai.World.{
  World, Cmd, RtDeadlineTask, Blocks, running, ok, missed, call, read_timer, malloc, malloc_used,
  free, load, store, inquire,
}
use edfomai.Notify.{deadline_missed}

-- The guard of the first loop of rt_dtask_recalculateprio.
unfoldable pub is_active : RtDeadlineTask → Bool
is_active d = not (d.relative_deadline == deadline_not_set) && d.state == running

-- The guard of its second loop.
unfoldable pub is_ready : RtDeadlineTask → Bool
is_ready d = not (d.relative_deadline == deadline_not_set) && (d.status == ok && d.state == running)

unfoldable pub remaining : ℕ → RtDeadlineTask → ℕ
remaining now d = if ltb now d.deadline then d.deadline - now else 0

-- The least and the greatest remaining time so far.
pub record Bounds : Type 0 where
  pub min_remain : ℕ
  pub max_remain : ℕ

abbrev pub no_bounds : Bounds
no_bounds = record { min_remain = 2 ^ 64 - 1; max_remain = 0 }

abbrev pub widen : ℕ → Bounds → Bounds
widen remain b = record {
  min_remain = if ltb remain b.min_remain then remain else b.min_remain;
  max_remain = if ltb b.max_remain remain then remain else b.max_remain;
}

abbrev pub deadline_from : ℕ → ℕ → ℕ
deadline_from now relative = (now + relative) % 2 ^ 64

module _ {P : Platform} where
  open P use {Table, items, empty, hash_find_str, hash_add_str, hash_del, hash_count}
  open P use {rt_task_inquire, rt_task_set_priority, rtdm_malloc, stale_info, div}

  abbrev pub find_task : TaskInfo → Cmd P (Option Ptr)
  find_task info w = some (hash_find_str info.name w.dtask_map, w)

  abbrev pub table : Cmd P Table
  table w = some (w.dtask_map, w)

  -- The body of the first loop.
  unfoldable pub scan_step : ℕ → Ptr → Bounds → Cmd P Bounds
  scan_step now p b = do
    d ← load p
    if not (is_active d) then pure b else do
      let remain = remaining now d
      info ← inquire d.task d.task_info
      store p (record d { remain = remain; task_info = info })
      pure (widen remain b)

  -- A deadline that has passed is reported once.
  unfoldable pub report_missed : Ptr → RtDeadlineTask → Cmd P (Unit {0})
  report_missed p d =
      if d.remain == 0
      then (do store p (record d { status = missed }); deadline_missed d.task)
      else pure tt

  unfoldable pub assign_prio : Bounds → RtDeadlineTask → Cmd P (Unit {0})
  assign_prio b d =
      let newprio = calculate_prio div d.remain b.min_remain b.max_remain in
      if newprio == d.task_info.cprio then pure tt else call (rt_task_set_priority d.task newprio)

  -- The body of the second loop.
  unfoldable pub assign_step : Bounds → Ptr → Cmd P (Unit {0})
  assign_step b p = do
    d ← load p
    if not (is_ready d) then pure tt else do report_missed p d; assign_prio b d

  unfoldable pub rt_dtask_recalculateprio : Cmd P ℤ
  rt_dtask_recalculateprio = do
    map ← table
    if hash_count map == 0 then pure (pos 0) else do
      curr_time ← read_timer
      b ← fold_each (pointers (items map)) (scan_step curr_time) no_bounds
      for_each (pointers (items map)) (assign_step b)
      pure (pos 0)
