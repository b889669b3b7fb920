-- ===== src/Dtask.antt =====
-- The operations of edfomai-drv-data.c on the table of deadline tasks. The debug prints are left out.
pub mod Valid
pub mod Keep
pub mod Entry
pub mod Change
pub mod Owned
pub mod Drop
pub mod Delete
pub mod Dispose
pub mod Append
pub mod Create
pub mod Waiting
pub mod Restart
use edfomai.Base.{
  ℕ, Bool, Option, none, some, List, M, pure, ◌>>=◌, ◌>>◌, for_each, ◌==◌, if◌then◌else◌, ℤ, pos,
  negsuc, Ptr, null, pointers,
}
use edfomai.Message.{deadline_not_set, going_waitp}
use edfomai.Platform.{Platform, TaskInfo, RtTask, filled, refused}
use edfomai.World.{
  World, Cmd, RtDeadlineTask, running, ok, read_timer, malloc, malloc_used, free, load, store,
  inquire,
}
use edfomai.Recalc.{deadline_from, rt_dtask_recalculateprio}

-- An entry whose deadline starts anew.
abbrev pub restarted : ℕ → ℕ → RtDeadlineTask → RtDeadlineTask
restarted now relative d = record d {
  deadline = deadline_from now relative;
  remain = relative;
  relative_deadline = relative;
  status = ok;
  state = running;
}

-- What init_dtask and the assignments after it leave in a new block.
-- init_dtask with the block of the alarm; the TASK_INFO keeps what the block held.
abbrev pub init_dtask : Ptr → TaskInfo → RtDeadlineTask
init_dtask watchd stale = record {
  deadline = deadline_not_set;
  remain = deadline_not_set;
  relative_deadline = deadline_not_set;
  status = ok;
  state = running;
  task = null;
  watchd = watchd;
  task_info = stale;
}

abbrev pub new_dtask : RtTask → ℕ → Ptr → ℕ → TaskInfo → RtDeadlineTask
new_dtask task relative watchd now info = record (init_dtask watchd info) {
  deadline = deadline_from now relative;
  remain = relative;
  relative_deadline = relative;
  task = task;
}

module _ {P : Platform} where
  open P use {Table, items, empty, hash_find_str, hash_add_str, hash_del}
  open P use {rt_task_inquire, stale_info}

  abbrev pub find_task : TaskInfo → Cmd P (Option Ptr)
  find_task info w = some (hash_find_str info.name w.dtask_map, w)

  abbrev pub change_table : (Table → Table) → Cmd P (Unit {0})
  change_table f w = some (tt, record w { dtask_map = f w.dtask_map })

  -- The start of the operations on a task: a block for its TASK_INFO, filled by an inquiry.
  unfoldable pub task_name_block : RtTask → Cmd P (Ptr × TaskInfo)
  task_name_block task = do
    block ← malloc_used
    info ← inquire task (stale_info block)
    pure (block, info)

  -- What an operation does with the entry that it looks up: -1 without one.
  abbrev pub with_entry : Option Ptr → (Ptr → Cmd P ℤ) → Cmd P ℤ
  with_entry none f = pure (negsuc 0)
  with_entry (some p) f = f p

  -- The frame of most operations: look the task's entry up by name, work on it, free the block.
  unfoldable pub on_entry : RtTask → (Ptr → Cmd P ℤ) → Cmd P ℤ
  on_entry task work = do
    (block, info) ← task_name_block task
    found ← find_task info
    ret ← with_entry found work
    free block
    pure ret

  unfoldable pub rt_dtask_goingwaitp : RtTask → Cmd P ℤ
  rt_dtask_goingwaitp task =
      on_entry task λ p. do d ← load p; store p (record d { state = going_waitp }); pure (pos 0)

  unfoldable pub rt_dtask_stopwatchdog : RtTask → Cmd P ℤ
  rt_dtask_stopwatchdog task =
      on_entry task λ p. do d ← load p; _ ← rt_dtask_goingwaitp d.task; pure (pos 0)

  -- The status of an inquiry.
  abbrev pub inquire_status : RtTask → Cmd P ℤ
  inquire_status t w = elim (rt_task_inquire t w.kernel) [
    | filled i ↦ some (pos 0, w)
    | refused n ↦ some (negsuc n, w)
  ]

  unfoldable pub rt_dtask_updateinfo : RtTask → Cmd P ℤ
  rt_dtask_updateinfo task = on_entry task λ p. do
    d ← load p
    status ← inquire_status d.task
    fresh ← inquire d.task d.task_info
    store p (record d { task_info = fresh })
    pure status

  unfoldable pub rt_dtask_resetdeadline : RtTask → Cmd P ℤ
  rt_dtask_resetdeadline task = on_entry task λ p. do
    d ← load p
    now ← read_timer
    store p (restarted now d.relative_deadline d)
    _ ← rt_dtask_recalculateprio
    pure (pos 0)

  -- The block of the TASK_INFO is not freed.
  unfoldable pub rt_dtask_setdeadline : RtTask → ℕ → Cmd P ℤ
  rt_dtask_setdeadline task newdeadline = do
    (block, info) ← task_name_block task
    found ← find_task info
    with_entry found λ p. do
      d ← load p
      now ← read_timer
      store p (restarted now newdeadline d)
      _ ← rt_dtask_recalculateprio
      pure (pos 0)

  -- A new entry is added, or freed if there is one of its name.
  unfoldable pub add_entry : Option Ptr → Ptr → TaskInfo → Cmd P ℤ
  add_entry none p info = do change_table (hash_add_str info.name p); pure (pos 0)
  add_entry (some _) p info = do free p; pure (negsuc 0)

  unfoldable pub rt_dtask_create : RtTask → ℕ → Cmd P ℤ
  rt_dtask_create task deadline = do
    p ← malloc_used
    watchd ← malloc
    now ← read_timer
    info ← inquire task (stale_info p)
    store p (new_dtask task deadline watchd now info)
    found ← find_task info
    res ← add_entry found p info
    _ ← rt_dtask_recalculateprio
    pure res

  abbrev pub clear_dtask : RtDeadlineTask → Cmd P (Unit {0})
  clear_dtask d = free d.watchd

  -- An entry leaves the table, and its two blocks are freed.
  unfoldable pub drop_entry : Ptr → Cmd P (Unit {0})
  drop_entry p = do change_table (hash_del p); d ← load p; clear_dtask d; free p

  unfoldable pub rt_dtask_delete : RtTask → Cmd P ℤ
  rt_dtask_delete task = on_entry task λ p. do drop_entry p; pure (pos 0)

  unfoldable pub rt_dtask_init : Cmd P ℤ
  rt_dtask_init = do change_table (λ _. empty); pure (pos 0)

  unfoldable pub rt_dtask_dispose : Cmd P ℤ
  rt_dtask_dispose w = (do for_each (pointers (items w.dtask_map)) drop_entry; pure (pos 0)) w
