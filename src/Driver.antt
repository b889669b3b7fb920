-- ===== src/Driver.antt =====
-- The RTDM driver of edfomai-drv.c: the write handler, the task hooks and the recalculation service.
-- The debug prints are left out.
pub mod Load
pub mod Served
pub mod Dispatch
pub mod Write
pub mod Register
pub mod Run
pub mod Undo
pub mod Race
pub mod Schedule
pub mod Pause
use edfomai.Base.{
  ℕ, zero, Bool, true, false, none, some, pure, ◌>>=◌, ◌>>◌, ◌==◌, if◌then◌else◌, ℤ, pos, negsuc,
  Ptr, null, Name, pred,
}
use edfomai.Message.{
  EdfMessage, create_task, start_task, reset_deadline, set_deadline, stop_watchd, going_waitp,
}
use edfomai.Platform.{Platform, RtTask}
use edfomai.World.{Cmd, call, malloc_used, free}
use edfomai.Recalc.{rt_dtask_recalculateprio}
use edfomai.Dtask.{
  rt_dtask_create, rt_dtask_setdeadline, rt_dtask_resetdeadline, rt_dtask_stopwatchdog,
  rt_dtask_goingwaitp, rt_dtask_delete,
}

-- The errno EFAULT.
abbrev pub efault : ℕ
efault = 14

-- A status that is not 0.
abbrev pub failed : ℤ → Bool
failed (pos zero) = false
failed _ = true

-- `status == EFAULT`: the positive number.
abbrev pub is_efault : ℤ → Bool
is_efault (pos n) = n == efault
is_efault (negsuc n) = false

module _ {P : Platform} where
  open P use {State, rtdm_lock_get, rtdm_lock_put, rtdm_event_signal, rtdm_event_clear}
  open P use {rtdm_copy_from_user, stale_message, xnregistry_bind, xnregistry_fetch, t_desc}

  -- `rtdm_lock_get` and `rtdm_lock_put` have no result: the status is always 0.
  unfoldable pub mtx_acquire : Cmd P ℤ
  mtx_acquire = do call rtdm_lock_get; pure (pos 0)

  unfoldable pub mtx_release : Cmd P ℤ
  mtx_release = do call rtdm_lock_put; pure (pos 0)

  -- The RT_TASK of that name, or NULL.
  unfoldable pub get_handle : Name → Cmd P RtTask
  get_handle rname w =
      let (status, handle) = xnregistry_bind rname w.kernel in
      let task = xnregistry_fetch handle w.kernel in
      if status == 0
      then (if task == null then some (null, w) else some (t_desc task, w))
      else some (null, w)

  -- `rtdm_copy_from_user`: its status, and what the block holds then.
  unfoldable pub copy_message : Ptr → Ptr → Cmd P (ℤ × EdfMessage)
  copy_message block buf w = elim (rtdm_copy_from_user buf w.kernel) [
    | none ↦ some ((negsuc (pred efault), stale_message block), w)
    | some m ↦ some ((pos 0, m), w)
  ]

  -- One case of the switch. The status of the operation is overwritten by that of the release.
  unfoldable pub locked : Ptr → Cmd P ℤ → Cmd P ℤ → Cmd P ℤ
  locked block operation rest = do
    status ← mtx_acquire
    if failed status then (do free block; pure status) else do
      _ ← operation
      released ← mtx_release
      if failed released then (do free block; pure released) else rest

  -- The switch over the command, with what follows it.
  unfoldable pub dispatch : Ptr → EdfMessage → RtTask → Cmd P ℤ → Cmd P ℤ
  dispatch block m task rest =
      if m.command == create_task
      then locked block (rt_dtask_create task m.deadline) rest
      else if m.command == start_task
      then locked block (rt_dtask_setdeadline task m.deadline) rest
      else if m.command == stop_watchd
      then locked block (rt_dtask_stopwatchdog task) rest
      else if m.command == going_waitp
      then locked block (rt_dtask_goingwaitp task) rest
      else if m.command == reset_deadline
      then locked block (rt_dtask_resetdeadline task) rest
      else if m.command == set_deadline
      then locked block (rt_dtask_setdeadline task m.deadline) rest
      else rest

  unfoldable pub edf_rtdm_write_nrt : Ptr → ℕ → Cmd P ℤ
  edf_rtdm_write_nrt buf nbyte = do
    block ← malloc_used
    (status, m) ← copy_message block buf
    if is_efault status then (do free block; pure (negsuc (pred efault))) else do
      task ← get_handle m.task
      if task == null
          then (do free block; pure (negsuc 0))
          else dispatch block m task (do free block; pure (pos nbyte))

  unfoldable pub edf_rtdm_open_nrt : Cmd P ℤ
  edf_rtdm_open_nrt = pure (pos 0)

  unfoldable pub edf_rtdm_close_nrt : Cmd P ℤ
  edf_rtdm_close_nrt = pure (pos 0)

  unfoldable pub edf_rtdm_read_nrt : Cmd P ℤ
  edf_rtdm_read_nrt = pure (negsuc 0)

  -- One turn of the service, after its wait for the event.
  unfoldable pub edf_service_turn : Cmd P (Unit {0})
  edf_service_turn = do
    ret ← mtx_acquire
    if failed ret
        then pure tt
        else do _ ← rt_dtask_recalculateprio; _ ← mtx_release; call rtdm_event_clear

  unfoldable pub edf_startswitch_hook : Ptr → Cmd P (Unit {0})
  edf_startswitch_hook cookie = call rtdm_event_signal

  -- The lock is not taken here.
  unfoldable pub edf_delete_hook : Ptr → Cmd P (Unit {0})
  edf_delete_hook cookie = do _ ← rt_dtask_delete (t_desc cookie); call rtdm_event_signal

-- The handlers of the device; its names, classes and versions are left out.
pub record RtdmDevice (P : Platform) : Type 0 where
  pub open_nrt : Cmd P ℤ
  pub close_nrt : Cmd P ℤ
  pub read_nrt : Cmd P ℤ
  pub write_nrt : Ptr → ℕ → Cmd P ℤ

abbrev pub device : {P : Platform} → RtdmDevice P
device = record {
  open_nrt = edf_rtdm_open_nrt;
  close_nrt = edf_rtdm_close_nrt;
  read_nrt = edf_rtdm_read_nrt;
  write_nrt = edf_rtdm_write_nrt;
}
