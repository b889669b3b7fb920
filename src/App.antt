-- ===== src/App.antt =====
-- The library for programs, edfomai-app.c: its device, its messages, and its four operations. The
-- debug prints are left out, and the error texts of the mutex that the code does not create.
pub mod Device
pub mod Leak
pub mod Task
use edfomai.Base.{
  ℕ, zero, ◌+◌, ◌%◌, ◌^◌, ◌≡◌, Bool, true, false, none, some, ◌||◌, not, List, ◌∷◌, take, M, pure,
  fault, ◌>>=◌, ◌>>◌, ◌==◌, if◌then◌else◌, ℤ, pos, negsuc, Ptr, null, has, release,
}
use edfomai.Message.{
  EdfMessage, tname_len, deadline_not_set, create_task, stop_watchd, reset_deadline,
}
use edfomai.Platform.{TaskInfo, RtTask, Inquiry, filled, refused}
use edfomai.Driver.{failed}

-- What the library calls and this repository does not implement: RTDM's device calls, the native
-- skin's task calls, and the C library's heap, as functions of the system's state.
pub record Skin : Type 1 where
  pub State : Type 0
  pub rt_dev_open : State → ℤ × State
  pub rt_dev_write : ℤ → EdfMessage → State → ℤ × State
  pub rt_dev_close : ℤ → State → ℤ × State
  pub rt_task_self : State → RtTask
  pub rt_task_inquire : RtTask → State → Inquiry
  -- The procedure and its argument are addresses.
  pub rt_task_start : RtTask → Ptr → Ptr → State → ℤ × State
  -- The number of overruns goes to an address, which may be NULL.
  pub rt_task_wait_period : Ptr → State → ℤ × State
  -- `malloc` is given the blocks in use; NULL when memory is exhausted.
  pub malloc : List Ptr → State → Ptr
  pub malloc_fresh : (live : List Ptr) (s : State) → has (malloc live s) live ≡ false

-- The descriptor before the device is opened, and after a failure.
abbrev pub no_device : ℤ
no_device = negsuc 0

abbrev pub is_no_device : ℤ → Bool
is_no_device (pos n) = false
is_no_device (negsuc n) = n == 0

abbrev pub is_negative : ℤ → Bool
is_negative (pos n) = false
is_negative (negsuc n) = true

-- `-ret == e` for a positive errno.
abbrev pub is_errno : ℕ → ℤ → Bool
is_errno e (pos n) = false
is_errno e (negsuc n) = n + 1 == e

-- EPERM, EINTR, EWOULDBLOCK and ETIMEDOUT.
abbrev pub eperm : ℕ
eperm = 1

abbrev pub eintr : ℕ
eintr = 4

abbrev pub ewouldblock : ℕ
ewouldblock = 11

abbrev pub etimedout : ℕ
etimedout = 110

-- The field `task` of a message at an address, as the int that the code compares.
abbrev pub task_field : Ptr → ℕ
task_field message = (message + 4) % 2 ^ 32

-- The four errors that are reported become -1, and every other result 0; -EPERM is -1 itself.
abbrev pub period_status : ℤ → ℤ
period_status ret =
    if is_errno ewouldblock ret
    then negsuc 0
    else if is_errno eintr ret
    then negsuc 0
    else if is_errno etimedout ret
    then negsuc 0
    else if is_errno eperm ret
    then ret
    else pos 0

-- `strncpy` returns its first argument; the copy is cut at TNAME_LEN characters.
abbrev pub copied_name : Ptr → ℕ
copied_name message = task_field message

abbrev pub message_for : ℕ → ℕ → TaskInfo → EdfMessage
message_for command deadline info = record {
  command = command;
  task = take tname_len info.name;
  deadline = deadline;
}

module _ (S : Skin) where
  -- The static `device`, the blocks in use, and the system.
  pub record App : Type 0 where
    pub os : S.State
    pub device : ℤ
    pub live : List Ptr

module _ {S : Skin} where
  open S use {State}

  -- A call of the system that returns a status.
  abbrev pub status_of : (State → ℤ × State) → M (App S) ℤ
  status_of f a = let (ret, s) = f a.os in some (ret, record a { os = s })

  abbrev pub get_device : M (App S) ℤ
  get_device a = some (a.device, a)

  abbrev pub set_device : ℤ → M (App S) (Unit {0})
  set_device d a = some (tt, record a { device = d })

  abbrev pub malloc : M (App S) Ptr
  malloc a =
      let p = S.malloc a.live a.os in
      if p == null then some (null, a) else some (p, record a { live = p ∷ a.live })

  -- `free`: nothing at NULL, a fault at a block that is not in use.
  unfoldable pub free : Ptr → M (App S) (Unit {0})
  free p a =
      if p == null
      then some (tt, a)
      else if has p a.live
      then some (tt, record a { live = release p a.live })
      else none

  -- A write through NULL is a fault.
  abbrev pub writable : Ptr → M (App S) (Unit {0})
  writable p = if p == null then fault else pure tt

  -- The mutex functions do nothing: their calls of the skin are commented out.
  unfoldable pub mtx_create : M (App S) ℤ
  mtx_create = pure (pos 0)

  unfoldable pub mtx_delete : M (App S) ℤ
  mtx_delete = pure (pos 0)

  unfoldable pub mtx_acquire : M (App S) ℤ
  mtx_acquire = pure (pos 0)

  unfoldable pub mtx_release : M (App S) ℤ
  mtx_release = pure (pos 0)

  unfoldable pub edf_init : M (App S) ℤ
  edf_init = do
    set_device no_device
    ret ← mtx_create
    if failed ret then pure (negsuc 0) else do
      opened ← status_of S.rt_dev_open
      set_device opened
      if is_negative opened then (do set_device no_device; pure (negsuc 0)) else pure (pos 0)

  unfoldable pub edf_dispose : M (App S) ℤ
  edf_dispose = do
    ret ← mtx_acquire
    device ← get_device
    if failed ret || is_no_device device then pure (negsuc 0) else do
      _ ← mtx_delete
      closed ← status_of (S.rt_dev_close device)
      if failed closed then (do set_device no_device; pure (negsuc 1)) else pure (pos 0)

  unfoldable pub wait_period : Ptr → M (App S) ℤ
  wait_period overruns = do
    ret ← status_of (S.rt_task_wait_period overruns)
    pure (period_status ret)

  -- `rt_task_inquire(task, &task_info)`.
  abbrev pub inquire : RtTask → M (App S) Inquiry
  inquire task a = some (S.rt_task_inquire task a.os, a)

  -- The guards before a message is used: the inquiry, the block, and the copy of the name.
  unfoldable pub with_message : Ptr → RtTask → (TaskInfo → M (App S) ℤ) → M (App S) ℤ
  with_message message task work = do
    answer ← inquire task
    elim answer [
      | refused n ↦ (do free message; pure (negsuc 0))
      | filled info ↦ (do
        writable message
        if not (copied_name message == task_field message)
            then (do free message; pure (negsuc 0))
            else work info)
    ]

  -- The status of the write is overwritten by 0, and that by the status of rt_task_start.
  unfoldable pub edf_task_start : RtTask → ℕ → Ptr → Ptr → M (App S) ℤ
  edf_task_start task deadline procedure arg = do
    message ← malloc
    with_message message task λ info. do
      ret ← mtx_acquire
      device ← get_device
      if failed ret || is_no_device device then (do free message; pure (negsuc 0)) else do
        _ ← status_of (S.rt_dev_write device (message_for create_task deadline info))
        _ ← mtx_release
        started ← status_of (S.rt_task_start task procedure arg)
        free message
        pure started

  -- The reset at the end of edf_task_wait_period: -1 without a device.
  unfoldable pub reset_status : TaskInfo → M (App S) ℤ
  reset_status info = do
    device ← get_device
    if is_no_device device
        then pure (negsuc 0)
        else status_of (S.rt_dev_write device (message_for reset_deadline deadline_not_set info))

  -- The status of the first write is overwritten, and that of the wait as well.
  unfoldable pub edf_task_wait_period : Ptr → M (App S) ℤ
  edf_task_wait_period overruns = do
    message ← malloc
    currtask ← (λ a. some (S.rt_task_self a.os, a))
    if currtask == null
        then (do free message; pure (negsuc 0))
        else with_message message currtask λ info. do
          device ← get_device
          _ ← status_of (S.rt_dev_write device (message_for stop_watchd deadline_not_set info))
          _ ← wait_period overruns
          ret ← mtx_acquire
          if failed ret then (do free message; pure (negsuc 0)) else do
            ret1 ← reset_status info
            released ← mtx_release
            let answer = if failed released || failed ret1 then negsuc 0 else pos 0
            free message
            pure answer
