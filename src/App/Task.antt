-- ===== src/App/Task.antt =====
-- edf_task_start and edf_task_wait_period of edfomai-app.c.
use edfomai.Base.{
  ℕ, suc, M, ◌≡◌, ◌≢◌, refl, ap, ◌∙◌, ◌⊎◌, true, false, some, List, ◌∷◌, arith, ◌==◌, if◌then◌else◌,
  ℤ, pos, negsuc, Ptr, null, Bool-cases, inl, inr, has_self, release_self,
}
use edfomai.Message.{EdfMessage, create_task, stop_watchd, reset_deadline, deadline_not_set}
use edfomai.Platform.{RtTask, TaskInfo, Inquiry, filled, refused}
use edfomai.Driver.{failed}
use edfomai.App.{
  Skin, App, is_no_device, message_for, free, copied_name, task_field, with_message, wait_period,
  mtx_acquire, mtx_release, reset_status, edf_task_start, edf_task_wait_period,
}

Inquiry-cases : (q : Inquiry) → ((n : ℕ) × (q ≡ refused n)) ⊎ ((i : TaskInfo) × (q ≡ filled i))
Inquiry-cases (refused n) = inl (n, refl)
Inquiry-cases (filled i) = inr (i, refl)

module _ {S : Skin} where
  open S use {
    State, rt_dev_write, rt_task_inquire, rt_task_start, rt_task_self, rt_task_wait_period,
  }

  abbrev pub heap_block : App S → Ptr
  heap_block a = S.malloc a.live a.os

  free_head :
      (p : Ptr) (a : App S) (live : List Ptr)
      → p ≢ null
      → a.live ≡ p ∷ live
      → free p a ≡ some (tt, record a { live = live })
  unfolding free
  free_head p a live some_p e =
      let some_block : (p == null) ≡ false = ground arith in
      rw (some_block, e, has_self p live, release_self p live)

  with_message-filled :
      (message : Ptr) (task : RtTask) (work : TaskInfo → M (App S) ℤ) (info : TaskInfo) (a : App S)
      → message ≢ null
      → rt_task_inquire task a.os ≡ filled info
      → with_message message task work a ≡ work info a
  unfolding with_message
  with_message-filled message task work info a some_p e =
      let some_block : (message == null) ≡ false = ground arith in
      let copied : (copied_name message == task_field message) ≡ true = ground arith in
      rw (e, some_block, copied)

  with_message-refused :
      (message : Ptr) (task : RtTask) (work : TaskInfo → M (App S) ℤ) (n : ℕ) (a : App S)
      (live : List Ptr)
      → message ≢ null
      → a.live ≡ message ∷ live
      → rt_task_inquire task a.os ≡ refused n
      → with_message message task work a ≡ some (negsuc 0, record a { live = live })
  unfolding with_message
  with_message-refused message task work n a live some_p held e =
      rw (e, free_head message a live some_p held)

  -- What starting a task comes to: nothing and -1 without its name or without a device, and else
  -- a CREATE_TASK message and then the start, whose status is the result.
  abbrev pub started : RtTask → ℕ → Ptr → Ptr → App S → Inquiry → ℤ × App S
  started task deadline procedure arg a (refused n) = (negsuc 0, a)
  started task deadline procedure arg a (filled info) =
      if is_no_device a.device
      then (negsuc 0, a)
      else let s = (rt_dev_write a.device (message_for create_task deadline info) a.os).1 in
        let (ret, s') = rt_task_start task procedure arg s in (ret, record a { os = s' })

  -- With memory for the message, edf_task_start does what `started` says, whatever the write of the
  -- message returns, and its block is freed on every path.
  pub task_start_lem :
      (task : RtTask) (deadline : ℕ) (procedure arg : Ptr) (a : App S)
      → heap_block a ≢ null
      → edf_task_start task deadline procedure arg a
        ≡ some (started task deadline procedure arg a (rt_task_inquire task a.os))
  unfolding edf_task_start mtx_acquire mtx_release
  task_start_lem task deadline procedure arg a room =
      let some_block : (heap_block a == null) ≡ false = ground arith in
      let held : App S = record a { live = heap_block a ∷ a.live } in
      let freed = free_head (heap_block a) held a.live room refl in
      elim (Inquiry-cases (rt_task_inquire task a.os)) [
        | inl (n, e) ↦
            rw (some_block, e, with_message-refused (heap_block a) task _ n held a.live room refl e)
        | inr (info, e) ↦ elim (Bool-cases (is_no_device a.device)) [
          | inl none_open ↦ rw (
            some_block,
            e,
            with_message-filled (heap_block a) task _ info held room e,
            none_open,
            freed,
          )
          | inr some_open ↦
              let s = (rt_dev_write a.device (message_for create_task deadline info) a.os).1 in
              let s' = (rt_task_start task procedure arg s).1 in
              rw (
                some_block,
                e,
                with_message-filled (heap_block a) task _ info held room e,
                some_open,
                free_head (heap_block a) (record held { os = s' }) a.live room refl,
              )
        ]
      ]

  -- A wait: STOP_WATCHD, the wait itself, and RESET_DEADLINE if there is a device, whose write alone
  -- decides the result.
  abbrev pub waited : Ptr → App S → Inquiry → ℤ × App S
  waited overruns a (refused n) = (negsuc 0, a)
  waited overruns a (filled info) =
      let s = (rt_dev_write a.device (message_for stop_watchd deadline_not_set info) a.os).1 in
      let s' = (rt_task_wait_period overruns s).1 in
      if is_no_device a.device
      then (negsuc 0, record a { os = s' })
      else let (ret, s'') =
          rt_dev_write a.device (message_for reset_deadline deadline_not_set info) s' in
        (if failed ret then negsuc 0 else pos 0, record a { os = s'' })

  waited-count :
      (overruns : Ptr) (a : App S)
      → ((m : EdfMessage) (s : State) → (n : ℕ) × ((rt_dev_write a.device m s).0 ≡ pos (suc n)))
      → (answer : Inquiry) → (b : App S) × (waited overruns a answer ≡ (negsuc 0, b))
  waited-count overruns a counts (refused n) = (a, refl)
  waited-count overruns a counts (filled info) =
      let s = (rt_dev_write a.device (message_for stop_watchd deadline_not_set info) a.os).1 in
      let s' = (rt_task_wait_period overruns s).1 in
      let m = message_for reset_deadline deadline_not_set info in
      elim (Bool-cases (is_no_device a.device)) [
        | inl e ↦ (record a { os = s' }, rw e)
        | inr e ↦
            let (n, count) = counts m s' in
            (record a { os = (rt_dev_write a.device m s').1 }, rw (e, count))
      ]

  -- In a task, with memory for the message, edf_task_wait_period does what `waited` says, whatever
  -- the first write and the wait return, and its block is freed on every path.
  pub task_wait_period_lem :
      (overruns : Ptr) (a : App S)
      → heap_block a ≢ null
      → rt_task_self a.os ≢ null
      → edf_task_wait_period overruns a
        ≡ some (waited overruns a (rt_task_inquire (rt_task_self a.os) a.os))
  unfolding edf_task_wait_period wait_period mtx_acquire mtx_release reset_status
  task_wait_period_lem overruns a room in_task =
      let some_block : (heap_block a == null) ≡ false = ground arith in
      let some_task : (rt_task_self a.os == null) ≡ false = ground arith in
      let held : App S = record a { live = heap_block a ∷ a.live } in
      let freed = free_head (heap_block a) held a.live room refl in
      elim (Inquiry-cases (rt_task_inquire (rt_task_self a.os) a.os)) [
        | inl (n, e) ↦ rw (
          some_block,
          some_task,
          e,
          with_message-refused (heap_block a) (rt_task_self a.os) _ n held a.live room refl e,
        )
        | inr (info, e) ↦
            let s =
              (rt_dev_write a.device (message_for stop_watchd deadline_not_set info) a.os).1 in
            let s' = (rt_task_wait_period overruns s).1 in
            elim (Bool-cases (is_no_device a.device)) [
              | inl none_open ↦ rw (
                some_block,
                some_task,
                e,
                with_message-filled (heap_block a) (rt_task_self a.os) _ info held room e,
                none_open,
                free_head (heap_block a) (record held { os = s' }) a.live room refl,
              )
              | inr some_open ↦
                  let s'' =
                    (rt_dev_write a.device (message_for reset_deadline deadline_not_set info)
                      s').1 in
                  rw (
                    some_block,
                    some_task,
                    e,
                    with_message-filled (heap_block a) (rt_task_self a.os) _ info held room e,
                    some_open,
                    free_head (heap_block a) (record held { os = s'' }) a.live room refl,
                  )
            ]
      ]

  -- When every write to the device returns a positive count, as the driver does for a request that
  -- it served, edf_task_wait_period returns -1.
  pub task_wait_period_count :
      (overruns : Ptr) (a : App S)
      → ((m : EdfMessage) (s : State) → (n : ℕ) × ((rt_dev_write a.device m s).0 ≡ pos (suc n)))
      → heap_block a ≢ null
      → rt_task_self a.os ≢ null
      → (b : App S) × (edf_task_wait_period overruns a ≡ some (negsuc 0, b))
  task_wait_period_count overruns a counts room in_task =
      let answer = rt_task_inquire (rt_task_self a.os) a.os in
      let (b, e) = waited-count overruns a counts answer in
      (b, task_wait_period_lem overruns a room in_task ∙ ap some e)
