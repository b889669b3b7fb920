-- ===== src/System/Waited.antt =====
-- A task that ends its period by edf_task_wait_period of edfomai-app.c, on the driver of edfomai-drv.c.
use edfomai.Base.{
  ℕ, zero, suc, ◌≡◌, ◌≢◌, refl, sym, ap, ap₂, subst, ◌∙◌, some, List, [], ◌∷◌, arith, ◌==◌,
  if◌then◌else◌, take, pos, negsuc, Ptr, null, Items, lookup, Bool-cases, inl, inr, pointers,
}
use edfomai.Message.{EdfMessage, tname_len, stop_watchd, reset_deadline, deadline_not_set}
use edfomai.Platform.{Platform, RtTask, TaskInfo, filled}
use edfomai.World.{World, RtDeadlineTask}
use edfomai.Recalc.Edf.{Near}
use edfomai.Dtask.Valid.{IsValid}
use edfomai.Dtask.Change.{changed}
use edfomai.Dtask.Restart.{clock_of, clocked}
use edfomai.Dtask.Waiting.{waiting}
use edfomai.Driver.{failed}
use edfomai.Driver.Served.{Steady, kernel-IsValid}
use edfomai.Driver.Dispatch.{locked_world}
use edfomai.Driver.Write.{request, task_named}
use edfomai.Driver.Pause.{write-Waiting}
use edfomai.Driver.Schedule.{Obedient}
use edfomai.Driver.Schedule.Rounds.{Follows}
use edfomai.Driver.Schedule.Requests.{AllNear, anew, entries_after, write-Follows}
use edfomai.App.{Skin, App, message_for, edf_task_wait_period}
use edfomai.App.Task.{heap_block, task_wait_period_lem}
use edfomai.System.{Process, joined, handed}

-- A change that hides an earlier one of the same entry.
changed_twice :
    (g h : RtDeadlineTask → RtDeadlineTask) (p : Ptr) (ps : List Ptr) (ds : List RtDeadlineTask)
    → ((d : RtDeadlineTask) → g (h d) ≡ g d)
    → changed g p ps (changed h p ps ds) ≡ changed g p ps ds
changed_twice g h p [] ds hides = refl
changed_twice g h p (q ∷ ps) [] hides = refl
changed_twice g h p (q ∷ ps) (d ∷ ds) hides = elim (Bool-cases (p == q)) [
  | inl same ↦ rw same (ap₂ ◌∷◌ (hides d) (changed_twice g h p ps ds hides))
  | inr other ↦ rw other (ap (◌∷◌ d) (changed_twice g h p ps ds hides))
]

-- The library takes a count for an error.
failed-count :
    (n : ℕ) → (if failed (pos n) then negsuc 0 else pos 0) ≡ (if n == 0 then pos 0 else negsuc 0)
failed-count zero = refl
failed-count (suc n) = ground arith

module _ {P : Platform} (U : Process P) where
  abbrev pub reset_message : TaskInfo → EdfMessage
  reset_message info = message_for reset_deadline deadline_not_set info

  -- The driver's state when the task has sent STOP_WATCHD and waited, and its RESET_DEADLINE arrives.
  abbrev pub resuming : Ptr → App (joined P U) → TaskInfo → World P
  resuming overruns a info =
      handed U (reset_message info)
        (Skin.rt_task_wait_period (joined P U) overruns
          (Skin.rt_dev_write (joined P U) a.device (message_for stop_watchd deadline_not_set info)
            a.os).1).1

module _ {P : Platform} (U : Process P) (O : Obedient P) (st : Steady P) where
  -- From a valid table, with a kernel that knows its tasks, all with short names, has memory, and
  -- gives a task the priority that is set: when a task of the program, with an open device and
  -- memory for the message, calls edf_task_wait_period, no other task uses the driver before it
  -- returns, the registry always finds a task with an entry under the first 24 characters of the
  -- caller's name, and every active deadline, the new one in place of the old, is less than 2 ^
  -- 64 / 50 ns after the second reading of the clock for the RESET_DEADLINE request, then the
  -- call returns -1 (0 only for messages of size 0). Of the tasks of any two entries that were
  -- running with a deadline not reported as missed before the call, or are started anew by it,
  -- the kernel then gives that with the earlier deadline no lower priority, the new deadline
  -- counted.
  pub wait-Follows :
      {xs : Items} {ds : List RtDeadlineTask} (a : App (joined P U))
      → IsValid a.os xs ds
      → (info : TaskInfo) (t : RtTask) (p overruns : Ptr) (fd : ℕ) → a.device ≡ pos fd
      → heap_block a ≢ null
      → U.rt_task_self a.os.kernel ≢ null
      → U.rt_task_inquire (U.rt_task_self a.os.kernel) a.os.kernel ≡ filled info
      → ((w : World P) → task_named (take tname_len info.name) w ≡ t)
      → t ≢ null
      → lookup (P.rname t) xs ≡ some p
      → AllNear O st (reset_message U info) p (resuming U overruns a info) xs ds
      → (b : App (joined P U)) × (edf_task_wait_period overruns a
          ≡ some ((if U.message_size == 0 then pos 0 else negsuc 0), b))
        × Follows O
            (entries_after O st (reset_message U info) p (resuming U overruns a info) xs ds)
            b.os.kernel
  wait-Follows {xs} {ds} a v info t p overruns fd open_at room in_task known named some_t found
        near =
      let stop = message_for stop_watchd deadline_not_set info in
      let reset = reset_message U info in
      let w = handed U stop a.os in
      let buf = (U.buffer stop a.os.kernel).0 in
      let requested : request w buf ≡ stop = rw (request, U.buffer_read stop a.os.kernel) in
      let (w1, paused, valid) =
        write-Waiting st (kernel-IsValid w.kernel v) buf U.message_size t p (rw requested refl)
          (rw requested (named w)) some_t found in
      let w2 : World P = record w1 { kernel = (U.rt_task_wait_period overruns w1.kernel).1 } in
      let w3 = handed U reset w2 in
      let buf' = (U.buffer reset w2.kernel).0 in
      let requested' : request w3 buf' ≡ reset = rw (request, U.buffer_read reset w2.kernel) in
      let arrives : resuming U overruns a info ≡ w3 = rw paused in
      let es = changed waiting p (pointers xs) ds in
      let g = anew reset (clock_of (locked_world w3)) in
      let hides : changed g p (pointers xs) es ≡ changed g p (pointers xs) ds =
        changed_twice g waiting p (pointers xs) ds (λ d. refl) in
      let near' =
        subst (λ m. AllNear O st m p w3 xs es) (sym requested')
          (subst (Near (clock_of (clocked (locked_world w3)))) (sym hides)
            (subst (λ x. AllNear O st reset p x xs ds) arrives near)) in
      let (w4, served, follows) =
        write-Follows O st (kernel-IsValid w3.kernel valid) buf' U.message_size t p
          (inl (rw requested' refl)) (rw requested' (named w3)) some_t found near' in
      (
        record a { os = w4 },
        task_wait_period_lem overruns a room in_task
            ∙ rw (known, open_at, paused, served, failed-count U.message_size),
        subst (λ x. Follows O (entries_after O st reset p x xs ds) w4.kernel) (sym arrives)
            (subst (λ l. Follows O l w4.kernel) hides
              (subst (λ m. Follows O (entries_after O st m p w3 xs es) w4.kernel) requested'
                follows)),
      )
