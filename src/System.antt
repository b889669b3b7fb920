-- ===== src/System.antt =====
-- The library of edfomai-app.c on the driver of edfomai-drv.c: a write to the device is a call of the
-- write handler. The program's process, and RTDM between the two, are an interface. What other tasks do
-- between the calls of one operation is not in this model.
pub mod Enrolled
pub mod RoverStarted
pub mod Waited
use edfomai.Base.{
  ℕ, ◌≡◌, ◌≢◌, refl, ◌∙◌, false, none, some, List, if◌then◌else◌, take, ℤ, pos, negsuc, Option, Ptr,
  null, Items, lookup, has,
}
use edfomai.Message.{EdfMessage, tname_len, create_task}
use edfomai.Platform.{Platform, RtTask, TaskInfo, Inquiry, filled}
use edfomai.World.{World, RtDeadlineTask, Blocks}
use edfomai.Dtask.Valid.{IsValid}
use edfomai.Driver.{device, failed}
use edfomai.Driver.Served.{Steady, kernel-IsValid}
use edfomai.Driver.Write.{request, task_named}
use edfomai.Driver.Register.{Registered, write-Registered}
use edfomai.App.{Skin, App, message_for, edf_task_start}
use edfomai.App.Task.{heap_block, task_start_lem}

pub record Process (P : Platform) : Type 0 where
  -- The address of a message in the process, and how the kernel reads it there.
  pub buffer : EdfMessage → P.State → Ptr × P.State
  pub message_size : ℕ
  pub rt_dev_open : P.State → ℤ × P.State
  pub rt_dev_close : ℤ → P.State → ℤ × P.State
  pub rt_task_self : P.State → RtTask
  pub rt_task_inquire : RtTask → P.State → Inquiry
  pub rt_task_start : RtTask → Ptr → Ptr → P.State → ℤ × P.State
  pub rt_task_wait_period : Ptr → P.State → ℤ × P.State
  pub malloc : List Ptr → P.State → Ptr
  pub buffer_read :
      (m : EdfMessage) (s : P.State) → P.rtdm_copy_from_user (buffer m s).0 (buffer m s).1 ≡ some m
  pub malloc_fresh : (live : List Ptr) (s : P.State) → has (malloc live s) live ≡ false

module _ {P : Platform} where
  -- A call of the process on the kernel's state alone.
  abbrev pub in_kernel : (P.State → ℤ × P.State) → World P → ℤ × World P
  in_kernel f w = let (r, s) = f w.kernel in (r, record w { kernel = s })

  -- What a handler answers. A fault has no answer: -1 stands for it, and the theorems exclude it.
  abbrev pub answered : Option (ℤ × World P) → World P → ℤ × World P
  answered none w = (negsuc 0, w)
  answered (some (r, w')) w = (r, w')

-- A skin whose state is that of the driver.
abbrev pub joined : (P : Platform) → Process P → Skin
joined P U = record {
  State = World P;
  rt_dev_open = λ w.
      let (status, w') = answered (device.open_nrt w) w in
      if failed status then (status, w') else in_kernel U.rt_dev_open w';
  rt_dev_write = λ fd m w.
      let (buf, s) = U.buffer m w.kernel in
      let w' : World P = record w { kernel = s } in
      answered (device.write_nrt buf U.message_size w') w';
  rt_dev_close = λ fd w.
      let (status, w') = answered (device.close_nrt w) w in
      if failed status then (status, w') else in_kernel (U.rt_dev_close fd) w';
  rt_task_self = λ w. U.rt_task_self w.kernel;
  rt_task_inquire = λ t w. U.rt_task_inquire t w.kernel;
  rt_task_start = λ t f arg w. in_kernel (U.rt_task_start t f arg) w;
  rt_task_wait_period = λ overruns w. in_kernel (U.rt_task_wait_period overruns) w;
  malloc = λ live w. U.malloc live w.kernel;
  malloc_fresh = λ live w. U.malloc_fresh live w.kernel;
}

module _ {P : Platform} where
  Registered-kernel :
      (f : Blocks) (w : World P) (s : P.State) (xs ys : Items) (t : RtTask) (deadline : ℕ)
      → Registered f w xs ys t deadline
      → Registered f (record w { kernel = s }) xs ys t deadline
  Registered-kernel f w s xs ys t deadline r = record {
    block = r.block;
    entry = r.entry;
    listed = r.listed;
    stored = r.stored;
    of_task = r.of_task;
    asked = r.asked;
    kept = r.kept;
  }

module _ {P : Platform} (U : Process P) where
  -- The driver's state when the write handler gets the message.
  abbrev pub handed : EdfMessage → World P → World P
  handed m w = record w { kernel = (U.buffer m w.kernel).1 }

  -- From a valid table, with an open device, memory for the message, a name of the task, and a kernel
  -- that has memory and knows its tasks, all with short names: when the registry finds a task without an
  -- entry under the first 24 characters of that name, edf_task_start returns what rt_task_start
  -- returns, and the driver's table is valid and has that task, last, with the deadline given.
  pub start-Registered :
      {xs : Items} {ds : List RtDeadlineTask} (a : App (joined P U))
      → IsValid a.os xs ds
      → Steady P
      → (task t : RtTask) (info : TaskInfo) (deadline fd : ℕ) (procedure arg : Ptr)
      → a.device ≡ pos fd
      → heap_block a ≢ null
      → U.rt_task_inquire task a.os.kernel ≡ filled info
      → task_named (take tname_len info.name) (handed (message_for create_task deadline info) a.os)
        ≡ t
      → t ≢ null
      → lookup (P.rname t) xs ≡ none
      → (b : App (joined P U)) × (s : P.State) × (ys : Items) × (es : List RtDeadlineTask)
        × (edf_task_start task deadline procedure arg a
            ≡ some ((U.rt_task_start task procedure arg s).0, b))
        × IsValid b.os ys es
        × Registered a.os.dtasks b.os xs ys t deadline
        × (b.device ≡ a.device)
  start-Registered {xs} {ds} a v st task t info deadline fd procedure arg open_at room known named
        some_t missing =
      let m = message_for create_task deadline info in
      let w = handed m a.os in
      let read = U.buffer_read m a.os.kernel in
      let requested : request w (U.buffer m a.os.kernel).0 ≡ m = rw (request, read) in
      let u = kernel-IsValid w.kernel v in
      let (s, size, registered) =
        write-Registered u st (U.buffer m a.os.kernel).0 U.message_size t (rw requested)
          (rw requested named) some_t missing in
      let started = U.rt_task_start task procedure arg s.after.kernel in
      let after : World P = record s.after { kernel = started.1 } in
      (
        record a { os = after },
        s.after.kernel,
        s.items_after,
        s.entries_after,
        task_start_lem task deadline procedure arg a room
            ∙ (let runs = s.runs in rw (known, open_at, runs)),
        kernel-IsValid started.1 s.valid,
        Registered-kernel a.os.dtasks s.after started.1 xs s.items_after t deadline
            (rw requested at registered),
        refl,
      )
