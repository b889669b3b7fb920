-- ===== src/Launch.antt =====
-- How a program starts its tasks on edfomai-app.c: rt_task_create and then edf_task_start. What the main
-- programs call beside it is an interface. So is a log of the messages that reach the device, by which
-- their theorems say what they send.
pub mod Wait
use edfomai.Base.{ℕ, ◌≡◌, ◌≢◌, ◌∙◌, some, List, ◌∷◌, take, M, ◌>>◌, ℤ, pos, Name, Ptr, null}
use edfomai.Message.{EdfMessage, tname_len, create_task}
use edfomai.Platform.{RtTask, TaskInfo, filled}
use edfomai.App.{Skin, App, edf_task_start}
use edfomai.App.Task.{task_start_lem}

-- Their results are not looked at. The mode of a semaphore, of a task and of its stack is left out.
pub record Native (S : Skin) : Type 0 where
  pub rt_print_auto_init : S.State → S.State
  pub mlockall : S.State → S.State
  pub rt_sem_create : Ptr → Name → ℕ → S.State → S.State
  pub rt_task_create : RtTask → Name → ℕ → S.State → S.State
  pub signal : ℕ → Ptr → S.State → S.State
  pub pause : S.State → S.State
  -- Of the calling task.
  pub rt_task_set_periodic : ℕ → S.State → S.State
  pub rt_timer_spin : ℕ → S.State → S.State

-- A log of the messages that the calling task writes to the device, the newest first; and memory is not
-- exhausted.
pub record Watch (S : Skin) (N : Native S) : Type 0 where
  pub sent : S.State → List EdfMessage
  pub sent_write :
      (fd : ℤ) (m : EdfMessage) (s : S.State) → sent (S.rt_dev_write fd m s).1 ≡ m ∷ sent s
  pub sent_open : (s : S.State) → sent (S.rt_dev_open s).1 ≡ sent s
  pub sent_close : (fd : ℤ) (s : S.State) → sent (S.rt_dev_close fd s).1 ≡ sent s
  pub sent_start :
      (t : RtTask) (f arg : Ptr) (s : S.State) → sent (S.rt_task_start t f arg s).1 ≡ sent s
  pub sent_print_init : (s : S.State) → sent (N.rt_print_auto_init s) ≡ sent s
  pub sent_mlockall : (s : S.State) → sent (N.mlockall s) ≡ sent s
  pub sent_sem :
      (p : Ptr) (name : Name) (n : ℕ) (s : S.State) → sent (N.rt_sem_create p name n s) ≡ sent s
  pub sent_create :
      (t : RtTask) (name : Name) (prio : ℕ) (s : S.State)
      → sent (N.rt_task_create t name prio s) ≡ sent s
  pub sent_signal : (n : ℕ) (f : Ptr) (s : S.State) → sent (N.signal n f s) ≡ sent s
  pub sent_pause : (s : S.State) → sent (N.pause s) ≡ sent s
  pub sent_wait : (p : Ptr) (s : S.State) → sent (S.rt_task_wait_period p s).1 ≡ sent s
  pub sent_periodic : (n : ℕ) (s : S.State) → sent (N.rt_task_set_periodic n s) ≡ sent s
  pub sent_spin : (n : ℕ) (s : S.State) → sent (N.rt_timer_spin n s) ≡ sent s
  pub room : (live : List Ptr) (s : S.State) → S.malloc live s ≢ null

-- A task that was created has the name that it was given.
pub record Naming (S : Skin) (N : Native S) : Type 0 where
  pub created :
      (t : RtTask) (name : Name) (prio : ℕ) (s : S.State)
      → (i : TaskInfo) × (S.rt_task_inquire t (N.rt_task_create t name prio s) ≡ filled i)
        × (i.name ≡ name)

-- The message by which the device learns of a task.
abbrev pub creation : Name → ℕ → EdfMessage
creation name deadline = record {
  command = create_task;
  task = take tname_len name;
  deadline = deadline;
}

module _ {S : Skin} where
  open S use {State}

  abbrev pub call : (State → State) → M (App S) (Unit {0})
  call f a = some (tt, record a { os = f a.os })

module _ {S : Skin} (N : Native S) where
  open N use {rt_task_create}

  unfoldable pub spawn : RtTask → Name → ℕ → ℕ → Ptr → Ptr → M (App S) ℤ
  spawn task name prio deadline procedure arg = do
    call (rt_task_create task name prio)
    edf_task_start task deadline procedure arg

module _ {S : Skin} {N : Native S} (W : Watch S N) (C : Naming S N) where
  open W use {sent, sent_write, sent_start, sent_create, room}
  open C use {created}

  -- With an open device, a spawn sends the creation of the task, and leaves the descriptor and the heap.
  pub spawn_lem :
      (task : RtTask) (name : Name) (prio deadline : ℕ) (procedure arg : Ptr) (fd : ℕ) (a : App S)
      → a.device ≡ pos fd
      → (r : ℤ) × (b : App S) × (spawn N task name prio deadline procedure arg a ≡ some (r, b))
        × (b.device ≡ pos fd)
        × (sent b.os ≡ creation name deadline ∷ sent a.os)
  unfolding spawn
  spawn_lem task name prio deadline procedure arg fd a open_at =
      let s = N.rt_task_create task name prio a.os in
      let made : App S = record a { os = s } in
      let (i, known, named) = created task name prio a.os in
      let m = creation i.name deadline in
      let s1 = (Skin.rt_dev_write S (pos fd) m s).1 in
      let s2 = (Skin.rt_task_start S task procedure arg s1).1 in
      (
        (Skin.rt_task_start S task procedure arg s1).0,
        record a { os = s2 },
        task_start_lem task deadline procedure arg made (room a.live s) ∙ rw (known, open_at),
        open_at,
        sent_start task procedure arg s1
            ∙ sent_write (pos fd) m s
            ∙ rw (named, sent_create task name prio a.os),
      )
