-- ===== src/Example.antt =====
-- exercise-edfomai/example1.c on edfomai-app.c: main() starts three tasks, and each task works and waits
-- for its period in a loop without end, of which the model takes the first rounds. The prints are left
-- out, and with them the name that a task asks for.
use edfomai.Base.{
  ℕ, zero, suc, ◌+◌, ◌*◌, ◌%◌, ◌^◌, ◌≡◌, refl, ◌∙◌, some, List, [], ◌∷◌, ◌++◌, get_or, M, pure,
  ◌>>=◌, ◌>>◌, ℤ, pos, Name, Ptr, null,
}
use edfomai.Message.{EdfMessage}
use edfomai.Platform.{RtTask}
use edfomai.App.{Skin, App, edf_init, edf_task_wait_period, mtx_create}
use edfomai.Launch.{Native, Watch, Naming, creation, call, spawn, spawn_lem}
use edfomai.Launch.Wait.{IsCaller, rounds, wait-sent}

-- The addresses of the globals and the functions; `row k` is periods[k].
pub record Image : Type 0 where
  pub demo_task : RtTask
  pub demo : Ptr
  pub row : ℕ → Ptr

-- The period, the busy time and the deadline of each task.
abbrev pub periods : List (List ℕ)
periods = (8 ∷ 2 ∷ 8 ∷ []) ∷ (16 ∷ 3 ∷ 16 ∷ []) ∷ (12 ∷ 5 ∷ 12 ∷ []) ∷ []

abbrev pub period_at : ℕ → ℕ → ℕ
period_at i j = get_or (get_or periods i []) j 0

-- "Task-%d" of a digit.
abbrev pub task_name : ℕ → Name
task_name i = b'T' ∷ b'a' ∷ b's' ∷ b'k' ∷ b'-' ∷ (b'0' + i) ∷ []

-- 0.1 seconds.
abbrev pub p : ℕ
p = 100000000

module _ {S : Skin} (N : Native S) where
  open N use {rt_print_auto_init, mlockall, pause, rt_task_set_periodic, rt_timer_spin}

  -- n rounds of the loop of demo, with the busy time of its argument.
  unfoldable pub demo_rounds : ℕ → ℕ → M (App S) (Unit {0})
  demo_rounds busy zero = pure tt
  demo_rounds busy (suc n) = do
    call (rt_timer_spin ((busy * p) % 2 ^ 64))
    _ ← edf_task_wait_period null
    demo_rounds busy n

  unfoldable pub demo : ℕ → ℕ → ℕ → M (App S) (Unit {0})
  demo period busy n = do call (rt_task_set_periodic ((period * p) % 2 ^ 64)); demo_rounds busy n

  module _ (I : Image) where
    open I use {demo_task, row}

    -- The loop from i on, with the rounds that are left.
    unfoldable pub start_from : ℕ → ℕ → M (App S) (Unit {0})
    start_from i zero = pure tt
    start_from i (suc left) = do
      _ ← spawn N demo_task (task_name i) 50 (period_at i 2) I.demo (row i)
      start_from (suc i) left

    -- The result of edf_init is not looked at.
    unfoldable pub main : M (App S) ℤ
    main = do
      call rt_print_auto_init
      call mlockall
      _ ← edf_init
      start_from 0 3
      call pause
      pure (pos 0)

-- The deadlines are 8, 16 and 12 nanoseconds: edf_task_start takes what main() does not scale.
abbrev pub creations : List EdfMessage
creations = creation (task_name 2) 12 ∷ creation (task_name 1) 16 ∷ creation (task_name 0) 8 ∷ []

module _ {S : Skin} {N : Native S} (W : Watch S N) (C : Naming S N) where
  open W use {sent}

  -- With an open device, main() creates the three tasks with deadlines of 8, 16 and 12 nanoseconds.
  main-creations :
      (I : Image) (fd : ℕ) (s : S.State) (a : App S)
      → Skin.rt_dev_open S (N.mlockall (N.rt_print_auto_init a.os)) ≡ (pos fd, s)
      → (b : App S) × (main N I a ≡ some (pos 0, b)) × (sent b.os ≡ creations ++ sent a.os)
  unfolding main start_from edf_init mtx_create
  main-creations I fd s a opens =
      let ready : App S = record a { os = s; device = pos fd } in
      let (r1, a1, e1, d1, l1) =
        spawn_lem W C I.demo_task (task_name 0) 50 8 I.demo (I.row 0) fd ready refl in
      let (r2, a2, e2, d2, l2) =
        spawn_lem W C I.demo_task (task_name 1) 50 16 I.demo (I.row 1) fd a1 d1 in
      let (r3, a3, e3, d3, l3) =
        spawn_lem W C I.demo_task (task_name 2) 50 12 I.demo (I.row 2) fd a2 d2 in
      let opened = W.sent_open (N.mlockall (N.rt_print_auto_init a.os)) in
      let logged =
        (rw opens at opened)
        ∙ W.sent_mlockall (N.rt_print_auto_init a.os)
        ∙ W.sent_print_init a.os in
      (
        record a3 { os = N.pause a3.os },
        rw (opens, e1, e2, e3),
        W.sent_pause a3.os ∙ rw (l3, l2, l1, logged),
      )

module _ {S : Skin} {N : Native S} (W : Watch S N) where
  open W use {sent}

  demo_rounds_lem :
      (name : Name) (busy fd n : ℕ) (a : App S)
      → IsCaller S name
      → a.device ≡ pos fd
      → (b : App S) × (demo_rounds N busy n a ≡ some (tt, b))
        × (b.live ≡ a.live)
        × (sent b.os ≡ rounds name n (sent a.os))
  unfolding demo_rounds
  demo_rounds_lem name busy fd zero a caller open_at = (a, refl, refl, refl)
  demo_rounds_lem name busy fd (suc n) a caller open_at =
      let s0 = N.rt_timer_spin ((busy * p) % 2 ^ 64) a.os in
      let (r, s1, waits, l1) = wait-sent W name null fd (record a { os = s0 }) caller open_at in
      let next : App S = record a { os = s1; device = pos fd } in
      let (b, e, heap, l) = demo_rounds_lem name busy fd n next caller refl in
      (b, rw waits e, heap, rw (l1, W.sent_spin ((busy * p) % 2 ^ 64) a.os) at l)

  -- In a task of the given name, with an open device and memory, every round of demo sends STOP_WATCHD
  -- and then RESET_DEADLINE for that name and nothing else, for any number of rounds; and the heap is
  -- as before.
  demo_lem :
      (name : Name) (period busy fd n : ℕ) (a : App S)
      → IsCaller S name
      → a.device ≡ pos fd
      → (b : App S) × (demo N period busy n a ≡ some (tt, b))
        × (b.live ≡ a.live)
        × (sent b.os ≡ rounds name n (sent a.os))
  unfolding demo
  demo_lem name period busy fd n a caller open_at =
      let cycle = (period * p) % 2 ^ 64 in
      let set : App S = record a { os = N.rt_task_set_periodic cycle a.os } in
      let (b, e, heap, l) = demo_rounds_lem name busy fd n set caller open_at in
      (b, e, heap, rw (W.sent_periodic cycle a.os) at l)
