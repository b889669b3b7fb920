-- ===== src/Recalc/Assign.antt =====
-- The second loop of rt_dtask_recalculateprio (edfomai-drv-data.c): which entries it marks, and which
-- calls it makes.
use edfomai.Base.{
  ℕ, ◌<◌, ◌+◌, ◌≡◌, refl, ◌&&◌, inl, inr, some, List, [], ◌∷◌, ◌++◌, for_each, ◌==◌, if◌then◌else◌,
  Bool-cases, Ptr, Distinct, length, drop,
}
use edfomai.Platform.{Platform, RtTask}
use edfomai.Prio.{calculate_prio}
use edfomai.World.{World, RtDeadlineTask, update, missed, store}
use edfomai.World.Laws.{load_lem}
use edfomai.Notify.{deadline_missed}
use edfomai.Notify.Message.{missed_message-short}
use edfomai.Recalc.{Bounds, is_ready, report_missed, assign_prio, assign_step}
use edfomai.Recalc.Holds.{Holds, touched, Holds-update, update_self, touched-update}

-- What the loop asks of the kernel.
pub data Call : Type 0 where
  report : RtTask → Call
  give : RtTask → ℕ → Call

-- An entry after the second loop.
abbrev pub marked : RtDeadlineTask → RtDeadlineTask
marked d = if is_ready d && d.remain == 0 then record d { status = missed } else d

module _ (P : Platform) where
  open P use {State, rname, stale_chars, rt_queue_write, rt_task_set_priority, div}

  abbrev pub prio_of : Bounds → RtDeadlineTask → ℕ
  prio_of b d = calculate_prio div d.remain b.min_remain b.max_remain

  abbrev pub give_calls : Bounds → RtDeadlineTask → List Call
  give_calls b d = if prio_of b d == d.task_info.cprio then [] else give d.task (prio_of b d) ∷ []

  abbrev pub calls_of : Bounds → RtDeadlineTask → List Call
  calls_of b d =
      if is_ready d
      then (if d.remain == 0 then report d.task ∷ give_calls b d else give_calls b d)
      else []

  abbrev pub all_calls : Bounds → List RtDeadlineTask → List Call
  all_calls b [] = []
  all_calls b (d ∷ ds) = calls_of b d ++ all_calls b ds

  -- The message of a late task: its name, a NUL, and the rest of the array.
  abbrev pub run_call : Call → State → State
  run_call (report t) s = rt_queue_write (rname t ++ 0 ∷ drop (length (rname t) + 1) stale_chars) s
  run_call (give t n) s = rt_task_set_priority t n s

  abbrev pub run_calls : List Call → State → State
  run_calls [] s = s
  run_calls (c ∷ cs) s = run_calls cs (run_call c s)

  pub run_calls-append :
      (xs ys : List Call) (s : State) → run_calls (xs ++ ys) s ≡ run_calls ys (run_calls xs s)
  run_calls-append [] ys s = refl
  run_calls-append (x ∷ xs) ys s = run_calls-append xs ys (run_call x s)

  abbrev pub ShortNames : List RtDeadlineTask → Type 0
  ShortNames [] = Unit
  ShortNames (d ∷ ds) = (length (rname d.task) < 24) × ShortNames ds

module _ {P : Platform} where
  open P use {rname, rname_text, stale_chars, stale_length}

  deadline_missed_lem :
      (t : RtTask) (w : World P)
      → length (rname t) < 24
      → deadline_missed t w ≡ some (tt, record w { kernel = run_call P (report t) w.kernel })
  unfolding deadline_missed
  deadline_missed_lem t w short = rw (
    missed_message-short (rname t) stale_chars (rname_text t) stale_length short,
    deadline_missed,
  )

  report_missed_lem :
      (p : Ptr) (d : RtDeadlineTask) (w : World P)
      → length (rname d.task) < 24
      → w.dtasks p ≡ some d
      → report_missed p d w
        ≡ some (
          tt,
          record w {
            kernel = run_calls P (if d.remain == 0 then report d.task ∷ [] else []) w.kernel;
            dtasks =
                update w.dtasks p
                  (some (if d.remain == 0 then record d { status = missed } else d));
          },
        )
  unfolding report_missed store
  report_missed_lem p d w short e = elim (Bool-cases (d.remain == 0)) [
    | inl late ↦ rw (late, deadline_missed_lem d.task _ short)
    | inr early ↦ rw (early, update_self w.dtasks p d e)
  ]

  assign_prio_lem :
      (b : Bounds) (d : RtDeadlineTask) (w : World P)
      → assign_prio b d w ≡ some (tt, record w { kernel = run_calls P (give_calls P b d) w.kernel })
  unfolding assign_prio
  assign_prio_lem b d w = elim (Bool-cases (prio_of P b d == d.task_info.cprio)) [
    | inl same ↦ rw (same)
    | inr new ↦ rw (new)
  ]

  pub assign_step_lem :
      (b : Bounds) (p : Ptr) (d : RtDeadlineTask) (w : World P)
      → length (rname d.task) < 24
      → w.dtasks p ≡ some d
      → assign_step b p w
        ≡ some (
          tt,
          record w {
            kernel = run_calls P (calls_of P b d) w.kernel;
            dtasks = update w.dtasks p (some (marked d));
          },
        )
  unfolding assign_step
  assign_step_lem b p d w short e = elim (Bool-cases (is_ready d)) [
    | inl ready ↦
        rw (load_lem p d w e, ready, report_missed_lem p d w short e, assign_prio_lem b d _)
          (elim (Bool-cases (d.remain == 0)) [ inl late ↦ rw late | inr early ↦ rw early ])
    | inr idle ↦ rw (load_lem p d w e, idle, update_self w.dtasks p d e)
  ]

  -- The second loop marks every entry, and makes the calls of each in turn.
  pub assign_lem :
      (b : Bounds) (ps : List Ptr) (ds : List RtDeadlineTask) (w : World P)
      → Distinct ps
      → Holds w.dtasks ps ds
      → ShortNames P ds
      → for_each ps (assign_step b) w
        ≡ some (
          tt,
          record w {
            kernel = run_calls P (all_calls P b ds) w.kernel;
            dtasks = touched marked ps w.dtasks;
          },
        )
  unfolding for_each
  assign_lem b [] [] w apart h short = refl
  assign_lem b [] (d ∷ ds) w apart h short = absurd h
  assign_lem b (p ∷ ps) [] w apart h short = absurd h
  assign_lem b (p ∷ ps) (d ∷ ds) w apart h short =
      let w' : World P = record w {
        kernel = run_calls P (calls_of P b d) w.kernel;
        dtasks = update w.dtasks p (some (marked d));
      } in
      let rest = Holds-update w.dtasks p (some (marked d)) ps ds apart.0 h.1 in
      rw (
        assign_step_lem b p d w short.0 h.0,
        assign_lem b ps ds w' apart.1 rest short.1,
        touched-update marked w.dtasks p d ps h.0 apart.0,
        run_calls-append P (calls_of P b d) (all_calls P b ds) w.kernel,
      )
