-- ===== src/Driver/Schedule.antt =====
-- The kernel's priorities after a round of rt_dtask_recalculateprio (edfomai-drv-data.c): the calls of
-- the round reach the tasks, so that the kernel runs them by their deadlines.
pub mod Rounds
pub mod Requests
use edfomai.Base.{
  ℕ, ◌≤◌, ◌≡◌, ◌≢◌, refl, sym, ap, ◌∙◌, true, false, none, some, List, [], ◌∷◌, ◌++◌, map, arith,
  ◌==◌, if◌then◌else◌, ltb, pos, Items, Name, lookup, UniqueKeys, ==_iff, Bool-cases, inl, inr, ◌⊎◌,
  Ptr, pointers, subst,
}
use edfomai.Platform.{Platform, RtTask, TaskInfo, filled}
use edfomai.World.{World, RtDeadlineTask, Blocks}
use edfomai.Recalc.{Bounds, is_active, is_ready, no_bounds, rt_dtask_recalculateprio}
use edfomai.Recalc.Holds.{Holds}
use edfomai.Recalc.Scan.{bounds_of, refreshed, info_after}
use edfomai.Recalc.Assign.{
  Call, report, give, prio_of, give_calls, calls_of, all_calls, run_call, run_calls,
  run_calls-append,
}
use edfomai.Recalc.Refine.{round, recalculateprio-empty, recalculateprio-round}
use edfomai.Recalc.Edf.{In, Near, round_prio, round_prio_edf, round_prio-earliest}
use edfomai.Dtask.Valid.{IsValid, Named}
use edfomai.Driver.Served.{Steady, all_short}

-- A kernel that gives a task the priority that was set, if that is in its range, and to no other one.
pub record Obedient (P : Platform) : Type 0 where
  pub cprio : RtTask → P.State → ℕ
  pub inquired :
      (t : RtTask) (s : P.State) (i : TaskInfo)
      → P.rt_task_inquire t s ≡ filled i
      → i.cprio ≡ cprio t s
  pub set_same :
      (t : RtTask) (n : ℕ) (s : P.State) → n ≤ 99 → cprio t (P.rt_task_set_priority t n s) ≡ n
  pub set_other :
      (t u : RtTask) (n : ℕ) (s : P.State)
      → u ≢ t
      → cprio u (P.rt_task_set_priority t n s) ≡ cprio u s
  pub written : (t : RtTask) (m : List ℕ) (s : P.State) → cprio t (P.rt_queue_write m s) ≡ cprio t s
  pub unlocked : (t : RtTask) (s : P.State) → cprio t (P.rtdm_lock_put s) ≡ cprio t s
  pub cleared : (t : RtTask) (s : P.State) → cprio t (P.rtdm_event_clear s) ≡ cprio t s

-- No two entries are of one task.
abbrev pub OneEach : List RtDeadlineTask → Type 0
OneEach [] = Unit
OneEach (d ∷ ds) = ((e : RtDeadlineTask) → In e ds → e.task ≢ d.task) × OneEach ds

module _ {P : Platform} (O : Obedient P) where
  open O use {cprio, set_same, set_other, written}

  give_calls-other :
      (b : Bounds) (d : RtDeadlineTask) (t : RtTask) (s : P.State)
      → t ≢ d.task
      → cprio t (run_calls P (give_calls P b d) s) ≡ cprio t s
  give_calls-other b d t s other = elim (Bool-cases (prio_of P b d == d.task_info.cprio)) [
    | inl same ↦ rw same
    | inr new ↦ rw new (set_other d.task t (prio_of P b d) s other)
  ]

  give_calls-own :
      (b : Bounds) (d : RtDeadlineTask) (s : P.State)
      → d.task_info.cprio ≡ cprio d.task s
      → prio_of P b d ≤ 99
      → cprio d.task (run_calls P (give_calls P b d) s) ≡ prio_of P b d
  give_calls-own b d s known small = elim (Bool-cases (prio_of P b d == d.task_info.cprio)) [
    | inl same ↦ rw same (sym known ∙ sym ((==_iff _ _).0 same))
    | inr new ↦ rw new (set_same d.task (prio_of P b d) s small)
  ]

  -- The calls of an entry concern its own task.
  calls_of-other :
      (b : Bounds) (d : RtDeadlineTask) (t : RtTask) (s : P.State)
      → t ≢ d.task
      → cprio t (run_calls P (calls_of P b d) s) ≡ cprio t s
  calls_of-other b d t s other = elim (Bool-cases (is_ready d)) [
    | inl ready ↦ elim (Bool-cases (d.remain == 0)) [
      | inl late ↦ rw (ready, late) (give_calls-other b d t _ other ∙ written t _ s)
      | inr early ↦ rw (ready, early) (give_calls-other b d t s other)
    ]
    | inr idle ↦ rw idle
  ]

  -- And give it its computed priority, unless it has that.
  calls_of-own :
      (b : Bounds) (d : RtDeadlineTask) (s : P.State)
      → is_ready d ≡ true
      → d.task_info.cprio ≡ cprio d.task s
      → prio_of P b d ≤ 99
      → cprio d.task (run_calls P (calls_of P b d) s) ≡ prio_of P b d
  calls_of-own b d s ready known small = elim (Bool-cases (d.remain == 0)) [
    | inl late ↦ rw (ready, late) (give_calls-own b d _ (known ∙ sym (written d.task _ s)) small)
    | inr early ↦ rw (ready, early) (give_calls-own b d s known small)
  ]

  all_calls-other :
      (b : Bounds) (t : RtTask) (ds : List RtDeadlineTask) (s : P.State)
      → ((e : RtDeadlineTask) → In e ds → e.task ≢ t)
      → cprio t (run_calls P (all_calls P b ds) s) ≡ cprio t s
  all_calls-other b t [] s others = refl
  all_calls-other b t (d ∷ ds) s others =
      rw (run_calls-append P (calls_of P b d) (all_calls P b ds) s) (
        all_calls-other b t ds _ (λ e i. others e (inr i))
        ∙ calls_of-other b d t s (λ e. others d (inl refl) (sym e)))

  -- After the calls of all entries, one for each task, a ready entry's task has its priority.
  all_calls-own :
      (b : Bounds) (d : RtDeadlineTask) (ds : List RtDeadlineTask) (s : P.State)
      → OneEach ds
      → In d ds
      → is_ready d ≡ true
      → d.task_info.cprio ≡ cprio d.task s
      → prio_of P b d ≤ 99
      → cprio d.task (run_calls P (all_calls P b ds) s) ≡ prio_of P b d
  all_calls-own b d [] s one i ready known small = absurd i
  all_calls-own b d (e ∷ ds) s one (inl same) ready known small =
      rw (run_calls-append P (calls_of P b e) (all_calls P b ds) s, ← same)
        (all_calls-other b d.task ds _ (λ x i. rw same (one.0 x i))
          ∙ calls_of-own b d s ready known small)
  all_calls-own b d (e ∷ ds) s one (inr i) ready known small =
      let kept = calls_of-other b e d.task s (one.0 d i) in
      rw (run_calls-append P (calls_of P b e) (all_calls P b ds) s)
        (all_calls-own b d ds _ one.1 i ready (known ∙ sym kept) small)
