-- ===== src/Recalc/Scan.antt =====
-- The first loop of rt_dtask_recalculateprio (edfomai-drv-data.c) as a change of all entries.
use edfomai.Base.{
  ℕ, ◌≡◌, refl, inl, inr, some, List, [], ◌∷◌, arith, fold_each, if◌then◌else◌, Bool-cases, Ptr,
  Distinct,
}
use edfomai.Platform.{Platform, TaskInfo, filled, refused}
use edfomai.World.{World, RtDeadlineTask, update, store, inquire}
use edfomai.World.Laws.{load_lem}
use edfomai.Recalc.{Bounds, is_active, remaining, widen, scan_step}
use edfomai.Recalc.Holds.{Holds, touched, Holds-update, update_self, touched-update}

-- The bounds of the remaining times of the active entries.
abbrev pub bounds_of : ℕ → List RtDeadlineTask → Bounds → Bounds
bounds_of now [] b = b
bounds_of now (d ∷ ds) b = bounds_of now ds (if is_active d then widen (remaining now d) b else b)

module _ (P : Platform) where
  open P use {State, rt_task_inquire}

  abbrev pub info_after : State → RtDeadlineTask → TaskInfo
  info_after s d = elim (rt_task_inquire d.task s) [ filled i ↦ i | refused n ↦ d.task_info ]

  -- An entry after the first loop.
  abbrev pub refreshed : ℕ → State → RtDeadlineTask → RtDeadlineTask
  refreshed now s d =
      if is_active d then record d { remain = remaining now d; task_info = info_after s d } else d

module _ {P : Platform} where
  inquire_lem :
      (d : RtDeadlineTask) (w : World P)
      → inquire d.task d.task_info w ≡ some (info_after P w.kernel d, w)
  unfolding inquire
  inquire_lem d w = ground arith

  scan_step_lem :
      (now : ℕ) (p : Ptr) (d : RtDeadlineTask) (b : Bounds) (w : World P)
      → w.dtasks p ≡ some d
      → scan_step now p b w
        ≡ some (
          if is_active d then widen (remaining now d) b else b,
          record w { dtasks = update w.dtasks p (some (refreshed P now w.kernel d)) },
        )
  unfolding scan_step store
  scan_step_lem now p d b w e = elim (Bool-cases (is_active d)) [
    | inl active ↦ rw (load_lem p d w e, active, inquire_lem d w)
    | inr idle ↦ rw (load_lem p d w e, idle, update_self w.dtasks p d e)
  ]

  -- The first loop refreshes every entry, and computes the bounds of the active ones.
  pub scan_lem :
      (now : ℕ) (ps : List Ptr) (ds : List RtDeadlineTask) (b : Bounds) (w : World P)
      → Distinct ps
      → Holds w.dtasks ps ds
      → fold_each ps (scan_step now) b w
        ≡ some (
          bounds_of now ds b,
          record w { dtasks = touched (refreshed P now w.kernel) ps w.dtasks },
        )
  unfolding fold_each
  scan_lem now [] [] b w apart h = refl
  scan_lem now [] (d ∷ ds) b w apart h = absurd h
  scan_lem now (p ∷ ps) [] b w apart h = absurd h
  scan_lem now (p ∷ ps) (d ∷ ds) b w apart h =
      let g = refreshed P now w.kernel in
      let w' : World P = record w { dtasks = update w.dtasks p (some (g d)) } in
      let rest = Holds-update w.dtasks p (some (g d)) ps ds apart.0 h.1 in
      rw (
        scan_step_lem now p d b w h.0,
        scan_lem now ps ds (if is_active d then widen (remaining now d) b else b) w' apart.1 rest,
        touched-update g w.dtasks p d ps h.0 apart.0,
      )
