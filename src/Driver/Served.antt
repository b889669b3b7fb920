-- ===== src/Driver/Served.antt =====
-- The operations that the driver dispatches to (edfomai-drv-data.c) never fault on a valid table, and
-- leave a valid table and the blocks of others alone.
pub mod Blocks
use edfomai.Base.{
  ℕ, ◌<◌, ◌≡◌, ◌≢◌, refl, ap, ◌∙◌, true, false, some, List, [], ◌∷◌, ◌++◌, arith, ◌==◌, ℤ, pos,
  negsuc, Ptr, null, Name, Items, lookup, remove, has, length, Bool-cases, Option-cases, inl, inr,
  pointers,
}
use edfomai.Platform.{Platform, TaskInfo, RtTask, filled}
use edfomai.World.{World, RtDeadlineTask, Cmd}
use edfomai.Recalc.{rt_dtask_recalculateprio}
use edfomai.Recalc.Assign.{ShortNames}
use edfomai.Recalc.Refine.{round, recalculateprio-empty, recalculateprio-round}
use edfomai.Dtask.{
  rt_dtask_goingwaitp, rt_dtask_stopwatchdog, rt_dtask_resetdeadline, rt_dtask_setdeadline,
  rt_dtask_delete, rt_dtask_create,
}
use edfomai.Dtask.Valid.{IsValid, owned}
use edfomai.Dtask.Keep.{Same, Same-refl, Same-owned, round-IsValid, lookup-entry}
use edfomai.Dtask.Entry.{Answers, block_of, with_block}
use edfomai.Dtask.Change.{change, changed, changed-Same, change-IsValid, outcome, Keeps}
use edfomai.Dtask.Waiting.{waiting, goingwaitp_lem, stopwatchdog_lem}
use edfomai.Dtask.Restart.{
  from_now, clock_of, clocked, clocked-IsValid, round_after, round_after-IsValid, resetdeadline_lem,
  setdeadline_lem,
}
use edfomai.Dtask.Owned.{without, owned-entry, owned-sub, has-release}
use edfomai.Dtask.Append.{has-append}
use edfomai.Dtask.Drop.{dropped, dropped-IsValid, has-release_block, release_block}
use edfomai.Dtask.Delete.{delete_lem, dropped_at_lem, lookup-pointers}
use edfomai.Dtask.Create.{
  Creatable, created, created_entry, create-new, create-duplicate, alarm_of, with_alarm_block,
}

module _ (P : Platform) where
  open P use {rname, rt_task_inquire, rtdm_malloc}

  -- A kernel that knows its tasks, all of them with short names, and does not run out of memory.
  pub record Steady : Type 0 where
    pub knows : (t : RtTask) (s : P.State) → (i : TaskInfo) × (rt_task_inquire t s ≡ filled i)
    pub room : (live : List Ptr) (s : P.State) → rtdm_malloc live s ≢ null
    pub short : (t : RtTask) → length (rname t) < 24

module _ {P : Platform} where
  open P use {rname, rt_task_inquire, rtdm_malloc}

  -- The operation returns, the table is valid again, and a block in use that no entry owned is still
  -- in use and not owned.
  pub record Served (op : Cmd P ℤ) (w : World P) (xs : Items) (ds : List RtDeadlineTask)
      : Type 0 where
    pub result : ℤ
    pub after : World P
    pub items_after : Items
    pub entries_after : List RtDeadlineTask
    pub runs : op w ≡ some (result, after)
    pub valid : IsValid after items_after entries_after
    pub spares :
        (q : Ptr)
        → has q w.live ≡ true
        → has q (owned xs ds) ≡ false
        → (has q after.live ≡ true) × (has q (owned items_after entries_after) ≡ false)

  pub all_short : Steady P → (ds : List RtDeadlineTask) → ShortNames P ds
  all_short st [] = tt
  all_short st (d ∷ ds) = (st.short d.task, all_short st ds)

  pub answers : Steady P → (t : RtTask) (w : World P) → Answers t w
  answers st t w = record {
    info = (st.knows t w.kernel).0;
    filled_in = (st.knows t w.kernel).1;
    room = st.room w.live w.kernel;
  }

  pub more-IsValid :
      {w : World P} {xs : Items} {ds : List RtDeadlineTask} (q : Ptr)
      → IsValid w xs ds
      → has q w.live ≡ false
      → IsValid (record w { live = q ∷ w.live }) xs ds
  more-IsValid {w} q v fresh = record {
    table = record { listed = v.table.listed; apart = v.table.apart; stored = v.table.stored };
    keys = v.keys;
    named = v.named;
    single = v.single;
    not_null = v.not_null;
    in_use = λ p h. ground (arith, v.in_use p h);
    clean = λ p h. v.clean p (ground arith);
    once = (fresh, v.once);
  }

  pub kernel-IsValid :
      {w : World P} {xs : Items} {ds : List RtDeadlineTask} (s : P.State)
      → IsValid w xs ds
      → IsValid (record w { kernel = s }) xs ds
  kernel-IsValid {w} s v = record {
    table = record { listed = v.table.listed; apart = v.table.apart; stored = v.table.stored };
    keys = v.keys;
    named = v.named;
    single = v.single;
    not_null = v.not_null;
    in_use = v.in_use;
    clean = v.clean;
    once = v.once;
  }

  module _ {w : World P} {xs : Items} {ds : List RtDeadlineTask} (v : IsValid w xs ds)
      (st : Steady P) where
    -- Every entry keeps its blocks, and nothing is allocated or freed.
    pub calm :
        {op : Cmd P ℤ} (r : ℤ) (w' : World P) (es : List RtDeadlineTask)
        → op w ≡ some (r, w')
        → IsValid w' xs es
        → Same ds es
        → w'.live ≡ w.live
        → Served op w xs ds
    calm r w' es runs valid same live = record {
      result = r;
      after = w';
      items_after = xs;
      entries_after = es;
      runs = runs;
      valid = valid;
      spares = λ q u o. (rw live u, rw (Same-owned xs ds es same) o);
    }

    changed_entry_lem :
        (g : RtDeadlineTask → RtDeadlineTask) (p : Ptr)
        → Keeps g
        → (es : List RtDeadlineTask) × IsValid (change g p w) xs es × Same ds es
    changed_entry_lem g p keeps = (
      changed g p (pointers xs) ds,
      change-IsValid g p keeps v,
      changed-Same g p w.dtasks (pointers xs) ds keeps v.table.stored,
    )

    pub recalculateprio-Served : Served rt_dtask_recalculateprio w xs ds
    recalculateprio-Served = go xs ds v
      where
        go :
            (ys : Items) (es : List RtDeadlineTask)
            → IsValid w ys es
            → Served rt_dtask_recalculateprio w ys es
        go [] es u = record {
          result = pos 0;
          after = w;
          items_after = [];
          entries_after = es;
          runs = recalculateprio-empty w u.table.listed;
          valid = u;
          spares = λ q i o. (i, o);
        }
        go (y ∷ ys) es u =
            let (fs, valid, same) = round-IsValid u in
            record {
              result = pos 0;
              after = round w (pointers (y ∷ ys)) es;
              items_after = y ∷ ys;
              entries_after = fs;
              runs = recalculateprio-round w (y ∷ ys) es u.table (all_short st es) (λ e. cc);
              valid = valid;
              spares = λ q i o. (i, rw (Same-owned (y ∷ ys) es fs same) o);
            }

    -- A change of the entry of a task, if there is one, by an operation that returns -1 otherwise.
    outcome-Served :
        {op : Cmd P ℤ} (n : Name) (f : Ptr → World P)
        → op w ≡ some (outcome w (lookup n xs) f)
        → ((p : Ptr) → (es : List RtDeadlineTask) × IsValid (f p) xs es × Same ds es)
        → ((p : Ptr) → (f p).live ≡ w.live)
        → Served op w xs ds
    outcome-Served n f runs left live = elim (Option-cases (lookup n xs)) [
      | inl missing ↦ calm (negsuc 0) w ds (rw missing at runs) v (Same-refl ds) refl
      | inr (p, found) ↦
          let (es, valid, same) = left p in
          calm (pos 0) (f p) es (rw found at runs) valid same (live p)
    ]

    pub goingwaitp-Served : (t : RtTask) → Served (rt_dtask_goingwaitp t) w xs ds
    goingwaitp-Served t =
        outcome-Served (rname t) (λ p. change waiting p w) (goingwaitp_lem v (answers st t w))
          (λ p. changed_entry_lem waiting p λ d. (refl, refl, refl)) (λ p. refl)

    pub stopwatchdog-Served : (t : RtTask) → Served (rt_dtask_stopwatchdog t) w xs ds
    stopwatchdog-Served t =
        outcome-Served (rname t) (λ p. change waiting p w)
          (stopwatchdog_lem v (answers st t w) (λ p d found at_p. answers st d.task (with_block w)))
          (λ p. changed_entry_lem waiting p λ d. (refl, refl, refl)) (λ p. refl)

    pub resetdeadline-Served : (t : RtTask) → Served (rt_dtask_resetdeadline t) w xs ds
    resetdeadline-Served t =
        let g = λ (d : RtDeadlineTask). from_now (clock_of w) d.relative_deadline d in
        outcome-Served (rname t) (round_after g w xs ds)
          (resetdeadline_lem v (answers st t w) (all_short st ds))
          (λ p. round_after-IsValid v g p λ d. (refl, refl, refl)) (λ p. refl)
